-- ===== src/Lib.antt =====
-- The compiler of al (alc/): what its tables of names, its tokenizer, its derived types and layouts
-- and its AArch64 and x86-64 backends promise, proved of models that follow the C code function by
-- function.
--
-- The parser (alc/main.c) reads a source file, keeps symbols and types in hash maps, the names of
-- each block in a stack of scopes and constants in a map of their own, gives every value a derived
-- type and a register, and calls the emit functions of one backend, which put machine words or
-- bytes into buffers. Modelled are the parts that the parser rests on, from the tables up, and
-- those of its own parts that do not emit code.
--
-- - Str: alc/str.h. A `str` is the list of its bytes; a NULL `data` is a missing key.
-- - Table: the tables. Table.Fnv is the hash; `widen` is the conversion of a `char` to `u64`.
--   Table.Probe is the search loop, with the lemmas that do not depend on the step. Table.Entries
--   has the operations that alc/hashmap.h (Table.Hashmap) and the first half of
--   alc/mini_hashset.h (Table.MiniHashset, and the scopes in Table.Scopes) share;
--   Table.ConstHashmap is the map of constants at the end of alc/mini_hashset.h.
-- - Typesys: alc/typesys.h. Dtype has `dtype_t` and its operations, Dtype.View the list of
--   declarators behind the array, Dtype.Laws the theorems; Reg has `reg_t`, and Agg
--   the members of aggregates.
-- - Aarch64: alc/bin-aarch64.c. Machine is how the architecture reads moves, branches, loads and
--   stores, written from the Arm manual; Words has the words that the backend puts together; Mov
--   is `emit_mov`. Asm is the backend's state, with labels, fixups and the function that is
--   emitted, Asm.Patch the loop of `bin_emit`; Alu, Memory and Element are the emit functions that compute, access memory and
--   reach array elements, Aggregate those that pack an aggregate into a register; Frame is the
--   prologue and epilogue.
-- - X86: alc/bin-x86_64.c. Machine is how the processor reads instructions and what moves do,
--   written from the Intel manual; Encode has the bytes of one instruction (REX, ModRM, SIB,
--   displacement), Alu moves and arithmetic, Asm the backend's state and Asm.Patch the loop of
--   `bin_emit`; Memory, Element and Aggregate are the emit functions on memory, Frame the prologue
--   and epilogue, Frame.Enter how the processor runs through a prologue, CondSet the setting of a register by a condition. The tables of registers of
--   alc/exe-elf-x86_64.c and alc/exe-pe-x86_64.c are instances of one record.
-- - Parser: alc/main.c. Source is the state of the tokenizer, Tok is `tok`, Consume passes over
--   lines and blocks, Cond has the conditions, Types what the parser asks of types, Struct the
--   layout of a struct, Slots the places of objects on the stack, and Literals numbers and
--   characters, for any `strtoll`. Diagram has the boxes of the stack diagram of
--   alc/diagnostics.c.
-- - Exe: the writers of executables. Image is alc/emit-bin.h; Elf is alc/emit_helper-elf-exe.h, with
--   static files in Elf.Static and dynamic ones in Elf.Dynamic, whose parts are placed by Parts and
--   whose hash table is Hash. Machine is what the writer asks of a machine, a record of operations
--   and one of laws; Machine.X86Elf (alc/exe-elf-x86_64.c) and Machine.Aarch64Elf
--   (alc/exe-elf-aarch64.c) fill both. Machine.Target is the choice of one. Pe is alc/emit_helper-pe-exe.h with alc/exe-pe-x86_64.c.
--   Macho is alc/exe-macho.c, with the load commands (Commands), the stubs (Stubs), the chained
--   fixups (Chained), the signature (Signature), and the file (Write). Calls are the patches of the
--   calls of imports, in all formats, and Blocks the loops that put a block for each import. A file
--   is the record of its parts with their offsets; of <elf.h>, <windows.h> and <mach-o/loader.h>,
--   the sizes of the structs and the constants are parameters, and SHA-256 is one.
-- - Containers: alc/arr.h (Arr), alc/dyn.h (Dyn), alc/buffer.h (Buffer), alc/allocator.h
--   (Allocator), where pointers are offsets and allocations of the C library succeed.
-- - Base: the names that all share. `Run` is a call that may abort or, with the fuel given, be
--   running still.
-- - Tests: the theorems at concrete inputs, and runs of the model.
--
-- Of the C library, `print_int` is the `%d` of `snprintf`; `memcpy`, `memcmp` and `strcmp` are
-- written out on lists of bytes. `report_err` counts a report.
--
-- Numbers are naturals with the wrap-around of C written out; signed values are integers. A
-- search has as many rounds of fuel as the table has slots, which is enough for the two tables
-- that step through all their slots (the theorems say that the calls return). The search of the
-- map of constants takes any fuel, since it need not end. `dtype_size` has a round for each
-- declarator, `emit_store_packed` and `emit_zerofill` one for each byte.
-- A loop of the tokenizer has two rounds more than the source has bytes, which is enough since
-- each round passes a byte (`tok` is shown to return); where a string or a comment has no end, the
-- read behind the zero byte after the source aborts the run.
--
-- Not modelled: the parser of expressions, statements and declarations, the other diagnostics, the
-- backends that print assembly text, alc/exe-elf.c (whose emitters do nothing), debug prints, and
-- what reads or writes files.
pub mod Base
pub mod Str
pub mod Table
pub mod Typesys
pub mod X86
pub mod Aarch64
pub mod Parser
pub mod Exe
pub mod Containers
mod Tests
