-- ===== src/Table.antt =====
-- The open-addressing tables of the compiler. `Probe` is the search loop that they share, over the
-- step from one slot to the next; `Hashmap` is alc/hashmap.h, `MiniHashset`, `ConstHashmap` and
-- `Scopes` are alc/mini_hashset.h. The diagnostics that they print are not modelled.
pub mod Fnv
pub mod Probe
pub mod Entries
pub mod Hashmap
pub mod MiniHashset
pub mod Scopes
pub mod ConstHashmap
