-- ===== src/Containers.antt =====
-- The containers of alc/: arr.h, dyn.h, buffer.h and allocator.h.
pub mod Arr
pub mod Dyn
pub mod Buffer
pub mod Allocator
