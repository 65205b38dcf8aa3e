-- ===== src/Typesys.antt =====
-- alc/typesys.h: types, derived types and registers.
pub mod Dtype
pub mod Reg
pub mod Agg
pub mod Exponent
