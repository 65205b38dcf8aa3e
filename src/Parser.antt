-- ===== src/Parser.antt =====
-- alc/main.c: the tokens of the source, and what the parser asks of types and conditions.
pub mod Source
pub mod Tok
pub mod Consume
pub mod Cond
pub mod Types
pub mod Struct
pub mod Slots
pub mod Diagram
pub mod Literals
