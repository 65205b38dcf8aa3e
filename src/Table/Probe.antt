-- ===== src/Table/Probe.antt =====
-- The search loop of the three tables:
--   while (valid(keys[index])) { if (str_eq(keys[index], id)) break;
--     index = next(index); if (index == start) abort(); }
-- A slot's key is `none` where its `data` pointer is NULL. The loop runs on fuel.
mod Slots
pub mod Cyclic
unfoldable pub use Slots.*
