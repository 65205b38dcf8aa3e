-- ===== src/Exe/Image.antt =====
-- alc/emit-bin.h: what a backend hands to a writer. A call of an import is its site in the text and
-- the index of the import.
use allang.Base.{ℕ, List}
use allang.Str.{Str}

pub record Extcall : Type 0 where
  pub site : ℕ
  pub imp : ℕ

pub record BinImage : Type 0 where
  pub text : List ℕ
  pub entry : ℕ
  pub imports : List Str
  pub extcalls : List Extcall
