-- ===== src/Exe/Pe/Laws.antt =====
-- Where the calls of imports and the thunks of a PE file lead.
use allang.Base.{◌≤◌, length}
use allang.Str.{Str}
use allang.Exe.Image.{BinImage}
use allang.Exe.Pe.{PeH, pe_import_names, pe_max_imports, total_file, img_size}

-- What the writer checks, with a text that fits its buffer and the entry point inside the text. A
-- descriptor of <windows.h> is 20 bytes.
pub record Fits (h : PeH) (image : BinImage) : Type 0 where
  pub few : length (pe_import_names image) ≤ pe_max_imports
  pub room : total_file h (pe_import_names image) (length image.text) ≤ img_size
  pub short : length image.text ≤ img_size
  pub inside : image.entry ≤ length image.text
  pub desc : h.size_desc ≤ 0x100
