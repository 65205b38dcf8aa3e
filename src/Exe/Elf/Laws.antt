-- ===== src/Exe/Elf/Laws.antt =====
-- What a dynamic ELF file holds: where its parts lie.
pub mod Plt
pub mod Calls
use allang.Base.{
  ℕ, zero, suc, ◌+◌, ◌-◌, ◌*◌, ◌%◌, ◌^◌, ◌<◌, ◌≤◌, ◌≡◌, refl, arith, Bool, true, ◌&&◌, Option, none,
  List, [], ◌∷◌, ◌++◌, length, get_or,
}
use allang.Exe.Image.{BinImage}
use allang.Exe.Parts.{Part, place_parts, parts_end}
use allang.Exe.Parts.Laws.{Placed, parts_room, all_part_aligned, place_parts-Placed}
use allang.Str.{Str}
use allang.Exe.Machine.{ElfMachine}
use allang.Exe.Elf.{ElfH, img_size}
use allang.Exe.Elf.Dynamic.{
  DynamicFile, fill_file, build_dynstr, import_names, dynamic_parts, parts_start, Rela,
}

abbrev pub file_parts : ElfH → ElfMachine → BinImage → List Part
file_parts h m image =
    dynamic_parts h m (length (import_names image)) (length (build_dynstr (import_names image)))
      (length image.text)

-- The file that is written where everything fits.
abbrev pub dynamic_file : ElfH → ElfMachine → BinImage → DynamicFile
dynamic_file h m image =
    fill_file h m image (place_parts (parts_start h m) (file_parts h m image))
      (parts_end (parts_start h m) (file_parts h m image))

-- Names that fit their tables, and parts that fit the file with all that alignment may add.
pub record Fits (h : ElfH) (m : ElfMachine) (image : BinImage) : Type 0 where
  pub few : length (import_names image) ≤ 62
  pub short : length (build_dynstr (import_names image)) ≤ 0x2000
  pub room : parts_start h m + parts_room (file_parts h m image) ≤ img_size

-- Parts that are placed at offsets, one by one.
abbrev pub no_part : Part
no_part = record { align = 1; size = 0 }

Placed-low : (low high : ℕ) (ps : List Part) (os : List ℕ) → Placed low ps os high → low ≤ high
unfolding Placed
Placed-low low high [] [] placed = placed
Placed-low low high [] (o ∷ os) placed = absurd placed
Placed-low low high (p ∷ ps) [] placed = absurd placed
Placed-low low high (p ∷ ps) (o ∷ os) (above, multiple, rest) =
    omega (arith, above, Placed-low (o + p.size) high ps os rest)

pub Placed-at :
    (low high : ℕ) (ps : List Part) (os : List ℕ) (i : ℕ)
    → Placed low ps os high
    → i < length ps
    → (get_or os i 0 % (get_or ps i no_part).align ≡ 0)
      × (low ≤ get_or os i 0)
      × (get_or os i 0 + (get_or ps i no_part).size ≤ high)
unfolding Placed
Placed-at low high [] [] i placed h = absurd (omega arith)
Placed-at low high [] (o ∷ os) i placed h = absurd placed
Placed-at low high (p ∷ ps) [] i placed h = absurd placed
Placed-at low high (p ∷ ps) (o ∷ os) zero (above, multiple, rest) h =
    (multiple, above, Placed-low (o + p.size) high ps os rest)
Placed-at low high (p ∷ ps) (o ∷ os) (suc i) (above, multiple, rest) h =
    let (a, b, c) = Placed-at (o + p.size) high ps os i rest (omega arith) in
    (a, omega (arith, above, b), c)

-- The parts lie in the file.
pub file_parts-Placed :
    (h : ElfH) (m : ElfMachine) (image : BinImage)
    → Fits h m image
    → let f = dynamic_file h m image in
      Placed (parts_start h m) (file_parts h m image) f.offs f.total_size
      × (f.total_size ≤ img_size)
unfolding fill_file
file_parts-Placed h m image fits =
    let (placed, low) =
      place_parts-Placed (parts_start h m) (file_parts h m image) (unfold all_part_aligned in refl)
        (omega (arith, fits.room)) in
    (placed, omega (arith, low, fits.room))

pub suc_mul : (n k : ℕ) → suc n * k ≡ k + n * k
suc_mul n k = ground arith
