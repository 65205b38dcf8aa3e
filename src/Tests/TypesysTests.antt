-- ===== src/Tests/TypesysTests.antt =====
-- Dtypes: an array of three pointers, and the same under a check.
use allang.Base.{◌≡◌, ◌↔◌, refl, true, some, [], ◌∷◌, arith, replicate, pos}
use allang.Typesys.Dtype.{
  TypeT, fund, Declarator, Dtype, array, check, zero_declarator, dtype_wrap, dtype_unwrap, dtype_eq,
  dtype_check, dtype_size, base_eq,
}
use allang.Typesys.Dtype.View.{view, IsDtype}
use allang.Typesys.Dtype.Laws.{dtype_unwrap-dtype_wrap}
use allang.Typesys.Dtype.Laws.Compare.{Same, Accepts, dtype_eq_iff, dtype_check_iff}
use allang.Typesys.Dtype.Laws.Size.{size_of, dtype_size-size_of}

abbrev i32 : TypeT
i32 = record { addr = 64; size = 4; align = 4; tag = fund; sign = true; name = b'i' ∷ [] }

abbrev three : Declarator
three = record { tag = array; amount = pos 3 }

abbrev one_check : Declarator
one_check = record { tag = check; amount = pos 1 }

abbrev array_of_i32 : Dtype
array_of_i32 = record { base = some i32; decl = three ∷ replicate 7 zero_declarator; decl_len = 1 }

abbrev checked_array : Dtype
checked_array = record {
  base = some i32;
  decl = one_check ∷ three ∷ replicate 6 zero_declarator;
  decl_len = 2;
}

array_of_i32-IsDtype : IsDtype array_of_i32
array_of_i32-IsDtype = record { places = refl; few = omega arith }

checked_array-IsDtype : IsDtype checked_array
checked_array-IsDtype = record { places = refl; few = omega arith }

dtype_check_iff_example :
    (dtype_check array_of_i32 checked_array ≡ true)
    ↔ (Accepts (three ∷ []) (one_check ∷ three ∷ []) × (base_eq (some i32) (some i32) ≡ true))
dtype_check_iff_example =
    dtype_check_iff array_of_i32 checked_array array_of_i32-IsDtype checked_array-IsDtype

dtype_eq_iff_example :
    (dtype_eq array_of_i32 checked_array ≡ true)
    ↔ (Same (three ∷ []) (one_check ∷ three ∷ []) × (base_eq (some i32) (some i32) ≡ true))
dtype_eq_iff_example =
    dtype_eq_iff array_of_i32 checked_array array_of_i32-IsDtype checked_array-IsDtype

same_array : dtype_eq checked_array checked_array ≡ true
unfolding dtype_eq
same_array = refl

dtype_size-size_of_example : dtype_size checked_array ≡ size_of (some i32) (one_check ∷ three ∷ [])
dtype_size-size_of_example = dtype_size-size_of checked_array checked_array-IsDtype

dtype_unwrap-dtype_wrap_example :
    let back = dtype_unwrap (dtype_wrap array_of_i32 one_check) in
    (view back.0 ≡ three ∷ []) × (back.1 ≡ one_check) × (back.0.base ≡ some i32)
dtype_unwrap-dtype_wrap_example =
    dtype_unwrap-dtype_wrap array_of_i32 one_check array_of_i32-IsDtype (omega arith)
