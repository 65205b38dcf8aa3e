-- ===== src/Typesys/Reg.antt =====
-- alc/typesys.h and alc/types.h: registers, and the conditions of branches.
use allang.Base.{ℕ, Bool, ◌&&◌, none, ◌==◌, ℤ, pos, eqb_ℤ, replicate}
use allang.Typesys.Dtype.{Dtype, dtype_eq, zero_declarator, declarator_max}

-- `enum register_dst`
pub data RegisterDst : Type 0 where
  rd_none ret param scratch nreg stack frame : RegisterDst

abbrev pub kind_no : RegisterDst → ℕ
kind_no rd_none = 0
kind_no ret = 1
kind_no param = 2
kind_no scratch = 3
kind_no nreg = 4
kind_no stack = 5
kind_no frame = 6

-- `reg_t`
pub record Reg : Type 0 where
  pub offset : ℤ
  pub rsize : ℕ
  pub reg_type : RegisterDst
  pub displacement : ℤ
  pub dtype : Dtype

-- A dtype that an initialiser leaves out.
abbrev pub no_dtype : Dtype
no_dtype = record { base = none; decl = replicate declarator_max zero_declarator; decl_len = 0 }

-- `(reg_t){ .reg_type = kind, .offset = offset, .rsize = size }`
abbrev pub plain_reg : RegisterDst → ℕ → ℕ → Reg
plain_reg kind offset size = record {
  offset = pos offset;
  rsize = size;
  reg_type = kind;
  displacement = pos 0;
  dtype = no_dtype;
}

unfoldable pub reg_eq : Reg → Reg → Bool
reg_eq lhs rhs =
    eqb_ℤ lhs.offset rhs.offset
    && (lhs.rsize == rhs.rsize)
    && (kind_no lhs.reg_type == kind_no rhs.reg_type)
    && dtype_eq lhs.dtype rhs.dtype

-- `cond_t`, in the order of its values.
pub data Cond : Type 0 where
  eq ne hs lo mi pl vs vc hi ls ge lt gt le al nv : Cond
