-- ===== src/Base/Effect.antt =====
-- A call that may stop the program: `abort` is a call of `abort` or `exit`, `running` a loop that
-- has not ended within the fuel that the model gives it.
use mathlib.Core.Path.{◌≡◌, refl}

pub data Run {ℓ} (A : Type ℓ) : Type ℓ where
  ok : A → Run A
  abort running : Run A

infixl 5 ◌>>=◌
abbrev pub ◌>>=◌ {ℓ κ} : {A : Type ℓ} {B : Type κ} → Run A → (A → Run B) → Run B
abort >>= next = abort
running >>= next = running
ok a >>= next = next a

-- The run ends normally, in a value that satisfies `Post`.
abbrev pub Returns {ℓ κ} : {V : Type ℓ} (run : Run V) (Post : V → Type κ) → Type (ℓ ⊔ κ)
Returns {V} run Post = (v : V) × (run ≡ ok v) × Post v

-- A chain that ends normally came through each of its calls.
pub >>=-eq-ok {ℓ κ} :
    {V : Type ℓ} {W : Type κ} (run : Run V) (next : V → Run W) {w : W}
    → (run >>= next) ≡ ok w
    → (v : V) × (run ≡ ok v) × (next v ≡ ok w)
>>=-eq-ok abort next h = cc
>>=-eq-ok running next h = cc
>>=-eq-ok (ok v) next h = (v, refl, h)

pub ok-injective {ℓ} : {A : Type ℓ} {a b : A} → ok a ≡ ok b → a ≡ b
ok-injective h = cc
