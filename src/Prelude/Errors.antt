-- ===== src/Prelude/Errors.antt =====
-- What a call returns or raises.
use Prim.Native.String.{String}
use mathlib.Core.List.{List, [], ◌∷◌}

-- The exceptions that the modelled code raises by itself, and any other, with its text.
pub data Error : Type 0 where
  key_error index_error value_error : Error
  other : String → Error

pub data Result {ℓ} (A : Type ℓ) : Type ℓ where
  ok : A → Result A
  raise : Error → Result A

infixl 5 ◌>>=◌
abbrev pub ◌>>=◌ {ℓ κ} : {A : Type ℓ} {B : Type κ} → Result A → (A → Result B) → Result B
ok a >>= f = f a
raise e >>= f = raise e

-- `xs[0]`
abbrev pub first {ℓ} : {A : Type ℓ} → List A → Result A
first [] = raise index_error
first (x ∷ xs) = ok x
