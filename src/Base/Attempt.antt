-- ===== src/Base/Attempt.antt =====
-- Go's pairs of a value and an error, where the error is its text.
use Prim.Native.String.{String}
use mathlib.Core.Path.{◌≡◌, refl}
use mathlib.Core.Logic.{◌≢◌, ◌⊎◌, inl, inr}

-- A value or the text of an error.
pub data Attempt (A : Type 0) : Type 0 where
  done : A → Attempt A
  fails : String → Attempt A

pub Attempt-cases :
    {A : Type 0} (a : Attempt A) → ((error : String) × (a ≡ fails error)) ⊎ ((x : A) × (a ≡ done x))
Attempt-cases (fails error) = inl (error, refl)
Attempt-cases (done x) = inr (x, refl)

pub done_injective : {A : Type 0} {a b : A} → done a ≡ done b → a ≡ b
done_injective e = cc

pub done-ne-fails : {A : Type 0} {a : A} {error : String} → done a ≢ fails error
done-ne-fails e = cc
