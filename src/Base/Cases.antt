-- ===== src/Base/Cases.antt =====
-- To show something of the outcome of a branch, show it of every case.
use mathlib.Core.Bool.{Bool, true, false}
use mathlib.Core.Logic.{ite}
use mathlib.Core.Option.{Option, none, some}
use mathlib.Core.Path.{◌≡◌, refl}
use os_complete.Base.Tests.{if◌then◌else◌}

module _ {κ} {B : Type 0} (P : B → Type κ) where
  pub split_ite {ℓ} : {A : Type ℓ} (d : Dec A) {x y : B} → (A → P x) → (¬ A → P y) → P (ite d x y)
  split_ite (yes a) p q = p a
  split_ite (no n) p q = q n

  pub split_Bool :
      (b : Bool) {x y : B}
      → (b ≡ false → P x)
      → (b ≡ true → P y)
      → P (elim b [ false ↦ x | true ↦ y ])
  split_Bool false p q = p refl
  split_Bool true p q = q refl

  pub split_if :
      (b : Bool) {x y : B} → (b ≡ true → P x) → (b ≡ false → P y) → P (if b then x else y)
  split_if false p q = q refl
  split_if true p q = p refl

module _ {κ} {A B : Type 0} (P : B → Type κ) where
  pub split_Option :
      (o : Option A) {x : B} {f : A → B}
      → (o ≡ none → P x)
      → ((a : A) → o ≡ some a → P (f a))
      → P (elim o [ none ↦ x | some a ↦ f a ])
  split_Option none p q = p refl
  split_Option (some a) p q = q a refl
