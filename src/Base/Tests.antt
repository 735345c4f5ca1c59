-- ===== src/Base/Tests.antt =====
-- Boolean tests on the native numbers, equality of texts as a decision, and case splits that keep
-- the equation.
use Prim.Native.Nat.{ℕ, ◌<◌, compare, Ordering}
use Prim.Native.String.{String}
use mathlib.Core.Bool.{Bool, true, false}
use mathlib.Core.Logic.{◌⊎◌, inl, inr}
use mathlib.Core.Option.{Option, none, some}
use mathlib.Core.Path.{◌≡◌, refl}
use native.Mathlib.Omega.{arith}
use text.Mathlib.Text.{◌==◌ as str_eq}
use text.Mathlib.TextEquality.{eq_iff}

abbrev pub ltb : ℕ → ℕ → Bool
ltb a b = elim (compare a b) [ Ordering.lt ↦ true | _ ↦ false ]

abbrev pub leb : ℕ → ℕ → Bool
leb a b = elim (compare a b) [ Ordering.gt ↦ false | _ ↦ true ]

infix 50 ◌==◌
abbrev pub ◌==◌ : ℕ → ℕ → Bool
a == b = elim (compare a b) [ Ordering.eq ↦ true | _ ↦ false ]

infix 1 if◌then◌else◌
abbrev pub if◌then◌else◌ {ℓ} : {A : Type ℓ} → Bool → A → A → A
if true then x else y = x
if false then x else y = y

pub ltb→lt : (a b : ℕ) → ltb a b ≡ true → a < b
ltb→lt a b h = ground arith

pub Bool-cases : (b : Bool) → (b ≡ true) ⊎ (b ≡ false)
Bool-cases true = inl refl
Bool-cases false = inr refl

pub Option-cases {ℓ} : {A : Type ℓ} (o : Option A) → (o ≡ none) ⊎ ((a : A) × (o ≡ some a))
Option-cases none = inl refl
Option-cases (some a) = inr (a, refl)

pub Dec-cases {ℓ} : {P : Type ℓ} (d : Dec P) → ((p : P) × (d ≡ yes p)) ⊎ ((q : ¬ P) × (d ≡ no q))
Dec-cases (yes p) = inl (p, refl)
Dec-cases (no q) = inr (q, refl)

-- Two texts are equal or they are not: the `==` of Go's strings.
ne_of_str_eq : (s t : String) → str_eq s t ≡ false → ¬ (s ≡ t)
ne_of_str_eq s t e p = ground (arith, eq_iff s t)

decide_eq : (s t : String) (b : Bool) → str_eq s t ≡ b → Dec (s ≡ t)
decide_eq s t true e = yes ((eq_iff s t).0 e)
decide_eq s t false e = no (ne_of_str_eq s t e)

unfoldable pub dec_str : Discrete String
unfolding decide_eq ne_of_str_eq
dec_str s t = decide_eq s t (str_eq s t) refl
