-- ===== src/Cvm/SmallCodec.antt =====
-- internal/cvm/store.go: a small codec that meets `IsLawful`, for the examples.
use Prim.Native.Char.{code}
use text.Mathlib.TextLemmas.{head-eq_of_cons-eq, tail-eq_of_cons-eq, cons≢nil}
use os_complete.Base.{ℕ, suc, zero, ◌≡◌, refl, sym, ap, String, [], ◌∷◌, Option, some, arith}
use os_complete.Cvm.Page.{Bytes, Codec, IsLawful}

-- A number in unary, ended by a `b`.
unfoldable pub unary : ℕ → String → String
unary zero rest = String.◌∷◌ "b" rest
unary (suc n) rest = String.◌∷◌ "a" (unary n rest)

unfoldable pub spell : Bytes → String
unfolding unary
spell [] = ""
spell (n ∷ rest) = unary n (spell rest)

-- Four zeros have a short form.
unfoldable pub shorten : Bytes → Option Bytes
shorten (zero ∷ zero ∷ zero ∷ zero ∷ []) = some (1 ∷ [])
shorten content = some (0 ∷ content)

unfoldable pub restore : Bytes → Option Bytes
restore (zero ∷ content) = some content
restore _ = some (0 ∷ 0 ∷ 0 ∷ 0 ∷ [])

abbrev pub small : Codec
small = record { hash = spell; gzip = shorten; gunzip = restore }

some_injective {ℓ} : {A : Type ℓ} {a b : A} → some a ≡ some b → a ≡ b
some_injective e = cc

restore-shorten :
    (content zipped : Bytes) → shorten content ≡ some zipped → restore zipped ≡ some content
unfolding shorten restore
restore-shorten (zero ∷ zero ∷ zero ∷ zero ∷ []) zipped e = sym (ap restore (some_injective e))
restore-shorten content zipped e = sym (ap restore (some_injective e))

unary_injective : (m n : ℕ) (s t : String) → unary m s ≡ unary n t → (m ≡ n) × (s ≡ t)
unfolding unary
unary_injective zero zero s t e = (refl, tail-eq_of_cons-eq e)
unary_injective zero (suc n) s t e = absurd (omega (arith, ap code (head-eq_of_cons-eq e)))
unary_injective (suc m) zero s t e = absurd (omega (arith, ap code (head-eq_of_cons-eq e)))
unary_injective (suc m) (suc n) s t e =
    let (p, q) = unary_injective m n s t (tail-eq_of_cons-eq e) in (ap suc p, q)

unary-ne-nil : (n : ℕ) (s : String) → ¬ (unary n s ≡ "")
unfolding unary
unary-ne-nil zero s e = cons≢nil e
unary-ne-nil (suc n) s e = cons≢nil e

spell_injective : (a b : Bytes) → spell a ≡ spell b → a ≡ b
unfolding spell
spell_injective [] [] e = refl
spell_injective [] (n ∷ b) e = absurd (unary-ne-nil n (spell b) (sym e))
spell_injective (m ∷ a) [] e = absurd (unary-ne-nil m (spell a) e)
spell_injective (m ∷ a) (n ∷ b) e =
    let (p, q) = unary_injective m n (spell a) (spell b) e in cc (spell_injective a b q)

pub small-IsLawful : IsLawful small
small-IsLawful = record { gunzip-gzip = restore-shorten; hash_injective = spell_injective }
