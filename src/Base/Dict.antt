-- ===== src/Base/Dict.antt =====
-- Go's maps as association lists: `m[k] = v` and `delete(m, k)`, with the library's `lookup` for
-- `v, ok := m[k]`. The order of the list is the order in which a `range` visits the map.
use mathlib.Core.List.{List, [], ◌∷◌, lookup}
use mathlib.Core.Logic.{ite}
use mathlib.Core.Option.{Option, none, some}
use mathlib.Core.Path.{◌≡◌, refl}
use native.Mathlib.Omega.{arith}

module _ {ℓ} {K V : Type ℓ} (dec : Discrete K) where
  unfoldable pub insert : K → V → List (K × V) → List (K × V)
  insert k v [] = (k, v) ∷ []
  insert k v ((j, w) ∷ m) = ite (dec k j) ((k, v) ∷ m) ((j, w) ∷ insert k v m)

  unfoldable pub delete : K → List (K × V) → List (K × V)
  delete k [] = []
  delete k ((j, w) ∷ m) = ite (dec k j) (delete k m) ((j, w) ∷ delete k m)

  -- `m[k]` of a missing key is the zero value.
  unfoldable pub lookup_or : V → K → List (K × V) → V
  lookup_or d k m = elim (lookup dec k m) [ none ↦ d | some v ↦ v ]

  pub lookup-insert :
      (k j : K) (v : V) (m : List (K × V))
      → lookup dec j (insert k v m) ≡ ite (dec j k) (some v) (lookup dec j m)
  unfolding lookup insert
  lookup-insert k j v [] = refl
  lookup-insert k j v ((i, w) ∷ m) = ground (arith, lookup-insert k j v m)

  pub lookup-delete :
      (k j : K) (m : List (K × V)) → lookup dec j (delete k m) ≡ ite (dec j k) none (lookup dec j m)
  unfolding lookup delete
  lookup-delete k j [] = ground arith
  lookup-delete k j ((i, w) ∷ m) = ground (arith, lookup-delete k j m)

  -- No key occurs twice.
  abbrev pub Distinct : List (K × V) → Type ℓ
  Distinct [] = Unit
  Distinct ((k, v) ∷ m) = (lookup dec k m ≡ none) × Distinct m

  pub insert-Distinct : (k : K) (v : V) (m : List (K × V)) → Distinct m → Distinct (insert k v m)
  unfolding insert lookup
  insert-Distinct k v [] h = (refl, tt)
  insert-Distinct k v ((j, w) ∷ m) h =
      ground (arith, insert-Distinct k v m h.1, lookup-insert k j v m)

  pub delete-Distinct : (k : K) (m : List (K × V)) → Distinct m → Distinct (delete k m)
  unfolding delete
  delete-Distinct k [] h = tt
  delete-Distinct k ((j, w) ∷ m) h = ground (arith, delete-Distinct k m h.1, lookup-delete k j m)

-- Every entry satisfies `P`.
abbrev pub Each {ℓ κ} : {K V : Type ℓ} → (K → V → Type κ) → List (K × V) → Type κ
Each P [] = Unit
Each P ((k, v) ∷ m) = P k v × Each P m

module _ {ℓ κ} {K V : Type ℓ} (dec : Discrete K) (P : K → V → Type κ) where
  pub insert-Each :
      (k : K) (v : V) (m : List (K × V)) → P k v → Each P m → Each P (insert dec k v m)
  unfolding insert
  insert-Each k v [] p h = (p, tt)
  insert-Each k v ((j, w) ∷ m) p h = ground (arith, insert-Each k v m p h.1)

  pub delete-Each : (k : K) (m : List (K × V)) → Each P m → Each P (delete dec k m)
  unfolding delete
  delete-Each k [] h = tt
  delete-Each k ((j, w) ∷ m) h = ground (arith, delete-Each k m h.1)

  pub lookup-Each : (k : K) (v : V) (m : List (K × V)) → Each P m → lookup dec k m ≡ some v → P k v
  unfolding lookup
  lookup-Each k v [] h e = absurd (ground arith)
  lookup-Each k v ((j, w) ∷ m) h e = elim (dec k j) [
    | yes p ↦ let q : w ≡ v = ground arith in rw (p, ← q) h.0
    | no p ↦ lookup-Each k v m h.1 (ground arith)
  ]

module _ {ℓ κ} {K V : Type ℓ} (dec : Discrete K) where
  pub lookup_or-Each :
      (d : V) (k : K) (m : List (K × V)) (Q : V → Type κ)
      → Q d
      → Each (λ _ v. Q v) m
      → Q (lookup_or dec d k m)
  unfolding lookup_or lookup
  lookup_or-Each d k [] Q q h = q
  lookup_or-Each d k ((j, w) ∷ m) Q q h =
      elim (dec k j)
        as (λ b.
          Q (elim (ite {C = Option V} b (some w) (lookup dec k m)) [ none ↦ d | some v ↦ v ])) [
            | yes p ↦ h.0
            | no p ↦ lookup_or-Each d k m Q q h.1
          ]
