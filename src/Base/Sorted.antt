-- ===== src/Base/Sorted.antt =====
-- `sort.SliceStable`: the list that comes of it is in order.
use mathlib.Core.Bool.{Bool, false}
use mathlib.Core.List.{List, [], ◌∷◌}
use mathlib.Core.Logic.{◌⊎◌, inl, inr}
use mathlib.Core.Path.{◌≡◌}
use os_complete.Base.Lists.{All, All-map}
use os_complete.Base.Sort.{place, sort, IsLess}
use os_complete.Base.Tests.{Bool-cases}

module _ {ℓ κ} {A : Type ℓ} (less : A → A → Bool) (P : A → Type κ) where
  pub place-All : (x : A) (ys : List A) → P x → All P ys → All P (place less x ys)
  unfolding place
  place-All x [] p h = (p, tt)
  place-All x (y ∷ ys) p h = elim (Bool-cases (less y x)) [
    | inl e ↦ rw (e) (h.0, place-All x ys p h.1)
    | inr e ↦ rw (e) (p, h)
  ]

  pub sort-All : (xs : List A) → All P xs → All P (sort less xs)
  unfolding sort
  sort-All [] h = tt
  sort-All (x ∷ xs) h = place-All x (sort less xs) h.0 (sort-All xs h.1)

module _ {ℓ κ} {A : Type ℓ} (less : A → A → Bool) (P : A → Type κ) where
  All-place : (x : A) (ys : List A) → All P (place less x ys) → P x × All P ys
  unfolding place
  All-place x [] h = (h.0, tt)
  All-place x (y ∷ ys) h = elim (Bool-cases (less y x)) [
    | inl e ↦
        let h' : All P (y ∷ place less x ys) = rw (e) at h in
        let (p, k) = All-place x ys h'.1 in (p, (h'.0, k))
    | inr e ↦ rw (e) at h
  ]

  pub All-sort : (xs : List A) → All P (sort less xs) → All P xs
  unfolding sort
  All-sort [] h = tt
  All-sort (x ∷ xs) h = let (p, k) = All-place x (sort less xs) h in (p, All-sort xs k)

-- One of the list.
abbrev pub OneOf : {A : Type 0} → A → List A → Type 0
OneOf a [] = ⊥
OneOf a (x ∷ xs) = (a ≡ x) ⊎ OneOf a xs

module _ {A : Type 0} (less : A → A → Bool) (a : A) where
  OneOf-place : (x : A) (ys : List A) → OneOf a (place less x ys) → (a ≡ x) ⊎ OneOf a ys
  unfolding place
  OneOf-place x [] h = h
  OneOf-place x (y ∷ ys) h = elim (Bool-cases (less y x)) [
    | inl e ↦
        let h' : OneOf a (y ∷ place less x ys) = rw (e) at h in
        elim h' [
          | inl p ↦ inr (inl p)
          | inr q ↦ elim (OneOf-place x ys q) [ inl p ↦ inl p | inr k ↦ inr (inr k) ]
        ]
    | inr e ↦ rw (e) at h
  ]

  pub OneOf-sort : (xs : List A) → OneOf a (sort less xs) → OneOf a xs
  unfolding sort
  OneOf-sort [] h = h
  OneOf-sort (x ∷ xs) h = elim (OneOf-place x (sort less xs) h) [
    | inl p ↦ inl p
    | inr q ↦ inr (OneOf-sort xs q)
  ]

module _ {ℓ} {A : Type ℓ} (less : A → A → Bool) where
  -- No element is less than one before it.
  abbrev pub IsSorted : List A → Type ℓ
  IsSorted [] = Unit
  IsSorted (x ∷ xs) = All (λ y. less y x ≡ false) xs × IsSorted xs

  module _ (order : IsLess less) (irreflexive : (a : A) → less a a ≡ false) where
    place-IsSorted : (x : A) (ys : List A) → IsSorted ys → IsSorted (place less x ys)
    unfolding place
    place-IsSorted x [] h = (tt, tt)
    place-IsSorted x (y ∷ ys) h = elim (Bool-cases (less y x)) [
      | inl e ↦
          let above : less x y ≡ false = elim (Bool-cases (less x y)) [
            | inl back ↦ cc (irreflexive x, order.less_trans x y x back e)
            | inr fine ↦ fine
          ] in
          rw (e) (place-All less (λ z. less z y ≡ false) x ys above h.0, place-IsSorted x ys h.1)
      | inr e ↦ rw (e) ((e, All-map ys (λ z q. order.not_less_trans z y x q e) h.0), h)
    ]

    pub sort-IsSorted : (xs : List A) → IsSorted (sort less xs)
    unfolding sort
    sort-IsSorted [] = tt
    sort-IsSorted (x ∷ xs) = place-IsSorted x (sort less xs) (sort-IsSorted xs)
