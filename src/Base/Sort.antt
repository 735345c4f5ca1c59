-- ===== src/Base/Sort.antt =====
-- `sort.SliceStable` as a stable insertion sort, and what its first element is.
use mathlib.Core.Bool.{Bool, true, false}
use mathlib.Core.List.{List, [], ◌∷◌, ◌++◌, Perm, append-nil, append_assoc}
use mathlib.Core.List.Perm
use mathlib.Core.Logic.{inl, inr}
use mathlib.Core.Path.{◌≡◌, refl, ap}
use native.Mathlib.Omega.{arith}
use os_complete.Base.Lists.{All, All-map, All-append}
use os_complete.Base.Tests.{if◌then◌else◌, Bool-cases}

module _ {ℓ} {A : Type ℓ} (less : A → A → Bool) where
  -- `x` stood before all of the list: it stays behind those that are less only.
  unfoldable pub place : A → List A → List A
  place x [] = x ∷ []
  place x (y ∷ ys) = if less y x then y ∷ place x ys else x ∷ y ∷ ys

  unfoldable pub sort : List A → List A
  unfolding place
  sort [] = []
  sort (x ∷ xs) = place x (sort xs)

  place-perm : (x : A) (ys : List A) → Perm (place x ys) (x ∷ ys)
  unfolding place
  place-perm x [] = Perm.refl (x ∷ [])
  place-perm x (y ∷ ys) = elim (Bool-cases (less y x)) [
    | inl e ↦ rw (e) (Perm.trans (Perm.cons y (place-perm x ys)) (Perm.swap x y ys))
    | inr e ↦ rw (e) (Perm.refl (x ∷ y ∷ ys))
  ]

  pub sort-perm : (xs : List A) → Perm (sort xs) xs
  unfolding sort
  sort-perm [] = Perm.refl []
  sort-perm (x ∷ xs) = Perm.trans (place-perm x (sort xs)) (Perm.cons x (sort-perm xs))

  -- `a` is the first of the least elements of `xs`.
  pub record IsFirstLeast (a : A) (xs : List A) : Type ℓ where
    pub before : List A
    pub after : List A
    pub split : xs ≡ before ++ a ∷ after
    pub greater : All (λ y. less a y ≡ true) before
    pub not_less : All (λ y. less y a ≡ false) after

  -- What makes `less` fit for a sort: the comparison of Go's `sort` package.
  pub record IsLess : Type ℓ where
    pub less_trans : (a b c : A) → less a b ≡ true → less b c ≡ true → less a c ≡ true
    pub not_less_trans : (a b c : A) → less a b ≡ false → less b c ≡ false → less a c ≡ false

  -- What `not_less_trans` and `less_trans` say of an element below `y`, if `y` is not below `x`.
  not_less_above : IsLess → (x y z : A) → less y z ≡ true → less y x ≡ false → less z x ≡ false
  not_less_above o x y z p q = elim (Bool-cases (less z x)) [
    | inl e ↦ cc (o.less_trans y z x p e)
    | inr e ↦ e
  ]

  place-IsFirstLeast :
      IsLess
      → (x : A) (xs sorted : List A) → ((y : A) (ys : List A) → sorted ≡ y ∷ ys → IsFirstLeast y xs)
      → (sorted ≡ [] → xs ≡ [])
      → (a : A) (rest : List A) → place x sorted ≡ a ∷ rest
      → IsFirstLeast a (x ∷ xs)
  unfolding place
  place-IsFirstLeast o x xs [] ih nil a rest e = record {
    before = [];
    after = [];
    split = ground (arith, nil refl);
    greater = tt;
    not_less = tt;
  }
  place-IsFirstLeast o x xs (y ∷ ys) ih nil a rest e = elim (Bool-cases (less y x)) [
    | inl t ↦
        let p : y ≡ a = ground arith in
        rw (← p) (record {
          before = x ∷ f.before;
          after = f.after;
          split = ap (◌∷◌ x) f.split;
          greater = (t, f.greater);
          not_less = f.not_less;
        })
    | inr t ↦
        let p : x ≡ a = ground arith in
        rw (← p) (record {
          before = [];
          after = xs;
          split = refl;
          greater = tt;
          not_less = rw f.split (
              All-append _ f.before (y ∷ f.after)
                (All-map f.before (λ z h. not_less_above o x y z h t) f.greater)
                (t, All-map f.after (λ z h. o.not_less_trans z y x h t) f.not_less));
        })
  ]
    where
      f : IsFirstLeast y xs
      f = ih y ys refl

  place-ne-nil : (x : A) (ys : List A) → ¬ (place x ys ≡ [])
  unfolding place
  place-ne-nil x [] e = cc
  place-ne-nil x (y ∷ ys) e = ground arith

  -- The first element of the sorted list is the first of the least elements.
  pub sort-IsFirstLeast :
      IsLess → (xs : List A) (a : A) (rest : List A) → sort xs ≡ a ∷ rest → IsFirstLeast a xs
  unfolding sort
  sort-IsFirstLeast o [] a rest e = absurd (cc)
  sort-IsFirstLeast o (x ∷ xs) a rest e =
      place-IsFirstLeast o x xs (sort xs) (sort-IsFirstLeast o xs) (nil xs) a rest e
    where
      nil : (ys : List A) → sort ys ≡ [] → ys ≡ []
      nil [] h = refl
      nil (y ∷ ys) h = absurd (place-ne-nil y (sort ys) h)

  -- A list with an element sorts to a list with one.
  pub sort-cons : (x : A) (xs : List A) → (a : A) × (rest : List A) × (sort (x ∷ xs) ≡ a ∷ rest)
  unfolding sort place
  sort-cons x xs = elim (sort xs) as (λ l. (a : A) × (rest : List A) × (place x l ≡ a ∷ rest)) [
    | [] ↦ (x, [], refl)
    | y ∷ ys ↦ elim (Bool-cases (less y x)) [
      | inl e ↦ (y, place x ys, rw e)
      | inr e ↦ (x, y ∷ ys, rw e)
    ]
  ]

  -- A scan that keeps the first of the least elements so far.
  unfoldable pub pick : A → List A → A
  pick best [] = best
  pick best (x ∷ xs) = pick (if less x best then x else best) xs

  less_of_below : IsLess → (x y z : A) → less x y ≡ true → less z y ≡ false → less x z ≡ true
  less_of_below o x y z p q = elim (Bool-cases (less x z)) [
    | inl e ↦ e
    | inr e ↦ cc (o.not_less_trans x z y e q)
  ]

  pick_lem :
      IsLess
      → (before : List A) (best : A) (after xs : List A) → All (λ y. less best y ≡ true) before
      → All (λ y. less y best ≡ false) after
      → IsFirstLeast (pick best xs) (before ++ best ∷ (after ++ xs))
  unfolding pick
  pick_lem o before best after [] h k = record {
    before = before;
    after = after;
    split = rw append-nil;
    greater = h;
    not_less = k;
  }
  pick_lem o before best after (x ∷ xs) h k = elim (Bool-cases (less x best)) [
    | inl e ↦
        rw (e, ← append_assoc before (best ∷ after) (x ∷ xs))
          (pick_lem o (before ++ best ∷ after) x [] xs
            (All-append _ before (best ∷ after)
              (All-map before (λ y p. o.less_trans x best y e p) h)
              (e, All-map after (λ y p. less_of_below o x best y e p) k))
            tt)
    | inr e ↦
        rw (e, ← append_assoc after (x ∷ []) xs)
          (pick_lem o before best (after ++ x ∷ []) xs h (All-append _ after (x ∷ []) k (e, tt)))
  ]

  pub pick-IsFirstLeast :
      IsLess → (best : A) (xs : List A) → IsFirstLeast (pick best xs) (best ∷ xs)
  pick-IsFirstLeast o best xs = pick_lem o [] best [] xs tt tt
