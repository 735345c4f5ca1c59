-- ===== src/Checkpoint/Latest.antt =====
-- internal/checkpoint/checkpoint.go: `LoadLatest` gives the latest snapshot of a task.
use os_complete.Base.{
  ◌≡◌, ◌≢◌, refl, sym, ap, ◌∙◌, inl, inr, String, List, [], ◌∷◌, none, some, false, dec_str, if_pos,
  if_neg, sort, place, IsLess, IsSorted, sort-IsSorted, sort-All, OneOf, OneOf-sort, All-sort,
  sort-cons, subst, if◌then◌else◌, All, All-map, Bool-cases, ltb_ℤ, ◌⊎◌, true, arith,
}
use Prim.Native.String.{◌++◌ as append}
use os_complete.Base.Attempt.{Attempt, done, fails}
use os_complete.Checkpoint.{
  Snapshot, eq_ℤ, sooner, precedes, sort_snapshots, Listing, missing, unreadable, found, list_task,
  last_of, load_latest,
}

sooner-IsLess : IsLess sooner
unfolding sooner
sooner-IsLess = record {
  less_trans = λ a b c p q. ground arith;
  not_less_trans = λ a b c p q. ground arith;
}

sooner_irreflexive : (a : Snapshot) → sooner a a ≡ false
unfolding sooner
sooner_irreflexive a = ground arith

-- Snapshots of one task are ordered by their numbers alone.
abbrev pub IsOf : String → Snapshot → Type 0
IsOf task_id snapshot = snapshot.task_id ≡ task_id

precedes-IsOf :
    (task_id : String) (a b : Snapshot)
    → IsOf task_id a
    → IsOf task_id b
    → precedes a b ≡ sooner a b
unfolding precedes
precedes-IsOf task_id a b p q = if_pos (dec_str a.task_id b.task_id) (p ∙ sym q) _ _

place-IsOf :
    (task_id : String) (x : Snapshot) (ys : List Snapshot)
    → IsOf task_id x
    → All (IsOf task_id) ys
    → place precedes x ys ≡ place sooner x ys
unfolding place
place-IsOf task_id x [] p h = refl
place-IsOf task_id x (y ∷ ys) p h =
    ap (λ b. if b then y ∷ place precedes x ys else x ∷ y ∷ ys) (precedes-IsOf task_id y x h.0 p)
    ∙ ap (λ zs. if sooner y x then y ∷ zs else x ∷ y ∷ ys) (place-IsOf task_id x ys p h.1)

sort-IsOf :
    (task_id : String) (xs : List Snapshot)
    → All (IsOf task_id) xs
    → sort precedes xs ≡ sort sooner xs
unfolding sort
sort-IsOf task_id [] h = refl
sort-IsOf task_id (x ∷ xs) h =
    ap (place precedes x) (sort-IsOf task_id xs h.1)
    ∙ place-IsOf task_id x (sort sooner xs) h.0 (sort-All sooner (IsOf task_id) xs h.1)

-- Not after: of a smaller sequence number, or of the same one and a time that is not later.
abbrev pub IsUpTo : Snapshot → Snapshot → Type 0
IsUpTo s other =
    (ltb_ℤ other.sequence s.sequence ≡ true)
    ⊎ ((eq_ℤ other.sequence s.sequence ≡ true) × (ltb_ℤ s.created_at other.created_at ≡ false))

-- One of the snapshots, and none of them is after it.
abbrev pub IsLatest : Snapshot → List Snapshot → Type 0
IsLatest s snapshots = OneOf s snapshots × All (IsUpTo s) snapshots

-- The last of a sorted list is one of it, and is sooner than none.
abbrev IsLast : Snapshot → List Snapshot → Type 0
IsLast s snapshots = OneOf s snapshots × All (λ other. sooner s other ≡ false) snapshots

sooner-IsUpTo : (s other : Snapshot) → sooner s other ≡ false → IsUpTo s other
unfolding sooner
sooner-IsUpTo s other e = elim (Bool-cases (eq_ℤ other.sequence s.sequence)) [
  | inl same ↦ inr (same, ground arith)
  | inr differ ↦ inl (ground arith)
]

All-OneOf :
    (P : Snapshot → Type 0) (s : Snapshot) (xs : List Snapshot) → OneOf s xs → All P xs → P s
All-OneOf P s [] m h = absurd m
All-OneOf P s (x ∷ xs) (inl e) h = subst P (sym e) h.0
All-OneOf P s (x ∷ xs) (inr m) h = All-OneOf P s xs m h.1

last_of-IsSorted :
    (x : Snapshot) (xs : List Snapshot)
    → IsSorted sooner (x ∷ xs)
    → (s : Snapshot) × (last_of (x ∷ xs) ≡ some s) × IsLast s (x ∷ xs)
unfolding last_of
last_of-IsSorted x [] h = (x, refl, (inl refl, (sooner_irreflexive x, tt)))
last_of-IsSorted x (y ∷ ys) h =
    let (s, e, (m, later)) = last_of-IsSorted y ys h.1 in
    (s, e, (inr m, (All-OneOf (λ z. sooner z x ≡ false) s (y ∷ ys) m h.0, later)))

sort-ne-nil : (x : Snapshot) (xs : List Snapshot) → sort sooner (x ∷ xs) ≢ []
sort-ne-nil x xs e = let (a, rest, p) = sort-cons sooner x xs in cc

last_of-sort :
    (x : Snapshot) (xs sorted : List Snapshot)
    → sort sooner (x ∷ xs) ≡ sorted
    → (s : Snapshot) × (last_of sorted ≡ some s) × IsLatest s (x ∷ xs)
last_of-sort x xs [] e = absurd (sort-ne-nil x xs e)
last_of-sort x xs (y ∷ ys) e =
    let in_order =
      subst (IsSorted sooner) e (sort-IsSorted sooner sooner-IsLess sooner_irreflexive (x ∷ xs)) in
    let (s, found_it, (m, later)) = last_of-IsSorted y ys in_order in
    (
      s,
      found_it,
      (
        OneOf-sort sooner s (x ∷ xs) (subst (OneOf s) (sym e) m),
        All-map (x ∷ xs) (sooner-IsUpTo s) (
            All-sort sooner (λ other. sooner s other ≡ false) (x ∷ xs)
              (subst (All (λ other. sooner s other ≡ false)) (sym e) later)),
      ),
    )

-- What `LoadLatest` may come to.
abbrev pub Loads : (String → String) → String → Listing → Attempt Snapshot → Type 0
Loads quoted task_id missing r = r ≡ fails (append "no checkpoint for task " (quoted task_id))
Loads quoted task_id (unreadable error) r = r ≡ fails error
Loads quoted task_id (found []) r = r ≡ fails (append "no checkpoint for task " (quoted task_id))
Loads quoted task_id (found (x ∷ xs)) r = (s : Snapshot) × (r ≡ done s) × IsLatest s (x ∷ xs)

-- The listing has only snapshots of the task.
abbrev pub IsListingOf : String → Listing → Type 0
IsListingOf task_id missing = Unit
IsListingOf task_id (unreadable error) = Unit
IsListingOf task_id (found snapshots) = All (IsOf task_id) snapshots

-- For a task id that is not empty, and when the files of the task's directory are all its own, LoadLatest
-- returns a snapshot that was found and that none of the others found comes after: none has a greater
-- sequence number, nor the same one and a later time. It fails if there is none, and passes on the error
-- of an unreadable file.
pub load_latest-Loads :
    (quoted : String → String) (task_id : String) (listing : Listing)
    → task_id ≢ ""
    → IsListingOf task_id listing
    → Loads quoted task_id listing (load_latest quoted task_id listing)
unfolding load_latest list_task sort_snapshots sort
load_latest-Loads quoted task_id missing named own = if_neg (dec_str task_id "") named _ _
load_latest-Loads quoted task_id (unreadable error) named own =
    if_neg (dec_str task_id "") named _ _
load_latest-Loads quoted task_id (found []) named own = if_neg (dec_str task_id "") named _ _
load_latest-Loads quoted task_id (found (x ∷ xs)) named own =
    let (s, e, latest) = last_of-sort x xs _ (sym (sort-IsOf task_id (x ∷ xs) own)) in
    (
      s,
      if_neg (dec_str task_id "") named _ _
          ∙ ap
              (λ o. elim o [
                | none ↦ fails (append "no checkpoint for task " (quoted task_id))
                | some t ↦ done t
              ])
              e,
      latest,
    )
