-- ===== src/Gateway/Confine.antt =====
-- internal/syscall/gateway.go: `confinedPath` lets no directory pass that is not in the workspace.
use os_complete.Base.{
  ◌≡◌, ◌≢◌, refl, sym, ap, ◌∙◌, subst, ◌⊎◌, inl, inr, String, List, [], ◌∷◌, ◌++◌, true, false,
  dec_str, All, All-append, if◌then◌else◌, if_pos, if_neg, Bool-cases,
}
use os_complete.Base.Attempt.{Attempt-cases, done_injective}
use mathlib.Core.List.{append-nil}
use Prim.Native.String.{◌++◌ as append}
use os_complete.Gateway.Cases.{split_ite, split_Bool, split_Attempt}
use os_complete.Gateway.Paths.{
  Attempt, done, fails, splits, parent, enter, walk, join, is_abs, absolute, ups, rel, escapes,
  confined_names, rendered, render, confined_path,
}

-- A name that `Clean` leaves in a path.
abbrev pub IsProper : String → Type 0
IsProper name = (name ≢ "") × (name ≢ ".") × (name ≢ "..")

-- Not below the base.
abbrev pub IsOutside : List String → List String → Type 0
IsOutside base target = (rest : List String) → target ≢ base ++ rest

parent-IsProper : (names : List String) → All IsProper names → All IsProper (parent names)
unfolding parent
parent-IsProper [] h = tt
parent-IsProper (name ∷ []) h = tt
parent-IsProper (name ∷ next ∷ rest) h = (h.0, parent-IsProper (next ∷ rest) h.1)

enter-IsProper :
    (names : List String) (name : String) → All IsProper names → All IsProper (enter names name)
unfolding enter
enter-IsProper names name h =
    split_ite (All IsProper) (dec_str name "") (λ _. h)
      (λ filled.
        split_ite (All IsProper) (dec_str name ".") (λ _. h)
          (λ moves.
            split_ite (All IsProper) (dec_str name "..") (λ _. parent-IsProper names h)
              (λ down. All-append IsProper names (name ∷ []) h ((filled, moves, down), tt))))

walk-IsProper : (names path : List String) → All IsProper names → All IsProper (walk names path)
unfolding walk
walk-IsProper names [] h = h
walk-IsProper names (name ∷ rest) h =
    walk-IsProper (enter names name) rest (enter-IsProper names name h)

pub join-IsProper :
    (names : List String) (path : String) → All IsProper names → All IsProper (join names path)
unfolding join
join-IsProper names path h = walk-IsProper names (splits path) h

escapes-proper : (rest : List String) → All IsProper rest → escapes rest ≡ false
unfolding escapes
escapes-proper [] h = refl
escapes-proper (name ∷ rest) h = if_neg (dec_str name "..") h.0.2 _ _

escapes-ups : (name : String) (base rest : List String) → escapes (ups (name ∷ base) ++ rest) ≡ true
unfolding escapes ups
escapes-ups name base rest = if_pos (dec_str ".." "..") refl _ _

head_of : {x y : String} {xs ys : List String} → x ∷ xs ≡ y ∷ ys → (x ≡ y) × (xs ≡ ys)
head_of e = (cc, cc)

-- A relative path either goes down from the base or escapes it.
rel_lem :
    (base target : List String)
    → ((rest : List String) × (target ≡ base ++ rest) × (rel base target ≡ rest))
      ⊎ ((escapes (rel base target) ≡ true) × IsOutside base target)
unfolding rel
rel_lem [] target = inl (target, refl, refl)
rel_lem (name ∷ base) [] =
    inr (rw⁻¹ (append-nil (ups (name ∷ base))) (escapes-ups name base []), λ rest e. cc)
rel_lem (name ∷ base) (other ∷ target) =
    split_ite
      (λ (r : List String).
        ((rest : List String) × (other ∷ target ≡ (name ∷ base) ++ rest) × (r ≡ rest))
        ⊎ ((escapes r ≡ true) × IsOutside (name ∷ base) (other ∷ target)))
      (dec_str name other)
      (λ same. elim (rel_lem base target) [
        | inl (rest, e, r) ↦ inl (rest, cc, r)
        | inr (x, out) ↦ inr (x, λ rest e. out rest (head_of e).1)
      ])
      (λ differ. inr (escapes-ups name base (other ∷ target), λ rest e. differ (sym (head_of e).0)))

-- The directory that is asked for, as an absolute path.
abbrev pub asked : List String → String → List String
asked root_abs requested = if is_abs requested then join [] requested else join root_abs requested

abbrev pub escape_error : (String → String) → String → String
escape_error quoted requested = append "cwd " (append (quoted requested) " escapes agent workspace")

-- What `confinedPath` may come to.
abbrev pub StaysInside : (String → String) → Attempt String → String → String → Type 0
StaysInside quoted cwd root requested =
    ((error : String) × (absolute cwd root ≡ fails error)
      × (confined_path quoted cwd root requested ≡ fails error))
    ⊎ ((root_abs rest : List String) × (absolute cwd root ≡ done root_abs)
        × (asked root_abs requested ≡ root_abs ++ rest)
        × All IsProper rest
        × (confined_path quoted cwd root requested ≡ done (render (root_abs ++ rest))))
    ⊎ ((root_abs : List String) × (absolute cwd root ≡ done root_abs)
        × IsOutside root_abs (asked root_abs requested)
        × (confined_path quoted cwd root requested ≡ fails (escape_error quoted requested)))

All-suffix : (base rest : List String) → All IsProper (base ++ rest) → All IsProper rest
All-suffix [] rest h = h
All-suffix (name ∷ base) rest h = All-suffix base rest h.1

absolute-IsProper :
    (cwd : Attempt String) (path : String) (names : List String)
    → absolute cwd path ≡ done names
    → All IsProper names
unfolding absolute
absolute-IsProper cwd path names =
    let Fine : Attempt (List String) → Type 0 = λ a. a ≡ done names → All IsProper names in
    let below : (base : List String) → All IsProper base → Fine (done (join base path)) =
      λ base h e. subst (All IsProper) (done_injective e) (join-IsProper base path h) in
    split_Bool Fine (is_abs path)
      (λ _.
        split_Attempt Fine cwd (λ error _ e. cc)
          (λ dir _. below (join [] dir) (join-IsProper [] dir tt)))
      (λ _. below [] tt)

asked-IsProper :
    (root_abs : List String) (requested : String)
    → All IsProper root_abs
    → All IsProper (asked root_abs requested)
asked-IsProper root_abs requested h = elim (Bool-cases (is_abs requested)) [
  | inl e ↦ rw e (join-IsProper [] requested tt)
  | inr e ↦ rw e (join-IsProper root_abs requested h)
]

absolute_failed :
    (quoted : String → String) (cwd : Attempt String) (root requested error : String)
    → absolute cwd root ≡ fails error
    → confined_names quoted cwd root requested ≡ fails error
unfolding confined_names
absolute_failed quoted cwd root requested error e = rw (e, confined_names) refl

outside_fails :
    (quoted : String → String) (cwd : Attempt String) (root requested : String)
    (root_abs : List String)
    → absolute cwd root ≡ done root_abs
    → escapes (rel root_abs (asked root_abs requested)) ≡ true
    → confined_names quoted cwd root requested ≡ fails (escape_error quoted requested)
unfolding confined_names
outside_fails quoted cwd root requested root_abs e x = rw (e, confined_names, x) refl

inside_done :
    (quoted : String → String) (cwd : Attempt String) (root requested : String)
    (root_abs : List String)
    → absolute cwd root ≡ done root_abs
    → escapes (rel root_abs (asked root_abs requested)) ≡ false
    → confined_names quoted cwd root requested ≡ done (asked root_abs requested)
unfolding confined_names
inside_done quoted cwd root requested root_abs e x = rw (e, confined_names, x) refl

-- A call of confinedPath comes to one of three things. The workspace's path has no absolute form, and
-- the error is that one's; or the directory that is asked for, made absolute and clean, is the
-- workspace's path followed by names none of which is "..", "." or empty, and is the result; or it is
-- not below the workspace's path, and the result is an error. So nothing else passes, and nothing below
-- the workspace is refused.
pub confined_path-StaysInside :
    (quoted : String → String) (cwd : Attempt String) (root requested : String)
    → StaysInside quoted cwd root requested
unfolding confined_path confined_names rendered
confined_path-StaysInside quoted cwd root requested = elim (Attempt-cases (absolute cwd root)) [
  | inl (error, e) ↦ inl (error, e, ap rendered (absolute_failed quoted cwd root requested error e))
  | inr (root_abs, e) ↦ elim (rel_lem root_abs (asked root_abs requested)) [
    | inl (rest, a, r) ↦
        let fine = asked-IsProper root_abs requested (absolute-IsProper cwd root root_abs e) in
        let proper = All-suffix root_abs rest (subst (All IsProper) a fine) in
        inr (
          inl (
            root_abs,
            rest,
            e,
            a,
            proper,
            ap rendered (
                inside_done quoted cwd root requested root_abs e
                  (ap escapes r ∙ escapes-proper rest proper)
                ∙ ap done a),
          ))
    | inr (x, out) ↦
        inr (
          inr
            (root_abs, e, out, ap rendered (outside_fails quoted cwd root requested root_abs e x)))
  ]
]
