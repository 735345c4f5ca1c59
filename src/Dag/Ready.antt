-- ===== src/Dag/Ready.antt =====
-- internal/dag/dag.go: `Ready` gives exactly the nodes that can start.
use os_complete.Base.{
  ◌≡◌, ◌↔◌, refl, sym, ap, ◌∙◌, String, List, [], ◌∷◌, Option, none, some, Bool, true, false, not,
  ◌&&◌, lookup, Distinct, insert-Distinct, ite, dec_str, sort, place, All, Bool-cases, Dec-cases,
  inl, inr, arith,
}
use os_complete.Dag.{Graph, new_graph, add_node, all_done, collect_ready, before, ready}

-- Whether a node is among those listed.
unfoldable pub is_listed : String → List String → Bool
is_listed node [] = false
is_listed node (x ∷ xs) = ite (dec_str node x) true (is_listed node xs)

-- A graph made by `AddNode`.
unfoldable pub build : List (String × List String) → Graph
build [] = new_graph
build ((id, deps) ∷ rest) = add_node id deps (build rest)

is_listed-place :
    (node x : String) (xs : List String)
    → is_listed node (place before x xs) ≡ ite (dec_str node x) true (is_listed node xs)
unfolding is_listed place
is_listed-place node x [] = refl
is_listed-place node x (y ∷ ys) = elim (Bool-cases (before y x)) [
  | inl e ↦ rw e (ground (arith, is_listed-place node x ys))
  | inr e ↦ rw e refl
]

is_listed-sort :
    (node : String) (xs : List String) → is_listed node (sort before xs) ≡ is_listed node xs
unfolding is_listed sort
is_listed-sort node [] = refl
is_listed-sort node (x ∷ xs) =
    is_listed-place node x (sort before xs)
    ∙ ap (λ b. ite (dec_str node x) true b) (is_listed-sort node xs)

all_done_iff :
    (completed : String → Bool) (deps : List String)
    → (all_done completed deps ≡ true) ↔ All (λ dep. completed dep ≡ true) deps
unfolding all_done
all_done_iff completed [] = (λ _. tt, λ _. refl)
all_done_iff completed (dep ∷ deps) = elim (Bool-cases (completed dep)) [
  | inl e ↦
      let (there, back) = all_done_iff completed deps in
      rw (e, all_done) (λ h. (refl, there h), λ h. back h.1)
  | inr e ↦ rw (e, all_done) (λ h. absurd (ground arith), λ h. absurd (ground (arith, h.0)))
]

-- Whether a node with these dependencies, if any, can start.
can_start : (String → Bool) → String → Option (List String) → Bool
can_start completed node none = false
can_start completed node (some deps) = not (completed node) && all_done completed deps

is_listed-collect_ready :
    (completed : String → Bool) (node : String) (m : List (String × List String))
    → Distinct dec_str m
    → is_listed node (collect_ready completed m) ≡ can_start completed node (lookup dec_str node m)
unfolding is_listed collect_ready can_start lookup
is_listed-collect_ready completed node [] h = refl
is_listed-collect_ready completed node ((k, deps) ∷ rest) h =
    let deep = is_listed-collect_ready completed node rest h.1 in
    elim (Bool-cases (not (completed k) && all_done completed deps)) [
      | inl e ↦ elim (Dec-cases (dec_str node k)) [
        | inl (p, d) ↦ rw (e, d) (rw p (sym e))
        | inr (q, d) ↦ rw (e, d) deep
      ]
      | inr e ↦ elim (Dec-cases (dec_str node k)) [
        | inl (p, d) ↦
            let missing : lookup dec_str node rest ≡ none = rw p h.0 in
            let late : (not (completed node) && all_done completed deps) ≡ false = rw p e in
            rw (e, d, late) (deep ∙ ap (can_start completed node) missing)
        | inr (q, d) ↦ rw (e, d) deep
      ]
    ]

build-Distinct : (nodes : List (String × List String)) → Distinct dec_str (build nodes).deps
unfolding build new_graph add_node
build-Distinct [] = tt
build-Distinct ((id, deps) ∷ rest) =
    insert-Distinct dec_str id deps (build rest).deps (build-Distinct rest)

can_start_iff :
    (completed : String → Bool) (node : String) (found : Option (List String))
    → (can_start completed node found ≡ true) ↔ (
        (deps : List String) × (found ≡ some deps)
        × (completed node ≡ false)
        × All (λ dep. completed dep ≡ true) deps)
unfolding can_start
can_start_iff completed node none = (λ h. absurd (ground arith), λ h. absurd (ground (arith, h.1)))
can_start_iff completed node (some deps) =
    let (there, back) = all_done_iff completed deps in
    (
      λ h. (deps, refl, ground arith, there (ground arith)),
      λ h.
          let same : h.0 ≡ deps = cc (h.1) in
          let done : all_done completed deps ≡ true = back (rw same at h.3) in ground (arith, h.2),
    )

-- In a graph made by AddNode, Ready lists a node exactly if the graph has it, it has not completed and
-- all its dependencies have.
pub ready_iff :
    (completed : String → Bool) (nodes : List (String × List String)) (node : String)
    → (is_listed node (ready completed (build nodes)) ≡ true) ↔ (
        (deps : List String) × (lookup dec_str node (build nodes).deps ≡ some deps)
        × (completed node ≡ false)
        × All (λ dep. completed dep ≡ true) deps)
unfolding ready
ready_iff completed nodes node =
    rw
      (
        is_listed-sort node (collect_ready completed (build nodes).deps),
        is_listed-collect_ready completed node (build nodes).deps (build-Distinct nodes),
      )
      (can_start_iff completed node (lookup dec_str node (build nodes).deps))
