-- ===== src/Dag/Tests.antt =====
-- internal/dag/dag.go: the theorem at a concrete graph.
use os_complete.Base.{
  ◌≡◌, ◌↔◌, String, List, [], ◌∷◌, some, Bool, true, false, lookup, ite, dec_str, All,
}
use os_complete.Dag.Ready.{is_listed, build, ready_iff}
use os_complete.Dag.{ready}

abbrev nodes : List (String × List String)
nodes = ("test", "code" ∷ []) ∷ ("code", "plan" ∷ []) ∷ ("plan", []) ∷ []

planned : String → Bool
planned node = ite (dec_str node "plan") true false

ready_iff_example : (is_listed "code" (ready planned (build nodes)) ≡ true) ↔ (
    (deps : List String) × (lookup dec_str "code" (build nodes).deps ≡ some deps)
    × (planned "code" ≡ false)
    × All (λ dep. planned dep ≡ true) deps)
ready_iff_example = ready_iff planned nodes "code"
