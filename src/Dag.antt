-- ===== src/Dag.antt =====
-- internal/dag/dag.go: which tasks of a graph of dependencies can start.
--
-- `completed` is the map given to `Ready`, as a function: a missing node, and a `nil` map, is false.
pub mod Ready
mod Tests
use Prim.Native.String.{compare}
use text.Mathlib.Text.{is_lt}
use os_complete.Base.{
  String, List, [], ◌∷◌, Bool, true, false, not, ◌&&◌, insert, dec_str, sort, if◌then◌else◌,
}

pub record Graph : Type 0 where
  pub deps : List (String × List String)

unfoldable pub new_graph : Graph
new_graph = record { deps = [] }

unfoldable pub add_node : String → List String → Graph → Graph
add_node id deps g = record { deps = insert dec_str id deps g.deps }

-- The inner loop: whether every dependency has completed.
unfoldable pub all_done : (String → Bool) → List String → Bool
all_done completed [] = true
all_done completed (dep ∷ deps) = if completed dep then all_done completed deps else false

unfoldable pub collect_ready : (String → Bool) → List (String × List String) → List String
unfolding all_done
collect_ready completed [] = []
collect_ready completed ((node, deps) ∷ rest) =
    if not (completed node) && all_done completed deps
    then node ∷ collect_ready completed rest
    else collect_ready completed rest

-- The order of texts, byte by byte.
abbrev pub before : String → String → Bool
before a b = is_lt (compare a b)

unfoldable pub ready : (String → Bool) → Graph → List String
unfolding collect_ready
ready completed g = sort before (collect_ready completed g.deps)
