-- ===== src/Gateway/Workspaces.antt =====
-- internal/syscall/gateway.go: where the workspace of an agent is, without a workspace runtime.
use Prim.Native.Char.{Char}
use Prim.Native.String.{◌++◌ as append}
use os_complete.Base.{◌≡◌, ◌≢◌, ◌⊎◌, String, List, [], ◌∷◌, ◌++◌}
use os_complete.Gateway.Paths.{parent, join}
use os_complete.Gateway.State.{World, Gateway}

module _ (w : World) where
  open w use {cwd, mkdir}

  -- Where the workspace of a cleaned id is.
  abbrev pub IsPlace : List String → String → List String → Type 0
  IsPlace root_abs id names =
      ((id ≢ ".") × (id ≢ "..") × (names ≡ root_abs ++ id ∷ "merged" ∷ []))
      ⊎ ((id ≡ ".") × (names ≡ root_abs ++ "merged" ∷ []))
      ⊎ ((id ≡ "..") × (names ≡ parent root_abs ++ "merged" ∷ []))

  place : List String → String → List String
  place root_abs id = join (join root_abs id) "merged"
