-- ===== src/Gateway/Paths.antt =====
-- internal/syscall/gateway.go: the paths of workspaces, on a system whose separator is `/`.
--
-- What path/filepath makes of a path without asking the system: `Clean`, `Join`, `IsAbs`, `Rel`. A
-- clean absolute path is the list of its names; `Abs` takes the working directory as an argument.
use Prim.Native.Char.{code}
use Prim.Native.String.{◌++◌ as append}
use os_complete.Base.{
  String, List, [], ◌∷◌, ◌++◌, Bool, true, false, ite, dec_str, ◌==◌, ◌||◌, if◌then◌else◌,
}
pub use os_complete.Base.Attempt.{Attempt, done, fails}

-- `strings.Split(s, "/")`.
unfoldable pub splits : String → List String
splits String.[] = "" ∷ []
splits (String.◌∷◌ c rest) = elim (code c == 0x2f) [
  | true ↦ "" ∷ splits rest
  | false ↦ elim (splits rest) [
    | [] ↦ String.◌∷◌ c "" ∷ []
    | name ∷ names ↦ String.◌∷◌ c name ∷ names
  ]
]

-- The parent: that of the root is the root.
unfoldable pub parent : List String → List String
parent [] = []
parent (name ∷ []) = []
parent (name ∷ next ∷ rest) = name ∷ parent (next ∷ rest)

-- One name of a path, as `Clean` reads it.
unfoldable pub enter : List String → String → List String
unfolding parent
enter names name =
    ite (dec_str name "") names
      (ite (dec_str name ".") names (ite (dec_str name "..") (parent names) (names ++ name ∷ [])))

unfoldable pub walk : List String → List String → List String
unfolding enter
walk names [] = names
walk names (name ∷ rest) = walk (enter names name) rest

-- `Join` of a clean absolute path and another path.
unfoldable pub join : List String → String → List String
unfolding walk splits
join names path = walk names (splits path)

unfoldable pub is_abs : String → Bool
is_abs String.[] = false
is_abs (String.◌∷◌ c rest) = code c == 0x2f

-- The text of a clean absolute path.
unfoldable pub render_names : List String → String
render_names [] = ""
render_names (name ∷ rest) = append "/" (append name (render_names rest))

unfoldable pub render : List String → String
unfolding render_names
render names = ite (dec_str (render_names names) "") "/" (render_names names)

-- `filepath.Abs`: `cwd` is what `os.Getwd` gives.
unfoldable pub absolute : Attempt String → String → Attempt (List String)
unfolding join is_abs
absolute cwd path = elim (is_abs path) [
  | true ↦ done (join [] path)
  | false ↦ elim cwd [ fails error ↦ fails error | done dir ↦ done (join (join [] dir) path) ]
]

unfoldable pub ups : List String → List String
ups [] = []
ups (name ∷ rest) = ".." ∷ ups rest

-- `filepath.Rel` of two clean absolute paths.
unfoldable pub rel : List String → List String → List String
unfolding ups
rel [] target = target
rel (name ∷ base) [] = ups (name ∷ base)
rel (name ∷ base) (other ∷ target) =
    ite (dec_str name other) (rel base target) (ups (name ∷ base) ++ other ∷ target)

unfoldable pub escapes : List String → Bool
escapes [] = false
escapes (name ∷ rest) = ite (dec_str name "..") true false

-- `confinedPath`, with its path as a list of names; `quoted` is `%q`.
unfoldable pub confined_names :
    (String → String) → Attempt String → String → String → Attempt (List String)
unfolding absolute join rel escapes
confined_names quoted cwd root requested = elim (absolute cwd root) [
  | fails error ↦ fails error
  | done root_abs ↦
      let candidate = if is_abs requested then join [] requested else join root_abs requested in
      if escapes (rel root_abs candidate)
      then fails (append "cwd " (append (quoted requested) " escapes agent workspace"))
      else done candidate
]

unfoldable pub rendered : Attempt (List String) → Attempt String
unfolding render
rendered (fails error) = fails error
rendered (done names) = done (render names)

unfoldable pub confined_path : (String → String) → Attempt String → String → String → Attempt String
unfolding confined_names rendered
confined_path quoted cwd root requested = rendered (confined_names quoted cwd root requested)

-- The replacer of `workspaceForAgent`: `/`, `\` and `:` become `_`.
unfoldable pub clean_agent_id : String → String
clean_agent_id String.[] = ""
clean_agent_id (String.◌∷◌ c rest) = elim (code c == 0x2f || code c == 0x5c || code c == 0x3a) [
  | true ↦ append "_" (clean_agent_id rest)
  | false ↦ String.◌∷◌ c (clean_agent_id rest)
]
