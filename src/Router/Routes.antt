-- ===== src/Router/Routes.antt =====
-- internal/llm/router.go: which provider `selectProvider` chooses.
use os_complete.Base.{
  ◌≡◌, ◌≢◌, refl, ap, ◌∙◌, String, some, lookup, lookup_or, insert, lookup-insert, dec_str, if_pos,
  if_neg, List,
}
use os_complete.Router.{
  Request, Provider, Router, register, set_role_provider, select_provider, routed_name, value_or,
}

lookup_or-some :
    (d v k : String) (m : List (String × String))
    → lookup dec_str k m ≡ some v
    → lookup_or dec_str d k m ≡ v
unfolding lookup_or
lookup_or-some d v k m e = rw (e, lookup_or) refl

module _ (Context : Type 0) (lower : String → String) where
  routed_name-role :
      (name : String) (r : Router Context lower) (req : Request)
      → name ≢ ""
      → req.provider ≡ ""
      → req.role ≢ ""
      → lookup dec_str (lower req.role) r.role_route ≡ some name
      → routed_name Context lower r req ≡ name
  unfolding routed_name value_or
  routed_name-role name r req named free has_role e =
      let own =
        if_pos (dec_str req.provider "") free _ _
        ∙ if_neg (dec_str req.role "") has_role _ _
        ∙ lookup_or-some "" name _ _ e in
      ap (λ v. value_or v r.default_provider) own ∙ if_neg (dec_str name "") named _ _

  -- A provider registered under a name and set for a role is the one chosen for a request of that role
  -- in any spelling that lowers to the same text, if the request names no provider itself.
  select_provider-set_role_provider :
      (name role : String) (provider : Provider Context) (r : Router Context lower) (req : Request)
      → name ≢ ""
      → req.provider ≡ ""
      → req.role ≢ ""
      → lower req.role ≡ lower role
      → let s =
          select_provider Context lower
            (set_role_provider Context lower role name (register Context lower name provider r))
            req in
        (s.name ≡ name) × (s.provider ≡ some provider)
  unfolding select_provider set_role_provider register
  select_provider-set_role_provider name role provider r req named free has_role same =
      let routed : lookup dec_str (lower req.role) (insert dec_str (lower role) name r.role_route)
          ≡ some name =
        lookup-insert dec_str (lower role) (lower req.role) name r.role_route
        ∙ if_pos (dec_str (lower req.role) (lower role)) same _ _ in
      let chosen =
        routed_name-role name
          (set_role_provider Context lower role name (register Context lower name provider r)) req
          named free has_role routed in
      (
        chosen,
        rw chosen (
            lookup-insert dec_str name name provider r.providers
            ∙ if_pos (dec_str name name) refl _ _),
      )
