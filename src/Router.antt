-- ===== src/Router.antt =====
-- internal/llm/router.go: the choice of a model provider and the fallback.
--
-- `r.mu` is held over each setter and over `selectProvider`, so these are functions on the router. A
-- provider is what it answers to this call: a function of the context and the request. An `error` is its
-- text and, where it wraps another, that one; `strings.ToLower` is the parameter `lower`.
pub mod Fallback
pub mod Routes
mod Mock
mod Tests
use os_complete.Base.{
  ℕ, String, List, [], ◌∷◌, Option, none, some, lookup, lookup_or, insert, ite, dec_str, Bool, true,
  false, ℤ, ◌≡◌,
}

pub record Request : Type 0 where
  pub agent_id : String
  pub role : String
  pub provider : String
  pub prompt : String

pub record Response : Type 0 where
  pub text : String
  pub provider : String
  pub model : String
  pub requested_provider : String
  pub fallback : Bool
  pub fallback_from : String
  pub fallback_reason : String
  pub evidence_mode : String

pub record Usage : Type 0 where
  pub prompt_tokens : ℤ
  pub completion_tokens : ℤ
  pub cached_tokens : ℤ
  pub prompt_ms : ℤ
  pub ttft_ms : ℤ
  pub total_ms : ℤ
  pub mode : String

-- `ProviderError` with its reason and the error it wraps, if any; `unavailable` is
-- `ErrProviderUnavailable`.
pub data Error : Type 0 where
  unavailable : Error
  message : String → Error
  wrapping : Error → String → Error
  provider_error : String → Error
  provider_error_of : String → Error → Error

pub data Answer : Type 0 where
  answered : Response → Usage → Answer
  failed : Error → Answer

abbrev pub Provider : Type 0 → Type 0
Provider Context = Context → Request → Answer

-- `errors.As` with a `ProviderError`: the reason of the first in the chain.
unfoldable pub as_provider_error : Error → Option String
as_provider_error unavailable = none
as_provider_error (message text) = none
as_provider_error (wrapping error text) = as_provider_error error
as_provider_error (provider_error reason) = some reason
as_provider_error (provider_error_of reason error) = some reason

unfoldable pub provider_error_reason : Error → String
unfolding as_provider_error
provider_error_reason error = elim (as_provider_error error) [
  | none ↦ "api_error"
  | some reason ↦ ite (dec_str reason "") "api_error" reason
]

unfoldable pub value_or : String → String → String
value_or value fallback = ite (dec_str value "") fallback value

pub record Selected (Context : Type 0) : Type 0 where
  pub name : String
  pub provider : Option (Provider Context)
  pub fallback_name : String
  pub fallback : Option (Provider Context)

module _ (Context : Type 0) (lower : String → String) where
  pub record Router : Type 0 where
    pub providers : List (String × Provider Context)
    pub role_route : List (String × String)
    pub default_provider : String
    pub fallback_provider : String

  unfoldable pub new_router : Router
  new_router = record {
    providers = [];
    role_route = [];
    default_provider = "";
    fallback_provider = "";
  }

  unfoldable pub register : String → Provider Context → Router → Router
  register name provider r = record r { providers = insert dec_str name provider r.providers }

  unfoldable pub set_default : String → Router → Router
  set_default name r = record r { default_provider = name }

  unfoldable pub set_fallback : String → Router → Router
  set_fallback name r = record r { fallback_provider = name }

  unfoldable pub set_role_provider : String → String → Router → Router
  set_role_provider role provider r = record r {
    role_route = insert dec_str (lower role) provider r.role_route;
  }

  -- The name: the request's, else the role's, else the default.
  unfoldable pub routed_name : Router → Request → String
  unfolding value_or
  routed_name r req =
      value_or
        (ite (dec_str req.provider "")
          (ite (dec_str req.role "") req.provider
            (lookup_or dec_str "" (lower req.role) r.role_route))
          req.provider)
        r.default_provider

  unfoldable pub select_provider : Router → Request → Selected Context
  unfolding routed_name
  select_provider r req = record {
    name = routed_name r req;
    provider = lookup dec_str (routed_name r req) r.providers;
    fallback_name = r.fallback_provider;
    fallback = lookup dec_str r.fallback_provider r.providers;
  }

  -- The response of the chosen provider, completed.
  unfoldable pub labelled : String → Response → Usage → Response
  unfolding value_or
  labelled name resp usage = record resp {
    provider = value_or resp.provider name;
    evidence_mode = value_or (value_or resp.evidence_mode usage.mode) "real-api";
  }

  -- The response of the fallback, marked as such.
  unfoldable pub fallen_back : String → String → Error → Response → Response
  unfolding value_or provider_error_reason
  fallen_back name fallback_name error resp = record resp {
    provider = value_or resp.provider fallback_name;
    requested_provider = name;
    fallback_from = name;
    fallback = true;
    fallback_reason = provider_error_reason error;
    evidence_mode = "mock";
  }

  unfoldable pub ask_fallback :
      Context → Request → String → String → Error → Provider Context → Answer
  unfolding fallen_back
  ask_fallback ctx req name fallback_name error fallback = elim (fallback ctx req) [
    | answered resp usage ↦ answered (fallen_back name fallback_name error resp) usage
    | failed other ↦ failed other
  ]

  -- What follows the failure of the chosen provider.
  unfoldable pub after_failure : Context → Request → Selected Context → Error → Answer
  unfolding ask_fallback
  after_failure ctx req s error = elim s.fallback [
    | none ↦ failed error
    | some fallback ↦ ite (dec_str s.fallback_name "") (failed error) (
        ite (dec_str s.fallback_name s.name) (failed error)
          (ask_fallback ctx req s.name s.fallback_name error fallback))
  ]

  unfoldable pub complete_selected : Context → Request → Selected Context → Answer
  unfolding labelled after_failure
  complete_selected ctx req s = elim s.provider [
    | none ↦ failed (wrapping unavailable s.name)
    | some provider ↦ elim (provider ctx req) [
      | answered resp usage ↦ answered (labelled s.name resp usage) usage
      | failed error ↦ after_failure ctx req s error
    ]
  ]

  unfoldable pub complete : Context → Request → Router → Answer
  unfolding select_provider complete_selected
  complete ctx req r = complete_selected ctx req (select_provider r req)
