-- ===== src/Router/Fallback.antt =====
-- internal/llm/router.go: what `Complete` returns, with and without the fallback.
use os_complete.Base.{
  ◌≡◌, ◌≢◌, ◌⊎◌, inl, inr, refl, String, none, some, dec_str, true, Option-cases, Dec-cases,
}
use os_complete.Router.{
  Request, Response, Usage, Error, unavailable, wrapping, Answer, answered, failed, Provider,
  Selected, Router, select_provider, complete, complete_selected, after_failure, ask_fallback,
  labelled, fallen_back, provider_error_reason, as_provider_error, value_or,
}

value_or-ne : (value fallback : String) → fallback ≢ "" → value_or value fallback ≢ ""
unfolding value_or
value_or-ne value fallback h = elim (Dec-cases (dec_str value "")) [
  | inl (_, e) ↦ rw (e, value_or) h
  | inr (q, e) ↦ rw (e, value_or) q
]

-- A fallback always has a reason.
provider_error_reason-ne : (error : Error) → provider_error_reason error ≢ ""
unfolding provider_error_reason
provider_error_reason-ne error = elim (Option-cases (as_provider_error error)) [
  | inl e ↦ rw (e, provider_error_reason) (λ p. cc)
  | inr (reason, e) ↦ elim (Dec-cases (dec_str reason "")) [
    | inl (_, d) ↦ rw (e, d, provider_error_reason) (λ p. cc)
    | inr (q, d) ↦ rw (e, d, provider_error_reason) q
  ]
]

module _ (Context : Type 0) (lower : String → String) where
  Answer-cases :
      (a : Answer)
      → ((resp : Response) × (usage : Usage) × (a ≡ answered resp usage))
        ⊎ ((error : Error) × (a ≡ failed error))
  Answer-cases (answered resp usage) = inl (resp, usage, refl)
  Answer-cases (failed error) = inr (error, refl)

  -- A response of the chosen provider.
  abbrev pub Own : Context → Request → Selected Context → Response → Usage → Type 0
  Own ctx req s resp usage =
      (provider : Provider Context) × (own : Response) × (s.provider ≡ some provider)
      × (provider ctx req ≡ answered own usage)
      × (resp.text ≡ own.text)
      × (resp.fallback ≡ own.fallback)
      × (resp.evidence_mode ≢ "")

  -- A response of the fallback, which says so.
  abbrev pub Disclosed : Context → Request → Selected Context → Response → Usage → Type 0
  Disclosed ctx req s resp usage =
      (provider fallback : Provider Context) × (error : Error) × (own : Response) × (s.provider
        ≡ some provider)
      × (provider ctx req ≡ failed error)
      × (s.fallback ≡ some fallback)
      × (s.fallback_name ≢ s.name)
      × (fallback ctx req ≡ answered own usage)
      × (resp.text ≡ own.text)
      × (resp.fallback ≡ true)
      × (resp.fallback_from ≡ s.name)
      × (resp.fallback_reason ≢ "")
      × (resp.evidence_mode ≡ "mock")

  -- No answer for want of a provider, or since all that were asked failed.
  abbrev pub Refused : Context → Request → Selected Context → Error → Type 0
  Refused ctx req s error =
      ((s.provider ≡ none) × (error ≡ wrapping unavailable s.name))
      ⊎ ((provider : Provider Context) × (s.provider ≡ some provider)
          × (provider ctx req ≡ failed error)
          × ((s.fallback ≡ none) ⊎ (s.fallback_name ≡ "") ⊎ (s.fallback_name ≡ s.name)))
      ⊎ ((provider fallback : Provider Context) × (first : Error) × (s.provider ≡ some provider)
          × (provider ctx req ≡ failed first)
          × (s.fallback ≡ some fallback)
          × (s.fallback_name ≢ s.name)
          × (fallback ctx req ≡ failed error))

  -- What an answer must come from.
  abbrev pub Outcome : Context → Request → Selected Context → Answer → Type 0
  Outcome ctx req s (answered resp usage) =
      Own ctx req s resp usage ⊎ Disclosed ctx req s resp usage
  Outcome ctx req s (failed error) = Refused ctx req s error

  after_failure-Outcome :
      (ctx : Context) (req : Request) (s : Selected Context) (provider : Provider Context)
      (error : Error)
      → s.provider ≡ some provider
      → provider ctx req ≡ failed error
      → Outcome ctx req s (after_failure Context lower ctx req s error)
  unfolding after_failure ask_fallback fallen_back
  after_failure-Outcome ctx req s provider error p f = elim (Option-cases s.fallback) [
    | inl e ↦ rw (e, after_failure) (inr (inl (provider, p, f, inl refl)))
    | inr (fallback, e) ↦ elim (Dec-cases (dec_str s.fallback_name "")) [
      | inl (none_named, d) ↦
          rw (e, d, after_failure) (inr (inl (provider, p, f, inr (inl none_named))))
      | inr (named, d) ↦ elim (Dec-cases (dec_str s.fallback_name s.name)) [
        | inl (same, c) ↦ rw (e, d, c, after_failure) (inr (inl (provider, p, f, inr (inr same))))
        | inr (differ, c) ↦ elim (Answer-cases (fallback ctx req)) [
          | inl (own, usage, a) ↦
              rw (e, d, c, a, after_failure, ask_fallback)
                (inr (
                  provider,
                  fallback,
                  error,
                  own,
                  p,
                  f,
                  refl,
                  differ,
                  a,
                  refl,
                  refl,
                  refl,
                  provider_error_reason-ne error,
                  refl,
                ))
          | inr (other, a) ↦
              rw (e, d, c, a, after_failure, ask_fallback)
                (inr (inr (provider, fallback, error, p, f, refl, differ, a)))
        ]
      ]
    ]
  ]

  complete_selected-Outcome :
      (ctx : Context) (req : Request) (s : Selected Context)
      → Outcome ctx req s (complete_selected Context lower ctx req s)
  unfolding complete_selected labelled
  complete_selected-Outcome ctx req s = elim (Option-cases s.provider) [
    | inl e ↦ rw (e, complete_selected) (inl (refl, refl))
    | inr (provider, e) ↦ elim (Answer-cases (provider ctx req)) [
      | inl (own, usage, a) ↦
          rw (e, a, complete_selected)
            (inl (provider, own, refl, a, refl, refl, value_or-ne _ "real-api" (λ p. cc)))
      | inr (error, a) ↦
          rw (e, a, complete_selected) (after_failure-Outcome ctx req _ provider error refl a)
    ]
  ]

  -- Every answer of Complete comes from a provider that was asked: a response is the chosen provider's,
  -- with an evidence mode that is not empty, or the fallback's, and then it says so, names the chosen
  -- provider and a reason, and has the evidence mode "mock"; an error means that the chosen provider is
  -- missing, that it failed and there is no other fallback, or that both failed.
  pub complete-Outcome :
      (ctx : Context) (req : Request) (r : Router Context lower)
      → Outcome ctx req (select_provider Context lower r req) (complete Context lower ctx req r)
  unfolding complete
  complete-Outcome ctx req r =
      complete_selected-Outcome ctx req (select_provider Context lower r req)
