-- ===== src/Router/Mock.antt =====
-- internal/llm/router.go: the mock provider.
--
-- `cancelled` is what the context says: its error, if it is done. The milliseconds since the start are
-- an argument.
use Prim.Native.String.{◌++◌ as append}
use os_complete.Base.{
  ℕ, suc, ◌/◌, ◌≤◌, ◌<◌, ◌≢◌, ◌==◌, refl, String, Option, none, some, ite, dec_str, pos, pos_part,
  false, ltb, if◌then◌else◌, Dec-cases, inl, inr, arith,
}
use os_complete.Router.{Request, Usage, Error, Answer, answered, failed}

-- `len([]rune(content))`.
unfoldable pub rune_length : String → ℕ
rune_length String.[] = 0
rune_length (String.◌∷◌ c rest) = suc (rune_length rest)

unfoldable tokens_of : String → ℕ
unfolding rune_length
tokens_of content =
    let tokens = rune_length content / 4 in
    if tokens == 0 then ite (dec_str content "") tokens 1 else tokens

-- `maxInt64`.
unfoldable max_ms : ℕ → ℕ → ℕ
max_ms a b = if ltb b a then a else b

unfoldable mock_name : String → String
mock_name name = ite (dec_str name "") "mock" name

unfoldable mock_text : Request → String
mock_text req = append "mock completion for " (append req.agent_id ": runtime syscall accepted")

unfoldable pub mock_usage : ℕ → Request → Usage
unfolding tokens_of max_ms mock_text
mock_usage elapsed req = record {
  prompt_tokens = pos (tokens_of req.prompt);
  completion_tokens = pos (tokens_of (mock_text req));
  cached_tokens = pos (tokens_of req.prompt / 2);
  prompt_ms = pos 1;
  ttft_ms = pos 1;
  total_ms = pos (max_ms 1 elapsed);
  mode = "mock";
}

unfoldable mock_complete : String → ℕ → Option Error → Request → Answer
unfolding mock_text mock_usage
mock_complete name elapsed (some error) req = failed error
mock_complete name elapsed none req =
    answered
      (record {
        text = mock_text req;
        provider = name;
        model = name;
        requested_provider = "";
        fallback = false;
        fallback_from = "";
        fallback_reason = "";
        evidence_mode = "mock";
      })
      (mock_usage elapsed req)

tokens_of-pos : (content : String) → content ≢ "" → 0 < tokens_of content
unfolding tokens_of
tokens_of-pos content h = elim (Dec-cases (dec_str content "")) [
  | inl (p, _) ↦ absurd (h p)
  | inr (_, e) ↦ rw (e, tokens_of) (ground arith)
]

rune_length-pos : (content : String) → content ≢ "" → 0 < rune_length content
unfolding rune_length
rune_length-pos String.[] h = absurd (h refl)
rune_length-pos (String.◌∷◌ c rest) h = omega arith

tokens_of-le : (content : String) → content ≢ "" → tokens_of content ≤ rune_length content
unfolding tokens_of
tokens_of-le content h =
    let some_rune = rune_length-pos content h in
    elim (Dec-cases (dec_str content "")) [
      | inl (p, _) ↦ absurd (h p)
      | inr (_, e) ↦ rw (e, tokens_of) (grind arith)
    ]

-- For a prompt that is not empty the mock provider counts at least one token and at most one for each
-- rune, no more cached tokens than tokens, and at least one millisecond.
mock_usage-bounds :
    (elapsed : ℕ) (req : Request)
    → req.prompt ≢ ""
    → let u = mock_usage elapsed req in
      (0 < pos_part u.prompt_tokens)
      × (pos_part u.prompt_tokens ≤ rune_length req.prompt)
      × (pos_part u.cached_tokens ≤ pos_part u.prompt_tokens)
      × (0 < pos_part u.total_ms)
unfolding mock_usage max_ms
mock_usage-bounds elapsed req h =
    (tokens_of-pos req.prompt h, tokens_of-le req.prompt h, omega arith, ground arith)
