-- ===== src/Gateway/Agents.antt =====
-- internal/syscall/gateway.go: the calls of a model, the reports of agents and their requests for
-- others.
use Prim.Native.String.{◌++◌ as append}
use os_complete.Base.{ℕ, String, [], ◌∷◌, Option, none, some, true, false, ite, dec_str, ◌+ℤ◌}
use os_complete.Cvm.Page.{ok, err}
use os_complete.Cvm.Store.{materialize}
use os_complete.Events.{Clock, Payload, fields, text, texts, num, int, flag, object, value_of}
use os_complete.Gateway.Args.{string_arg, string_slice_arg}
use os_complete.Gateway.Paths.{Attempt, done, fails}
use os_complete.Gateway.State.{
  World, Request, Response, SpawnRequest, SpawnResult, Gateway, publish, note, asked_spawn,
  reported, cvm_error, refused, accepted,
}
use os_complete.Router as Llm
use os_complete.Router.{Router, Usage, Error, answered, failed, complete}

-- `Error()` of an error of the router.
unfoldable pub error_text : Error → String
error_text Error.unavailable = "llm provider unavailable"
error_text (Error.message said) = said
error_text (Error.wrapping error name) = append (error_text error) (append ": " name)
error_text (Error.provider_error reason) = reason
error_text (Error.provider_error_of reason error) =
    let inner = error_text error in
    ite (dec_str reason "") inner (append reason (append ": " inner))

usage_payload : Usage → Payload
usage_payload usage = fields (
    ("prompt_tokens", int usage.prompt_tokens)
    ∷ ("completion_tokens", int usage.completion_tokens)
    ∷ ("cached_tokens", int usage.cached_tokens)
    ∷ ("prompt_ms", int usage.prompt_ms)
    ∷ ("ttft_ms", int usage.ttft_ms)
    ∷ ("total_ms", int usage.total_ms)
    ∷ ("mode", text usage.mode)
    ∷ [])

unfoldable pub llm_payload : Llm.Response → Usage → Payload
unfolding usage_payload
llm_payload resp usage = fields (
    ("text", text resp.text)
    ∷ ("provider", text resp.provider)
    ∷ ("requested_provider", text resp.requested_provider)
    ∷ ("model", text resp.model)
    ∷ ("fallback", flag resp.fallback)
    ∷ ("fallback_from", text resp.fallback_from)
    ∷ ("fallback_reason", text resp.fallback_reason)
    ∷ ("evidence_mode", text resp.evidence_mode)
    ∷ ("tokens", int (usage.prompt_tokens +ℤ usage.completion_tokens))
    ∷ ("usage", object (usage_payload usage))
    ∷ [])

llm_called : Llm.Response → Usage → Payload
llm_called resp usage = fields (
    ("provider", text resp.provider)
    ∷ ("requested_provider", text resp.requested_provider)
    ∷ ("model", text resp.model)
    ∷ ("fallback", flag resp.fallback)
    ∷ ("fallback_reason", text resp.fallback_reason)
    ∷ ("fallback_from", text resp.fallback_from)
    ∷ ("prompt_tokens", int usage.prompt_tokens)
    ∷ ("cached_tokens", int usage.cached_tokens)
    ∷ ("ttft_ms", int usage.ttft_ms)
    ∷ ("mode", text usage.mode)
    ∷ ("evidence_mode", text resp.evidence_mode)
    ∷ [])

llm_evidence : ℕ → Payload → Payload
unfolding value_of
llm_evidence duration payload = fields (
    ("provider", value_of "provider" payload)
    ∷ ("requested_provider", value_of "requested_provider" payload)
    ∷ ("model", value_of "model" payload)
    ∷ ("duration_ms", num duration)
    ∷ ("tokens", value_of "tokens" payload)
    ∷ ("fallback", value_of "fallback" payload)
    ∷ ("fallback_reason", value_of "fallback_reason" payload)
    ∷ ("evidence_mode", value_of "evidence_mode" payload)
    ∷ [])

unfoldable pub syscall_evidence : String → Option Payload → ℕ → Option Payload
unfolding llm_evidence
syscall_evidence name none duration = none
syscall_evidence name (some payload) duration =
    ite (dec_str name "llm.call") (some (llm_evidence duration payload)) none

module _ (w : World) where
  open w use {F, Context, lower, codec, text_of}

  -- The prompt: the argument, else the agent's context if there is a store.
  unfoldable pub prompt_for : Clock → Request F → Gateway w → Gateway w × Attempt String
  prompt_for now req g =
      let prompt = (string_arg req.args "prompt").0 in
      ite (dec_str prompt "")
        (elim g.cvm [
          | none ↦ (g, done prompt)
          | some s ↦
              let m = materialize codec now req.agent_id s in
              (
                record g { cvm = some m.0 },
                elim m.1 [ err e ↦ fails (cvm_error w e) | ok content ↦ done (text_of content) ],
              )
        ])
        (g, done prompt)

  unfoldable pub llm_answer : Clock → Request F → Gateway w → Llm.Answer → Gateway w × Response
  unfolding llm_payload llm_called error_text
  llm_answer now req g (failed error) = (g, refused req "ERROR" (error_text error))
  llm_answer now req g (answered resp usage) = (
    publish w now "llm.called" req (llm_called resp usage) g,
    accepted req (llm_payload resp usage),
  )

  -- `llmCall` with its prompt.
  unfoldable pub llm_prompted :
      Context
      → Clock
      → Request F
      → Router Context lower
      → Gateway w × Attempt String
      → Gateway w × Response
  unfolding llm_answer
  llm_prompted ctx now req router (g, fails error) = (g, refused req "ERROR" error)
  llm_prompted ctx now req router (g, done prompt) =
      ite (dec_str prompt "") (g, refused req "DENIED" "prompt is required")
        (llm_answer now req g (
          complete Context lower ctx
            (record {
              agent_id = req.agent_id;
              role = (string_arg req.args "role").0;
              provider = (string_arg req.args "provider").0;
              prompt = prompt;
            })
            router))

  unfoldable pub llm_call : Context → (ℕ → Clock) → Request F → Gateway w → Gateway w × Response
  unfolding prompt_for llm_prompted
  llm_call ctx at req g = elim g.llm [
    | none ↦ (g, refused req "ERROR" "llm router is not configured")
    | some router ↦ llm_prompted ctx (at 1) req router (prompt_for (at 0) req g)
  ]

  unfoldable pub agent_report : Request F → Gateway w → Gateway w × Response
  agent_report req g =
      let status = (string_arg req.args "status").0 in
      ite (dec_str status "") (g, refused req "DENIED" "status is required")
        (
          elim g.reporter [
            | false ↦ g
            | true ↦
                note w
                  (reported (record {
                    agent_id = req.agent_id;
                    task_id = req.task_id;
                    status = status;
                    payload = req.args;
                  }))
                  g
          ],
          accepted req (fields (("status", text status) ∷ [])),
        )

  -- What follows the answer of the spawner.
  unfoldable pub spawned :
      Clock → Request F → String → Gateway w → Attempt SpawnResult → Gateway w × Response
  spawned now req reason g (fails error) = (g, refused req "ERROR" error)
  spawned now req reason g (done result) = (
    publish w now "agent.spawned" req
        (fields (
          ("agent_id", text result.agent_id)
          ∷ ("role", text result.role)
          ∷ ("state", text result.state)
          ∷ ("parent_agent_id", text req.agent_id)
          ∷ ("reason", text reason)
          ∷ []))
        g,
    accepted req (
        fields (
          ("agent_id", text result.agent_id)
          ∷ ("role", text result.role)
          ∷ ("task_id", text result.task_id)
          ∷ ("state", text result.state)
          ∷ [])),
  )

  unfoldable pub spawn_with :
      (ℕ → Clock) → Request F → SpawnRequest → Gateway w → Gateway w × Response
  unfolding spawned
  spawn_with at req wanted g =
      let announced =
        publish w (at 0) "agent.spawn.requested" req
          (fields (
            ("agent_id", text wanted.agent_id)
            ∷ ("role", text wanted.role)
            ∷ ("reason", text wanted.reason)
            ∷ ("dependencies", texts wanted.dependencies)
            ∷ []))
          g in
      spawned (at 1) req wanted.reason (note w (asked_spawn wanted) announced)
        (w.spawn announced.effects wanted)

  unfoldable pub agent_spawn : (ℕ → Clock) → Request F → Gateway w → Gateway w × Response
  unfolding spawn_with
  agent_spawn at req g = elim g.spawner [
    | false ↦ (g, refused req "ERROR" "agent spawner is not configured")
    | true ↦
        let role = (string_arg req.args "role").0 in
        ite (dec_str role "") (g, refused req "DENIED" "role is required")
          (spawn_with at req
            (record {
              agent_id = (string_arg req.args "agent_id").0;
              task_id = req.task_id;
              parent_agent_id = req.agent_id;
              role = role;
              reason = (string_arg req.args "reason").0;
              dependencies = string_slice_arg req.args "dependencies";
            })
            g)
  ]
