-- ===== src/Gateway.antt =====
-- internal/syscall/gateway.go: the calls of agents into the runtime, from the request to its record.
--
-- A handler is a function from a request and the gateway to the gateway and the response; it runs
-- alone. What the world answers is in `World`.
pub mod Args
pub mod Paths
pub mod State
pub mod Context
pub mod Ipc
pub mod Agents
pub mod Tools
pub mod Cases
pub mod Follows
pub mod Sound
pub mod Handlers
pub mod Settle
pub mod Exec
mod Prepares
pub mod Audit
pub mod Confine
pub mod Poll
pub mod Workspaces
mod Tests
use Prim.Native.String.{◌++◌ as append}
use os_complete.Base.{
  ℕ, zero, suc, ◌+◌, String, List, [], ◌∷◌, ◌++◌, Option, none, some, ite, dec_str, Bool,
}
use os_complete.Events.{Clock, fields, text, num}
use os_complete.Gateway.State.{World, Request, Response, Record, Gateway, publish, refused}
use os_complete.Gateway.Context.{context_materialize, context_write_delta}
use os_complete.Gateway.Ipc.{ipc_publish, ipc_poll}
use os_complete.Gateway.Agents.{llm_call, agent_spawn, agent_report, syscall_evidence}
use os_complete.Gateway.Tools.{tool_exec}

-- The names that `execute` tells apart.
pub data Call : Type 0 where
  materializes : Call
  writes_delta : Call
  publishes : Call
  polls : Call
  calls_llm : Call
  runs_tool : Call
  spawns : Call
  reports : Call
  unsupported : Call

unfoldable pub call_named : String → Call
call_named name = ite (dec_str name "context.materialize") materializes (
    ite (dec_str name "context.write_delta") writes_delta (
      ite (dec_str name "ipc.publish") publishes (
        ite (dec_str name "ipc.poll") polls (
          ite (dec_str name "llm.call") calls_llm (
            ite (dec_str name "tool.exec") runs_tool (
              ite (dec_str name "agent.spawn") spawns
                (ite (dec_str name "agent.report") reports unsupported)))))))

-- At least a millisecond.
unfoldable pub duration_of : ℕ → ℕ
duration_of zero = 1
duration_of (suc n) = suc n

module _ (w : World) where
  open w use {F, Context, json_args, json_payload}

  unfoldable pub execute_call :
      Call → Context → (ℕ → Clock) → Request F → Gateway w → Gateway w × Response
  execute_call materializes ctx at req g = context_materialize w at req g
  execute_call writes_delta ctx at req g = context_write_delta w at req g
  execute_call publishes ctx at req g = ipc_publish w at req g
  execute_call polls ctx at req g = ipc_poll w at req g
  execute_call calls_llm ctx at req g = llm_call w ctx at req g
  execute_call runs_tool ctx at req g = tool_exec w req g
  execute_call spawns ctx at req g = agent_spawn w at req g
  execute_call reports ctx at req g = agent_report w req g
  execute_call unsupported ctx at req g =
      (g, refused req "DENIED" (append "unsupported syscall " req.name))

  unfoldable pub execute : Context → (ℕ → Clock) → Request F → Gateway w → Gateway w × Response
  unfolding call_named execute_call
  execute ctx at req g = execute_call (call_named req.name) ctx at req g

  unfoldable pub identified : Clock → Request F → Request F
  identified now req = record req {
    request_id = ite (dec_str req.request_id "") (now 0).formatted req.request_id;
  }

  unfoldable pub started : Clock → Request F → Gateway w → Gateway w
  started now req g =
      publish w now "syscall.started" req
        (fields (
          ("name", text req.name)
          ∷ ("request_id", text req.request_id)
          ∷ ("input_size", num (json_args req.args))
          ∷ []))
        g

  unfoldable pub record_of : Clock → Clock → ℕ → Request F → Response → Record
  unfolding syscall_evidence
  record_of start end duration req resp = record {
    id = req.request_id;
    agent_id = req.agent_id;
    name = req.name;
    start_time = (start 0).unix_milli;
    end_time = (end 0).unix_milli;
    duration_ms = duration;
    status = resp.status;
    error = resp.error;
    input_size = json_args req.args;
    output_size = json_payload resp.payload;
    evidence = syscall_evidence req.name resp.payload duration;
  }

  unfoldable pub finished : Clock → ℕ → Request F → Response → Gateway w → Gateway w
  finished now duration req resp g =
      publish w now "syscall.finished" req
        (fields (
          ("name", text req.name)
          ∷ ("request_id", text req.request_id)
          ∷ ("duration_ms", num duration)
          ∷ ("status", text resp.status)
          ∷ ("error", text resp.error)
          ∷ ("input_size", num (json_args req.args))
          ∷ ("output_size", num (json_payload resp.payload))
          ∷ []))
        g

  -- What `Handle` does once the handler has answered.
  unfoldable pub recorded :
      (ℕ → Clock) → ℕ → Request F → Gateway w × Response → Gateway w × Response
  unfolding record_of finished
  recorded at duration req (g, resp) = (
    finished (at 4) duration req resp
        (record g { records = g.records ++ record_of (at 1) (at 3) duration req resp ∷ [] }),
    resp,
  )

  -- `Handle`: `elapsed` is the time between its two readings of the clock, in milliseconds.
  unfoldable pub handle : Context → (ℕ → Clock) → ℕ → Request F → Gateway w → Gateway w × Response
  unfolding identified started execute recorded duration_of
  handle ctx at elapsed req g =
      let req' = identified (at 0) req in
      recorded at (duration_of elapsed) req'
        (execute ctx (λ k. at (5 + k)) req' (started (at 2) req' g))
