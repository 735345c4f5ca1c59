-- ===== src/Replay.antt =====
-- internal/replay/replay.go: the replay of a trace, and internal/trace/recorder.go: its events.
--
-- `time.Parse` and `Before` are parameters. `Run` reads and writes files around `ReplayEvents`, which
-- also fills a map of states that nothing reads; neither is modelled.
pub mod Verdict
mod Tests
use Prim.Native.Char.{code}
use Prim.Native.String.{◌++◌ as append}
use os_complete.Avp.{decimal}
use os_complete.Base.{
  ℕ, suc, ◌+◌, String, List, [], ◌∷◌, Option, none, some, Bool, true, false, ◌==◌, ◌||◌, not,
  length, ite, dec_str, if◌then◌else◌,
}
use os_complete.Base.Attempt.{Attempt, done, fails}
use os_complete.Events.{Value, null, text, num, int, flag, texts, object, Payload, value_of}

pub record TraceEvent : Type 0 where
  pub event_id : String
  pub timestamp : String
  pub type : String
  pub agent_id : String
  pub task_id : String
  pub payload : Payload

pub record Result : Type 0 where
  pub replay_success : Bool
  pub event_count : ℕ
  pub divergence : Bool
  pub divergence_reason : String
  pub original_final_status : String
  pub replay_final_status : String
  pub evidence_mode : String

-- `strings.HasPrefix` and `strings.Contains`.
unfoldable pub has_prefix : String → String → Bool
has_prefix s String.[] = true
has_prefix String.[] (String.◌∷◌ d rest) = false
has_prefix (String.◌∷◌ c s) (String.◌∷◌ d rest) =
    let tail = has_prefix s rest in if code c == code d then tail else false

unfoldable pub contains_text : String → String → Bool
unfolding has_prefix
contains_text String.[] part = has_prefix "" part
contains_text (String.◌∷◌ c s) part = has_prefix (String.◌∷◌ c s) part || contains_text s part

-- The text of a value, and the empty text for one that is none.
text_value : Value → String
text_value (text said) = said
text_value null = ""
text_value (num _) = ""
text_value (int _) = ""
text_value (flag _) = ""
text_value (texts _) = ""
text_value (object _) = ""

-- The last branch of `statusFromEvent`: by the type alone.
status_by_type : String → String
status_by_type event_type = ite (dec_str event_type "task_completed") "completed" (
    ite (dec_str event_type "completed") "completed" (
      ite (dec_str event_type "task_failed") "failed"
        (ite (dec_str event_type "failed") "failed" "")))

is_final_type : String → Bool
unfolding contains_text
is_final_type event_type =
    contains_text event_type "completed"
    || contains_text event_type "failed"
    || contains_text event_type "recovery"

unfoldable pub status_from_event : TraceEvent → String
unfolding value_of text_value status_by_type is_final_type
status_from_event event =
    let final = text_value (value_of "final_status" event.payload) in
    let status = text_value (value_of "status" event.payload) in
    ite (dec_str final "")
      (ite (dec_str status "") (status_by_type event.type)
        (if is_final_type event.type then status else status_by_type event.type))
      final

unfoldable pub diverged : Result → String → Result
diverged result reason = record result {
  divergence = true;
  divergence_reason = reason;
  replay_success = false;
  replay_final_status = "diverged";
  original_final_status =
      ite (dec_str result.original_final_status "") "unknown" result.original_final_status;
}

fallback_id : TraceEvent → ℕ → String
fallback_id event index =
    ite (dec_str event.event_id "") (append "index-" (decimal (suc index) index)) event.event_id

-- The result before the loop.
abbrev pub blank_result : ℕ → Result
blank_result n = record {
  replay_success = false;
  event_count = n;
  divergence = false;
  divergence_reason = "";
  original_final_status = "unknown";
  replay_final_status = "unknown";
  evidence_mode = "real-runtime";
}

-- A status that is not empty is the original's status from here on.
unfoldable pub noted : String → Result → Result
noted status result = record result {
  original_final_status = ite (dec_str status "") result.original_final_status status;
}

-- What follows the loop, for a trace with events or without.
unfoldable pub finish : Bool → Result → Result
finish has_events result =
    let original =
      if has_events
      then ite (dec_str result.original_final_status "unknown") "completed"
          result.original_final_status
      else result.original_final_status in
    record result {
      original_final_status = original;
      replay_final_status = original;
      replay_success = not result.divergence;
    }

module _ (Time : Type 0) (before : Time → Time → Bool) where
  -- Earlier than the previous event, if there is one.
  unfoldable pub is_early : Option Time → Time → Bool
  is_early none time = false
  is_early (some previous) time = before time previous

module _ (Time : Type 0) (parse : String → Attempt Time) (before : Time → Time → Bool) where
  -- The loop from the event number `i`; `has_events` is of the whole trace.
  unfoldable pub replay_from : Bool → ℕ → Option Time → List TraceEvent → Result → Result
  unfolding is_early noted status_from_event diverged fallback_id finish
  replay_from has_events i previous [] result = finish has_events result
  replay_from has_events i previous (event ∷ rest) result = elim (parse event.timestamp) [
    | fails error ↦
        diverged result
          (append "invalid timestamp for event " (append (fallback_id event i) (append ": " error)))
    | done time ↦ elim (is_early Time before previous time) [
      | true ↦ diverged result (append "event order violation at " (fallback_id event i))
      | false ↦
          replay_from has_events (i + 1) (some time) rest (noted (status_from_event event) result)
    ]
  ]

  is_some : List TraceEvent → Bool
  is_some [] = false
  is_some (event ∷ rest) = true

  unfoldable pub replay_events : List TraceEvent → Result
  unfolding replay_from is_some
  replay_events events = replay_from (is_some events) 0 none events (blank_result (length events))
