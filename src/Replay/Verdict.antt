-- ===== src/Replay/Verdict.antt =====
-- internal/replay/replay.go: which traces replay, and with what status.
use os_complete.Base.{
  ◌≡◌, ◌↔◌, ◌≢◌, refl, sym, ap, ◌∙◌, ◌⊎◌, inl, inr, ℕ, ◌+◌, String, List, [], ◌∷◌, Option, none,
  some, Bool, true, false, not, length, ite, dec_str, if◌then◌else◌, Bool-cases, subst,
}
use os_complete.Base.Attempt.{Attempt, done, Attempt-cases, done_injective, done-ne-fails}
use os_complete.Replay.{
  TraceEvent, Result, status_from_event, diverged, noted, finish, is_early, replay_from, is_some,
  blank_result, replay_events,
}

-- The last status that is not empty, else the first argument.
abbrev pub last_status : String → List TraceEvent → String
last_status status [] = status
last_status status (event ∷ rest) =
    last_status (ite (dec_str (status_from_event event) "") status (status_from_event event)) rest

-- The status of a whole trace.
abbrev pub final_status : List TraceEvent → String
final_status [] = "unknown"
final_status (event ∷ rest) =
    let last = last_status "unknown" (event ∷ rest) in ite (dec_str last "unknown") "completed" last

true-ne-false : true ≢ false
true-ne-false e = cc

module _ (Time : Type 0) (parse : String → Attempt Time) (before : Time → Time → Bool) where
  -- Not before the previous time, if there is one.
  abbrev pub IsOnTime : Option Time → Time → Type 0
  IsOnTime none time = Unit
  IsOnTime (some previous) time = before time previous ≡ false

  -- Every timestamp can be read, and none is before the one that precedes it.
  abbrev pub Chronological : Option Time → List TraceEvent → Type 0
  Chronological previous [] = Unit
  Chronological previous (event ∷ rest) =
      (time : Time) × (parse event.timestamp ≡ done time)
      × IsOnTime previous time
      × Chronological (some time) rest

  is_early-IsOnTime :
      (previous : Option Time) (time : Time)
      → (is_early Time before previous time ≡ false) ↔ IsOnTime previous time
  unfolding is_early
  is_early-IsOnTime none time = (λ e. tt, λ o. refl)
  is_early-IsOnTime (some p) time = (λ e. e, λ o. o)

  -- A trace that replays with its status, or one that diverges.
  record Ends (previous : Option Time) (has_events : Bool) (events : List TraceEvent)
      (start r : Result) : Type 0 where
    counted : r.event_count ≡ start.event_count
    verdict :
        (Chronological previous events
          × (r.divergence ≡ start.divergence)
          × (r.replay_success ≡ not start.divergence)
          × (r.original_final_status ≡ (
              if has_events
              then ite
                  (dec_str (last_status start.original_final_status events) "unknown")
                  "completed"
                  (last_status start.original_final_status events)
              else last_status start.original_final_status events))
          × (r.replay_final_status ≡ r.original_final_status))
        ⊎ ((¬ Chronological previous events)
            × (r.divergence ≡ true)
            × (r.replay_success ≡ false)
            × (r.replay_final_status ≡ "diverged"))

  replay_from-Ends :
      (has_events : Bool) (i : ℕ) (previous : Option Time) (events : List TraceEvent)
      (start : Result)
      → Ends previous has_events events start
          (replay_from Time parse before has_events i previous events start)
  unfolding replay_from finish diverged
  replay_from-Ends has_events i previous [] start = record {
    counted = refl;
    verdict = inl (tt, refl, refl, refl, refl);
  }
  replay_from-Ends has_events i previous (event ∷ rest) start =
      let next = λ (time : Time).
        replay_from-Ends has_events (i + 1) (some time) rest
          (noted (status_from_event event) start) in
      elim (Attempt-cases (parse event.timestamp)) [
        | inl (error, e) ↦
            rw (e, replay_from)
              (record {
                counted = refl;
                verdict = inr (λ c. done-ne-fails (sym c.1 ∙ e), refl, refl, refl);
              })
        | inr (time, e) ↦ elim (Bool-cases (is_early Time before previous time)) [
          | inl early ↦
              rw (e, early, replay_from)
                (record {
                  counted = refl;
                  verdict = inr (
                    λ c. true-ne-false (
                        sym early
                        ∙ ap (is_early Time before previous) (done_injective (sym e ∙ c.1))
                        ∙ (is_early-IsOnTime previous c.0).1 c.2),
                    refl,
                    refl,
                    refl,
                  );
                })
          | inr on_time ↦
              rw (e, on_time, replay_from)
                (record {
                  counted = (next time).counted;
                  verdict = elim (next time).verdict [
                    | inl (c, d, ok, last, same) ↦ inl (
                      (time, e, (is_early-IsOnTime previous time).0 on_time, c),
                      d,
                      ok,
                      last,
                      same,
                    )
                    | inr (c, d, ok, last) ↦ inr (
                      λ d. c (
                          subst (λ t. Chronological (some t) rest) (done_injective (sym d.1 ∙ e))
                            d.3),
                      d,
                      ok,
                      last,
                    )
                  ];
                })
        ]
      ]

  -- A trace replays exactly if every timestamp can be read and none is before the one that precedes it.
  -- Then there is no divergence, and both final statuses are the last status that an event of the trace
  -- reports, "completed" if none does or that is "unknown", and "unknown" for a trace without events. A
  -- trace that does not replay is reported as one that diverges, and without success. The count is that of
  -- all the events in both cases.
  pub replay_events_lem :
      (events : List TraceEvent)
      → let r = replay_events Time parse before events in
        (r.event_count ≡ length events)
        × ((Chronological none events
              × (r.divergence ≡ false)
              × (r.replay_success ≡ true)
              × (r.original_final_status ≡ final_status events)
              × (r.replay_final_status ≡ r.original_final_status))
            ⊎ ((¬ Chronological none events)
                × (r.divergence ≡ true)
                × (r.replay_success ≡ false)
                × (r.replay_final_status ≡ "diverged")))
  unfolding replay_events is_some
  replay_events_lem [] =
      let ends = replay_from-Ends false 0 none [] (blank_result 0) in (ends.counted, ends.verdict)
  replay_events_lem (event ∷ rest) =
      let ends =
        replay_from-Ends true 0 none (event ∷ rest) (blank_result (length (event ∷ rest))) in
      (ends.counted, ends.verdict)
