-- ===== src/Gateway/Audit.antt =====
-- internal/syscall/gateway.go: `Handle`, the events and the record of a call, and runs of calls.
use os_complete.Base.{
  ◌≡◌, ◌<◌, refl, sym, ap, ◌∙◌, String, List, [], ◌∷◌, ◌++◌, ℕ, zero, suc, ◌+◌, ite, dec_str, arith,
}
use os_complete.Cvm.Page.{IsLawful}
use os_complete.Events.{Clock, Event, Payload, new_event}
use os_complete.Gateway.{
  Call, call_named, materializes, writes_delta, publishes, polls, calls_llm, runs_tool, spawns,
  reports, unsupported, duration_of, execute_call, execute, identified, started, record_of,
  finished, recorded, handle,
}
use os_complete.Gateway.Cases.{split_Option}
use os_complete.Gateway.Exec.{tool_exec-Answers}
use os_complete.Gateway.Follows.{
  StoreIsValid, extend, extend-append, Follows, Answers, Follows-refl, publish-Follows, answer,
}
use os_complete.Gateway.Handlers.{
  ipc_publish-Answers, ipc_poll-Answers, llm_call-Answers, agent_report-Answers,
  agent_spawn-Answers,
}
use os_complete.Gateway.Sound.{context_materialize-Answers, context_write_delta-Answers}
use os_complete.Gateway.State.{World, Request, Response, Record, Gateway, publish, refused}

module _ (w : World) where
  open w use {F, codec, Context, json_args, json_payload}

  -- An event about the request.
  abbrev pub IsAbout : Request F → String → Event → Type 0
  IsAbout req event_type event =
      (event.type ≡ event_type)
      × (event.agent_id ≡ req.agent_id)
      × (event.task_id ≡ req.task_id)
      × (event.source ≡ "syscall")

  publish-Event :
      (now : Clock) (event_type : String) (req : Request F) (payload : Payload) (g : Gateway w)
      → (event : Event) × ((publish w now event_type req payload g).sink
          ≡ extend g.sink (event ∷ []))
        × IsAbout req event_type event
  unfolding publish new_event
  publish-Event now event_type req payload g =
      let event = new_event now event_type req.task_id req.agent_id "syscall" payload in
      (
        event,
        split_Option (λ (h : Gateway w). h.sink ≡ extend g.sink (event ∷ [])) g.sink
            (λ e. e ∙ sym (ap (λ sink. extend sink (event ∷ [])) e))
            (λ log e. sym (ap (λ sink. extend sink (event ∷ [])) e)),
        (refl, refl, refl, refl),
      )

  -- The gateway after an event about the request, and that event.
  abbrev Told : Request F → String → Gateway w → Gateway w → Type 0
  Told req event_type g h =
      Follows w g h
      × (h.records ≡ g.records)
      × ((event : Event) × (h.sink ≡ extend g.sink (event ∷ [])) × IsAbout req event_type event)

  publish-Told :
      (now : Clock) (event_type : String) (req : Request F) (payload : Payload) (g : Gateway w)
      → Told req event_type g (publish w now event_type req payload g)
  publish-Told now event_type req payload g =
      let p = publish-Follows w now event_type req payload g in
      (p, p.records_kept, publish-Event now event_type req payload g)

  started-Told :
      (now : Clock) (req : Request F) (g : Gateway w)
      → Told req "syscall.started" g (started w now req g)
  unfolding started
  started-Told now req g = publish-Told now _ req _ g

  finished-Told :
      (now : Clock) (duration : ℕ) (req : Request F) (resp : Response) (g : Gateway w)
      → Told req "syscall.finished" g (finished w now duration req resp g)
  unfolding finished
  finished-Told now duration req resp g = publish-Told now _ req _ g

  -- What one call leaves behind: the record of it, and its events between two that bracket them.
  pub record Audited (at : ℕ → Clock) (req : Request F) (g : Gateway w) (r : Gateway w × Response)
      : Type 0 where
    pub entry : Record
    pub recorded_once : r.0.records ≡ g.records ++ entry ∷ []
    pub same_id :
        (entry.id ≡ r.1.request_id)
        × (r.1.request_id ≡ ite (dec_str req.request_id "") (at 0 0).formatted req.request_id)
    pub same_call : (entry.agent_id ≡ req.agent_id) × (entry.name ≡ req.name)
    pub same_outcome : (entry.status ≡ r.1.status) × (entry.error ≡ r.1.error)
    pub sizes :
        (entry.input_size ≡ json_args req.args) × (entry.output_size ≡ json_payload r.1.payload)
    pub lasts : 0 < entry.duration_ms
    pub first : Event
    pub last : Event
    pub between : List Event
    pub bracketed : r.0.sink ≡ extend g.sink (first ∷ between ++ last ∷ [])
    pub about : IsAbout req "syscall.started" first × IsAbout req "syscall.finished" last

  -- A call of `Handle`: its context, its readings of the clock, the time it took and the request.
  abbrev pub Handled : Type 0
  Handled = Context × (ℕ → Clock) × ℕ × Request F

  unfoldable pub serve : List Handled → Gateway w → Gateway w
  serve [] g = g
  serve ((ctx, at, elapsed, req) ∷ calls) g = serve calls (handle w ctx at elapsed req g).0

module _ (w : World) (lawful : IsLawful w.codec) where
  open w use {F, codec, Context}

  execute_call-Answers :
      (call : Call) (ctx : Context) (at : ℕ → Clock) (req : Request F) (g : Gateway w)
      → Answers w req g (execute_call w call ctx at req g)
  unfolding execute_call refused
  execute_call-Answers materializes ctx at req g = context_materialize-Answers w lawful at req g
  execute_call-Answers writes_delta ctx at req g = context_write_delta-Answers w lawful at req g
  execute_call-Answers publishes ctx at req g = ipc_publish-Answers w at req g
  execute_call-Answers polls ctx at req g = ipc_poll-Answers w at req g
  execute_call-Answers calls_llm ctx at req g = llm_call-Answers w ctx at req g
  execute_call-Answers runs_tool ctx at req g = tool_exec-Answers w req g
  execute_call-Answers spawns ctx at req g = agent_spawn-Answers w at req g
  execute_call-Answers reports ctx at req g = agent_report-Answers w req g
  execute_call-Answers unsupported ctx at req g = answer w g _ (Follows-refl w g) refl

  execute-Answers :
      (ctx : Context) (at : ℕ → Clock) (req : Request F) (g : Gateway w)
      → Answers w req g (execute w ctx at req g)
  unfolding execute
  execute-Answers ctx at req g = execute_call-Answers (call_named req.name) ctx at req g

  duration_of-pos : (elapsed : ℕ) → 0 < duration_of elapsed
  unfolding duration_of
  duration_of-pos zero = omega arith
  duration_of-pos (suc n) = omega arith

  recorded-Audited :
      (at : ℕ → Clock) (elapsed : ℕ) (req : Request F) (g : Gateway w) (r : Gateway w × Response)
      → Answers w (identified w (at 0) req) (started w (at 2) (identified w (at 0) req) g) r
      → Audited w at req g (recorded w at (duration_of elapsed) (identified w (at 0) req) r)
        × (StoreIsValid codec g.cvm
            → StoreIsValid codec
                (recorded w at (duration_of elapsed) (identified w (at 0) req) r).0.cvm)
  unfolding recorded record_of identified
  recorded-Audited at elapsed req g (h, resp) a =
      let req' = identified w (at 0) req in
      let e = record_of w (at 1) (at 3) (duration_of elapsed) req' resp in
      let noted : Gateway w = record h { records = h.records ++ e ∷ [] } in
      let (p, kept, (start, begun, about_start)) = started-Told w (at 2) req' g in
      let (q, kept', (end, closed, about_end)) =
        finished-Told w (at 4) (duration_of elapsed) req' resp noted in
      let events = a.follows.logged.0 in
      (
        record {
          entry = e;
          recorded_once = kept' ∙ ap (λ rs. rs ++ e ∷ []) (a.follows.records_kept ∙ kept);
          same_id = (sym a.answers, a.answers);
          same_call = (refl, refl);
          same_outcome = (refl, refl);
          sizes = (refl, refl);
          lasts = duration_of-pos elapsed;
          first = start;
          last = end;
          between = events;
          bracketed =
              closed
              ∙ ap (λ sink. extend sink (end ∷ []))
                  (a.follows.logged.1
                    ∙ ap (λ sink. extend sink events) begun
                    ∙ extend-append g.sink (start ∷ []) events)
              ∙ extend-append g.sink (start ∷ events) (end ∷ []);
          about = (about_start, about_end);
        },
        λ v. q.valid (a.follows.valid (p.valid v)),
      )

  handle-both :
      (ctx : Context) (at : ℕ → Clock) (elapsed : ℕ) (req : Request F) (g : Gateway w)
      → Audited w at req g (handle w ctx at elapsed req g)
        × (StoreIsValid codec g.cvm → StoreIsValid codec (handle w ctx at elapsed req g).0.cvm)
  unfolding handle
  handle-both ctx at elapsed req g =
      recorded-Audited at elapsed req g _ (execute-Answers ctx (λ k. at (5 + k)) _ _)

  -- Whatever is called and whatever comes of it, Handle appends one record to the records of the gateway,
  -- with the id, the status and the error of the response, the agent and the name of the request, the
  -- sizes of both and a duration of at least a millisecond; the response has the id of the request, or the
  -- time of the call if that is empty; and the events of the call stand between one of the type
  -- syscall.started and one of the type syscall.finished about it, after all that the sink had. The codec
  -- of the store is one that restores what it compresses and whose hash tells contents apart.
  pub handle-Audited :
      (ctx : Context) (at : ℕ → Clock) (elapsed : ℕ) (req : Request F) (g : Gateway w)
      → Audited w at req g (handle w ctx at elapsed req g)
  handle-Audited ctx at elapsed req g = (handle-both ctx at elapsed req g).0

  -- A run of calls, of any names and arguments, refused and failed ones included, keeps the context store
  -- of the gateway valid if it has one: no page twice, every page readable and under its own hash, every
  -- page table made of pages of the store. The codec is one that restores what it compresses and whose
  -- hash tells contents apart.
  pub serve-IsValid :
      (calls : List (Handled w)) (g : Gateway w)
      → StoreIsValid codec g.cvm
      → StoreIsValid codec (serve w calls g).cvm
  unfolding serve
  serve-IsValid [] g v = v
  serve-IsValid ((ctx, at, elapsed, req) ∷ calls) g v =
      serve-IsValid calls _ ((handle-both ctx at elapsed req g).1 v)
