-- ===== src/Supervisor/Log.antt =====
-- internal/supervisor/supervisor.go: what the calls of `Record` leave in the log and in the sink,
-- whatever they interleave.
use mathlib.Core.List.{Perm, append-nil, append_assoc, perm_middle}
use mathlib.Core.List.Perm
use os_complete.Base.{
  ◌≡◌, refl, sym, subst, inl, inr, ℕ, zero, suc, List, [], ◌∷◌, ◌++◌, Option, none, some, Dec-cases,
  dec_str, Option-cases,
}
use os_complete.Base.Cases.{split_Option}
use os_complete.Events.{Clock, later, Event, new_event, null, object}
use os_complete.Supervisor.{
  Fault, FaultRecord, Manager, new_manager, status_of, new_record, append_record, publish_record,
  fault_payload, record_fault,
}
use os_complete.Supervisor.Calls.{
  Running, Step, appends, publishes, records, take_out, step, run, calls, IsRecordOf, Announces,
  Pairs, Logged,
}

Pairs-snoc :
    {A B : Type 0} (P : A → B → Type 0) (xs : List A) (ys : List B) (x : A) (y : B)
    → Pairs P xs ys
    → P x y
    → Pairs P (xs ++ x ∷ []) (ys ++ y ∷ [])
Pairs-snoc P [] [] x y h p = (p, tt)
Pairs-snoc P [] (b ∷ ys) x y h p = absurd h
Pairs-snoc P (a ∷ xs) [] x y h p = absurd h
Pairs-snoc P (a ∷ xs) (b ∷ ys) x y h p = (h.0, Pairs-snoc P xs ys x y h.1 p)

new_record-IsRecordOf :
    (now : Clock) (fault : Fault) → IsRecordOf (now, fault) (new_record now fault)
unfolding new_record status_of
new_record-IsRecordOf now fault = record {
  id_is = refl;
  time_is = refl;
  type_is = refl;
  task_is = refl;
  agent_is = refl;
  action_is = refl;
  details_are = refl;
  status_is = elim (Dec-cases (dec_str fault.recovery_action "")) [
    | inl (p, e) ↦ inl (p, rw e)
    | inr (n, e) ↦ inr (n, rw e)
  ];
}

abbrev event_of : Clock → FaultRecord → Event
event_of now made =
    new_event now "supervisor.detected" made.task_id made.agent_id "supervisor" (fault_payload made)

event_of-Announces : (now : Clock) (made : FaultRecord) → Announces made (event_of now made)
unfolding new_event fault_payload
event_of-Announces now made = elim (Option-cases made.details) [
  | inl e ↦ record {
    type_is = refl;
    source_is = refl;
    task_is = refl;
    agent_is = refl;
    details = null;
    details_are = inl (e, refl);
    payload_is = rw e;
  }
  | inr (given, e) ↦ record {
    type_is = refl;
    source_is = refl;
    task_is = refl;
    agent_is = refl;
    details = object given;
    details_are = inr (given, e, refl);
    payload_is = rw e;
  }
]

-- What is left once a record is taken out.
abbrev IsOut : List FaultRecord → Option (FaultRecord × List FaultRecord) → Type 0
IsOut pending none = Unit
IsOut pending (some found) = Perm pending (found.0 ∷ found.1)

take_out-IsOut : (n : ℕ) (pending : List FaultRecord) → IsOut pending (take_out n pending)
unfolding take_out
take_out-IsOut n [] = tt
take_out-IsOut zero (x ∷ xs) = Perm.refl (x ∷ xs)
take_out-IsOut (suc n) (x ∷ xs) =
    split_Option (IsOut (x ∷ xs)) (take_out n xs) (λ _. tt)
      (λ found e.
        Perm.trans (Perm.cons x (subst (IsOut xs) e (take_out-IsOut n xs)))
          (Perm.swap found.0 x found.1))

-- A publication adds the record's event to the sink.
publish_record-sink :
    (now : Clock) (made : FaultRecord) (m : Manager) (log : List Event)
    → m.sink ≡ some log
    → ((publish_record now made m).sink ≡ some (log ++ event_of now made ∷ []))
      × ((publish_record now made m).records ≡ m.records)
unfolding publish_record
publish_record-sink now made m log e = rw e (refl, refl)

appends-Logged :
    (now : Clock) (fault : Fault) (begun : List (Clock × Fault)) (s : Running)
    → Logged begun s
    → Logged (begun ++ (now, fault) ∷ []) (step (appends now fault) s)
unfolding step append_record
appends-Logged now fault begun s v =
    let made = new_record now fault in
    record {
      recorded =
          Pairs-snoc IsRecordOf begun s.manager.records (now, fault) made v.recorded
            (new_record-IsRecordOf now fault);
      log = v.log;
      sink_is = v.sink_is;
      told = v.told;
      announced = v.announced;
      once =
          subst (Perm (s.manager.records ++ made ∷ [])) (append_assoc v.told s.pending (made ∷ []))
            (Perm.append_right (made ∷ []) v.once);
    }

publishes-Logged :
    (now : Clock) (made : FaultRecord) (rest : List FaultRecord) (begun : List (Clock × Fault))
    (s : Running)
    → Perm s.pending (made ∷ rest)
    → Logged begun s
    → Logged begun (record { manager = publish_record now made s.manager; pending = rest })
publishes-Logged now made rest begun s p v =
    let (sink, same) = publish_record-sink now made s.manager v.log v.sink_is in
    record {
      recorded = subst (Pairs IsRecordOf begun) (sym same) v.recorded;
      log = v.log ++ event_of now made ∷ [];
      sink_is = sink;
      told = v.told ++ made ∷ [];
      announced =
          Pairs-snoc Announces v.told v.log made _ v.announced (event_of-Announces now made);
      once =
          rw (same, append_assoc v.told (made ∷ []) rest)
            (Perm.trans v.once (Perm.append_left v.told p));
    }

records-Logged :
    (now : Clock) (fault : Fault) (begun : List (Clock × Fault)) (s : Running)
    → Logged begun s
    → Logged (begun ++ (now, fault) ∷ []) (step (records now fault) s)
unfolding step record_fault
records-Logged now fault begun s v =
    let made = new_record now fault in
    let h : Running = record {
      manager = append_record made s.manager;
      pending = s.pending ++ made ∷ [];
    } in
    publishes-Logged (later 1 now) made s.pending (begun ++ (now, fault) ∷ []) h
      (subst (λ l. Perm (s.pending ++ made ∷ []) (made ∷ l)) (append-nil s.pending)
        (perm_middle s.pending []))
      (appends-Logged now fault begun s v)

step-Logged :
    (next : Step) (begun : List (Clock × Fault)) (s : Running)
    → Logged begun s
    → Logged (begun ++ calls (next ∷ [])) (step next s)
unfolding calls
step-Logged (appends now fault) begun s v = appends-Logged now fault begun s v
step-Logged (records now fault) begun s v = records-Logged now fault begun s v
step-Logged (publishes n now) begun s v =
    unfold step in
    rw append-nil (
      split_Option (Logged begun) (take_out n s.pending) (λ _. v)
        (λ found e.
          publishes-Logged now found.0 found.1 begun s
            (subst (IsOut s.pending) e (take_out-IsOut n s.pending)) v))

calls-cons :
    (next : Step) (steps : List Step) → calls (next ∷ steps) ≡ calls (next ∷ []) ++ calls steps
unfolding calls
calls-cons (appends now fault) steps = refl
calls-cons (publishes n now) steps = refl
calls-cons (records now fault) steps = refl

run-Logged :
    (steps : List Step) (begun : List (Clock × Fault)) (s : Running)
    → Logged begun s
    → Logged (begun ++ calls steps) (run steps s)
unfolding run calls
run-Logged [] begun s v = rw append-nil v
run-Logged (next ∷ steps) begun s v =
    rw (calls-cons next steps, ← append_assoc begun (calls (next ∷ [])) (calls steps))
      (run-Logged steps (begun ++ calls (next ∷ [])) (step next s) (step-Logged next begun s v))

-- However the calls of Record on a new manager with a sink interleave, the log has one record of
-- each call that has appended, in that order: the fault as it was given, the time and the id of the
-- call's clock, and the status OPEN if there is no recovery action and else RECOVERED. The sink has
-- one event of each of these records, with its fields, but of those whose calls have yet to publish.
pub run-new_manager :
    (steps : List Step)
    → Logged (calls steps) (run steps (record { manager = new_manager (some []); pending = [] }))
unfolding new_manager
run-new_manager steps =
    run-Logged steps [] _ (record {
      recorded = tt;
      log = [];
      sink_is = refl;
      told = [];
      announced = tt;
      once = Perm.nil;
    })
