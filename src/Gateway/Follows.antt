-- ===== src/Gateway/Follows.antt =====
-- internal/syscall/gateway.go: what every handler leaves as it is, and what it only adds to.
use os_complete.Base.{
  ◌≡◌, refl, sym, ap, ◌∙◌, String, List, [], ◌∷◌, ◌++◌, Option, none, some, subst,
}
use mathlib.Core.List.{append_assoc, append-nil}
use os_complete.Blackboard.{Blackboard}
use os_complete.Cvm.Page.{Codec}
use os_complete.Cvm.Sound.{IsValid}
use os_complete.Cvm.Store.{Store}
use os_complete.Events.{Clock, Event, Payload, new_event}
use os_complete.Gateway.Cases.{split_Option}
use os_complete.Gateway.State.{World, Request, Response, Effect, Gateway, publish, note}

-- The store, if there is one, is valid.
abbrev pub StoreIsValid : Codec → Option Store → Type 0
StoreIsValid codec none = Unit
StoreIsValid codec (some s) = IsValid codec s

abbrev pub extend : Option (List Event) → List Event → Option (List Event)
extend none events = none
extend (some log) events = some (log ++ events)

extend-nil : (sink : Option (List Event)) → sink ≡ extend sink []
extend-nil none = refl
extend-nil (some log) = ap some (sym (append-nil log))

pub extend-append :
    (sink : Option (List Event)) (a b : List Event)
    → extend (extend sink a) b ≡ extend sink (a ++ b)
extend-append none a b = refl
extend-append (some log) a b = ap some (append_assoc log a b)

module _ (w : World) where
  open w use {F, codec}

  -- From one state to a later one within a call.
  pub record Follows (g g' : Gateway w) : Type 0 where
    pub records_kept : g'.records ≡ g.records
    pub logged : (events : List Event) × (g'.sink ≡ extend g.sink events)
    pub done : (effects : List (Effect F)) × (g'.effects ≡ g.effects ++ effects)
    pub valid : StoreIsValid codec g.cvm → StoreIsValid codec g'.cvm

  -- A response to the request, from a later state.
  pub record Answers (req : Request F) (g : Gateway w) (r : Gateway w × Response) : Type 0 where
    pub follows : Follows g r.0
    pub answers : r.1.request_id ≡ req.request_id

  module _ {req : Request F} {g : Gateway w} where
    pub answer :
        (h : Gateway w) (resp : Response)
        → Follows g h
        → resp.request_id ≡ req.request_id
        → Answers req g (h, resp)
    answer h resp f e = record { follows = f; answers = e }

  pub Follows-refl : (g : Gateway w) → Follows g g
  Follows-refl g = record {
    records_kept = refl;
    logged = ([], extend-nil g.sink);
    done = ([], sym (append-nil g.effects));
    valid = λ v. v;
  }

  pub Follows-trans : (g h k : Gateway w) → Follows g h → Follows h k → Follows g k
  Follows-trans g h k p q = record {
    records_kept = q.records_kept ∙ p.records_kept;
    logged = (
      p.logged.0 ++ q.logged.0,
      q.logged.1
          ∙ ap (λ sink. extend sink q.logged.0) p.logged.1
          ∙ extend-append g.sink p.logged.0 q.logged.0,
    );
    done = (
      p.done.0 ++ q.done.0,
      q.done.1
          ∙ ap (λ effects. effects ++ q.done.0) p.done.1
          ∙ append_assoc g.effects p.done.0 q.done.0,
    );
    valid = λ v. q.valid (p.valid v);
  }

  pub publish-Follows :
      (now : Clock) (event_type : String) (req : Request F) (payload : Payload) (g : Gateway w)
      → Follows g (publish w now event_type req payload g)
  unfolding publish
  publish-Follows now event_type req payload g =
      let event = new_event now event_type req.task_id req.agent_id "syscall" payload in
      split_Option (Follows g) g.sink (λ e. Follows-refl g)
        (λ log e. record {
          records_kept = refl;
          logged = (event ∷ [], sym (ap (λ sink. extend sink (event ∷ [])) e));
          done = ([], sym (append-nil g.effects));
          valid = λ v. v;
        })

  pub note-Follows : (effect : Effect F) (g : Gateway w) → Follows g (note w effect g)
  unfolding note
  note-Follows effect g = record {
    records_kept = refl;
    logged = ([], extend-nil g.sink);
    done = (effect ∷ [], refl);
    valid = λ v. v;
  }

  -- A change of the blackboard and of the store that keeps the store valid.
  pub changed-Follows :
      (g : Gateway w) (board : Option Blackboard) (cvm' : Option Store)
      → (StoreIsValid codec g.cvm → StoreIsValid codec cvm')
      → Follows g (record g { ipc = board; cvm = cvm' })
  changed-Follows g board cvm' keep = record {
    records_kept = refl;
    logged = ([], extend-nil g.sink);
    done = ([], sym (append-nil g.effects));
    valid = keep;
  }

  pub restored-Follows :
      (g : Gateway w) (s s' : Store)
      → g.cvm ≡ some s
      → (IsValid codec s → IsValid codec s')
      → Follows g (record g { cvm = some s' })
  restored-Follows g s s' e keep =
      changed-Follows g g.ipc (some s') (λ v. keep (subst (StoreIsValid codec) e v))
