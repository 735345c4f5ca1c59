-- ===== src/Gateway/Poll.antt =====
-- internal/syscall/gateway.go: what `ipc.poll` mounts, and what it takes from the topic.
use os_complete.Base.{
  ◌≡◌, ◌≢◌, refl, sym, ap, ◌∙◌, ◌⊎◌, inl, inr, String, List, [], ◌∷◌, Option, none, some, Bool,
  true, ℕ, dec_str, ite, lookup, lookup_or, insert, lookup-insert, All, arith, if_pos, subst,
}
use os_complete.Blackboard.{Blackboard, Message, poll}
use os_complete.Blackboard.Delivery.{poll-poll}
use os_complete.Cvm.Page as CvmPage
use os_complete.Cvm.Page.{Page, Result, contains, ok, err}
use os_complete.Cvm.References.{contains-append}
use os_complete.Cvm.Sound.{publish-pages, publish-tables}
use os_complete.Cvm.Store.{Store, table, attach_page, mount_page}
use os_complete.Events.{Clock, later, Payload}
use os_complete.Gateway.Args.{string_arg}
use os_complete.Gateway.Cases.{split_Option, split_if, split_Result, split_ite}
use os_complete.Gateway.Ipc.{mount_messages, mount_polled, poll_topic, ipc_poll}
use os_complete.Gateway.State.{World, Request, Response, Gateway, publish, accepted, refused}

-- The agent's table has the page.
abbrev pub Mounted : Store → String → String → Type 0
Mounted s agent_id page_id = contains page_id (table s agent_id) ≡ true

-- Some message is of a page that the store has not.
abbrev pub SomeGone : Store → List Message → Type 0
SomeGone s [] = ⊥
SomeGone s (message ∷ rest) = (lookup dec_str message.page_id s.pages ≡ none) ⊎ SomeGone s rest

-- What mounting does to the agent's table and to the set of the pages.
record Mounts (agent_id page_id : String) (s : Store) (r : Store × Result (Unit {0})) : Type 0 where
  stays : (id : String) → Mounted s agent_id id → Mounted r.0 agent_id id
  adds_none : (id : String) → lookup dec_str id r.0.pages ≡ none → lookup dec_str id s.pages ≡ none
  outcome :
      ((r.1 ≡ ok tt) × Mounted r.0 agent_id page_id)
      ⊎ ((e : CvmPage.Error) × (r.1 ≡ err e) × (lookup dec_str page_id s.pages ≡ none))

ok-ne-err : {A : Type 0} {x : A} {e : CvmPage.Error} → ok x ≢ err e
ok-ne-err p = cc

some_injective {ℓ} : {A : Type ℓ} {x y : A} → some x ≡ some y → x ≡ y
some_injective p = cc

some-ne-none {ℓ} : {A : Type ℓ} {x : A} → some x ≢ none
some-ne-none p = cc

insert-none :
    (id page_id : String) (page : Page) (pages : List (String × Page))
    → lookup dec_str id (insert dec_str page_id page pages) ≡ none
    → lookup dec_str id pages ≡ none
insert-none id page_id page pages e = ground (arith, lookup-insert dec_str page_id id page pages)

ite-true : {A : Type 0} (d : Dec A) {b : Bool} → b ≡ true → ite d true b ≡ true
ite-true (yes _) e = refl
ite-true (no _) e = e

table-insert :
    (agent_id : String) (ids : List String) (tables : List (String × List String))
    → lookup_or dec_str [] agent_id (insert dec_str agent_id ids tables) ≡ ids
unfolding lookup_or
table-insert agent_id ids tables =
    ap (λ o. elim o [ none ↦ [] | some v ↦ v ])
      (lookup-insert dec_str agent_id agent_id ids tables
        ∙ if_pos (dec_str agent_id agent_id) refl _ _)

attach_page-contains :
    (now : Clock) (agent_id page_id : String) (page : Page) (s : Store) (id : String)
    → contains id (table (attach_page now agent_id page_id page s) agent_id)
      ≡ ite (dec_str page_id id) true (contains id (table s agent_id))
unfolding attach_page
attach_page-contains now agent_id page_id page s id =
    ap (λ tables. contains id (lookup_or dec_str [] agent_id tables)) (publish-tables _ _ _ _ _ _)
    ∙ ap (contains id) (table-insert agent_id _ s.page_tables)
    ∙ contains-append id page_id (table s agent_id)

attach_page-lookup :
    (now : Clock) (agent_id page_id : String) (page : Page) (s : Store) (id : String)
    → lookup dec_str id (attach_page now agent_id page_id page s).pages ≡ none
    → lookup dec_str id s.pages ≡ none
unfolding attach_page
attach_page-lookup now agent_id page_id page s id e =
    insert-none id page_id _ s.pages
      (ap (λ pages. lookup dec_str id pages) (sym (publish-pages _ _ _ _ _ _)) ∙ e)

attach_page-Mounts :
    (now : Clock) (agent_id page_id : String) (page : Page) (s : Store)
    → Mounts agent_id page_id s (attach_page now agent_id page_id page s, ok tt)
attach_page-Mounts now agent_id page_id page s =
    let grown = attach_page-contains now agent_id page_id page s in
    record {
      stays = λ id m. grown id ∙ ite-true (dec_str page_id id) m;
      adds_none = attach_page-lookup now agent_id page_id page s;
      outcome = inl (refl, grown page_id ∙ if_pos (dec_str page_id page_id) refl _ _);
    }

mount_page-Mounts :
    (now : Clock) (agent_id page_id : String) (s : Store)
    → Mounts agent_id page_id s (mount_page now agent_id page_id s)
unfolding mount_page
mount_page-Mounts now agent_id page_id s =
    let P : (Store × Result (Unit {0})) → Type 0 = Mounts agent_id page_id s in
    split_Option P (lookup dec_str page_id s.pages)
      (λ gone. record { stays = λ id m. m; adds_none = λ id e. e; outcome = inr (_, refl, gone) })
      (λ page there.
        split_if P (contains page_id (table s agent_id))
          (λ mounted. record {
            stays = λ id m. m;
            adds_none = λ id e. e;
            outcome = inl (refl, mounted);
          })
          (λ _. attach_page-Mounts now agent_id page_id page s))

-- All the pages are in the table, or the error is of one that is gone.
record MountsAll (agent_id : String) (messages : List Message) (s : Store)
    (r : Store × Option String) : Type 0 where
  stays : (id : String) → Mounted s agent_id id → Mounted r.0 agent_id id
  outcome :
      ((r.1 ≡ none) × All (λ message. Mounted r.0 agent_id message.page_id) messages)
      ⊎ ((e : String) × (r.1 ≡ some e) × SomeGone s messages)

SomeGone-back :
    (s s' : Store) (messages : List Message)
    → ((id : String) → lookup dec_str id s'.pages ≡ none → lookup dec_str id s.pages ≡ none)
    → SomeGone s' messages
    → SomeGone s messages
SomeGone-back s s' [] back g = elim g [ ]
SomeGone-back s s' (message ∷ rest) back (inl e) = inl (back message.page_id e)
SomeGone-back s s' (message ∷ rest) back (inr g) = inr (SomeGone-back s s' rest back g)

module _ (w : World) where
  open w use {F}

  mount_messages-MountsAll :
      (now : Clock) (agent_id : String) (messages : List Message) (s : Store)
      → MountsAll agent_id messages s (mount_messages w now agent_id messages s)
  unfolding mount_messages
  mount_messages-MountsAll now agent_id [] s = record {
    stays = λ id m. m;
    outcome = inl (refl, tt);
  }
  mount_messages-MountsAll now agent_id (message ∷ rest) s =
      let m = mount_page-Mounts now agent_id message.page_id s in
      let s1 = (mount_page now agent_id message.page_id s).0 in
      split_Result (MountsAll agent_id (message ∷ rest) s)
        (mount_page now agent_id message.page_id s).1
        (λ e failed. record {
          stays = m.stays;
          outcome = elim m.outcome [
            | inl (well, _) ↦ absurd (ok-ne-err (sym well ∙ failed))
            | inr (_, _, gone) ↦ inr (_, refl, inl gone)
          ];
        })
        (λ x well.
          let later_ones = mount_messages-MountsAll (later 4 now) agent_id rest s1 in
          record {
            stays = λ id h. later_ones.stays id (m.stays id h);
            outcome = elim m.outcome [
              | inl (_, mounted) ↦ elim later_ones.outcome [
                | inl (fine, all) ↦ inl (fine, (later_ones.stays message.page_id mounted, all))
                | inr (e, failed, gone) ↦
                    inr (e, failed, inr (SomeGone-back s s1 rest m.adds_none gone))
              ]
              | inr (e, failed, _) ↦ absurd (ok-ne-err (sym well ∙ failed))
            ];
          })

  -- What a poll that is not refused comes to: the blackboard has counted the messages as delivered, and
  -- either the response is OK and the agent has all their pages, or it is an error and a page is gone.
  pub record Polled (req : Request F) (topic : String) (board : Blackboard) (s : Store)
      (r : Gateway w × Response) : Type 0 where
    pub taken : r.0.ipc ≡ some (poll topic req.agent_id board).0
    pub store : Store
    pub stored : r.0.cvm ≡ some store
    pub stays : (id : String) → Mounted s req.agent_id id → Mounted store req.agent_id id
    pub outcome :
        ((r.1.status ≡ "OK")
          × All
              (λ message. Mounted store req.agent_id message.page_id)
              (poll topic req.agent_id board).1)
        ⊎ ((r.1.status ≡ "ERROR")
            × (r.1.payload ≡ none)
            × SomeGone s (poll topic req.agent_id board).1)

  publish_kept :
      (now : Clock) (event_type : String) (req : Request F) (payload : Payload) (g : Gateway w)
      → ((publish w now event_type req payload g).ipc ≡ g.ipc)
        × ((publish w now event_type req payload g).cvm ≡ g.cvm)
  unfolding publish
  publish_kept now event_type req payload g =
      split_Option (λ (h : Gateway w). (h.ipc ≡ g.ipc) × (h.cvm ≡ g.cvm)) g.sink (λ _. (refl, refl))
        (λ log _. (refl, refl))

  poll_topic-Polled :
      (at : ℕ → Clock) (req : Request F) (topic : String) (board : Blackboard) (g : Gateway w)
      (s : Store)
      → g.cvm ≡ some s
      → Polled req topic board s (poll_topic w at req topic board g)
  unfolding poll_topic mount_polled accepted refused
  poll_topic-Polled at req topic board g s c =
      let messages = (poll topic req.agent_id board).1 in
      let all = mount_messages-MountsAll (at 0) req.agent_id messages s in
      let m = mount_messages w (at 0) req.agent_id messages s in
      let settled : mount_polled w (at 0) req.agent_id messages g.cvm ≡ (some m.0, m.1) =
        ap (mount_polled w (at 0) req.agent_id messages) c in
      split_Option (Polled req topic board s) (mount_polled w (at 0) req.agent_id messages g.cvm).1
        (λ fine. record {
          taken = (publish_kept (at 1) _ req _ _).0;
          store = m.0;
          stored = (publish_kept (at 1) _ req _ _).1 ∙ ap (λ p. p.0) settled;
          stays = all.stays;
          outcome = elim all.outcome [
            | inl (_, mounted) ↦ inl (refl, mounted)
            | inr (e, failed, _) ↦
                absurd (some-ne-none (sym failed ∙ sym (ap (λ p. p.1) settled) ∙ fine))
          ];
        })
        (λ error failed. record {
          taken = refl;
          store = m.0;
          stored = ap (λ p. p.0) settled;
          stays = all.stays;
          outcome = elim all.outcome [
            | inl (fine, _) ↦ absurd (some-ne-none (sym failed ∙ ap (λ p. p.1) settled ∙ fine))
            | inr (_, _, gone) ↦ inr (refl, refl, gone)
          ];
        })

  -- A poll of a topic, on a gateway with a blackboard and a store, comes to one of two things: the
  -- response is OK and the agent's page table has the page of every message delivered, or it is an error
  -- without a payload and the store has not the page of some message. Either way the agent's table keeps
  -- what it had, and the messages count as delivered: a poll that follows has none of them, also after
  -- the error.
  pub ipc_poll-Polled :
      (at : ℕ → Clock) (req : Request F) (board : Blackboard) (g : Gateway w) (s : Store)
      → g.ipc ≡ some board
      → g.cvm ≡ some s
      → (string_arg req.args "topic").0 ≢ ""
      → let topic = (string_arg req.args "topic").0 in
        Polled req topic board s (ipc_poll w at req g)
        × ((poll topic req.agent_id (poll topic req.agent_id board).0).1 ≡ [])
  unfolding ipc_poll
  ipc_poll-Polled at req board g s i c named =
      let topic = (string_arg req.args "topic").0 in
      (
        split_Option (Polled req topic board s) g.ipc (λ e. absurd (some-ne-none (sym i ∙ e)))
            (λ board' e.
              split_ite (Polled req topic board s) (dec_str topic "")
                (λ blank. absurd (named blank))
                (λ _.
                  subst (λ b. Polled req topic board s (poll_topic w at req topic b g))
                    (some_injective (sym i ∙ e)) (poll_topic-Polled at req topic board g s c))),
        poll-poll topic req.agent_id board,
      )
