-- ===== src/Gateway/Handlers.antt =====
-- internal/syscall/gateway.go: the handlers of messages, models, tools and agents answer their
-- requests and keep what they must.
use os_complete.Base.{refl, String, List, [], ◌∷◌, Option, none, some, ℕ, dec_str, ite}
use os_complete.Blackboard.{Blackboard, Message, poll}
use os_complete.Cvm.Invariant.{mount_page-IsValid}
use os_complete.Cvm.Reads.{materialize-joined}
use os_complete.Cvm.Sound.{IsValid}
use os_complete.Cvm.Store.{Store, mount_page}
use os_complete.Events.{Clock, later}
use os_complete.Gateway.Agents.{
  prompt_for, llm_answer, llm_prompted, llm_call, agent_report, spawned, spawn_with, agent_spawn,
}
use os_complete.Gateway.Args.{string_arg, int_arg}
use os_complete.Gateway.Cases.{split_Bool, split_Option, split_Result, split_ite}
use os_complete.Gateway.Follows.{
  StoreIsValid, Follows, Answers, Follows-refl, Follows-trans, publish-Follows, note-Follows,
  changed-Follows, restored-Follows, answer,
}
use os_complete.Gateway.Ipc.{
  Plan, plan, publish_planned, ipc_publish, mount_messages, mount_polled, poll_topic, ipc_poll,
}
use os_complete.Gateway.Paths.{Attempt, done, fails}
use os_complete.Gateway.State.{World, Request, SpawnResult, Gateway, refused, accepted}
use os_complete.Router as Llm
use os_complete.Router.{Router, answered, failed, complete}

module _ (w : World) where
  open w use {F, codec, Context, lower}

  denied-Answers :
      (req : Request F) (g : Gateway w) (status error : String)
      → Answers w req g (g, refused req status error)
  unfolding refused
  denied-Answers req g status error = answer w g _ (Follows-refl w g) refl

  publish_planned-Answers :
      (at : ℕ → Clock) (req : Request F) (topic page_id requested : String) (p : Plan)
      (board : Blackboard) (g : Gateway w)
      → Answers w req g (publish_planned w at req topic page_id requested p board g)
  unfolding publish_planned accepted
  publish_planned-Answers at req topic page_id requested p board g =
      answer w _ _
        (Follows-trans w g _ _ (changed-Follows w g _ g.cvm (λ v. v))
          (publish-Follows w (at 1) _ req _ _))
        refl

  pub ipc_publish-Answers :
      (at : ℕ → Clock) (req : Request F) (g : Gateway w) → Answers w req g (ipc_publish w at req g)
  unfolding ipc_publish
  ipc_publish-Answers at req g =
      let refuse = denied-Answers req g in
      let page_id = (string_arg req.args "page_id").0 in
      let asked = (string_arg req.args "ipc_mode").0 in
      let requested = ite (dec_str asked "") "page-reference" asked in
      split_Option (Answers w req g) g.ipc (λ _. refuse _ _)
        (λ board e.
          split_ite (Answers w req g) (dec_str (string_arg req.args "topic").0 "") (λ _. refuse _ _)
            (λ _.
              split_ite (Answers w req g) (dec_str page_id "") (λ _. refuse _ _)
                (λ _.
                  split_Option (Answers w req g)
                    (plan w g.cvm requested page_id (int_arg w.int_of w.atoi req.args "size_bytes"))
                    (λ _. refuse _ _) (λ p _. publish_planned-Answers at req _ _ _ p board g))))

  pub mount_messages-IsValid :
      (now : Clock) (agent_id : String) (messages : List Message) (s : Store)
      → IsValid codec s
      → IsValid codec (mount_messages w now agent_id messages s).0
  unfolding mount_messages
  mount_messages-IsValid now agent_id [] s v = v
  mount_messages-IsValid now agent_id (message ∷ rest) s v =
      let v' = mount_page-IsValid codec now agent_id message.page_id s v in
      split_Result (λ (r : Store × Option String). IsValid codec r.0)
        (mount_page now agent_id message.page_id s).1 (λ e _. v')
        (λ x _. mount_messages-IsValid (later 4 now) agent_id rest _ v')

  mount_polled-IsValid :
      (now : Clock) (agent_id : String) (messages : List Message) (cvm : Option Store)
      → StoreIsValid codec cvm
      → StoreIsValid codec (mount_polled w now agent_id messages cvm).0
  unfolding mount_polled
  mount_polled-IsValid now agent_id messages none v = tt
  mount_polled-IsValid now agent_id messages (some s) v =
      mount_messages-IsValid now agent_id messages s v

  poll_topic-Answers :
      (at : ℕ → Clock) (req : Request F) (topic : String) (board : Blackboard) (g : Gateway w)
      → Answers w req g (poll_topic w at req topic board g)
  unfolding poll_topic accepted refused
  poll_topic-Answers at req topic board g =
      let r = poll topic req.agent_id board in
      let polled =
        changed-Follows w g (some r.0) _ (mount_polled-IsValid (at 0) req.agent_id r.1 g.cvm) in
      split_Option (Answers w req g) (mount_polled w (at 0) req.agent_id r.1 g.cvm).1
        (λ _. answer w _ _ (Follows-trans w g _ _ polled (publish-Follows w (at 1) _ req _ _)) refl)
        (λ e _. answer w _ _ polled refl)

  pub ipc_poll-Answers :
      (at : ℕ → Clock) (req : Request F) (g : Gateway w) → Answers w req g (ipc_poll w at req g)
  unfolding ipc_poll
  ipc_poll-Answers at req g =
      split_Option (Answers w req g) g.ipc (λ _. denied-Answers req g _ _)
        (λ board e.
          split_ite (Answers w req g) (dec_str (string_arg req.args "topic").0 "")
            (λ _. denied-Answers req g _ _) (λ _. poll_topic-Answers at req _ board g))

  prompt_for-Follows :
      (now : Clock) (req : Request F) (g : Gateway w) → Follows w g (prompt_for w now req g).0
  unfolding prompt_for
  prompt_for-Follows now req g =
      let Kept : (Gateway w × Attempt String) → Type 0 = λ r. Follows w g r.0 in
      split_ite Kept (dec_str (string_arg req.args "prompt").0 "")
        (λ _.
          split_Option Kept g.cvm (λ _. Follows-refl w g)
            (λ s e.
              restored-Follows w g s _ e (λ v. (materialize-joined codec now req.agent_id s v).1)))
        (λ _. Follows-refl w g)

  llm_answer-Answers :
      (now : Clock) (req : Request F) (g h : Gateway w) (a : Llm.Answer)
      → Follows w g h
      → Answers w req g (llm_answer w now req h a)
  unfolding llm_answer accepted refused
  llm_answer-Answers now req g h (failed error) f = answer w _ _ f refl
  llm_answer-Answers now req g h (answered resp usage) f =
      answer w _ _ (Follows-trans w g h _ f (publish-Follows w now _ req _ h)) refl

  llm_prompted-Answers :
      (ctx : Context) (now : Clock) (req : Request F) (router : Router Context lower)
      (g : Gateway w) (p : Gateway w × Attempt String)
      → Follows w g p.0
      → Answers w req g (llm_prompted w ctx now req router p)
  unfolding llm_prompted refused
  llm_prompted-Answers ctx now req router g (h, fails error) f = answer w _ _ f refl
  llm_prompted-Answers ctx now req router g (h, done prompt) f =
      split_ite (Answers w req g) (dec_str prompt "") (λ _. answer w _ _ f refl)
        (λ _. llm_answer-Answers now req g h _ f)

  pub llm_call-Answers :
      (ctx : Context) (at : ℕ → Clock) (req : Request F) (g : Gateway w)
      → Answers w req g (llm_call w ctx at req g)
  unfolding llm_call
  llm_call-Answers ctx at req g =
      split_Option (Answers w req g) g.llm (λ _. denied-Answers req g _ _)
        (λ router e.
          llm_prompted-Answers ctx (at 1) req router g _ (prompt_for-Follows (at 0) req g))

  pub agent_report-Answers :
      (req : Request F) (g : Gateway w) → Answers w req g (agent_report w req g)
  unfolding agent_report accepted
  agent_report-Answers req g =
      split_ite (Answers w req g) (dec_str (string_arg req.args "status").0 "")
        (λ _. denied-Answers req g _ _)
        (λ _.
          answer w _ _
            (split_Bool (Follows w g) g.reporter (λ _. Follows-refl w g) (λ _. note-Follows w _ g))
            refl)

  spawned-Answers :
      (now : Clock) (req : Request F) (reason : String) (g h : Gateway w) (a : Attempt SpawnResult)
      → Follows w g h
      → Answers w req g (spawned w now req reason h a)
  unfolding spawned accepted refused
  spawned-Answers now req reason g h (fails error) f = answer w _ _ f refl
  spawned-Answers now req reason g h (done result) f =
      answer w _ _ (Follows-trans w g h _ f (publish-Follows w now _ req _ h)) refl

  pub agent_spawn-Answers :
      (at : ℕ → Clock) (req : Request F) (g : Gateway w) → Answers w req g (agent_spawn w at req g)
  unfolding agent_spawn spawn_with
  agent_spawn-Answers at req g =
      split_Bool (Answers w req g) g.spawner (λ _. denied-Answers req g _ _)
        (λ _.
          split_ite (Answers w req g) (dec_str (string_arg req.args "role").0 "")
            (λ _. denied-Answers req g _ _)
            (λ _.
              spawned-Answers (at 1) req _ g _ _
                (Follows-trans w g _ _ (publish-Follows w (at 0) _ req _ g) (note-Follows w _ _))))
