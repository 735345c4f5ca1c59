-- ===== src/Gateway/Ipc.antt =====
-- internal/syscall/gateway.go: the calls on the blackboard.
use os_complete.Base.{
  ℕ, zero, suc, String, List, [], ◌∷◌, Option, none, some, lookup, ite, dec_str, ℤ, pos, negsuc,
}
use os_complete.Blackboard as Board
use os_complete.Blackboard.{Blackboard, Message, Metric, poll}
use os_complete.Cvm.Page.{Bytes, Page, ok, err}
use os_complete.Cvm.Store.{Store, mount_page}
use os_complete.Events.{Clock, later, Payload, fields, text, texts, num, flag}
use os_complete.Gateway.Args.{string_arg, int_arg}
use os_complete.Gateway.State.{
  World, Request, Response, Shm, no_shm, Gateway, publish, cvm_error, refused, accepted,
}
use Prim.Native.String.{◌++◌ as append}

unfoldable pub or_bytes : ℤ → ℕ → ℤ
or_bytes (pos zero) bytes = pos bytes
or_bytes (pos (suc n)) bytes = pos (suc n)
or_bytes (negsuc n) bytes = pos bytes

-- What `ipcPublish` settles before it publishes.
pub record Plan : Type 0 where
  pub size_bytes : ℤ
  pub mode : String
  pub fallback_reason : String
  pub shm : Shm

module _ (w : World) where
  open w use {F, int_of, atoi, bytes_of, transfer}

  -- The page's content, or its id where it has none in memory.
  shm_payload : Page → Bytes
  shm_payload page = elim page.content [ [] ↦ bytes_of page.id | byte ∷ rest ↦ byte ∷ rest ]

  -- What a transfer over shared memory comes to.
  unfoldable pub transferred : ℤ → Shm × Option String → Plan
  transferred size (shm, some e) = record {
    size_bytes = size;
    mode = "page-reference";
    fallback_reason = e;
    shm = shm;
  }
  transferred size (shm, none) =
      ite (dec_str shm.evidence_mode "degraded")
        (record {
          size_bytes = size;
          mode = "page-reference";
          fallback_reason = shm.fallback_reason;
          shm = shm;
        })
        (record { size_bytes = size; mode = "memfd-mmap"; fallback_reason = ""; shm = shm })

  by_reference : ℤ → Plan
  by_reference size = record {
    size_bytes = size;
    mode = "page-reference";
    fallback_reason = "";
    shm = no_shm;
  }

  unfoldable pub plan_for : String → ℤ → Page → Plan
  unfolding or_bytes shm_payload transferred by_reference
  plan_for requested size page =
      ite (dec_str requested "memfd-mmap")
        (transferred (or_bytes size page.bytes) (transfer (shm_payload page)))
        (by_reference (or_bytes size page.bytes))

  -- `none`: the store has no such page.
  unfoldable pub plan : Option Store → String → String → ℤ → Option Plan
  unfolding plan_for by_reference
  plan none requested page_id size = some (by_reference size)
  plan (some s) requested page_id size = elim (lookup dec_str page_id s.pages) [
    | none ↦ none
    | some page ↦ some (plan_for requested size page)
  ]

  published_fields : String → String → String → Plan → Metric → Payload
  published_fields topic page_id requested p metric = fields (
      ("topic", text topic)
      ∷ ("page_id", text page_id)
      ∷ ("requested_ipc_mode", text requested)
      ∷ ("ipc_mode", text p.mode)
      ∷ ("fallback_reason", text p.fallback_reason)
      ∷ ("avoided_copy_bytes", num metric.avoided_copy_bytes)
      ∷ ("topic_depth", num metric.topic_depth)
      ∷ [])

  published_payload : String → String → String → Plan → Metric → Payload
  published_payload topic page_id requested p metric = fields (
      ("topic", text topic)
      ∷ ("page_id", text page_id)
      ∷ ("requested_ipc_mode", text requested)
      ∷ ("ipc_mode", text p.mode)
      ∷ ("shm_evidence_mode", text p.shm.evidence_mode)
      ∷ ("fallback_reason", text p.fallback_reason)
      ∷ ("avoided_copy_bytes", num metric.avoided_copy_bytes)
      ∷ ("topic_depth", num metric.topic_depth)
      ∷ ("memfd_create_success", flag p.shm.memfd_create_success)
      ∷ ("mmap_success", flag p.shm.mmap_success)
      ∷ ("fd_passing_success", flag p.shm.fd_passing_success)
      ∷ [])

  -- `ipcPublish` behind its checks.
  unfoldable pub publish_planned :
      (ℕ → Clock)
      → Request F
      → String
      → String
      → String
      → Plan
      → Blackboard
      → Gateway w
      → Gateway w × Response
  unfolding published_fields published_payload
  publish_planned at req topic page_id requested p board g =
      let r =
        Board.publish (at 0)
          (record {
            topic = topic;
            publisher = req.agent_id;
            page_id = page_id;
            size_bytes = p.size_bytes;
            ipc_mode = p.mode;
          })
          board in
      (
        publish w (at 1) "ipc.published" req (published_fields topic page_id requested p r.1)
            (record g { ipc = some r.0 }),
        accepted req (published_payload topic page_id requested p r.1),
      )

  unfoldable pub ipc_publish : (ℕ → Clock) → Request F → Gateway w → Gateway w × Response
  unfolding plan publish_planned
  ipc_publish at req g = elim g.ipc [
    | none ↦ (g, refused req "ERROR" "ipc blackboard is not configured")
    | some board ↦
        let topic = (string_arg req.args "topic").0 in
        let page_id = (string_arg req.args "page_id").0 in
        let asked = (string_arg req.args "ipc_mode").0 in
        let requested = ite (dec_str asked "") "page-reference" asked in
        ite (dec_str topic "") (g, refused req "DENIED" "topic is required")
          (ite (dec_str page_id "") (g, refused req "DENIED" "page_id is required")
            (elim (plan g.cvm requested page_id (int_arg int_of atoi req.args "size_bytes")) [
              | none ↦ (g, refused req "DENIED" (append "unknown page_id " page_id))
              | some p ↦ publish_planned at req topic page_id requested p board g
            ]))
  ]

  -- The loop of `ipcPoll`: the store, and the error that stops it.
  unfoldable pub mount_messages : Clock → String → List Message → Store → Store × Option String
  mount_messages now agent_id [] s = (s, none)
  mount_messages now agent_id (message ∷ rest) s =
      let r = mount_page now agent_id message.page_id s in
      elim r.1 [
        | err e ↦ (r.0, some (cvm_error w e))
        | ok _ ↦ mount_messages (later 4 now) agent_id rest r.0
      ]

  unfoldable pub mount_polled :
      Clock → String → List Message → Option Store → Option Store × Option String
  unfolding mount_messages
  mount_polled now agent_id messages none = (none, none)
  mount_polled now agent_id messages (some s) =
      let r = mount_messages now agent_id messages s in (some r.0, r.1)

  unfoldable pub page_ids : List Message → List String
  page_ids [] = []
  page_ids (message ∷ rest) = message.page_id ∷ page_ids rest

  ipc_modes : List Message → List String
  ipc_modes [] = []
  ipc_modes (message ∷ rest) = message.ipc_mode ∷ ipc_modes rest

  polled_payload : String → List Message → Metric → Payload
  unfolding page_ids ipc_modes
  polled_payload topic messages metric = fields (
      ("topic", text topic)
      ∷ ("page_ids", texts (page_ids messages))
      ∷ ("ipc_modes", texts (ipc_modes messages))
      ∷ ("delivered_messages", num metric.delivered_messages)
      ∷ ("avoided_copy_bytes", num metric.avoided_copy_bytes)
      ∷ [])

  -- `ipcPoll` behind its checks.
  unfoldable pub poll_topic :
      (ℕ → Clock) → Request F → String → Blackboard → Gateway w → Gateway w × Response
  unfolding mount_polled polled_payload
  poll_topic at req topic board g =
      let r = poll topic req.agent_id board in
      let m = mount_polled (at 0) req.agent_id r.1 g.cvm in
      let g' = record g { ipc = some r.0; cvm = m.0 } in
      elim m.1 [
        | some e ↦ (g', refused req "ERROR" e)
        | none ↦ (
          publish w (at 1) "ipc.polled" req (polled_payload topic r.1 r.2) g',
          accepted req (polled_payload topic r.1 r.2),
        )
      ]

  unfoldable pub ipc_poll : (ℕ → Clock) → Request F → Gateway w → Gateway w × Response
  unfolding poll_topic
  ipc_poll at req g = elim g.ipc [
    | none ↦ (g, refused req "ERROR" "ipc blackboard is not configured")
    | some board ↦
        let topic = (string_arg req.args "topic").0 in
        ite (dec_str topic "") (g, refused req "DENIED" "topic is required")
          (poll_topic at req topic board g)
  ]
