-- ===== src/Cvm/Store.antt =====
-- internal/cvm/store.go: the store and its operations. Each holds `s.mu` throughout, so it is a
-- function on the store; it returns the new store, also with an error, and `now i` is its i-th
-- reading of the clock. The sink is the list of what was published to it, if there is one.
use os_complete.Base.{
  ℕ, ◌+◌, ◌-◌, String, List, [], ◌∷◌, ◌++◌, Option, none, some, true, length, ltb, if◌then◌else◌,
  ite, dec_str, lookup, lookup_or, insert,
}
use os_complete.Events.{Clock, later, Event, Payload, end, field, text, num, new_event}
use os_complete.Cvm.Page.{
  Bytes, Codec, Page, no_page, kind_required, unknown_page, missing_page, Result, ok, err,
  estimate_tokens, materialized_content, contains, append_unique_string, remove_string,
}

pub record Store : Type 0 where
  pub pages : List (String × Page)
  pub page_tables : List (String × List String)
  pub saved_bytes : ℕ
  pub saved_tokens : ℕ
  pub compression_saved_bytes : ℕ
  pub evicted_pages : ℕ
  pub sink : Option (List Event)

unfoldable pub new_store : Option (List Event) → Store
new_store sink = record {
  pages = [];
  page_tables = [];
  saved_bytes = 0;
  saved_tokens = 0;
  compression_saved_bytes = 0;
  evicted_pages = 0;
  sink = sink;
}

-- What `publishLocked` adds to the payload of an event about a page.
unfoldable pub page_fields : Page → Payload → Payload
page_fields page payload = ite (dec_str page.id "") payload (
    field "page_id" (text page.id)
      (field "kind" (text page.kind) (field "ref_count" (num page.ref_count) payload)))

unfoldable pub publish_locked : Clock → String → String → Page → Payload → Store → Store
unfolding page_fields new_event
publish_locked now event_type agent_id page payload s = elim s.sink [
  | none ↦ s
  | some log ↦ record s {
    sink =
        some
          (log ++ new_event now event_type "" agent_id "runtime" (page_fields page payload) ∷ []);
  }
]

-- The page table of an agent: empty if it has none.
abbrev pub table : Store → String → List String
table s agent_id = lookup_or dec_str [] agent_id s.page_tables

unfoldable pub new_page : Codec → Clock → String → Bytes → Page
new_page codec now kind content = record no_page {
  id = codec.hash content;
  page_id = codec.hash content;
  kind = kind;
  content = content;
  hash = codec.hash content;
  bytes = length content;
  size_bytes = length content;
  token_count = estimate_tokens content;
  ref_count = 1;
  last_access_time = (now 0).unix_milli;
  access_count = 1;
  created_at = (now 1).unix_milli;
  updated_at = (now 2).unix_milli;
}

-- `CreatePage` on a content that the store has: one more reference.
unfoldable pub reuse_page : Clock → Page → String → Store → Store × Result Page
reuse_page now page id s =
    let page' = record page { ref_count = page.ref_count + 1 } in
    let s' = record s {
      pages = insert dec_str id page' s.pages;
      saved_bytes = s.saved_bytes + page.bytes;
      saved_tokens = s.saved_tokens + page.token_count;
    } in
    (
      publish_locked now "context.page.reused" "" page'
          (field "saved_bytes" (num page.bytes) (field "saved_tokens" (num page.token_count) end))
          s',
      ok page',
    )

unfoldable pub add_page : Codec → Clock → String → Bytes → Store → Store × Result Page
unfolding new_page
add_page codec now kind content s =
    let page = new_page codec now kind content in
    let s' = record s { pages = insert dec_str (codec.hash content) page s.pages } in
    (publish_locked (later 3 now) "context.page.created" "" page end s', ok page)

unfoldable pub create_page : Codec → Clock → String → Bytes → Store → Store × Result Page
unfolding reuse_page add_page
create_page codec now kind content s =
    ite (dec_str kind "") (s, err kind_required)
      (elim (lookup dec_str (codec.hash content) s.pages) [
        | some page ↦ reuse_page now page (codec.hash content) s
        | none ↦ add_page codec now kind content s
      ])

-- `MountPage` past its checks.
unfoldable pub attach_page : Clock → String → String → Page → Store → Store
attach_page now agent_id page_id page s =
    let page' = record page {
      ref_count = page.ref_count + 1;
      owner_agents = append_unique_string page.owner_agents agent_id;
      access_count = page.access_count + 1;
      last_access_time = (now 0).unix_milli;
      updated_at = (now 0).unix_milli;
    } in
    let shared = ltb 1 page.ref_count in
    let s' = record s {
      pages = insert dec_str page_id page' s.pages;
      page_tables = insert dec_str agent_id (table s agent_id ++ page_id ∷ []) s.page_tables;
      saved_bytes = if shared then s.saved_bytes + page.bytes else s.saved_bytes;
      saved_tokens = if shared then s.saved_tokens + page.token_count else s.saved_tokens;
    } in
    publish_locked (later 1 now) "context.page.mounted" agent_id page' end s'

unfoldable pub mount_page : Clock → String → String → Store → Store × Result (Unit {0})
unfolding attach_page
mount_page now agent_id page_id s = elim (lookup dec_str page_id s.pages) [
  | none ↦ (s, err (unknown_page page_id))
  | some page ↦
      if contains page_id (table s agent_id)
      then (s, ok tt)
      else (attach_page now agent_id page_id page s, ok tt)
]

-- The last steps of `WriteDelta`: the page returned is the one that `CreatePage` gave.
unfoldable pub mount_created : Clock → String → Page → Store → Store × Result Page
mount_created now agent_id page s =
    let r = mount_page now agent_id page.id s in (r.0, elim r.1 [ ok _ ↦ ok page | err e ↦ err e ])

-- `WriteDelta` takes the lock twice: `between` is what others do to the store meanwhile.
unfoldable pub write_delta :
    Codec → Clock → Clock → (Store → Store) → String → Bytes → Store → Store × Result Page
unfolding mount_created
write_delta codec now now' between agent_id content s =
    let r = create_page codec now "delta" content s in
    elim r.1 [ err e ↦ (r.0, err e) | ok page ↦ mount_created now' agent_id page (between r.0) ]

-- A read of the page: one more access.
unfoldable pub accessed : Clock → Page → Page
accessed now page = record page {
  access_count = page.access_count + 1;
  last_access_time = (now 0).unix_milli;
  updated_at = (now 0).unix_milli;
}

-- The loop of `Materialize`: the content so far, and one reading of the clock a round.
unfoldable pub gather : Codec → Clock → List String → Bytes → Store → Store × Result Bytes
unfolding accessed
gather codec now [] out s = (s, ok out)
gather codec now (page_id ∷ rest) out s = elim (lookup dec_str page_id s.pages) [
  | none ↦ (s, err (missing_page page_id))
  | some page ↦ elim (materialized_content codec page) [
    | err e ↦ (s, err e)
    | ok content ↦
        gather codec (later 1 now) rest (out ++ content)
          (record s { pages = insert dec_str page_id (accessed now page) s.pages })
  ]
]

unfoldable pub materialize : Codec → Clock → String → Store → Store × Result Bytes
unfolding gather
materialize codec now agent_id s =
    let ids = table s agent_id in
    let r = gather codec now ids [] s in
    elim r.1 [
      | err e ↦ r
      | ok out ↦ (
        publish_locked (later (length ids) now) "context.materialized" agent_id no_page
            (field "bytes" (num (length out)) (field "tokens" (num (estimate_tokens out)) end)) r.0,
        ok out,
      )
    ]

unfoldable pub touch_page : Clock → String → Store → Store × Result (Unit {0})
unfolding accessed
touch_page now page_id s = elim (lookup dec_str page_id s.pages) [
  | none ↦ (s, err (unknown_page page_id))
  | some page ↦ (record s { pages = insert dec_str page_id (accessed now page) s.pages }, ok tt)
]

unfoldable pub pin_page : Clock → String → Store → Store × Result (Unit {0})
pin_page now page_id s = elim (lookup dec_str page_id s.pages) [
  | none ↦ (s, err (unknown_page page_id))
  | some page ↦
      let page' = record page { pinned = true; updated_at = (now 0).unix_milli } in
      (record s { pages = insert dec_str page_id page' s.pages }, ok tt)
]

-- `ReleasePage` past its check. The truncated subtraction is the guard `RefCount > 0`.
unfoldable pub detach_page : Clock → String → String → Page → Store → Store
detach_page now agent_id page_id page s =
    let page' = record page { ref_count = page.ref_count - 1; updated_at = (now 0).unix_milli } in
    ite (dec_str agent_id "") (record s { pages = insert dec_str page_id page' s.pages })
      (record s {
        pages =
            insert dec_str page_id
              (record page' { owner_agents = remove_string page.owner_agents agent_id }) s.pages;
        page_tables =
            insert dec_str agent_id (remove_string (table s agent_id) page_id) s.page_tables;
      })

unfoldable pub release_page : Clock → String → String → Store → Store × Result (Unit {0})
unfolding detach_page
release_page now agent_id page_id s = elim (lookup dec_str page_id s.pages) [
  | none ↦ (s, err (unknown_page page_id))
  | some page ↦ (detach_page now agent_id page_id page s, ok tt)
]
