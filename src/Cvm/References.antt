-- ===== src/Cvm/References.antt =====
-- internal/cvm/store.go: the reference count against the page tables that hold the page.
use os_complete.Base.{
  ℕ, suc, ◌+◌, ◌-◌, ◌≤◌, ◌<◌, ◌≡◌, ◌≢◌, refl, sym, inl, inr, String, List, [], ◌∷◌, ◌++◌, some,
  true, false, if◌then◌else◌, ite, dec_str, lookup, lookup_or, insert, lookup-insert, Bool-cases,
  Option-cases, Dec-cases, arith,
}
use os_complete.Events.{Clock}
use os_complete.Cvm.Page.{Page, contains, remove_string}
use os_complete.Cvm.Store.{Store, table, mount_page, release_page, attach_page, detach_page}
use os_complete.Cvm.Sound.{publish-pages, publish-tables}

-- The number of page tables that hold the page.
unfoldable pub holders : String → List (String × List String) → ℕ
holders page_id [] = 0
holders page_id ((agent_id, ids) ∷ rest) =
    if contains page_id ids then suc (holders page_id rest) else holders page_id rest

-- Every page counts at least the page tables that hold it.
abbrev pub Covers : Store → Type 0
Covers s =
    (id : String) (page : Page)
    → lookup dec_str id s.pages ≡ some page
    → holders id s.page_tables ≤ page.ref_count

pub contains-append :
    (value other : String) (values : List String)
    → contains value (values ++ other ∷ []) ≡ ite (dec_str other value) true (contains value values)
unfolding contains
contains-append value other [] = refl
contains-append value other (x ∷ xs) = ground (arith, contains-append value other xs)

contains-remove_string :
    (value other : String) (values : List String)
    → contains value (remove_string values other)
      ≡ ite (dec_str value other) false (contains value values)
unfolding contains remove_string
contains-remove_string value other [] = ground arith
contains-remove_string value other (x ∷ xs) = ground (arith, contains-remove_string value other xs)

-- One table set anew moves the number of holders by that table.
holders-insert :
    (id agent_id : String) (ids : List String) (tables : List (String × List String))
    → holders id (insert dec_str agent_id ids tables)
        + (if contains id (lookup_or dec_str [] agent_id tables) then 1 else 0)
      ≡ holders id tables + (if contains id ids then 1 else 0)
unfolding holders insert lookup_or lookup contains
holders-insert id agent_id ids [] = ground arith
holders-insert id agent_id ids ((b, old) ∷ rest) =
    ground (arith, holders-insert id agent_id ids rest)

attach_page-holders :
    (now : Clock) (agent_id page_id : String) (page : Page) (s : Store) (id : String)
    → contains page_id (table s agent_id) ≡ false
    → holders id (attach_page now agent_id page_id page s).page_tables
      ≡ ite (dec_str page_id id) (holders id s.page_tables + 1) (holders id s.page_tables)
unfolding attach_page
attach_page-holders now agent_id page_id page s id e = rw publish-tables (
    ground (
      arith,
      holders-insert id agent_id (table s agent_id ++ page_id ∷ []) s.page_tables,
      contains-append id page_id (table s agent_id),
    ))

-- The pages of a store in which one page has another count.
Covers-insert :
    (s s' : Store) (page_id : String) (page page' : Page)
    → lookup dec_str page_id s.pages ≡ some page
    → s'.pages ≡ insert dec_str page_id page' s.pages
    → holders page_id s'.page_tables ≤ page'.ref_count
    → ((id : String) → id ≢ page_id → holders id s'.page_tables ≡ holders id s.page_tables)
    → Covers s
    → Covers s'
Covers-insert s s' page_id page page' e p h same c id other k = elim (dec_str id page_id) [
  | yes q ↦
      let there : some page' ≡ some other =
        sym (ground (arith, lookup-insert dec_str page_id id page' s.pages)) in
      let it : page' ≡ other = cc in rw (q, ← it) h
  | no q ↦
      let there : lookup dec_str id s.pages ≡ some other =
        ground (arith, lookup-insert dec_str page_id id page' s.pages) in
      rw (same id q) (c id other there)
]

-- `MountPage`, whether it fails, finds the page mounted or mounts it, keeps every reference count at
-- least the number of page tables that hold the page.
pub mount_page-Covers :
    (now : Clock) (agent_id page_id : String) (s : Store)
    → Covers s
    → Covers (mount_page now agent_id page_id s).0
unfolding mount_page
mount_page-Covers now agent_id page_id s c = elim (Option-cases (lookup dec_str page_id s.pages)) [
  | inl e ↦ rw (e, mount_page) c
  | inr (page, e) ↦ elim (Bool-cases (contains page_id (table s agent_id))) [
    | inl t ↦ rw (e, t, mount_page) c
    | inr t ↦
        let bound = c page_id page e in
        rw (e, t, mount_page)
          (Covers-insert s (attach_page now agent_id page_id page s) page_id page _ e
            (unfold attach_page in publish-pages _ _ _ _ _ _)
            (ground (arith, attach_page-holders now agent_id page_id page s page_id t))
            (λ id q. ground (arith, attach_page-holders now agent_id page_id page s id t)) c)
  ]
]

detach_page-holders :
    (now : Clock) (agent_id page_id : String) (page : Page) (s : Store) (id : String)
    → agent_id ≢ ""
    → holders id (detach_page now agent_id page_id page s).page_tables
        + (if contains id (table s agent_id) then 1 else 0)
      ≡ holders id s.page_tables
        + ite (dec_str id page_id) 0 (if contains id (table s agent_id) then 1 else 0)
unfolding detach_page
detach_page-holders now agent_id page_id page s id h = elim (Dec-cases (dec_str agent_id "")) [
  | inl (p, d) ↦ absurd (h p)
  | inr (q, d) ↦
      rw (d, detach_page)
        (ground (
          arith,
          holders-insert id agent_id (remove_string (table s agent_id) page_id) s.page_tables,
          contains-remove_string id page_id (table s agent_id),
        ))
]

released : Clock → String → Page → Page
released now agent_id page =
    let page' = record page { ref_count = page.ref_count - 1; updated_at = (now 0).unix_milli } in
    ite (dec_str agent_id "") page'
      (record page' { owner_agents = remove_string page.owner_agents agent_id })

detach_page-pages :
    (now : Clock) (agent_id page_id : String) (page : Page) (s : Store)
    → (detach_page now agent_id page_id page s).pages
      ≡ insert dec_str page_id (released now agent_id page) s.pages
unfolding detach_page released
detach_page-pages now agent_id page_id page s = elim (Dec-cases (dec_str agent_id "")) [
  | inl (p, d) ↦ rw (d, detach_page, released)
  | inr (q, d) ↦ rw (d, detach_page, released)
]

released-ref_count :
    (now : Clock) (agent_id : String) (page : Page)
    → (released now agent_id page).ref_count ≡ page.ref_count - 1
unfolding released
released-ref_count now agent_id page = elim (Dec-cases (dec_str agent_id "")) [
  | inl (p, d) ↦ rw (d, released)
  | inr (q, d) ↦ rw (d, released)
]

-- `ReleasePage` by an agent that holds the page keeps every reference count at least the number of
-- page tables that hold the page.
pub release_page-Covers :
    (now : Clock) (agent_id page_id : String) (s : Store)
    → agent_id ≢ ""
    → contains page_id (table s agent_id) ≡ true
    → Covers s
    → Covers (release_page now agent_id page_id s).0
unfolding release_page
release_page-Covers now agent_id page_id s h t c =
    elim (Option-cases (lookup dec_str page_id s.pages)) [
      | inl e ↦ rw (e, release_page) c
      | inr (page, e) ↦
          let bound = c page_id page e in
          rw (e, release_page)
            (Covers-insert s (detach_page now agent_id page_id page s) page_id page
              (released now agent_id page) e (detach_page-pages now agent_id page_id page s)
              (ground (
                arith,
                detach_page-holders now agent_id page_id page s page_id h,
                released-ref_count now agent_id page,
              ))
              (λ id q. ground (arith, detach_page-holders now agent_id page_id page s id h)) c)
    ]

-- The code does not ask whether the agent holds the page. If the page tables account for the whole
-- count, a release by an agent that does not hold the page leaves a count below the number of page
-- tables that still hold it.
pub release_page_by_stranger :
    (now : Clock) (agent_id page_id : String) (s : Store) (page : Page)
    → agent_id ≢ ""
    → contains page_id (table s agent_id) ≡ false
    → lookup dec_str page_id s.pages ≡ some page
    → 0 < page.ref_count
    → holders page_id s.page_tables ≡ page.ref_count
    → ¬ Covers (release_page now agent_id page_id s).0
unfolding release_page
release_page_by_stranger now agent_id page_id s page h t e some_left tight =
    rw (e, release_page)
      (λ c.
        let there : lookup dec_str page_id (detach_page now agent_id page_id page s).pages
            ≡ some (released now agent_id page) =
          rw (detach_page-pages now agent_id page_id page s) (
            ground (
              arith,
              lookup-insert dec_str page_id page_id (released now agent_id page) s.pages,
            )) in
        let bound = c page_id (released now agent_id page) there in
        ground (
          arith,
          detach_page-holders now agent_id page_id page s page_id h,
          released-ref_count now agent_id page,
        ))
