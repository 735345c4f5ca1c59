-- ===== src/Cvm/Eviction.antt =====
-- internal/cvm/store.go: `EvictColdPages`, the loop and the whole.
use os_complete.Base.{
  ℕ, ◌+◌, ◌-◌, ◌≤◌, ◌≡◌, ◌≢◌, refl, sym, ap, ◌∙◌, ◌⊎◌, inl, inr, String, List, [], ◌∷◌, none, some,
  Bool, true, false, length, leb, dec_str, lookup, delete, Distinct, delete-Distinct, delete-Each,
  lookup-delete, All, All-map, All-map₂, Bool-cases, Dec-cases, arith, sort, ℤ, pos, negsuc,
}
use os_complete.Cvm.Page.{Codec, Page, resident_bytes, remove_string}
use os_complete.Cvm.Store.{Store}
use os_complete.Cvm.Sound.{IsSound, IsValid, Known, Mapped}
use os_complete.Cvm.Sweep.{
  is_evictable, candidates, colder, current_bytes, drop_page, unmap, evict, evict_cold_pages,
}
use os_complete.Cvm.Candidates.{
  Has, Apart, IsCandidate, sort-All, sort-Apart, sort-Has, candidates-IsCandidate, candidates-Apart,
  candidates-Has,
}

delete_absent :
    (id : String) (pages : List (String × Page))
    → lookup dec_str id pages ≡ none
    → delete dec_str id pages ≡ pages
unfolding lookup delete
delete_absent id [] e = refl
delete_absent id ((j, q) ∷ rest) e = ground (arith, delete_absent id rest)

-- A page deleted leaves its bytes and its place.
delete-current_bytes :
    (id : String) (page : Page) (pages : List (String × Page))
    → Distinct dec_str pages
    → lookup dec_str id pages ≡ some page
    → (current_bytes (delete dec_str id pages) + resident_bytes page ≡ current_bytes pages)
      × (length (delete dec_str id pages) + 1 ≡ length pages)
unfolding lookup delete current_bytes
delete-current_bytes id page [] d e = absurd (ground arith)
delete-current_bytes id page ((j, q) ∷ rest) d e = elim (dec_str id j) [
  | yes p ↦ ground (arith, delete_absent id rest)
  | no p ↦ ground (arith, delete-current_bytes id page rest d.1)
]

-- Behind `remove_string` no element is the value.
All-removed {κ} :
    (P : String → Type κ) (ids : List String) (value : String)
    → All P ids
    → All (λ id. P id × (id ≢ value)) (remove_string ids value)
unfolding remove_string
All-removed P [] value h = tt
All-removed P (id ∷ ids) value h = elim (Dec-cases (dec_str id value)) [
  | inl (p, d) ↦ rw (d, remove_string) (All-removed P ids value h.1)
  | inr (q, d) ↦ rw (d, remove_string) ((h.0, q), All-removed P ids value h.1)
]

Mapped-unmap :
    (id : String) (pages : List (String × Page)) (tables : List (String × List String))
    → Mapped pages tables
    → Mapped (delete dec_str id pages) (unmap id tables)
unfolding unmap
Mapped-unmap id pages [] h = tt
Mapped-unmap id pages ((agent_id, ids) ∷ rest) h = (
  All-map (remove_string ids id) (λ j k. ground (arith, lookup-delete dec_str id j pages, k.0, k.1))
      (All-removed (Known pages) ids id h.0),
  Mapped-unmap id pages rest h.1,
)

drop_page-IsValid :
    (codec : Codec) (id : String) (s : Store) → IsValid codec s → IsValid codec (drop_page id s)
unfolding drop_page
drop_page-IsValid codec id s v = record {
  distinct = delete-Distinct dec_str id s.pages v.distinct;
  sound = delete-Each dec_str (IsSound codec) id s.pages v.sound;
  mapped = Mapped-unmap id s.pages s.page_tables v.mapped;
}

-- What the loop has to work on: candidates of the store, among them every page that may be evicted.
record Loop (codec : Codec) (pages : List Page) (current : ℕ) (s : Store) : Type 0 where
  valid : IsValid codec s
  fit : All (IsCandidate s.pages) pages
  apart : Apart pages
  covered :
      (id : String) (page : Page)
      → lookup dec_str id s.pages ≡ some page
      → is_evictable page ≡ true
      → Has id pages
  counted : current ≡ current_bytes s.pages

-- Of a page that stays nothing changes, and only a page that is neither referenced nor pinned goes.
abbrev pub Evicts : Store → Store → Type 0
Evicts s s' =
    (id : String) (page : Page)
    → lookup dec_str id s.pages ≡ some page
    → (lookup dec_str id s'.pages ≡ some page)
      ⊎ ((lookup dec_str id s'.pages ≡ none) × (page.ref_count ≡ 0) × (page.pinned ≡ false))

-- What the loop returns.
record Done (codec : Codec) (max_bytes evicted freed : ℕ) (s : Store) (r : Store × ℕ × ℕ)
    : Type 0 where
  valid : IsValid codec r.0
  evicts : Evicts s r.0
  bytes : current_bytes r.0.pages + r.2 ≡ current_bytes s.pages + freed
  number : length r.0.pages + r.1 ≡ length s.pages + evicted
  total : r.0.evicted_pages ≡ s.evicted_pages
  enough :
      (current_bytes r.0.pages ≤ max_bytes)
      ⊎ ((id : String) (page : Page)
          → lookup dec_str id r.0.pages ≡ some page
          → is_evictable page ≡ false)

IsCandidate-delete :
    (id : String) (pages : List (String × Page)) (page : Page)
    → page.id ≢ id
    → IsCandidate pages page
    → IsCandidate (delete dec_str id pages) page
IsCandidate-delete id pages page h k = (ground (arith, lookup-delete dec_str id page.id pages), k.1)

-- What is found after a deletion is another page that was there.
lookup_of_delete :
    (id j : String) (pages : List (String × Page)) (page : Page)
    → lookup dec_str j (delete dec_str id pages) ≡ some page
    → (id ≢ j) × (lookup dec_str j pages ≡ some page)
lookup_of_delete id j pages page e = elim (dec_str j id) [
  | yes p ↦ absurd (ground (arith, lookup-delete dec_str id j pages))
  | no p ↦ (λ q. p (sym q), ground (arith, lookup-delete dec_str id j pages))
]

Has-tail :
    (id : String) (page : Page) (rest : List Page)
    → page.id ≢ id
    → Has id (page ∷ rest)
    → Has id rest
Has-tail id page rest h (inl p) = absurd (h p)
Has-tail id page rest h (inr k) = k

Loop-drop :
    (codec : Codec) (page : Page) (rest : List Page) (current : ℕ) (s : Store)
    → Loop codec (page ∷ rest) current s
    → Loop codec rest (current - resident_bytes page) (drop_page page.id s)
unfolding drop_page
Loop-drop codec page rest current s l = record {
  valid = drop_page-IsValid codec page.id s l.valid;
  fit = All-map₂ rest (λ c. IsCandidate-delete page.id s.pages c) l.apart.0 l.fit.1;
  apart = l.apart.1;
  covered = λ id other e t.
      let (other_id, found) = lookup_of_delete page.id id s.pages other e in
      Has-tail id page rest other_id (l.covered id other found t);
  counted =
      omega
        (arith, l.counted, delete-current_bytes page.id page s.pages l.valid.distinct l.fit.0.0);
}

evictable : (page : Page) → is_evictable page ≡ true → (page.ref_count ≡ 0) × (page.pinned ≡ false)
unfolding is_evictable
evictable page e = ground arith

Evicts-drop : (page : Page) (s : Store) → IsCandidate s.pages page → Evicts s (drop_page page.id s)
unfolding drop_page
Evicts-drop page s c id other e = elim (dec_str id page.id) [
  | yes p ↦
      let same : other ≡ page = cc (ap (λ j. lookup dec_str j s.pages) p) in
      let (free, loose) = evictable other (ap is_evictable same ∙ c.1) in
      inr (ground (arith, lookup-delete dec_str page.id id s.pages), free, loose)
  | no p ↦ inl (ground (arith, lookup-delete dec_str page.id id s.pages))
]

drop_page-gone :
    (page_id : String) (s : Store) (id : String)
    → lookup dec_str id s.pages ≡ none
    → lookup dec_str id (drop_page page_id s).pages ≡ none
unfolding drop_page
drop_page-gone page_id s id e = ground (arith, lookup-delete dec_str page_id id s.pages)

Evicts-trans :
    (s t u : Store)
    → Evicts s t
    → Evicts t u
    → ((id : String) → lookup dec_str id t.pages ≡ none → lookup dec_str id u.pages ≡ none)
    → Evicts s u
Evicts-trans s t u h k gone id page e = elim (h id page e) [
  | inl kept ↦ k id page kept
  | inr (lost, free, loose) ↦ inr (gone id lost, free, loose)
]

not_evictable : {b : Bool} → (b ≡ true → ⊥) → b ≡ false
not_evictable {b = true} h = absurd (h refl)
not_evictable {b = false} h = refl

-- What is gone stays gone, over any number of evictions.
evict-gone :
    (max_bytes : ℕ) (pages : List Page) (current evicted freed : ℕ) (s : Store) (id : String)
    → lookup dec_str id s.pages ≡ none
    → lookup dec_str id (evict max_bytes pages current evicted freed s).0.pages ≡ none
unfolding evict
evict-gone max_bytes [] current evicted freed s id e = e
evict-gone max_bytes (page ∷ rest) current evicted freed s id e =
    elim (Bool-cases (leb current max_bytes)) [
      | inl t ↦ rw (t, evict) e
      | inr t ↦ rw (t, evict) (evict-gone max_bytes rest _ _ _ (drop_page page.id s) id (gone page))
    ]
  where
    gone : (page : Page) → lookup dec_str id (drop_page page.id s).pages ≡ none
    gone page = drop_page-gone page.id s id e

evict_lem :
    (codec : Codec) (max_bytes : ℕ) (pages : List Page) (current evicted freed : ℕ) (s : Store)
    → Loop codec pages current s
    → Done codec max_bytes evicted freed s (evict max_bytes pages current evicted freed s)
unfolding evict drop_page
evict_lem codec max_bytes [] current evicted freed s l = record {
  valid = l.valid;
  evicts = λ id page e. inl e;
  bytes = refl;
  number = refl;
  total = refl;
  enough = inr (λ id page e. not_evictable (l.covered id page e));
}
evict_lem codec max_bytes (page ∷ rest) current evicted freed s l =
    elim (Bool-cases (leb current max_bytes)) [
      | inl t ↦
          rw (t, evict)
            (record {
              valid = l.valid;
              evicts = λ id other e. inl e;
              bytes = refl;
              number = refl;
              total = refl;
              enough = inl (let c = l.counted in ground arith);
            })
      | inr t ↦
          let u =
            evict max_bytes rest (current - resident_bytes page) (evicted + 1)
              (freed + resident_bytes page) (drop_page page.id s) in
          let d =
            evict_lem codec max_bytes rest (current - resident_bytes page) (evicted + 1)
              (freed + resident_bytes page) (drop_page page.id s)
              (Loop-drop codec page rest current s l) in
          let (fewer, one) = delete-current_bytes page.id page s.pages l.valid.distinct l.fit.0.0 in
          rw (t, evict)
            (record {
              valid = d.valid;
              evicts =
                  Evicts-trans s (drop_page page.id s) u.0 (Evicts-drop page s l.fit.0) d.evicts
                    (λ id. evict-gone max_bytes rest _ _ _ (drop_page page.id s) id);
              bytes = omega (arith, d.bytes, fewer);
              number = omega (arith, d.number, one);
              total = d.total;
              enough = d.enough;
            })
    ]

kept : (page : Page) → is_evictable page ≡ false → (page.ref_count ≢ 0) ⊎ (page.pinned ≡ true)
unfolding is_evictable
kept page e = ground arith

evict_start :
    (codec : Codec) (s : Store)
    → IsValid codec s
    → Loop codec (sort colder (candidates s.pages)) (current_bytes s.pages) s
evict_start codec s v = record {
  valid = v;
  fit =
      sort-All colder (IsCandidate s.pages) (candidates s.pages)
        (candidates-IsCandidate codec s.pages v.distinct v.sound);
  apart =
      sort-Apart colder (candidates s.pages) (candidates-Apart codec s.pages v.distinct v.sound);
  covered = λ id page e t.
      sort-Has colder id (candidates s.pages) (candidates-Has codec s.pages id page v.sound e t);
  counted = refl;
}

evict_cold_pages-Done :
    (codec : Codec) (max_bytes : ℕ) (s : Store)
    → IsValid codec s
    → leb (current_bytes s.pages) max_bytes ≡ false
    → Done codec max_bytes 0 0 s
        (evict max_bytes (sort colder (candidates s.pages)) (current_bytes s.pages) 0 0 s)
evict_cold_pages-Done codec max_bytes s v e =
    evict_lem codec max_bytes (sort colder (candidates s.pages)) (current_bytes s.pages) 0 0 s
      (evict_start codec s v)

-- What eviction does to a valid store: the store stays valid; a page that is pinned or referenced
-- stays as it is, and so does every page that is not gone altogether; the bytes freed and the
-- number evicted are what the store has lost, and the number is added to the total.
pub evict_cold_pages_accounts :
    (codec : Codec) (max_bytes : ℤ) (s : Store)
    → IsValid codec s
    → let r = evict_cold_pages max_bytes s in
      IsValid codec r.0
      × Evicts s r.0
      × (current_bytes r.0.pages + r.2 ≡ current_bytes s.pages)
      × (length r.0.pages + r.1 ≡ length s.pages)
      × (r.0.evicted_pages ≡ s.evicted_pages + r.1)
unfolding evict_cold_pages
evict_cold_pages_accounts codec (negsuc n) s v =
    (v, λ id page e. inl e, omega arith, omega arith, omega arith)
evict_cold_pages_accounts codec (pos max_bytes) s v =
    elim (Bool-cases (leb (current_bytes s.pages) max_bytes)) [
      | inl e ↦
          rw (e, evict_cold_pages) (v, λ id page e. inl e, omega arith, omega arith, omega arith)
      | inr e ↦
          let d = evict_cold_pages-Done codec max_bytes s v e in
          rw (e, evict_cold_pages)
            (
              record {
                distinct = d.valid.distinct;
                sound = d.valid.sound;
                mapped = d.valid.mapped;
              },
              d.evicts,
              omega (arith, d.bytes),
              omega (arith, d.number),
              omega (arith, d.total),
            )
    ]

-- With a limit that is not negative the store ends within it, or no page is left that is neither
-- pinned nor referenced.
pub evict_cold_pages_enough :
    (codec : Codec) (max_bytes : ℕ) (s : Store)
    → IsValid codec s
    → let s' = (evict_cold_pages (pos max_bytes) s).0 in
      (current_bytes s'.pages ≤ max_bytes)
      ⊎ ((id : String) (page : Page)
          → lookup dec_str id s'.pages ≡ some page
          → (page.ref_count ≢ 0) ⊎ (page.pinned ≡ true))
unfolding evict_cold_pages
evict_cold_pages_enough codec max_bytes s v =
    elim (Bool-cases (leb (current_bytes s.pages) max_bytes)) [
      | inl e ↦ rw (e, evict_cold_pages) (inl (ground arith))
      | inr e ↦
          let d = evict_cold_pages-Done codec max_bytes s v e in
          rw (e, evict_cold_pages)
            (elim d.enough [
              | inl le ↦ inl le
              | inr gone ↦ inr (λ id page k. kept page (gone id page k))
            ])
    ]
