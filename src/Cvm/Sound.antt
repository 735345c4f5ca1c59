-- ===== src/Cvm/Sound.antt =====
-- internal/cvm/store.go: what is sound of a page and of a store, and how it is kept by the changes
-- that the operations are made of.
use os_complete.Base.{
  ◌≤◌, ◌≡◌, ◌≢◌, refl, ◌∙◌, String, List, [], ◌∷◌, none, some, length, dec_str, lookup, insert,
  Distinct, insert-Distinct, Each, insert-Each, lookup-Each, lookup-insert, All, All-map, arith,
  lookup_or-Each,
}
use os_complete.Events.{Clock, Payload}
use os_complete.Cvm.Page.{
  Bytes, Codec, Page, ok, materialized_content, resident_bytes, remove_string,
}
use os_complete.Cvm.Store.{Store, table, publish_locked, new_page}

-- The page under the key `id` is sound: its content can be read, whether it is compressed or not,
-- has the page's size, and hashes to the key.
pub record IsSound (codec : Codec) (id : String) (page : Page) : Type 0 where
  pub keyed : page.id ≡ id
  pub original : Bytes
  pub readable : materialized_content codec page ≡ ok original
  pub hashed : codec.hash original ≡ id
  pub sized : page.bytes ≡ length original
  pub compact : resident_bytes page ≤ page.bytes

-- The store knows the page.
abbrev pub Known : List (String × Page) → String → Type 0
Known pages id = lookup dec_str id pages ≢ none

abbrev pub Mapped : List (String × Page) → List (String × List String) → Type 0
Mapped pages tables = Each (λ agent_id ids. All (Known pages) ids) tables

-- No page twice, every page sound, and no page table names a page that the store has not.
pub record Fits (codec : Codec) (pages : List (String × Page))
    (tables : List (String × List String)) : Type 0 where
  pub distinct : Distinct dec_str pages
  pub sound : Each (IsSound codec) pages
  pub mapped : Mapped pages tables

abbrev pub IsValid : Codec → Store → Type 0
IsValid codec s = Fits codec s.pages s.page_tables

pub Known-insert :
    (pages : List (String × Page)) (id : String) (page : Page) (j : String)
    → Known pages j
    → Known (insert dec_str id page pages) j
Known-insert pages id page j h = ground (arith, lookup-insert dec_str id j page pages)

pub Known-insert_self :
    (pages : List (String × Page)) (id : String) (page : Page)
    → Known (insert dec_str id page pages) id
Known-insert_self pages id page = ground (arith, lookup-insert dec_str id id page pages)

pub Mapped-insert :
    (pages : List (String × Page)) (id : String) (page : Page)
    (tables : List (String × List String))
    → Mapped pages tables
    → Mapped (insert dec_str id page pages) tables
Mapped-insert pages id page [] h = tt
Mapped-insert pages id page ((agent_id, ids) ∷ rest) h =
    (All-map ids (Known-insert pages id page) h.0, Mapped-insert pages id page rest h.1)

-- The page table of an agent names known pages.
pub table-Known :
    (codec : Codec) (s : Store) (agent_id : String)
    → IsValid codec s
    → All (Known s.pages) (table s agent_id)
table-Known codec s agent_id v =
    lookup_or-Each dec_str [] agent_id s.page_tables (All (Known s.pages)) tt v.mapped

-- A store's pages and tables do not depend on what is published.
pub publish-IsValid :
    (codec : Codec) (now : Clock) (event_type agent_id : String) (page : Page) (payload : Payload)
    (s : Store)
    → IsValid codec s
    → IsValid codec (publish_locked now event_type agent_id page payload s)
unfolding publish_locked
publish-IsValid codec now event_type agent_id page payload s v = ground arith

pub publish-pages :
    (now : Clock) (event_type agent_id : String) (page : Page) (payload : Payload) (s : Store)
    → (publish_locked now event_type agent_id page payload s).pages ≡ s.pages
unfolding publish_locked
publish-pages now event_type agent_id page payload s = ground arith

pub publish-tables :
    (now : Clock) (event_type agent_id : String) (page : Page) (payload : Payload) (s : Store)
    → (publish_locked now event_type agent_id page payload s).page_tables ≡ s.page_tables
unfolding publish_locked
publish-tables now event_type agent_id page payload s = ground arith

-- A page under its own key may change in what `IsSound` does not speak of.
pub insert-Fits :
    (codec : Codec) (pages : List (String × Page)) (tables : List (String × List String))
    (id : String) (page : Page)
    → IsSound codec id page
    → Fits codec pages tables
    → Fits codec (insert dec_str id page pages) tables
insert-Fits codec pages tables id page p v = record {
  distinct = insert-Distinct dec_str id page pages v.distinct;
  sound = insert-Each dec_str (IsSound codec) id page pages p v.sound;
  mapped = Mapped-insert pages id page tables v.mapped;
}

-- A page table may be set to a list of known pages.
pub table-Fits :
    (codec : Codec) (pages : List (String × Page)) (tables : List (String × List String))
    (agent_id : String) (ids : List String)
    → All (Known pages) ids
    → Fits codec pages tables
    → Fits codec pages (insert dec_str agent_id ids tables)
table-Fits codec pages tables agent_id ids h v = record {
  distinct = v.distinct;
  sound = v.sound;
  mapped = insert-Each dec_str _ agent_id ids tables h v.mapped;
}

pub All-remove_string {κ} :
    (P : String → Type κ) (ids : List String) (value : String)
    → All P ids
    → All P (remove_string ids value)
unfolding remove_string
All-remove_string P [] value h = tt
All-remove_string P (id ∷ ids) value h = ground (arith, All-remove_string P ids value h.1)

pub lookup-IsSound :
    (codec : Codec) (s : Store) (id : String) (page : Page)
    → IsValid codec s
    → lookup dec_str id s.pages ≡ some page
    → IsSound codec id page
lookup-IsSound codec s id page v = lookup-Each dec_str (IsSound codec) id page s.pages v.sound

pub new_page-IsSound :
    (codec : Codec) (now : Clock) (kind : String) (content : Bytes)
    → IsSound codec (codec.hash content) (new_page codec now kind content)
unfolding new_page materialized_content resident_bytes
new_page-IsSound codec now kind content = record {
  keyed = refl;
  original = content;
  readable = refl;
  hashed = refl;
  sized = refl;
  compact = omega arith;
}

-- Another count of references, of accesses, another owner or time: the page stays sound.
pub recount-IsSound :
    (codec : Codec) (id : String) (page page' : Page)
    → page'.id ≡ page.id
    → page'.content ≡ page.content
    → page'.bytes ≡ page.bytes
    → page'.compressed ≡ page.compressed
    → page'.compressed_size_bytes ≡ page.compressed_size_bytes
    → page'.compressed_data ≡ page.compressed_data
    → IsSound codec id page
    → IsSound codec id page'
unfolding materialized_content resident_bytes
recount-IsSound codec id page page' p q r t u w h = record {
  keyed = p ∙ h.keyed;
  original = h.original;
  readable = rw (q, r, t, w) h.readable;
  hashed = h.hashed;
  sized = r ∙ h.sized;
  compact = rw (r, t, u) h.compact;
}
