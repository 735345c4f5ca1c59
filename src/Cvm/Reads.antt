-- ===== src/Cvm/Reads.antt =====
-- internal/cvm/store.go: what `Materialize` reads, and that no operation on the store but eviction
-- changes what a page reads as.
use os_complete.Base.{
  ℕ, ◌+◌, ◌≡◌, ◌≢◌, refl, ap, ◌∙◌, inl, inr, String, List, [], ◌∷◌, ◌++◌, Option, some, ite,
  dec_str, lookup, insert, lookup-insert, All, All-map, Option-cases, Dec-cases, arith,
}
use os_complete.Events.{Clock, later}
use os_complete.Cvm.Page.{Bytes, Codec, IsLawful, Page, Result, ok, materialized_content}
use os_complete.Cvm.Store.{Store, table, create_page, gather, materialize, new_page, accessed}
use os_complete.Cvm.Sound.{
  IsSound, IsValid, Known, Known-insert, insert-Fits, recount-IsSound, lookup-IsSound, table-Known,
  publish-IsValid, publish-pages,
}
use mathlib.Core.Option
use mathlib.Core.List.{append_assoc, append-nil}

-- What the page under a key reads as, if the store has it.
unfoldable pub view : Codec → List (String × Page) → String → Option (Result Bytes)
view codec pages id = Option.map (materialized_content codec) (lookup dec_str id pages)

abbrev contents : Option (Result Bytes) → Bytes
contents (some (ok content)) = content
contents _ = []

-- The contents of the pages of a list, one behind the other.
unfoldable pub joined : Codec → List (String × Page) → List String → Bytes
joined codec pages [] = []
joined codec pages (id ∷ ids) = contents (view codec pages id) ++ joined codec pages ids

view-insert :
    (codec : Codec) (id : String) (page page' : Page) (pages : List (String × Page)) (j : String)
    → lookup dec_str id pages ≡ some page
    → materialized_content codec page' ≡ materialized_content codec page
    → view codec (insert dec_str id page' pages) j ≡ view codec pages j
unfolding view
view-insert codec id page page' pages j e same =
    ground (arith, lookup-insert dec_str id j page' pages)

joined_congr :
    (codec : Codec) (pages pages' : List (String × Page)) (ids : List String)
    → ((j : String) → view codec pages' j ≡ view codec pages j)
    → joined codec pages' ids ≡ joined codec pages ids
unfolding joined
joined_congr codec pages pages' [] h = refl
joined_congr codec pages pages' (id ∷ ids) h = rw (h id, joined_congr codec pages pages' ids h)

view-lookup :
    (codec : Codec) (id : String) (page : Page) (pages : List (String × Page))
    → lookup dec_str id pages ≡ some page
    → view codec pages id ≡ some (materialized_content codec page)
unfolding view
view-lookup codec id page pages e = rw e

accessed-read :
    (codec : Codec) (now : Clock) (page : Page)
    → materialized_content codec (accessed now page) ≡ materialized_content codec page
unfolding accessed materialized_content
accessed-read codec now page = refl

accessed-IsSound :
    (codec : Codec) (now : Clock) (id : String) (page : Page)
    → IsSound codec id page
    → IsSound codec id (accessed now page)
unfolding accessed
accessed-IsSound codec now id page = recount-IsSound codec id page _ refl refl refl refl refl refl

gather_lem :
    (codec : Codec) (now : Clock) (ids : List String) (out : Bytes) (s : Store)
    → IsValid codec s
    → All (Known s.pages) ids
    → ((gather codec now ids out s).1 ≡ ok (out ++ joined codec s.pages ids))
      × IsValid codec (gather codec now ids out s).0
      × ((j : String) → view codec (gather codec now ids out s).0.pages j ≡ view codec s.pages j)
unfolding gather joined
gather_lem codec now [] out s v h = (rw append-nil, v, λ j. refl)
gather_lem codec now (id ∷ ids) out s v h = elim (Option-cases (lookup dec_str id s.pages)) [
  | inl e ↦ absurd (h.0 e)
  | inr (page, e) ↦
      let p = lookup-IsSound codec s id page v e in
      let s' = record s { pages = insert dec_str id (accessed now page) s.pages } in
      let r =
        gather_lem codec (later 1 now) ids (out ++ p.original) s'
          (insert-Fits codec s.pages s.page_tables id _ (accessed-IsSound codec now id page p) v)
          (All-map ids (Known-insert s.pages id _) h.1) in
      let seen : view codec s.pages id ≡ some (ok p.original) =
        view-lookup codec id page s.pages e ∙ ap some p.readable in
      let same = λ (j : String).
        view-insert codec id page (accessed now page) s.pages j e (accessed-read codec now page) in
      rw (e, p.readable, gather)
        (
          rw seen (
              r.0
              ∙ ap ok (
                  append_assoc out p.original (joined codec s'.pages ids)
                  ∙ ap (λ t. out ++ (p.original ++ t))
                      (joined_congr codec s.pages s'.pages ids same))),
          r.1,
          λ j. r.2 j ∙ same j,
        )
]

-- On a valid store `Materialize` never fails: it returns the contents of the agent's pages, compressed
-- or not, joined in the order of the agent's page table, that is of the mounts, whatever the kinds of
-- the pages. The store stays valid and every page reads as before.
pub materialize-joined :
    (codec : Codec) (now : Clock) (agent_id : String) (s : Store)
    → IsValid codec s
    → ((materialize codec now agent_id s).1 ≡ ok (joined codec s.pages (table s agent_id)))
      × IsValid codec (materialize codec now agent_id s).0
      × ((j : String)
          → view codec (materialize codec now agent_id s).0.pages j ≡ view codec s.pages j)
unfolding materialize
materialize-joined codec now agent_id s v =
    let r = gather_lem codec now (table s agent_id) [] s v (table-Known codec s agent_id v) in
    rw (r.0, materialize)
      (
        refl,
        publish-IsValid codec _ _ _ _ _ _ r.1,
        λ j. ap (λ pages. view codec pages j) (publish-pages _ _ _ _ _ _) ∙ r.2 j,
      )

view-insert_any :
    (codec : Codec) (id : String) (page : Page) (pages : List (String × Page)) (j : String)
    → view codec (insert dec_str id page pages) j
      ≡ ite (dec_str j id) (some (materialized_content codec page)) (view codec pages j)
unfolding view
view-insert_any codec id page pages j = ground (arith, lookup-insert dec_str id j page pages)

new_page-read :
    (codec : Codec) (now : Clock) (kind : String) (content : Bytes)
    → materialized_content codec (new_page codec now kind content) ≡ ok content
unfolding new_page materialized_content
new_page-read codec now kind content = refl

-- A sound page reads as any content that hashes to its key.
read_of_hash :
    (codec : Codec) (content : Bytes) (page : Page)
    → IsLawful codec
    → IsSound codec (codec.hash content) page
    → materialized_content codec page ≡ ok content
read_of_hash codec content page lawful p =
    p.readable ∙ ap ok (lawful.hash_injective p.original content p.hashed)

recounted-read :
    (codec : Codec) (page : Page) (n : ℕ)
    → materialized_content codec (record page { ref_count = n }) ≡ materialized_content codec page
unfolding materialized_content
recounted-read codec page n = refl

-- `CreatePage` makes the content readable under its hash, be the page new, kept or compressed, and
-- leaves what every other page reads as. (The kind must not be empty.)
pub view-create_page :
    (codec : Codec) (now : Clock) (kind : String) (content : Bytes) (s : Store) (j : String)
    → IsLawful codec
    → IsValid codec s
    → kind ≢ ""
    → view codec (create_page codec now kind content s).0.pages j
      ≡ ite (dec_str j (codec.hash content)) (some (ok content)) (view codec s.pages j)
unfolding create_page
view-create_page codec now kind content s j lawful v h = elim (Dec-cases (dec_str kind "")) [
  | inl (p, d) ↦ absurd (h p)
  | inr (q, d) ↦ elim (Option-cases (lookup dec_str (codec.hash content) s.pages)) [
    | inl e ↦
        rw (d, e, create_page)
          (ap (λ pages. view codec pages j) (publish-pages _ _ _ _ _ _)
            ∙ view-insert_any codec _ _ s.pages j
            ∙ ap (λ r. ite (dec_str j (codec.hash content)) (some r) (view codec s.pages j))
                (new_page-read codec now kind content))
    | inr (page, e) ↦
        rw (d, e, create_page)
          (ap (λ pages. view codec pages j) (publish-pages _ _ _ _ _ _)
            ∙ view-insert_any codec _ _ s.pages j
            ∙ ap (λ r. ite (dec_str j (codec.hash content)) (some r) (view codec s.pages j))
                (recounted-read codec page (page.ref_count + 1)
                  ∙ read_of_hash codec content page lawful
                      (lookup-IsSound codec s (codec.hash content) page v e)))
  ]
]
