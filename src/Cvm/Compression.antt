-- ===== src/Cvm/Compression.antt =====
-- internal/cvm/store.go: `CompressColdPages` is invisible to readers, and what it saves.
use os_complete.Base.{
  ℕ, ◌+◌, ◌-◌, ◌≤◌, ◌≡◌, refl, sym, ap, ◌∙◌, ◌↔◌, inl, inr, String, List, [], ◌∷◌, none, some,
  false, length, dec_str, lookup, Distinct, Each, All-map, Bool-cases, Option-cases, arith, ℤ,
}
use os_complete.Events.{Clock, later}
use os_complete.Cvm.Page.{Bytes, Codec, IsLawful, Page, ok, materialized_content, resident_bytes}
use os_complete.Cvm.Store.{Store}
use os_complete.Cvm.Sound.{IsSound, IsValid, Mapped}
use os_complete.Cvm.Reads.{view}
use os_complete.Cvm.Sweep.{
  is_skipped, access_limit, packed, squeeze, compress_pages, compress_cold_pages, current_bytes,
}

ok-injective {ℓ} : {A : Type ℓ} {a b : A} → ok a ≡ ok b → a ≡ b
ok-injective e = cc

read_uncompressed :
    (codec : Codec) (page : Page)
    → page.compressed ≡ false
    → materialized_content codec page ≡ ok page.content
unfolding materialized_content
read_uncompressed codec page e = rw e

-- A page that is not skipped holds its content as it is.
unskipped-content :
    (codec : Codec) (limit : ℕ) (id : String) (page : Page) (p : IsSound codec id page)
    → is_skipped limit page ≡ false
    → (page.content ≡ p.original) × (page.compressed ≡ false)
unfolding is_skipped
unskipped-content codec limit id page p h =
    let c : page.compressed ≡ false = ground arith in
    (ok-injective (sym (read_uncompressed codec page c) ∙ p.readable), c)

-- What is stored can be read back, and is no longer than the content.
squeeze-read :
    (codec : Codec) (now : Clock) (page : Page) (zipped : Bytes)
    → IsLawful codec
    → page.bytes ≡ length page.content
    → codec.gzip page.content ≡ some zipped
    → (materialized_content codec (squeeze now (packed page.content zipped) page) ≡ ok page.content)
      × (length (packed page.content zipped) ≤ page.bytes)
unfolding materialized_content squeeze packed
squeeze-read codec now page zipped lawful sized e =
    ground (arith, lawful.gunzip-gzip page.content zipped e)

squeeze-IsSound :
    (codec : Codec) (now : Clock) (limit : ℕ) (id : String) (page : Page) (zipped : Bytes)
    → IsLawful codec
    → IsSound codec id page
    → is_skipped limit page ≡ false
    → codec.gzip page.content ≡ some zipped
    → IsSound codec id (squeeze now (packed page.content zipped) page)
unfolding squeeze resident_bytes
squeeze-IsSound codec now limit id page zipped lawful p h e =
    let (same, _) = unskipped-content codec limit id page p h in
    let sized = p.sized ∙ ap length (sym same) in
    let (readable, short) = squeeze-read codec now page zipped lawful sized e in
    record {
      keyed = p.keyed;
      original = p.original;
      readable = readable ∙ ap ok same;
      hashed = p.hashed;
      sized = p.sized;
      compact = short;
    }

squeeze-same :
    (codec : Codec) (now : Clock) (limit : ℕ) (id : String) (page : Page) (zipped : Bytes)
    → IsLawful codec
    → IsSound codec id page
    → is_skipped limit page ≡ false
    → codec.gzip page.content ≡ some zipped
    → materialized_content codec (squeeze now (packed page.content zipped) page)
      ≡ materialized_content codec page
squeeze-same codec now limit id page zipped lawful p h e =
    let (same, plain) = unskipped-content codec limit id page p h in
    (squeeze-read codec now page zipped lawful (p.sized ∙ ap length (sym same)) e).0
    ∙ sym (read_uncompressed codec page plain)

view-cons :
    (codec : Codec) (id j : String) (page page' : Page) (rest rest' : List (String × Page))
    → materialized_content codec page' ≡ materialized_content codec page
    → view codec rest' j ≡ view codec rest j
    → view codec ((id, page') ∷ rest') j ≡ view codec ((id, page) ∷ rest) j
unfolding view lookup
view-cons codec id j page page' rest rest' e h = ground arith

-- The sweep, whether gzip fails or not, changes what no page reads as.
view-compress_pages :
    (codec : Codec) (now : Clock) (limit : ℕ) (pages : List (String × Page)) (j : String)
    → IsLawful codec
    → Each (IsSound codec) pages
    → view codec (compress_pages codec now limit pages).pages j ≡ view codec pages j
unfolding compress_pages
view-compress_pages codec now limit [] j lawful h = refl
view-compress_pages codec now limit ((id, page) ∷ rest) j lawful h =
    elim (Bool-cases (is_skipped limit page)) [
      | inl e ↦
          rw (e, compress_pages)
            (view-cons codec id j page page rest _ refl
              (view-compress_pages codec now limit rest j lawful h.1))
      | inr e ↦ elim (Option-cases (codec.gzip page.content)) [
        | inl z ↦ rw (e, z, compress_pages) refl
        | inr (zipped, z) ↦
            rw (e, z, compress_pages)
              (view-cons codec id j page _ rest _
                (squeeze-same codec now limit id page zipped lawful h.0 e z)
                (view-compress_pages codec (later 1 now) limit rest j lawful h.1))
      ]
    ]

-- A key is missing exactly if it reads as nothing.
missing-view :
    (codec : Codec) (pages : List (String × Page)) (j : String)
    → (view codec pages j ≡ none) ↔ (lookup dec_str j pages ≡ none)
unfolding view
missing-view codec pages j = (λ e. ground arith, λ e. rw e)

compress_pages-Distinct :
    (codec : Codec) (now : Clock) (limit : ℕ) (pages : List (String × Page))
    → IsLawful codec
    → Each (IsSound codec) pages
    → Distinct dec_str pages
    → Distinct dec_str (compress_pages codec now limit pages).pages
unfolding compress_pages
compress_pages-Distinct codec now limit [] lawful h d = tt
compress_pages-Distinct codec now limit ((id, page) ∷ rest) lawful h d =
    elim (Bool-cases (is_skipped limit page)) [
      | inl e ↦
          rw (e, compress_pages)
            (kept now, compress_pages-Distinct codec now limit rest lawful h.1 d.1)
      | inr e ↦ elim (Option-cases (codec.gzip page.content)) [
        | inl z ↦ rw (e, z, compress_pages) d
        | inr (zipped, z) ↦
            rw (e, z, compress_pages)
              (
                kept (later 1 now),
                compress_pages-Distinct codec (later 1 now) limit rest lawful h.1 d.1,
              )
      ]
    ]
  where
    kept : (now' : Clock) → lookup dec_str id (compress_pages codec now' limit rest).pages ≡ none
    kept now' = (missing-view codec _ id).0 (
        view-compress_pages codec now' limit rest id lawful h.1
        ∙ (missing-view codec rest id).1 d.0)

compress_pages-IsSound :
    (codec : Codec) (now : Clock) (limit : ℕ) (pages : List (String × Page))
    → IsLawful codec
    → Each (IsSound codec) pages
    → Each (IsSound codec) (compress_pages codec now limit pages).pages
unfolding compress_pages
compress_pages-IsSound codec now limit [] lawful h = tt
compress_pages-IsSound codec now limit ((id, page) ∷ rest) lawful h =
    elim (Bool-cases (is_skipped limit page)) [
      | inl e ↦ rw (e, compress_pages) (h.0, compress_pages-IsSound codec now limit rest lawful h.1)
      | inr e ↦ elim (Option-cases (codec.gzip page.content)) [
        | inl z ↦ rw (e, z, compress_pages) h
        | inr (zipped, z) ↦
            rw (e, z, compress_pages)
              (
                squeeze-IsSound codec now limit id page zipped lawful h.0 e z,
                compress_pages-IsSound codec (later 1 now) limit rest lawful h.1,
              )
      ]
    ]

Mapped-view :
    (codec : Codec) (pages pages' : List (String × Page)) (tables : List (String × List String))
    → ((j : String) → view codec pages' j ≡ view codec pages j)
    → Mapped pages tables
    → Mapped pages' tables
Mapped-view codec pages pages' [] same h = tt
Mapped-view codec pages pages' ((agent_id, ids) ∷ rest) same h = (
  All-map ids
      (λ j known gone.
        known
          ((missing-view codec pages j).0 (sym (same j) ∙ (missing-view codec pages' j).1 gone)))
      h.0,
  Mapped-view codec pages pages' rest same h.1,
)

squeeze-resident :
    (codec : Codec) (now : Clock) (limit : ℕ) (id : String) (page : Page) (zipped : Bytes)
    → IsLawful codec
    → IsSound codec id page
    → is_skipped limit page ≡ false
    → codec.gzip page.content ≡ some zipped
    → let stored = packed page.content zipped in
      resident_bytes (squeeze now stored page) + (page.bytes - length stored) ≡ resident_bytes page
unfolding resident_bytes squeeze
squeeze-resident codec now limit id page zipped lawful p h e =
    let (same, plain) = unskipped-content codec limit id page p h in
    let short = (squeeze-read codec now page zipped lawful (p.sized ∙ ap length (sym same)) e).1 in
    rw plain (omega arith)

-- The bytes saved are the bytes by which the resident pages shrink.
compress_pages-saved :
    (codec : Codec) (now : Clock) (limit : ℕ) (pages : List (String × Page))
    → IsLawful codec
    → Each (IsSound codec) pages
    → let r = compress_pages codec now limit pages in
      current_bytes r.pages + r.saved ≡ current_bytes pages
unfolding compress_pages current_bytes
compress_pages-saved codec now limit [] lawful h = omega arith
compress_pages-saved codec now limit ((id, page) ∷ rest) lawful h =
    elim (Bool-cases (is_skipped limit page)) [
      | inl e ↦
          rw (e, compress_pages)
            (omega (arith, compress_pages-saved codec now limit rest lawful h.1))
      | inr e ↦ elim (Option-cases (codec.gzip page.content)) [
        | inl z ↦ rw (e, z, compress_pages) (omega arith)
        | inr (zipped, z) ↦
            rw (e, z, compress_pages)
              (omega (
                arith,
                compress_pages-saved codec (later 1 now) limit rest lawful h.1,
                squeeze-resident codec now limit id page zipped lawful h.0 e z,
              ))
      ]
    ]

-- Compressing cold pages keeps the store valid and changes what no page reads as, also if gzip
-- fails half-way; what it reports as saved is exactly what the resident pages lose.
pub compress_cold_pages_invisible :
    (codec : Codec) (now : Clock) (max_access_count : ℤ) (s : Store)
    → IsLawful codec
    → IsValid codec s
    → let r = compress_cold_pages codec now max_access_count s in
      IsValid codec r.0
      × ((j : String) → view codec r.0.pages j ≡ view codec s.pages j)
      × (current_bytes r.0.pages + r.2 ≡ current_bytes s.pages)
      × (r.0.compression_saved_bytes ≡ s.compression_saved_bytes + r.2)
unfolding compress_cold_pages
compress_cold_pages_invisible codec now max_access_count s lawful v =
    let limit = access_limit max_access_count in
    let same = λ (j : String). view-compress_pages codec now limit s.pages j lawful v.sound in
    (
      record {
        distinct = compress_pages-Distinct codec now limit s.pages lawful v.sound v.distinct;
        sound = compress_pages-IsSound codec now limit s.pages lawful v.sound;
        mapped = Mapped-view codec s.pages _ s.page_tables same v.mapped;
      },
      same,
      compress_pages-saved codec now limit s.pages lawful v.sound,
      refl,
    )
