-- ===== src/Cvm/Tests.antt =====
-- internal/cvm/store.go: the theorems at concrete stores, over a small codec that meets `IsLawful`.
use text.Mathlib.TextLemmas.{cons≢nil}
use os_complete.Base.{
  ◌+◌, ◌≤◌, ◌≡◌, ◌≢◌, refl, ◌⊎◌, String, List, [], ◌∷◌, none, some, true, length, ite, dec_str,
  lookup, lookup_or, insert, pos, arith,
}
use os_complete.Events.{Clock}
use os_complete.Cvm.SmallCodec.{small, small-IsLawful, spell, shorten, restore, unary}
use os_complete.Cvm.Page.{
  Page, no_page, ok, contains, estimate_tokens, materialized_content, resident_bytes,
  append_unique_string, rune_count,
}
use os_complete.Cvm.Store.{
  Store, new_store, table, create_page, mount_page, materialize, release_page, publish_locked,
}
use os_complete.Cvm.Sound.{IsValid}
use os_complete.Cvm.Reads.{view, joined, materialize-joined, view-create_page}
use os_complete.Cvm.Compression.{compress_cold_pages_invisible}
use os_complete.Cvm.Eviction.{Evicts, evict_cold_pages_accounts, evict_cold_pages_enough}
use os_complete.Cvm.References.{
  Covers, holders, mount_page-Covers, release_page-Covers, release_page_by_stranger,
}
use os_complete.Cvm.Run.{Call, creates, mounts, compresses, evicts, step, run, run-IsValid}
use os_complete.Cvm.Sweep.{compress_cold_pages, evict_cold_pages, current_bytes}

abbrev noon : Clock
noon i = record { formatted = "12:00"; unix_milli = 43_200_000 + i }

-- Two pages, one of them mounted twice, compressed, and one eviction that finds nothing to do.
abbrev history : List (Clock × Call)
history =
    (noon, creates "task" (0 ∷ 0 ∷ 0 ∷ 0 ∷ []))
    ∷ (noon, mounts "planner" "bbbb")
    ∷ (noon, mounts "coder" "bbbb")
    ∷ (noon, creates "system" (1 ∷ []))
    ∷ (noon, compresses (pos 9))
    ∷ (noon, evicts (pos 0))
    ∷ []

abbrev worked : Store
worked = run small history (new_store none)

run-IsValid_example : IsValid small worked
run-IsValid_example = run-IsValid small history none small-IsLawful

materialize-joined_example :
    ((materialize small noon "coder" worked).1
      ≡ ok (joined small worked.pages (table worked "coder")))
    × IsValid small (materialize small noon "coder" worked).0
    × ((j : String)
        → view small (materialize small noon "coder" worked).0.pages j ≡ view small worked.pages j)
materialize-joined_example = materialize-joined small noon "coder" worked run-IsValid_example

view-create_page_example :
    view small (create_page small noon "delta" (0 ∷ 0 ∷ 0 ∷ 0 ∷ []) worked).0.pages "bbbb"
    ≡ ite
        (dec_str "bbbb" (spell (0 ∷ 0 ∷ 0 ∷ 0 ∷ [])))
        (some (ok (0 ∷ 0 ∷ 0 ∷ 0 ∷ [])))
        (view small worked.pages "bbbb")
view-create_page_example =
    view-create_page small noon "delta" (0 ∷ 0 ∷ 0 ∷ 0 ∷ []) worked "bbbb" small-IsLawful
      run-IsValid_example (λ e. cons≢nil e)

compress_cold_pages_invisible_example :
    let r = compress_cold_pages small noon (pos 9) worked in
    IsValid small r.0
    × ((j : String) → view small r.0.pages j ≡ view small worked.pages j)
    × (current_bytes r.0.pages + r.2 ≡ current_bytes worked.pages)
    × (r.0.compression_saved_bytes ≡ worked.compression_saved_bytes + r.2)
compress_cold_pages_invisible_example =
    compress_cold_pages_invisible small noon (pos 9) worked small-IsLawful run-IsValid_example

evict_cold_pages_accounts_example :
    let r = evict_cold_pages (pos 1) worked in
    IsValid small r.0
    × Evicts worked r.0
    × (current_bytes r.0.pages + r.2 ≡ current_bytes worked.pages)
    × (length r.0.pages + r.1 ≡ length worked.pages)
    × (r.0.evicted_pages ≡ worked.evicted_pages + r.1)
evict_cold_pages_accounts_example =
    evict_cold_pages_accounts small (pos 1) worked run-IsValid_example

evict_cold_pages_enough_example :
    let s' = (evict_cold_pages (pos 1) worked).0 in
    (current_bytes s'.pages ≤ 1)
    ⊎ ((id : String) (page : Page)
        → lookup dec_str id s'.pages ≡ some page
        → (page.ref_count ≢ 0) ⊎ (page.pinned ≡ true))
evict_cold_pages_enough_example = evict_cold_pages_enough small 1 worked run-IsValid_example

-- One page that one agent holds, and whose count says so.
abbrev held : Store
held = record {
  pages = ("p", record no_page { id = "p"; ref_count = 1 }) ∷ [];
  page_tables = ("planner", "p" ∷ []) ∷ [];
  saved_bytes = 0;
  saved_tokens = 0;
  compression_saved_bytes = 0;
  evicted_pages = 0;
  sink = none;
}

held-Covers : Covers held
unfolding holders lookup contains
held-Covers id page e = ground (arith)

mount_page-Covers_example : Covers (mount_page noon "coder" "p" held).0
mount_page-Covers_example = mount_page-Covers noon "coder" "p" held held-Covers

release_page-Covers_example : Covers (release_page noon "planner" "p" held).0
unfolding contains lookup_or lookup dec_str
release_page-Covers_example =
    release_page-Covers noon "planner" "p" held (λ e. cons≢nil e) refl held-Covers

release_page_by_stranger_example : ¬ Covers (release_page noon "coder" "p" held).0
unfolding contains lookup_or lookup dec_str holders
release_page_by_stranger_example =
    release_page_by_stranger noon "coder" "p" held (record no_page { id = "p"; ref_count = 1 })
      (λ e. cons≢nil e) refl refl (omega arith) refl

-- The runs of the example, as the program makes them.
worked_pages :
    (joined small worked.pages (table worked "coder") ≡ 0 ∷ 0 ∷ 0 ∷ 0 ∷ [])
    × (worked.compression_saved_bytes ≡ 3)
    × (worked.evicted_pages ≡ 0)
    × (worked.saved_bytes ≡ 4)
unfolding run step create_page mount_page compress_cold_pages evict_cold_pages joined view
    materialized_content spell unary shorten lookup insert lookup_or publish_locked new_store
    dec_str estimate_tokens rune_count append_unique_string contains resident_bytes restore
worked_pages = (refl, refl, refl, refl)
