-- ===== src/Cvm/Sweep.antt =====
-- internal/cvm/store.go: the sweeps over all pages, compression and eviction, and the statistics.
-- `range` visits the map in the order of its association list; the theorems hold of every order.
use os_complete.Base.{
  ℕ, suc, zero, ◌+◌, ◌-◌, String, List, [], ◌∷◌, Option, none, some, Bool, true, not, ◌&&◌, ◌||◌,
  length, ltb, leb, ◌==◌, if◌then◌else◌, dec_str, delete, ℤ, pos, negsuc, sort,
}
use os_complete.Events.{Clock, later}
use os_complete.Cvm.Page.{Codec, Page, Bytes, Error, gzip_failed, resident_bytes, remove_string}
use os_complete.Cvm.Store.{Store}

-- What `CompressColdPages` has done so far, with the error that stopped it.
pub record Compression : Type 0 where
  pub pages : List (String × Page)
  pub compressed : ℕ
  pub saved : ℕ
  pub failed : Option Error

-- `maxAccessCount <= 0` stands for 1.
unfoldable pub access_limit : ℤ → ℕ
access_limit (pos zero) = 1
access_limit (pos (suc n)) = suc n
access_limit (negsuc n) = 1

-- The two guards of the loop that `continue`.
unfoldable pub is_skipped : ℕ → Page → Bool
is_skipped limit page =
    page.pinned || page.compressed || ltb limit page.access_count || length page.content == 0

-- What is stored for a content and what gzip made of it: gzip's output only if it is shorter.
unfoldable pub packed : Bytes → Bytes → Bytes
packed content zipped = if leb (length content) (length zipped) then content else zipped

-- The page with its content replaced by `stored`.
unfoldable pub squeeze : Clock → Bytes → Page → Page
squeeze now stored page = record page {
  compressed_data = stored;
  compressed = true;
  compressed_size_bytes = length stored;
  content = [];
  updated_at = (now 0).unix_milli;
}

unfoldable pub compress_pages : Codec → Clock → ℕ → List (String × Page) → Compression
unfolding is_skipped packed squeeze
compress_pages codec now limit [] = record { pages = []; compressed = 0; saved = 0; failed = none }
compress_pages codec now limit ((id, page) ∷ rest) =
    let skipped = compress_pages codec now limit rest in
    let swept = compress_pages codec (later 1 now) limit rest in
    if is_skipped limit page
    then record skipped { pages = (id, page) ∷ skipped.pages }
    else elim (codec.gzip page.content) [
      | none ↦ record {
        pages = (id, page) ∷ rest;
        compressed = 0;
        saved = 0;
        failed = some gzip_failed;
      }
      | some zipped ↦
          let stored = packed page.content zipped in
          record {
            pages = (id, squeeze now stored page) ∷ swept.pages;
            compressed = suc swept.compressed;
            saved = (page.bytes - length stored) + swept.saved;
            failed = swept.failed;
          }
    ]

-- The store, the number of pages compressed, the bytes saved and the error, if any.
unfoldable pub compress_cold_pages : Codec → Clock → ℤ → Store → Store × ℕ × ℕ × Option Error
unfolding access_limit compress_pages
compress_cold_pages codec now max_access_count s =
    let r = compress_pages codec now (access_limit max_access_count) s.pages in
    (
      record s { pages = r.pages; compression_saved_bytes = s.compression_saved_bytes + r.saved },
      r.compressed,
      r.saved,
      r.failed,
    )

unfoldable pub current_bytes : List (String × Page) → ℕ
current_bytes [] = 0
current_bytes ((id, page) ∷ rest) = resident_bytes page + current_bytes rest

unfoldable pub is_evictable : Page → Bool
is_evictable page = page.ref_count == 0 && not page.pinned

unfoldable pub candidates : List (String × Page) → List Page
unfolding is_evictable
candidates [] = []
candidates ((id, page) ∷ rest) =
    if is_evictable page then page ∷ candidates rest else candidates rest

-- Rarely used pages first, the least recent of them first.
unfoldable pub colder : Page → Page → Bool
colder a b =
    if a.access_count == b.access_count
    then ltb a.last_access_time b.last_access_time
    else ltb a.access_count b.access_count

unfoldable pub unmap : String → List (String × List String) → List (String × List String)
unmap page_id [] = []
unmap page_id ((agent_id, ids) ∷ rest) = (agent_id, remove_string ids page_id) ∷ unmap page_id rest

-- `delete(s.pages, page.ID)`, and the same in every page table.
unfoldable pub drop_page : String → Store → Store
unfolding unmap
drop_page page_id s = record s {
  pages = delete dec_str page_id s.pages;
  page_tables = unmap page_id s.page_tables;
}

-- The loop over the candidates: the bytes in use, the pages evicted, the bytes freed.
unfoldable pub evict : ℕ → List Page → ℕ → ℕ → ℕ → Store → Store × ℕ × ℕ
unfolding drop_page
evict max_bytes [] current evicted freed s = (s, evicted, freed)
evict max_bytes (page ∷ rest) current evicted freed s =
    let next =
      evict max_bytes rest (current - resident_bytes page) (evicted + 1)
        (freed + resident_bytes page) (drop_page page.id s) in
    if leb current max_bytes then (s, evicted, freed) else next

unfoldable pub evict_to : ℕ → Store → Store × ℕ × ℕ
unfolding evict sort
evict_to max_bytes s =
    let r = evict max_bytes (sort colder (candidates s.pages)) (current_bytes s.pages) 0 0 s in
    (record r.0 { evicted_pages = r.0.evicted_pages + r.1 }, r.1, r.2)

-- The store, the number of pages evicted and the bytes freed. A negative limit means none.
-- `sort.Slice` may leave equal candidates in any order; the order of the map is any order too.
unfoldable pub evict_cold_pages : ℤ → Store → Store × ℕ × ℕ
unfolding evict_to current_bytes candidates
evict_cold_pages (negsuc n) s = (s, 0, 0)
evict_cold_pages (pos max_bytes) s =
    if leb (current_bytes s.pages) max_bytes then (s, 0, 0) else evict_to max_bytes s

pub record Stats : Type 0 where
  pub total_pages : ℕ
  pub shared_pages : ℕ
  pub hot_pages : ℕ
  pub cold_pages : ℕ
  pub compressed_pages : ℕ
  pub evicted_pages : ℕ
  pub pinned_pages : ℕ
  pub ref_counted_pages : ℕ
  pub saved_bytes : ℕ
  pub saved_tokens : ℕ
  pub memory_saved_bytes : ℕ
  pub compression_saved_bytes : ℕ
  pub dedup_saved_bytes : ℕ
  pub dedup_saved_tokens : ℕ

unfoldable pub bit : Bool → ℕ
bit b = if b then 1 else 0

-- One round of the loop of `Stats`.
unfoldable pub count_page : Page → Stats → Stats
unfolding bit
count_page page t =
    let hot = leb 4 page.access_count in
    record t {
      shared_pages = t.shared_pages + bit (ltb 1 page.ref_count);
      ref_counted_pages = t.ref_counted_pages + bit (ltb 0 page.ref_count);
      pinned_pages = t.pinned_pages + bit page.pinned;
      compressed_pages = t.compressed_pages + bit page.compressed;
      hot_pages = t.hot_pages + bit hot;
      cold_pages = t.cold_pages + bit (not hot && page.ref_count == 0 && not page.pinned);
    }

unfoldable pub count_pages : List (String × Page) → Stats → Stats
unfolding count_page
count_pages [] t = t
count_pages ((id, page) ∷ rest) t = count_pages rest (count_page page t)

unfoldable pub stats : Store → Stats
unfolding count_pages
stats s = count_pages s.pages (record {
  total_pages = length s.pages;
  shared_pages = 0;
  hot_pages = 0;
  cold_pages = 0;
  compressed_pages = 0;
  evicted_pages = s.evicted_pages;
  pinned_pages = 0;
  ref_counted_pages = 0;
  saved_bytes = s.saved_bytes;
  saved_tokens = s.saved_tokens;
  memory_saved_bytes = s.saved_bytes + s.compression_saved_bytes;
  compression_saved_bytes = s.compression_saved_bytes;
  dedup_saved_bytes = s.saved_bytes;
  dedup_saved_tokens = s.saved_tokens;
})
