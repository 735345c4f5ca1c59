-- ===== src/Cvm/Run.antt =====
-- internal/cvm/store.go: any sequence of calls. Each call holds the lock, so the calls of any number
-- of goroutines are a sequence; `WriteDelta` is a `creates` and a `mounts`.
use os_complete.Base.{String, List, [], ◌∷◌, Option, ℤ}
use os_complete.Events.{Clock, Event}
use os_complete.Cvm.Page.{Bytes, Codec, IsLawful}
use os_complete.Cvm.Store.{
  Store, new_store, create_page, mount_page, materialize, touch_page, pin_page, release_page,
}
use os_complete.Cvm.Sound.{IsValid}
use os_complete.Cvm.Invariant.{
  create_page-IsValid, mount_page-IsValid, touch_page-IsValid, pin_page-IsValid,
  release_page-IsValid,
}
use os_complete.Cvm.Reads.{materialize-joined}
use os_complete.Cvm.Compression.{compress_cold_pages_invisible}
use os_complete.Cvm.Eviction.{evict_cold_pages_accounts}
use os_complete.Cvm.Sweep.{compress_cold_pages, evict_cold_pages}

pub data Call : Type 0 where
  creates : String → Bytes → Call
  mounts : String → String → Call
  materializes : String → Call
  touches : String → Call
  pins : String → Call
  releases : String → String → Call
  compresses : ℤ → Call
  evicts : ℤ → Call

unfoldable pub step : Codec → Clock → Call → Store → Store
step codec now (creates kind content) s = (create_page codec now kind content s).0
step codec now (mounts agent_id page_id) s = (mount_page now agent_id page_id s).0
step codec now (materializes agent_id) s = (materialize codec now agent_id s).0
step codec now (touches page_id) s = (touch_page now page_id s).0
step codec now (pins page_id) s = (pin_page now page_id s).0
step codec now (releases agent_id page_id) s = (release_page now agent_id page_id s).0
step codec now (compresses max_access_count) s =
    (compress_cold_pages codec now max_access_count s).0
step codec now (evicts max_bytes) s = (evict_cold_pages max_bytes s).0

unfoldable pub run : Codec → List (Clock × Call) → Store → Store
run codec [] s = s
run codec ((now, call) ∷ calls) s = run codec calls (step codec now call s)

-- Every call keeps the store valid.
step-IsValid :
    (codec : Codec) (now : Clock) (call : Call) (s : Store)
    → IsLawful codec
    → IsValid codec s
    → IsValid codec (step codec now call s)
unfolding step
step-IsValid codec now (creates kind content) s lawful v =
    create_page-IsValid codec now kind content s v
step-IsValid codec now (mounts agent_id page_id) s lawful v =
    mount_page-IsValid codec now agent_id page_id s v
step-IsValid codec now (materializes agent_id) s lawful v =
    (materialize-joined codec now agent_id s v).1
step-IsValid codec now (touches page_id) s lawful v = touch_page-IsValid codec now page_id s v
step-IsValid codec now (pins page_id) s lawful v = pin_page-IsValid codec now page_id s v
step-IsValid codec now (releases agent_id page_id) s lawful v =
    release_page-IsValid codec now agent_id page_id s v
step-IsValid codec now (compresses max_access_count) s lawful v =
    (compress_cold_pages_invisible codec now max_access_count s lawful v).0
step-IsValid codec now (evicts max_bytes) s lawful v =
    (evict_cold_pages_accounts codec max_bytes s v).0

run_from-IsValid :
    (codec : Codec) (calls : List (Clock × Call)) (s : Store)
    → IsLawful codec
    → IsValid codec s
    → IsValid codec (run codec calls s)
unfolding run
run_from-IsValid codec [] s lawful v = v
run_from-IsValid codec ((now, call) ∷ calls) s lawful v =
    run_from-IsValid codec calls (step codec now call s) lawful
      (step-IsValid codec now call s lawful v)

new_store-IsValid : (codec : Codec) (sink : Option (List Event)) → IsValid codec (new_store sink)
unfolding new_store
new_store-IsValid codec sink = record { distinct = tt; sound = tt; mapped = tt }

-- After any sequence of calls on a new store, failed ones, compressions and evictions included, the
-- store is valid: no page twice, every page's content readable and under its own hash, every page
-- table made of pages that the store has.
pub run-IsValid :
    (codec : Codec) (calls : List (Clock × Call)) (sink : Option (List Event))
    → IsLawful codec
    → IsValid codec (run codec calls (new_store sink))
run-IsValid codec calls sink lawful =
    run_from-IsValid codec calls (new_store sink) lawful (new_store-IsValid codec sink)
