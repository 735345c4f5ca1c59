-- ===== src/Gateway/Sound.antt =====
-- internal/syscall/gateway.go: each handler answers its request and keeps what it must.
use os_complete.Base.{
  ◌≡◌, refl, String, List, [], ◌∷◌, Option, none, some, ℤ, pos, negsuc, zero, suc, ℕ,
}
use os_complete.Cvm.Compression.{compress_cold_pages_invisible}
use os_complete.Cvm.Eviction.{evict_cold_pages_accounts}
use os_complete.Cvm.Invariant.{create_page-IsValid, mount_page-IsValid, pin_page-IsValid}
use os_complete.Cvm.Page as CvmPage
use os_complete.Cvm.Page.{Bytes, Codec, IsLawful, Page, Result, ok, err}
use os_complete.Cvm.Reads.{materialize-joined}
use os_complete.Cvm.Sound.{IsValid}
use os_complete.Cvm.Store.{Store, pin_page, mount_created, create_page, write_delta, materialize}
use os_complete.Events.{Clock, later}
use os_complete.Gateway.Args.{Args, string_arg, string_slice_arg, int_arg, bool_arg, max_int}
use os_complete.Gateway.Cases.{split_Bool, split_Option, split_Result}
use os_complete.Gateway.Context.{
  pin_pages, compress_if, evict_if, apply_cvm_controls, materialize_after, context_materialize,
  delta_after, context_write_delta,
}
use os_complete.Gateway.Follows.{Answers, Follows-refl, answer, restored-Follows}
use os_complete.Gateway.State.{World, Request, Response, Gateway, refused, accepted}

pin_pages-IsValid :
    (codec : Codec) (now : Clock) (ids : List String) (s : Store)
    → IsValid codec s
    → IsValid codec (pin_pages now ids s).0
unfolding pin_pages
pin_pages-IsValid codec now [] s v = v
pin_pages-IsValid codec now (id ∷ ids) s v =
    let v' = pin_page-IsValid codec now id s v in
    split_Result (λ (r : Store × Option CvmPage.Error). IsValid codec r.0) (pin_page now id s).1
      (λ e _. v') (λ x _. pin_pages-IsValid codec (later 4 now) ids _ v')

module _ (w : World) where
  materialize_after_answers :
      (now : Clock) (req : Request w.F) (c : Store × Option CvmPage.Error)
      → (materialize_after w now req c).1.request_id ≡ req.request_id
  unfolding materialize_after accepted refused
  materialize_after_answers now req (s, some e) = refl
  materialize_after_answers now req (s, none) =
      split_Result (λ (resp : Response). resp.request_id ≡ req.request_id)
        (materialize w.codec now req.agent_id s).1 (λ e _. refl) (λ content _. refl)

  delta_after_answers :
      (req : Request w.F) (r : Store × Result Page)
      → (delta_after w req r).1.request_id ≡ req.request_id
  unfolding delta_after refused accepted
  delta_after_answers req (s, err e) = refl
  delta_after_answers req (s, ok page) = refl

module _ (w : World) (lawful : IsLawful w.codec) where
  open w use {F, codec, int_of, atoi}

  compress_if-IsValid :
      (now : Clock) (args : Args F) (s : Store)
      → IsValid codec s
      → IsValid codec (compress_if w now args s).0
  unfolding compress_if
  compress_if-IsValid now args s v =
      let k = max_int (pos 1) (int_arg int_of atoi args "compress_max_access_count") in
      let v' = (compress_cold_pages_invisible codec now k s lawful v).0 in
      split_Bool (λ (r : Store × Option CvmPage.Error). IsValid codec r.0)
        (bool_arg args "compress_cold") (λ _. v) (λ _. v')

  evict_if-IsValid :
      (max_bytes : ℤ) (s : Store) → IsValid codec s → IsValid codec (evict_if w max_bytes s)
  unfolding evict_if
  evict_if-IsValid (pos zero) s v = v
  evict_if-IsValid (pos (suc n)) s v = (evict_cold_pages_accounts codec (pos (suc n)) s v).0
  evict_if-IsValid (negsuc n) s v = v

  apply_cvm_controls-IsValid :
      (at : ℕ → Clock) (args : Args F) (s : Store)
      → IsValid codec s
      → IsValid codec (apply_cvm_controls w at args s).0
  unfolding apply_cvm_controls
  apply_cvm_controls-IsValid at none s v = v
  apply_cvm_controls-IsValid at (some args) s v =
      let ids = string_slice_arg (some args) "pin_page_ids" in
      let pinned = pin_pages-IsValid codec (at 0) ids s v in
      let p = pin_pages (at 0) ids s in
      let compressed = compress_if-IsValid (at 1) (some args) p.0 pinned in
      split_Option (λ (r : Store × Option CvmPage.Error). IsValid codec r.0) p.1
        (λ _.
          split_Option (λ (r : Store × Option CvmPage.Error). IsValid codec r.0)
            (compress_if w (at 1) (some args) p.0).1
            (λ _. evict_if-IsValid (int_arg int_of atoi (some args) "evict_max_bytes") _ compressed)
            (λ e _. compressed))
        (λ e _. pinned)

  materialize_after-IsValid :
      (now : Clock) (req : Request F) (c : Store × Option CvmPage.Error)
      → IsValid codec c.0
      → IsValid codec (materialize_after w now req c).0
  unfolding materialize_after
  materialize_after-IsValid now req (s, some e) v = v
  materialize_after-IsValid now req (s, none) v = (materialize-joined codec now req.agent_id s v).1

  pub context_materialize-Answers :
      (at : ℕ → Clock) (req : Request F) (g : Gateway w)
      → Answers w req g (context_materialize w at req g)
  unfolding context_materialize refused
  context_materialize-Answers at req g =
      split_Option (Answers w req g) g.cvm (λ _. answer w g _ (Follows-refl w g) refl)
        (λ s e.
          let c = apply_cvm_controls w at req.args s in
          answer w _ _
            (restored-Follows w g s _ e (λ v.
              materialize_after-IsValid (at 2) req c (apply_cvm_controls-IsValid at req.args s v)))
            (materialize_after_answers w (at 2) req c))

  write_delta-IsValid :
      (now now' : Clock) (agent_id : String) (content : Bytes) (s : Store)
      → IsValid codec s
      → IsValid codec (write_delta codec now now' (λ s'. s') agent_id content s).0
  unfolding write_delta mount_created
  write_delta-IsValid now now' agent_id content s v =
      let v' = create_page-IsValid codec now "delta" content s v in
      split_Result (λ (r : Store × Result Page). IsValid codec r.0)
        (create_page codec now "delta" content s).1 (λ e _. v')
        (λ page _. mount_page-IsValid codec now' agent_id page.id _ v')

  delta_after-IsValid :
      (req : Request F) (r : Store × Result Page)
      → IsValid codec r.0
      → IsValid codec (delta_after w req r).0
  unfolding delta_after
  delta_after-IsValid req (s, err e) v = v
  delta_after-IsValid req (s, ok page) v = v

  pub context_write_delta-Answers :
      (at : ℕ → Clock) (req : Request F) (g : Gateway w)
      → Answers w req g (context_write_delta w at req g)
  unfolding context_write_delta refused
  context_write_delta-Answers at req g =
      split_Option (Answers w req g) g.cvm (λ _. answer w g _ (Follows-refl w g) refl)
        (λ s e.
          split_Bool (Answers w req g) (string_arg req.args "content").1
            (λ _. answer w g _ (Follows-refl w g) refl)
            (λ _.
              let content = w.bytes_of (string_arg req.args "content").0 in
              answer w _ _
                (restored-Follows w g s _ e (λ v.
                  delta_after-IsValid req _
                    (write_delta-IsValid (at 0) (at 1) req.agent_id content s v)))
                (delta_after_answers w req _)))
