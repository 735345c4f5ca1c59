-- ===== src/Gateway/Context.antt =====
-- internal/syscall/gateway.go: the calls on context pages.
--
-- A call runs alone here: nothing else changes the store between its steps. `at k` is the clock as it
-- is read at the k-th place of a call.
use os_complete.Base.{
  ℕ, zero, suc, String, List, [], ◌∷◌, Option, none, some, true, false, length, ℤ, pos, negsuc,
}
use os_complete.Cvm.Page as CvmPage
use os_complete.Cvm.Page.{Bytes, Page, ok, err, estimate_tokens}
use os_complete.Cvm.Store.{Store, pin_page, materialize, write_delta}
use os_complete.Cvm.Sweep.{Stats, stats, compress_cold_pages, evict_cold_pages}
use os_complete.Events.{Clock, later, Payload, fields, text, num}
use os_complete.Gateway.Args.{Args, string_arg, string_slice_arg, int_arg, bool_arg, max_int}
use os_complete.Gateway.State.{World, Request, Response, Gateway, cvm_error, refused, accepted}

unfoldable pub pin_pages : Clock → List String → Store → Store × Option CvmPage.Error
pin_pages now [] s = (s, none)
pin_pages now (page_id ∷ rest) s =
    let r = pin_page now page_id s in
    elim r.1 [ err e ↦ (r.0, some e) | ok _ ↦ pin_pages (later 4 now) rest r.0 ]

module _ (w : World) where
  open w use {F, int_of, atoi, codec, text_of, bytes_of}

  unfoldable pub compress_if : Clock → Args F → Store → Store × Option CvmPage.Error
  compress_if now args s = elim (bool_arg args "compress_cold") [
    | false ↦ (s, none)
    | true ↦
        let r =
          compress_cold_pages codec now
            (max_int (pos 1) (int_arg int_of atoi args "compress_max_access_count")) s in
        (r.0, r.3)
  ]

  unfoldable pub evict_if : ℤ → Store → Store
  evict_if (pos zero) s = s
  evict_if (pos (suc n)) s = (evict_cold_pages (pos (suc n)) s).0
  evict_if (negsuc n) s = s

  unfoldable pub apply_cvm_controls : (ℕ → Clock) → Args F → Store → Store × Option CvmPage.Error
  unfolding pin_pages compress_if evict_if
  apply_cvm_controls at none s = (s, none)
  apply_cvm_controls at (some args) s =
      let p = pin_pages (at 0) (string_slice_arg (some args) "pin_page_ids") s in
      elim p.1 [
        | some e ↦ p
        | none ↦
            let c = compress_if (at 1) (some args) p.0 in
            elim c.1 [
              | some e ↦ c
              | none ↦ (evict_if (int_arg int_of atoi (some args) "evict_max_bytes") c.0, none)
            ]
      ]

  materialized_payload : Bytes → Stats → Payload
  materialized_payload content t = fields (
      ("content", text (text_of content))
      ∷ ("bytes", num (length content))
      ∷ ("tokens", num (estimate_tokens content))
      ∷ ("total_pages", num t.total_pages)
      ∷ ("shared_pages", num t.shared_pages)
      ∷ ("hot_pages", num t.hot_pages)
      ∷ ("cold_pages", num t.cold_pages)
      ∷ ("compressed_pages", num t.compressed_pages)
      ∷ ("evicted_pages", num t.evicted_pages)
      ∷ ("pinned_pages", num t.pinned_pages)
      ∷ ("ref_counted_pages", num t.ref_counted_pages)
      ∷ ("memory_saved_bytes", num t.memory_saved_bytes)
      ∷ ("compression_saved_bytes", num t.compression_saved_bytes)
      ∷ ("dedup_saved_bytes", num t.dedup_saved_bytes)
      ∷ [])

  -- `Materialize` and what is answered, once the controls are applied.
  unfoldable pub materialize_after :
      Clock → Request F → Store × Option CvmPage.Error → Store × Response
  unfolding materialized_payload
  materialize_after now req (s, some e) = (s, refused req "ERROR" (cvm_error w e))
  materialize_after now req (s, none) =
      let m = materialize codec now req.agent_id s in
      (
        m.0,
        elim m.1 [
          | err e ↦ refused req "ERROR" (cvm_error w e)
          | ok content ↦ accepted req (materialized_payload content (stats m.0))
        ],
      )

  unfoldable pub context_materialize : (ℕ → Clock) → Request F → Gateway w → Gateway w × Response
  unfolding apply_cvm_controls materialize_after
  context_materialize at req g = elim g.cvm [
    | none ↦ (g, refused req "ERROR" "cvm store is not configured")
    | some s ↦
        let r = materialize_after (at 2) req (apply_cvm_controls at req.args s) in
        (record g { cvm = some r.0 }, r.1)
  ]

  unfoldable pub delta_after : Request F → Store × CvmPage.Result Page → Store × Response
  delta_after req (s, err e) = (s, refused req "ERROR" (cvm_error w e))
  delta_after req (s, ok page) = (
    s,
    accepted req (
        fields (
          ("page_id", text page.id)
          ∷ ("bytes", num page.bytes)
          ∷ ("tokens", num page.token_count)
          ∷ [])),
  )

  unfoldable pub context_write_delta : (ℕ → Clock) → Request F → Gateway w → Gateway w × Response
  unfolding delta_after
  context_write_delta at req g = elim g.cvm [
    | none ↦ (g, refused req "ERROR" "cvm store is not configured")
    | some s ↦
        let content = string_arg req.args "content" in
        elim content.1 [
          | false ↦ (g, refused req "DENIED" "content is required")
          | true ↦
              let r =
                delta_after req (
                  write_delta codec (at 0) (at 1) (λ s'. s') req.agent_id (bytes_of content.0) s) in
              (record g { cvm = some r.0 }, r.1)
        ]
  ]
