-- ===== src/Cvm/Invariant.antt =====
-- internal/cvm/store.go: the operations on single pages keep the store valid.
use os_complete.Base.{
  refl, inl, inr, String, [], ◌∷◌, dec_str, lookup, All-map, All-append, Bool-cases, Option-cases,
  Dec-cases,
}
use os_complete.Events.{Clock, later}
use os_complete.Cvm.Page.{Bytes, Codec, contains}
use os_complete.Cvm.Store.{
  Store, table, create_page, mount_page, touch_page, pin_page, release_page,
}
use os_complete.Cvm.Sound.{
  All-remove_string, IsValid, Known, Known-insert, Known-insert_self, insert-Fits, lookup-IsSound,
  new_page-IsSound, publish-IsValid, recount-IsSound, table-Fits, table-Known,
}

pub create_page-IsValid :
    (codec : Codec) (now : Clock) (kind : String) (content : Bytes) (s : Store)
    → IsValid codec s
    → IsValid codec (create_page codec now kind content s).0
unfolding create_page
create_page-IsValid codec now kind content s v = elim (Dec-cases (dec_str kind "")) [
  | inl (p, d) ↦ rw (d, create_page) v
  | inr (q, d) ↦ elim (Option-cases (lookup dec_str (codec.hash content) s.pages)) [
    | inl e ↦
        rw (d, e, create_page)
          (publish-IsValid codec (later 3 now) _ _ _ _ _ (
            insert-Fits codec s.pages s.page_tables (codec.hash content) _
              (new_page-IsSound codec now kind content) v))
    | inr (page, e) ↦
        rw (d, e, create_page)
          (publish-IsValid codec now _ _ _ _ _ (
            insert-Fits codec s.pages s.page_tables (codec.hash content) _
              (recount-IsSound codec _ page _ refl refl refl refl refl refl
                (lookup-IsSound codec s (codec.hash content) page v e))
              v))
  ]
]

pub mount_page-IsValid :
    (codec : Codec) (now : Clock) (agent_id page_id : String) (s : Store)
    → IsValid codec s
    → IsValid codec (mount_page now agent_id page_id s).0
unfolding mount_page
mount_page-IsValid codec now agent_id page_id s v =
    elim (Option-cases (lookup dec_str page_id s.pages)) [
      | inl e ↦ rw (e, mount_page) v
      | inr (page, e) ↦ elim (Bool-cases (contains page_id (table s agent_id))) [
        | inl c ↦ rw (e, c, mount_page) v
        | inr c ↦
            rw (e, c, mount_page)
              (publish-IsValid codec (later 1 now) _ _ _ _ _ (
                table-Fits codec _ s.page_tables agent_id _
                  (All-append (Known _) (table s agent_id) (page_id ∷ [])
                    (All-map (table s agent_id) (Known-insert s.pages page_id _)
                      (table-Known codec s agent_id v))
                    (Known-insert_self s.pages page_id _, tt))
                  (insert-Fits codec s.pages s.page_tables page_id _
                    (recount-IsSound codec _ page _ refl refl refl refl refl refl
                      (lookup-IsSound codec s page_id page v e))
                    v)))
      ]
    ]

pub touch_page-IsValid :
    (codec : Codec) (now : Clock) (page_id : String) (s : Store)
    → IsValid codec s
    → IsValid codec (touch_page now page_id s).0
unfolding touch_page
touch_page-IsValid codec now page_id s v = elim (Option-cases (lookup dec_str page_id s.pages)) [
  | inl e ↦ rw (e, touch_page) v
  | inr (page, e) ↦
      rw (e, touch_page)
        (insert-Fits codec s.pages s.page_tables page_id _
          (recount-IsSound codec _ page _ refl refl refl refl refl refl
            (lookup-IsSound codec s page_id page v e))
          v)
]

pub pin_page-IsValid :
    (codec : Codec) (now : Clock) (page_id : String) (s : Store)
    → IsValid codec s
    → IsValid codec (pin_page now page_id s).0
unfolding pin_page
pin_page-IsValid codec now page_id s v = elim (Option-cases (lookup dec_str page_id s.pages)) [
  | inl e ↦ rw (e, pin_page) v
  | inr (page, e) ↦
      rw (e, pin_page)
        (insert-Fits codec s.pages s.page_tables page_id _
          (recount-IsSound codec _ page _ refl refl refl refl refl refl
            (lookup-IsSound codec s page_id page v e))
          v)
]

pub release_page-IsValid :
    (codec : Codec) (now : Clock) (agent_id page_id : String) (s : Store)
    → IsValid codec s
    → IsValid codec (release_page now agent_id page_id s).0
unfolding release_page
release_page-IsValid codec now agent_id page_id s v =
    elim (Option-cases (lookup dec_str page_id s.pages)) [
      | inl e ↦ rw (e, release_page) v
      | inr (page, e) ↦ elim (Dec-cases (dec_str agent_id "")) [
        | inl (p, d) ↦
            rw (e, d, release_page)
              (insert-Fits codec s.pages s.page_tables page_id _
                (recount-IsSound codec _ page _ refl refl refl refl refl refl
                  (lookup-IsSound codec s page_id page v e))
                v)
        | inr (q, d) ↦
            rw (e, d, release_page)
              (table-Fits codec _ s.page_tables agent_id _
                (All-remove_string (Known _) (table s agent_id) page_id (
                  All-map (table s agent_id) (Known-insert s.pages page_id _)
                    (table-Known codec s agent_id v)))
                (insert-Fits codec s.pages s.page_tables page_id _
                  (recount-IsSound codec _ page _ refl refl refl refl refl refl
                    (lookup-IsSound codec s page_id page v e))
                  v))
      ]
    ]
