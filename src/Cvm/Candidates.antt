-- ===== src/Cvm/Candidates.antt =====
-- internal/cvm/store.go: the candidates of `EvictColdPages`, and what a single eviction does.
use os_complete.Base.{
  ◌≡◌, ◌≢◌, sym, ap, ◌∙◌, ◌⊎◌, inl, inr, String, List, [], ◌∷◌, none, some, Bool, true, dec_str,
  lookup, Distinct, Each, All, All-map, Bool-cases, arith, sort, place,
}
use os_complete.Cvm.Page.{Codec, Page}
use os_complete.Cvm.Sound.{IsSound}
use os_complete.Cvm.Sweep.{is_evictable, candidates}

-- One of the pages has the id.
abbrev pub Has : String → List Page → Type 0
Has id [] = ⊥
Has id (page ∷ pages) = (page.id ≡ id) ⊎ Has id pages

-- No id twice.
abbrev pub Apart : List Page → Type 0
Apart [] = Unit {0}
Apart (page ∷ pages) = All (λ other. other.id ≢ page.id) pages × Apart pages

-- The page is the store's page under its id, and may be evicted.
abbrev pub IsCandidate : List (String × Page) → Page → Type 0
IsCandidate pages page = (lookup dec_str page.id pages ≡ some page) × (is_evictable page ≡ true)

module _ (less : Page → Page → Bool) where
  place-All {κ} :
      (P : Page → Type κ) (page : Page) (pages : List Page)
      → P page
      → All P pages
      → All P (place less page pages)
  unfolding place
  place-All P page [] p h = (p, tt)
  place-All P page (x ∷ xs) p h = ground (arith, place-All P page xs p h.1)

  pub sort-All {κ} : (P : Page → Type κ) (pages : List Page) → All P pages → All P (sort less pages)
  unfolding sort
  sort-All P [] h = tt
  sort-All P (x ∷ xs) h = place-All P x (sort less xs) h.0 (sort-All P xs h.1)

  place-Apart :
      (page : Page) (pages : List Page)
      → All (λ other. other.id ≢ page.id) pages
      → Apart pages
      → Apart (place less page pages)
  unfolding place
  place-Apart page [] h a = (tt, tt)
  place-Apart page (x ∷ xs) h a = elim (Bool-cases (less x page)) [
    | inl e ↦ rw e (
      place-All (λ other. other.id ≢ x.id) page xs (λ p. h.0 (sym p)) a.0,
      place-Apart page xs h.1 a.1,
    )
    | inr e ↦ rw e (h, a)
  ]

  pub sort-Apart : (pages : List Page) → Apart pages → Apart (sort less pages)
  unfolding sort
  sort-Apart [] a = tt
  sort-Apart (x ∷ xs) a =
      place-Apart x (sort less xs) (sort-All (λ other. other.id ≢ x.id) xs a.0) (sort-Apart xs a.1)

  place-Has :
      (id : String) (page : Page) (pages : List Page)
      → (page.id ≡ id) ⊎ Has id pages
      → Has id (place less page pages)
  unfolding place
  place-Has id page [] h = h
  place-Has id page (x ∷ xs) h = elim (Bool-cases (less x page)) [
    | inl e ↦ rw e (below (place-Has id page xs) h)
    | inr e ↦ rw e h
  ]
    where
      below :
          ((page.id ≡ id) ⊎ Has id xs → Has id (place less page xs))
          → (page.id ≡ id) ⊎ Has id (x ∷ xs)
          → Has id (x ∷ place less page xs)
      below deeper (inl p) = inr (deeper (inl p))
      below deeper (inr (inl p)) = inl p
      below deeper (inr (inr p)) = inr (deeper (inr p))

  pub sort-Has : (id : String) (pages : List Page) → Has id pages → Has id (sort less pages)
  unfolding sort
  sort-Has id [] h = elim h [ ]
  sort-Has id (x ∷ xs) (inl p) = place-Has id x (sort less xs) (inl p)
  sort-Has id (x ∷ xs) (inr p) = place-Has id x (sort less xs) (inr (sort-Has id xs p))

IsCandidate-cons :
    (id : String) (page : Page) (rest : List (String × Page))
    → lookup dec_str id rest ≡ none
    → (c : Page) → IsCandidate rest c
    → IsCandidate ((id, page) ∷ rest) c
unfolding lookup
IsCandidate-cons id page rest d c h = (ground arith, h.1)

IsCandidate-head :
    (codec : Codec) (id : String) (page : Page) (rest : List (String × Page))
    → IsSound codec id page
    → lookup dec_str page.id ((id, page) ∷ rest) ≡ some page
unfolding lookup
IsCandidate-head codec id page rest h = let p = h.keyed in ground arith

IsCandidate-ne :
    (codec : Codec) (id : String) (page : Page) (rest : List (String × Page))
    → lookup dec_str id rest ≡ none
    → IsSound codec id page
    → (c : Page) → IsCandidate rest c
    → c.id ≢ page.id
IsCandidate-ne codec id page rest d h c k e =
    let p : c.id ≡ id = e ∙ h.keyed in absurd (cc (ap (λ j. lookup dec_str j rest) p))

-- Every candidate is a page of the store that may be evicted.
pub candidates-IsCandidate :
    (codec : Codec) (pages : List (String × Page))
    → Distinct dec_str pages
    → Each (IsSound codec) pages
    → All (IsCandidate pages) (candidates pages)
unfolding candidates lookup
candidates-IsCandidate codec [] d h = tt
candidates-IsCandidate codec ((id, page) ∷ rest) d h =
    let tail =
      All-map (candidates rest) (IsCandidate-cons id page rest d.0)
        (candidates-IsCandidate codec rest d.1 h.1) in
    elim (Bool-cases (is_evictable page)) [
      | inl e ↦ rw e ((IsCandidate-head codec id page rest h.0, e), tail)
      | inr e ↦ rw e tail
    ]

pub candidates-Apart :
    (codec : Codec) (pages : List (String × Page))
    → Distinct dec_str pages
    → Each (IsSound codec) pages
    → Apart (candidates pages)
unfolding candidates
candidates-Apart codec [] d h = tt
candidates-Apart codec ((id, page) ∷ rest) d h = elim (Bool-cases (is_evictable page)) [
  | inl e ↦ rw e (
    All-map (candidates rest) (IsCandidate-ne codec id page rest d.0 h.0)
        (candidates-IsCandidate codec rest d.1 h.1),
    candidates-Apart codec rest d.1 h.1,
  )
  | inr e ↦ rw e (candidates-Apart codec rest d.1 h.1)
]

-- Every page that may be evicted is among the candidates.
pub candidates-Has :
    (codec : Codec) (pages : List (String × Page)) (id : String) (page : Page)
    → Each (IsSound codec) pages
    → lookup dec_str id pages ≡ some page
    → is_evictable page ≡ true
    → Has id (candidates pages)
unfolding candidates lookup
candidates-Has codec [] id page h e t = absurd (ground arith)
candidates-Has codec ((j, q) ∷ rest) id page h e t = elim (dec_str id j) [
  | yes p ↦
      let same : q ≡ page = ground arith in
      let on : is_evictable q ≡ true = ap is_evictable same ∙ t in rw on (inl (h.0.keyed ∙ sym p))
  | no p ↦
      let deep = candidates-Has codec rest id page h.1 (ground arith) t in
      elim (Bool-cases (is_evictable q)) [ inl on ↦ rw on (inr deep) | inr off ↦ rw off deep ]
]
