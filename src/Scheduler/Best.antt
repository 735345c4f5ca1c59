-- ===== src/Scheduler/Best.antt =====
-- internal/scheduler/scheduler.go: what each policy's choice is the best of.
use os_complete.Avp.{Avp}
use os_complete.Base.{
  ℕ, ◌≤◌, ◌<◌, ◌≡◌, refl, ◌⊎◌, inl, inr, String, List, [], ◌∷◌, some, Bool, true, false, ◌&&◌, ◌||◌,
  ltb, sort, IsFirstLeast, IsLess, sort-IsFirstLeast, sort-cons, pick, pick-IsFirstLeast, All,
  Bool-cases, arith,
}
use os_complete.Floats.{Floats, IsOrdered}
use os_complete.Scheduler.Choice.{
  earlier, behind, first, fifo, min_vruntime, best_score, score, by_resources,
}
use os_complete.Scheduler.Resources.{ResourcePressure}

earlier-IsLess : IsLess earlier
unfolding earlier
earlier-IsLess = record {
  less_trans = λ a b c p q. ground arith;
  not_less_trans = λ a b c p q. ground arith;
}

behind-IsLess : IsLess behind
unfolding behind
behind-IsLess = record {
  less_trans = λ a b c p q. ground arith;
  not_less_trans = λ a b c p q. ground arith;
}

-- The first of a sorted list with an element.
first_of_sort :
    (less : Avp → Avp → Bool) (x : Avp) (xs : List Avp)
    → IsLess less
    → (agent : Avp) × (first (sort less (x ∷ xs)) ≡ some agent) × IsFirstLeast less agent (x ∷ xs)
unfolding first
first_of_sort less x xs o =
    let (agent, rest, e) = sort-cons less x xs in
    (agent, rw e, sort-IsFirstLeast less o (x ∷ xs) agent rest e)

-- FIFO: of the ready agents the one created first, and the first of these in the list.
pub fifo_first :
    (x : Avp) (xs : List Avp)
    → (agent : Avp) × (fifo (x ∷ xs) ≡ some agent) × IsFirstLeast earlier agent (x ∷ xs)
unfolding fifo
fifo_first x xs = first_of_sort earlier x xs earlier-IsLess

-- Token CFS: the lowest virtual runtime, then the earliest creation, then the first in the list.
pub min_vruntime_first :
    (x : Avp) (xs : List Avp)
    → (agent : Avp) × (min_vruntime (x ∷ xs) ≡ some agent) × IsFirstLeast behind agent (x ∷ xs)
unfolding min_vruntime
min_vruntime_first x xs = first_of_sort behind x xs behind-IsLess

-- The scan for affinity: it moves on only to a near candidate with more shared pages, and ends with
-- the most of all near ones.
record Affine (shared : String → ℕ) (near : Avp → Bool) (candidates : List Avp) (best : Avp) (n : ℕ)
    (r : Avp × ℕ) : Type 0 where
  counted : r.1 ≡ shared r.0.agent_id
  more : n ≤ r.1
  from : (r.0 ≡ best) ⊎ (near r.0 ≡ true) × (n < r.1)
  most : All (λ c. near c ≡ true → shared c.agent_id ≤ r.1) candidates

-- The test of the resource-aware loop: a higher score, or the same and an earlier creation.
unfoldable pub better : (fl : Floats) → (Avp → fl.F) → Avp → Avp → Bool
better fl value a b =
    fl.lt (value b) (value a) || (fl.eq (value a) (value b) && ltb a.created_at b.created_at)

module _ (fl : Floats) (value : Avp → fl.F) (IsNumber : fl.F → Type 0) (o : IsOrdered fl IsNumber)
    (scored : (a : Avp) → IsNumber (value a)) where
  -- Of two agents one has the higher score, or they have the same.
  better_cases :
      (a b : Avp)
      → ((fl.lt (value b) (value a) ≡ true) × (better fl value a b ≡ true))
        ⊎ ((value a ≡ value b) × (better fl value a b ≡ ltb a.created_at b.created_at))
        ⊎ ((fl.lt (value a) (value b) ≡ true) × (better fl value a b ≡ false))
  unfolding better
  better_cases a b = elim (Bool-cases (fl.lt (value b) (value a))) [
    | inl e ↦ inl (e, rw e)
    | inr e ↦ elim (Bool-cases (fl.lt (value a) (value b))) [
      | inl d ↦ inr (inr (d, rw (e, o.not_eq_of_lt (value a) (value b) (scored a) (scored b) d)))
      | inr d ↦
          let same = o.eq_of_not_lt (value a) (value b) (scored a) (scored b) d e in
          let on : fl.eq (value a) (value b) ≡ true = rw (← same) (o.eq_iff (value a) (scored a)) in
          inr (inl (same, rw (e, on)))
    ]
  ]

  better-IsLess : IsLess (better fl value)
  better-IsLess = record { less_trans = trans; not_less_trans = not_trans }
    where
      chain :
          (a b c : Avp)
          → fl.lt (value a) (value b) ≡ true
          → fl.lt (value b) (value c) ≡ true
          → fl.lt (value a) (value c) ≡ true
      chain a b c = o.lt_trans (value a) (value b) (value c) (scored a) (scored b) (scored c)

      asymm : (a b : Avp) → fl.lt (value a) (value b) ≡ true → fl.lt (value b) (value a) ≡ false
      asymm a b = o.lt_asymm (value a) (value b) (scored a) (scored b)

      trans :
          (a b c : Avp)
          → better fl value a b ≡ true
          → better fl value b c ≡ true
          → better fl value a c ≡ true
      trans a b c p q = ground (
        arith,
        better_cases a b,
        better_cases b c,
        better_cases a c,
        chain c b a,
        asymm a c,
        asymm a b,
        asymm b c,
      )

      not_trans :
          (a b c : Avp)
          → better fl value a b ≡ false
          → better fl value b c ≡ false
          → better fl value a c ≡ false
      not_trans a b c p q = ground (
        arith,
        better_cases a b,
        better_cases b c,
        better_cases a c,
        chain a b c,
        asymm a c,
        asymm a b,
        asymm b c,
        asymm c a,
      )

  -- Once the best score is that of the best candidate, the loop is a scan.
  best_score-pick :
      (candidates : List Avp) (best : Avp)
      → best_score fl value candidates best (value best) ≡ pick (better fl value) best candidates
  unfolding best_score pick better
  best_score-pick [] best = refl
  best_score-pick (c ∷ rest) best = elim (Bool-cases (better fl value c best)) [
    | inl e ↦ rw e (best_score-pick rest c)
    | inr e ↦ rw e (best_score-pick rest best)
  ]

  best_score_first :
      (candidates : List Avp) (x : Avp)
      → IsFirstLeast
          (better fl value)
          (best_score fl value (x ∷ candidates) x fl.neg_inf)
          (x ∷ candidates)
  unfolding best_score
  best_score_first candidates x =
      rw (o.neg_inf_lt (value x) (scored x), best_score-pick candidates x)
        (pick-IsFirstLeast (better fl value) better-IsLess x candidates)

-- Resource awareness: the choice has the highest score of the candidates, of these the earliest
-- creation, and of these it is the first in the list. (Every score is a number, not a NaN.)
pub by_resources_first :
    (fl : Floats) (IsNumber : fl.F → Type 0) (pressure : ResourcePressure fl)
    (shared : List (String × ℕ)) (x : Avp) (xs : List Avp)
    → IsOrdered fl IsNumber
    → ((a : Avp) → IsNumber (score fl pressure shared a).final_score)
    → (agent : Avp) × (by_resources fl pressure shared (x ∷ xs) ≡ some agent)
      × IsFirstLeast (better fl (λ a. (score fl pressure shared a).final_score)) agent (x ∷ xs)
unfolding by_resources
by_resources_first fl IsNumber pressure shared x xs o scored = (
  _,
  refl,
  best_score_first fl (λ a. (score fl pressure shared a).final_score) IsNumber o scored xs x,
)
