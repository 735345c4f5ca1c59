-- ===== src/Scheduler/Totality.antt =====
-- internal/scheduler/scheduler.go: `Select` as a whole.
use os_complete.Avp.{Avp, ready}
use os_complete.Base.{
  ℕ, ◌≡◌, ◌≢◌, refl, ◌⊎◌, inl, inr, String, List, [], ◌∷◌, ◌++◌, Option, none, some, Bool, ◌&&◌,
  ◌||◌, ◌<◌, lookup_or, dec_str, ltb, IsFirstLeast, All, All-map, true, false, All-map₂, Bool-cases,
  Dec-cases, arith,
}
use os_complete.Events.{Clock}
use os_complete.Floats.{Floats}
use os_complete.Scheduler.Best.{fifo_first, min_vruntime_first}
use os_complete.Scheduler.Choice.{
  lowest_vruntime, behind, earlier, ready_agents, shared_pages, best_affinity, within, by_affinity,
  best_score, score, by_resources,
}
use os_complete.Scheduler.{
  Scheduler, DecisionLog, Selection, select_locked, select, make_decision_locked, policy_token_cfs,
  policy_prefix_affinity, policy_resource_aware, chosen,
}

-- The ready agents are ready.
ready_agents-ready : (candidates : List Avp) → All (λ a. a.state ≡ ready) (ready_agents candidates)
unfolding ready_agents
ready_agents-ready [] = tt
ready_agents-ready (c ∷ rest) = ground (arith, ready_agents-ready rest)

module _ (P : Avp → Type 0) where
  All-middle : (before after : List Avp) (a : Avp) → All P (before ++ a ∷ after) → P a
  All-middle [] after a h = h.0
  All-middle (x ∷ before) after a h = All-middle before after a h.1

  All-IsFirstLeast :
      (less : Avp → Avp → Bool) (a : Avp) (xs : List Avp) → IsFirstLeast less a xs → All P xs → P a
  All-IsFirstLeast less a xs f h = All-middle f.before f.after a (rw f.split at h)

  best_affinity-All :
      (fl : Floats) (shared : String → ℕ) (near : Avp → Bool) (candidates : List Avp) (best : Avp)
      (n : ℕ)
      → P best
      → All P candidates
      → P (best_affinity fl shared near candidates best n).0
  unfolding best_affinity
  best_affinity-All fl shared near [] best n p h = p
  best_affinity-All fl shared near (c ∷ rest) best n p h =
      elim (Bool-cases (ltb n (shared c.agent_id) && near c)) [
        | inl e ↦
            rw (e, best_affinity)
              (best_affinity-All fl shared near rest c (shared c.agent_id) h.0 h.1)
        | inr e ↦ rw (e, best_affinity) (best_affinity-All fl shared near rest best n p h.1)
      ]

  by_affinity-All :
      (fl : Floats) (threshold : ℕ) (last : Option Avp) (candidates : List Avp)
      (shared : List (String × ℕ)) (base : Avp)
      → P base
      → All P candidates
      → P (by_affinity fl threshold last candidates shared base).0
  unfolding by_affinity
  by_affinity-All fl threshold none candidates shared base p h = p
  by_affinity-All fl threshold (some last) candidates shared base p h =
      let count = λ (id : String). lookup_or dec_str 0 id shared in
      let near = within fl threshold base in
      let best = best_affinity fl count near candidates base (count base.agent_id) in
      elim (Dec-cases (dec_str best.0.agent_id base.agent_id)) [
        | inl (q, e) ↦ rw (e, by_affinity) p
        | inr (q, e) ↦
            rw (e, by_affinity)
              (best_affinity-All fl count near candidates base (count base.agent_id) p h)
      ]

  best_score-All :
      (fl : Floats) (value : Avp → fl.F) (candidates : List Avp) (best : Avp) (best_value : fl.F)
      → P best
      → All P candidates
      → P (best_score fl value candidates best best_value)
  unfolding best_score
  best_score-All fl value [] best best_value p h = p
  best_score-All fl value (c ∷ rest) best best_value p h =
      elim (Bool-cases (
        fl.lt best_value (value c)
        || (fl.eq (value c) best_value && ltb c.created_at best.created_at))) [
          | inl e ↦ rw (e, best_score) (best_score-All fl value rest c (value c) h.0 h.1)
          | inr e ↦ rw (e, best_score) (best_score-All fl value rest best best_value p h.1)
        ]

  -- Under every policy a choice is made, and it is one of the candidates.
  select_locked-All :
      (fl : Floats) (s : Scheduler fl) (x : Avp) (xs : List Avp)
      → All P (x ∷ xs)
      → (r : Selection fl) × (select_locked fl s (x ∷ xs) ≡ some r) × P r.selected
  unfolding select_locked by_resources
  select_locked-All fl s x xs h =
      let (f, f_is, f_first) = fifo_first x xs in
      let (m, m_is, m_first) = min_vruntime_first x xs in
      let pm = All-IsFirstLeast behind m (x ∷ xs) m_first h in
      elim (Dec-cases (dec_str s.policy policy_token_cfs)) [
        | inl (_, e) ↦ rw (e, select_locked, m_is) (_, refl, pm)
        | inr (_, e) ↦ elim (Dec-cases (dec_str s.policy policy_prefix_affinity)) [
          | inl (_, d) ↦
              rw (e, d, select_locked, m_is)
                (
                  _,
                  refl,
                  by_affinity-All fl s.affinity_threshold s.last (x ∷ xs)
                      (shared_pages s.last (x ∷ xs)) m pm h,
                )
          | inr (_, d) ↦ elim (Dec-cases (dec_str s.policy policy_resource_aware)) [
            | inl (_, c) ↦
                rw (e, d, c, select_locked)
                  (
                    _,
                    refl,
                    best_score-All fl
                        (λ a. (score fl s.pressure (shared_pages s.last (x ∷ xs)) a).final_score)
                        (x ∷ xs) x fl.neg_inf h.0 h,
                  )
            | inr (_, c) ↦
                rw (e, d, c, select_locked, f_is)
                  (_, refl, All-IsFirstLeast earlier f (x ∷ xs) f_first h)
          ]
        ]
      ]

list_cases : (xs : List Avp) → (xs ≡ []) ⊎ ((x : Avp) × (rest : List Avp) × (xs ≡ x ∷ rest))
list_cases [] = inl refl
list_cases (x ∷ rest) = inr (x, rest, refl)

select-some :
    (P : Avp → Type 0) (fl : Floats) (now : Clock) (utc task_id : String) (candidates : List Avp)
    (s : Scheduler fl) (x : Avp) (xs : List Avp)
    → ready_agents candidates ≡ x ∷ xs
    → All P (x ∷ xs)
    → (agent : Avp) × (decision : DecisionLog fl) × (select fl now utc task_id candidates s
        ≡ some (
          record s { last = some agent; decisions = s.decisions ++ decision ∷ [] },
          some (agent, decision),
        ))
      × (decision.selected_agent ≡ agent.agent_id)
      × P agent
unfolding select make_decision_locked
select-some P fl now utc task_id candidates s x xs e h =
    let (r, r_is, p) = select_locked-All P fl s x xs h in
    (
      r.selected,
      make_decision_locked fl now utc task_id s (x ∷ xs) r,
      rw (e, select, r_is),
      refl,
      p,
    )

-- `Select` never indexes an empty slice. Without a ready agent it returns none and changes nothing.
-- Otherwise, under every policy, it returns one of the ready agents, whatever holds of all of them,
-- makes it the last, logs one more decision, which names it, and changes nothing else.
pub select_total :
    (P : Avp → Type 0) (fl : Floats) (now : Clock) (utc task_id : String) (candidates : List Avp)
    (s : Scheduler fl)
    → All P (ready_agents candidates)
    → ((ready_agents candidates ≡ []) × (select fl now utc task_id candidates s ≡ some (s, none)))
      ⊎ ((agent : Avp) × (decision : DecisionLog fl) × (select fl now utc task_id candidates s
            ≡ some (
              record s { last = some agent; decisions = s.decisions ++ decision ∷ [] },
              some (agent, decision),
            ))
          × (decision.selected_agent ≡ agent.agent_id)
          × (agent.state ≡ ready)
          × P agent)
unfolding select
select_total P fl now utc task_id candidates s h = elim (list_cases (ready_agents candidates)) [
  | inl e ↦ inl (e, rw (e, select))
  | inr (x, xs, e) ↦
      let pair : (a : Avp) → a.state ≡ ready → P a → (a.state ≡ ready) × P a = λ a p q. (p, q) in
      let (agent, decision, made, named, p) =
        select-some (λ a. (a.state ≡ ready) × P a) fl now utc task_id candidates s x xs e
          (rw e at (All-map₂ (ready_agents candidates) pair (ready_agents-ready candidates) h)) in
      inr (agent, decision, made, named, p.0, p.1)
]

-- A lower virtual runtime, or the same and an earlier creation.
abbrev pub Precedes : Avp → Avp → Type 0
Precedes a b = (a.vruntime < b.vruntime) ⊎ (a.vruntime ≡ b.vruntime) × (a.created_at < b.created_at)

-- `a` runs before all that stand before it, and none of those after it runs before `a`.
pub record IsNext (a : Avp) (xs : List Avp) : Type 0 where
  pub before : List Avp
  pub after : List Avp
  pub split : xs ≡ before ++ a ∷ after
  pub earlier : All (Precedes a) before
  pub no_later : All (λ b. ¬ Precedes b a) after

behind-Precedes : (a b : Avp) → behind a b ≡ true → Precedes a b
unfolding behind
behind-Precedes a b e = ground arith

not-behind-Precedes : (a b : Avp) → behind b a ≡ false → ¬ Precedes b a
unfolding behind
not-behind-Precedes a b e (inl less) = ground arith
not-behind-Precedes a b e (inr (same, less)) = ground arith

IsFirstLeast-IsNext : (a : Avp) (xs : List Avp) → IsFirstLeast behind a xs → IsNext a xs
IsFirstLeast-IsNext a xs f = record {
  before = f.before;
  after = f.after;
  split = f.split;
  earlier = All-map f.before (behind-Precedes a) f.greater;
  no_later = All-map f.after (not-behind-Precedes a) f.not_less;
}

-- Under the policy token-cfs, and with a ready agent, Select returns the ready agent that has a lower
-- virtual runtime than each before it in the list, or the same and an earlier creation, and than which
-- none after it has a lower one, or the same and an earlier creation.
pub select_token_cfs :
    (fl : Floats) (now : Clock) (utc task_id : String) (candidates : List Avp) (s : Scheduler fl)
    → s.policy ≡ policy_token_cfs
    → ready_agents candidates ≢ []
    → (agent : Avp) × (decision : DecisionLog fl) × (select fl now utc task_id candidates s
        ≡ some (
          record s { last = some agent; decisions = s.decisions ++ decision ∷ [] },
          some (agent, decision),
        ))
      × IsNext agent (ready_agents candidates)
unfolding select select_locked chosen
select_token_cfs fl now utc task_id candidates s p h = elim (list_cases (ready_agents candidates)) [
  | inl e ↦ absurd (h e)
  | inr (x, xs, e) ↦
      let (m, m_is, m_first) = min_vruntime_first x xs in
      elim (Dec-cases (dec_str s.policy policy_token_cfs)) [
        | inl (_, d) ↦
            let choice : Selection fl = record {
              selected = m;
              reason = lowest_vruntime;
              shared = [];
              by_agent = none;
            } in
            (
              m,
              make_decision_locked fl now utc task_id s (x ∷ xs) choice,
              rw (e, select, d, select_locked, m_is),
              rw e (IsFirstLeast-IsNext m (x ∷ xs) m_first),
            )
        | inr (q, d) ↦ absurd (q p)
      ]
]
