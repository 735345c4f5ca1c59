-- ===== src/Capsule/Pids.antt =====
-- internal/capsule/manager.go: `uniquePIDs`, and the pids that `Kill` signals.
use os_complete.Base.{
  ◌≡◌, ◌≢◌, refl, sym, ap, subst, ◌∙◌, ◌⊎◌, inl, inr, ◌↔◌, ℕ, zero, suc, String, List, [], ◌∷◌,
  ◌++◌, Option, none, some, true, false, ◌+◌, ◌==◌, ℤ, pos, negsuc, pos_part, neg_part, ltb_ℤ,
  dec_str, lookup, lookup_or, OneOf, Bool-cases, Dec-cases, arith,
}
use os_complete.Base.Cases.{split_if}
use os_complete.Capsule.{
  Act, System, Manager, Runtime, seen_in, unique_from, unique_pids, is_real, fallback_pids,
}

-- Positive pids, none of them twice.
abbrev pub AreOnce : List ℤ → Type 0
AreOnce [] = Unit
AreOnce (pid ∷ rest) = ((n : ℕ) × (pid ≡ pos (suc n))) × ¬ OneOf pid rest × AreOnce rest

same_ℤ : (a b : ℤ) → (pos_part a + neg_part b == pos_part b + neg_part a) ≡ true → a ≡ b
same_ℤ (pos m) (pos n) e = let h : m ≡ n = ground arith in ap pos h
same_ℤ (pos m) (negsuc n) e = absurd (ground arith)
same_ℤ (negsuc m) (pos n) e = absurd (ground arith)
same_ℤ (negsuc m) (negsuc n) e = let h : m ≡ n = ground arith in ap negsuc h

differ_ℤ : (a b : ℤ) → (pos_part a + neg_part b == pos_part b + neg_part a) ≡ false → a ≢ b
differ_ℤ a b e p =
    let h : pos_part a + neg_part b ≡ pos_part b + neg_part a = rw p refl in ground arith

seen_in-OneOf : (pid : ℤ) (seen : List ℤ) → seen_in pid seen ≡ true → OneOf pid seen
unfolding seen_in
seen_in-OneOf pid [] e = absurd cc
seen_in-OneOf pid (other ∷ rest) e =
    elim (Bool-cases (pos_part pid + neg_part other == pos_part other + neg_part pid)) [
      | inl t ↦ inl (same_ℤ pid other t)
      | inr f ↦ inr (seen_in-OneOf pid rest (rw f at e))
    ]

not-seen_in-OneOf : (pid : ℤ) (seen : List ℤ) → seen_in pid seen ≡ false → ¬ OneOf pid seen
unfolding seen_in
not-seen_in-OneOf pid [] e h = h
not-seen_in-OneOf pid (other ∷ rest) e h =
    elim (Bool-cases (pos_part pid + neg_part other == pos_part other + neg_part pid)) [
      | inl t ↦ absurd (ground arith)
      | inr f ↦ elim h [
        | inl p ↦ differ_ℤ pid other f p
        | inr q ↦ not-seen_in-OneOf pid rest (rw f at e) q
      ]
    ]

positive : (pid : ℤ) → ltb_ℤ (pos 0) pid ≡ true → (n : ℕ) × (pid ≡ pos (suc n))
positive (pos zero) e = absurd (ground arith)
positive (pos (suc n)) e = (n, refl)
positive (negsuc n) e = absurd (ground arith)

-- What is kept is one of the values, and was not seen before.
unique_from-OneOf :
    (pid : ℤ) (values seen : List ℤ)
    → OneOf pid (unique_from seen values)
    → OneOf pid values × ¬ OneOf pid seen
unfolding unique_from
unique_from-OneOf pid [] seen = λ h. absurd h
unique_from-OneOf pid (value ∷ rest) seen =
    let P : List ℤ → Type 0 = λ l. OneOf pid l → OneOf pid (value ∷ rest) × ¬ OneOf pid seen in
    let skipped : P (unique_from seen rest) =
      λ h. let (i, n) = unique_from-OneOf pid rest seen h in (inr i, n) in
    split_if P (ltb_ℤ (pos 0) value)
      (λ _.
        split_if P (seen_in value seen) (λ _. skipped)
          (λ fresh h. elim h [
            | inl p ↦
                (inl p, λ q. not-seen_in-OneOf value seen fresh (subst (λ a. OneOf a seen) p q))
            | inr k ↦
                let (i, n) = unique_from-OneOf pid rest (value ∷ seen) k in (inr i, λ q. n (inr q))
          ]))
      (λ _. skipped)

unique_from-AreOnce : (values seen : List ℤ) → AreOnce (unique_from seen values)
unfolding unique_from
unique_from-AreOnce [] seen = tt
unique_from-AreOnce (value ∷ rest) seen =
    split_if AreOnce (ltb_ℤ (pos 0) value)
      (λ more.
        split_if AreOnce (seen_in value seen) (λ _. unique_from-AreOnce rest seen)
          (λ fresh. (
            positive value more,
            λ h. (unique_from-OneOf value rest (value ∷ seen) h).1 (inl refl),
            unique_from-AreOnce rest (value ∷ seen),
          )))
      (λ _. unique_from-AreOnce rest seen)

-- Every positive value that was not seen before is kept.
unique_from-all :
    (n : ℕ) (values seen : List ℤ)
    → OneOf (pos (suc n)) values
    → ¬ OneOf (pos (suc n)) seen
    → OneOf (pos (suc n)) (unique_from seen values)
unfolding unique_from
unique_from-all n [] seen h k = h
unique_from-all n (value ∷ rest) seen h k =
    let pid = pos (suc n) in
    split_if (OneOf pid) (ltb_ℤ (pos 0) value)
      (λ _.
        split_if (OneOf pid) (seen_in value seen)
          (λ old. elim h [
            | inl p ↦ absurd (k (subst (λ a. OneOf a seen) (sym p) (seen_in-OneOf value seen old)))
            | inr q ↦ unique_from-all n rest seen q k
          ])
          (λ fresh. elim h [
            | inl p ↦ inl p
            | inr q ↦ elim (Bool-cases (seen_in pid (value ∷ []))) [
              | inl t ↦ elim (seen_in-OneOf pid (value ∷ []) t) [ inl p ↦ inl p | inr r ↦ absurd r ]
              | inr f ↦ inr (
                  unique_from-all n rest (value ∷ seen) q (λ r. elim r [
                    | inl p ↦ not-seen_in-OneOf pid (value ∷ []) f (inl p)
                    | inr s ↦ k s
                  ]))
            ]
          ]))
      (λ least. elim h [
        | inl p ↦
            let low : ltb_ℤ (pos 0) (pos (suc n)) ≡ false = rw (← p) at least in
            absurd (ground arith)
        | inr q ↦ unique_from-all n rest seen q k
      ])

pub is_real-mode : (rt : Runtime) → is_real (some rt) ≡ true → rt.mode ≡ "real"
unfolding is_real
is_real-mode rt e = elim (Dec-cases (dec_str rt.mode "real")) [
  | inl (p, _) ↦ p
  | inr (_, d) ↦ absurd (ground (arith, e, d))
]

pub not-is_real-mode : (rt : Runtime) → is_real (some rt) ≡ false → rt.mode ≢ "real"
unfolding is_real
not-is_real-mode rt e p = elim (Dec-cases (dec_str rt.mode "real")) [
  | inl (_, d) ↦ absurd (ground (arith, e, d))
  | inr (n, _) ↦ n p
]

-- An agent with a real capsule.
abbrev pub HasReal : String → Manager → Runtime → Type 0
HasReal agent_id m rt = (lookup dec_str agent_id m.runtimes ≡ some rt) × (rt.mode ≡ "real")

pub HasReal-same :
    (agent_id : String) (m : Manager) (rt rt' : Runtime)
    → lookup dec_str agent_id m.runtimes ≡ some rt
    → HasReal agent_id m rt'
    → rt' ≡ rt
HasReal-same agent_id m rt rt' e has = let h : some rt' ≡ some rt = sym has.0 ∙ e in cc

OneOf-append :
    {A : Type 0} (a : A) (xs ys : List A) → OneOf a (xs ++ ys) ↔ (OneOf a xs ⊎ OneOf a ys)
OneOf-append a [] ys = (λ h. inr h, λ h. elim h [ inl e ↦ absurd e | inr k ↦ k ])
OneOf-append a (x ∷ xs) ys =
    let ih = OneOf-append a xs ys in
    (
      λ h. elim h [
        | inl p ↦ inl (inl p)
        | inr q ↦ elim (ih.0 q) [ inl k ↦ inl (inr k) | inr k ↦ inr k ]
      ],
      λ h. elim h [
        | inl k ↦ elim k [ inl p ↦ inl p | inr q ↦ inr (ih.1 (inl q)) ]
        | inr k ↦ inr (ih.1 (inr k))
      ],
    )

module _ (sys : System) where
  -- A process of the agent: the one it was prepared with, or one that its cgroup lists.
  abbrev pub IsProcess : List Act → String → Manager → ℤ → Type 0
  IsProcess acts agent_id m pid =
      (pid ≡ lookup_or dec_str (pos 0) agent_id m.pids)
      ⊎ ((rt : Runtime) × HasReal agent_id m rt
          × OneOf pid (sys.cgroup_pids acts (sys.join rt.cgroup_path "cgroup.procs")))

  -- The agent's processes with a positive pid, each once.
  pub record AreTargets (acts : List Act) (agent_id : String) (m : Manager) (pids : List ℤ)
      : Type 0 where
    pub once : AreOnce pids
    pub exactly : (n : ℕ) → OneOf (pos (suc n)) pids ↔ IsProcess acts agent_id m (pos (suc n))

  unique_pids-AreTargets :
      (acts : List Act) (agent_id : String) (m : Manager) (values : List ℤ)
      → ((pid : ℤ) → OneOf pid values ↔ IsProcess acts agent_id m pid)
      → AreTargets acts agent_id m (unique_pids values)
  unfolding unique_pids
  unique_pids-AreTargets acts agent_id m values f = record {
    once = unique_from-AreOnce values [];
    exactly = λ n. (
      λ h. (f (pos (suc n))).0 (unique_from-OneOf (pos (suc n)) values [] h).0,
      λ h. unique_from-all n values [] ((f (pos (suc n))).1 h) (λ k. k),
    );
  }

  -- Without a real capsule, the pid that the agent was prepared with.
  primary-AreTargets :
      (acts : List Act) (agent_id : String) (m : Manager)
      → ((rt : Runtime) → ¬ HasReal agent_id m rt)
      → AreTargets acts agent_id m (unique_pids (lookup_or dec_str (pos 0) agent_id m.pids ∷ []))
  primary-AreTargets acts agent_id m unreal = unique_pids-AreTargets acts agent_id m _ (λ pid. (
    λ h. elim h [ inl p ↦ inl p | inr q ↦ absurd q ],
    λ h. elim h [ inl p ↦ inl p | inr (rt, real, _) ↦ absurd (unreal rt real) ],
  ))

  pub fallback_pids-AreTargets :
      (acts : List Act) (agent_id : String) (m : Manager) (rt : Option Runtime)
      → lookup dec_str agent_id m.runtimes ≡ rt
      → AreTargets acts agent_id m (fallback_pids sys acts agent_id rt m)
  unfolding fallback_pids
  fallback_pids-AreTargets acts agent_id m none e =
      primary-AreTargets acts agent_id m (λ rt real. cc (e, real.0))
  fallback_pids-AreTargets acts agent_id m (some rt) e =
      let primary = lookup_or dec_str (pos 0) agent_id m.pids in
      let listed = sys.cgroup_pids acts (sys.join rt.cgroup_path "cgroup.procs") in
      split_if (AreTargets acts agent_id m) (is_real (some rt))
        (λ real. unique_pids-AreTargets acts agent_id m _ (λ pid. (
          λ h. elim ((OneOf-append pid listed (primary ∷ [])).0 h) [
            | inl k ↦ inr (rt, (e, is_real-mode rt real), k)
            | inr k ↦ elim k [ inl p ↦ inl p | inr q ↦ absurd q ]
          ],
          λ h. (OneOf-append pid listed (primary ∷ [])).1 (elim h [
            | inl p ↦ inr (inl p)
            | inr (rt', has, k) ↦ inl (
                subst
                  (λ r. OneOf pid (sys.cgroup_pids acts (sys.join r.cgroup_path "cgroup.procs")))
                  (HasReal-same agent_id m rt rt' e has) k)
          ]),
        )))
        (λ unreal. primary-AreTargets acts agent_id m (λ rt' has.
          not-is_real-mode rt unreal
            (subst (λ r. r.mode ≡ "real") (HasReal-same agent_id m rt rt' e has) has.1)))
