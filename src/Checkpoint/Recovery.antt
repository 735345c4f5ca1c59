-- ===== src/Checkpoint/Recovery.antt =====
-- internal/checkpoint/checkpoint.go: what `RecoverAll` reports of each task.
use os_complete.Base.{
  ◌≡◌, ◌≢◌, refl, sym, ap, ◌∙◌, inl, inr, ℕ, zero, suc, String, List, [], ◌∷◌, Option, none, some,
  Bool, true, false, dec_str, ite, if_pos, if_neg, sort, place, if◌then◌else◌, Bool-cases,
  Dec-cases, Option-cases, arith, lookup, insert, lookup-insert, Distinct, insert-Distinct, Each,
  insert-Each, lookup-Each,
}
use os_complete.Avp.{Avp, AgentState-discrete, completed}
use os_complete.Checkpoint.{
  Snapshot, RecoveredTask, latest_by_task, keys, summaries, summarize_recovery, unsummarized,
  count_agent, count_agents, is_terminal, report_of,
}
use os_complete.Dag.{before}

-- The last of the snapshots of a task, else the first argument.
abbrev pub last_with : Option Snapshot → String → List Snapshot → Option Snapshot
last_with last task_id [] = last
last_with last task_id (snapshot ∷ rest) =
    last_with (ite (dec_str task_id snapshot.task_id) (some snapshot) last) task_id rest

-- The recovered tasks of that id.
abbrev pub all_with : String → List RecoveredTask → List RecoveredTask
all_with task_id [] = []
all_with task_id (task ∷ rest) =
    ite (dec_str task_id task.task_id) (task ∷ all_with task_id rest) (all_with task_id rest)

lookup-latest_by_task :
    (task_id : String) (snapshots : List Snapshot) (latest : List (String × Snapshot))
    → task_id ≢ ""
    → lookup dec_str task_id (latest_by_task snapshots latest)
      ≡ last_with (lookup dec_str task_id latest) task_id snapshots
unfolding latest_by_task
lookup-latest_by_task task_id [] latest named = refl
lookup-latest_by_task task_id (s ∷ rest) latest named =
    lookup-latest_by_task task_id rest
      (ite (dec_str s.task_id "") latest (insert dec_str s.task_id s latest)) named
    ∙ ap (λ o. last_with o task_id rest)
        (elim (Dec-cases (dec_str s.task_id "")) [
          | inl (blank, e) ↦
              ap
                (λ (d : Dec (s.task_id ≡ "")).
                  lookup dec_str task_id (ite d latest (insert dec_str s.task_id s latest)))
                e
              ∙ sym (if_neg (dec_str task_id s.task_id) (λ same. named (same ∙ blank)) _ _)
          | inr (filled, e) ↦
              ap
                (λ (d : Dec (s.task_id ≡ "")).
                  lookup dec_str task_id (ite d latest (insert dec_str s.task_id s latest)))
                e
              ∙ lookup-insert dec_str s.task_id task_id s latest
        ])

-- How often a text is listed.
occurrences : String → List String → ℕ
occurrences t [] = 0
occurrences t (x ∷ xs) = let n = occurrences t xs in ite (dec_str t x) (suc n) n

occurrences-place :
    (t x : String) (ys : List String) → occurrences t (place before x ys) ≡ occurrences t (x ∷ ys)
unfolding occurrences place
occurrences-place t x [] = refl
occurrences-place t x (y ∷ ys) = elim (Bool-cases (before y x)) [
  | inl e ↦ rw e (ground (arith, occurrences-place t x ys))
  | inr e ↦ rw e refl
]

occurrences-sort :
    (t : String) (xs : List String) → occurrences t (sort before xs) ≡ occurrences t xs
unfolding occurrences sort
occurrences-sort t [] = refl
occurrences-sort t (x ∷ xs) =
    occurrences-place t x (sort before xs)
    ∙ ap (λ n. ite (dec_str t x) (suc n) n) (occurrences-sort t xs)

-- One copy for each time.
copies : ℕ → Option Snapshot → List RecoveredTask
copies zero o = []
copies (suc n) none = []
copies (suc n) (some s) = summarize_recovery s ∷ copies n (some s)

once : Option Snapshot → ℕ
once none = 0
once (some s) = 1

occurrences-keys :
    (t : String) (m : List (String × Snapshot))
    → Distinct dec_str m
    → occurrences t (keys m) ≡ once (lookup dec_str t m)
unfolding occurrences keys lookup once
occurrences-keys t [] d = refl
occurrences-keys t ((k, s) ∷ rest) d =
    let others = occurrences-keys t rest d.1 in
    elim (Dec-cases (dec_str t k)) [
      | inl (p, e) ↦ rw e (ap suc (others ∙ ap once (ap (λ j. lookup dec_str j rest) p ∙ d.0)))
      | inr (q, e) ↦ rw e others
    ]

abbrev IsKeyed : List (String × Snapshot) → Type 0
IsKeyed m = Each (λ task_id snapshot. snapshot.task_id ≡ task_id) m

ite-task_id {ℓ} :
    {A : Type ℓ} (d : Dec A) (x y : RecoveredTask)
    → x.task_id ≡ y.task_id
    → (ite d x y).task_id ≡ y.task_id
ite-task_id (yes _) x y e = e
ite-task_id (no _) x y e = refl

if-task_id :
    (b : Bool) (x y task : RecoveredTask)
    → x.task_id ≡ task.task_id
    → y.task_id ≡ task.task_id
    → (if b then x else y).task_id ≡ task.task_id
if-task_id true x y task e f = e
if-task_id false x y task e f = f

count_agent-task_id :
    (agent : Avp) (task : RecoveredTask) → (count_agent agent task).task_id ≡ task.task_id
unfolding count_agent
count_agent-task_id agent task =
    if-task_id (is_terminal agent.state) _ _ task
      (ite-task_id (AgentState-discrete agent.state completed) _ task refl) refl

count_agents-task_id :
    (agents : List Avp) (task : RecoveredTask) → (count_agents agents task).task_id ≡ task.task_id
unfolding count_agents
count_agents-task_id [] task = refl
count_agents-task_id (agent ∷ rest) task =
    count_agents-task_id rest (count_agent agent task) ∙ count_agent-task_id agent task

summarize_recovery-task_id : (s : Snapshot) → (summarize_recovery s).task_id ≡ s.task_id
unfolding summarize_recovery unsummarized
summarize_recovery-task_id s = count_agents-task_id s.agents (unsummarized s)

copies-none : (n : ℕ) → copies n none ≡ []
unfolding copies
copies-none zero = refl
copies-none (suc n) = refl

all_with-summaries :
    (t : String) (m : List (String × Snapshot)) (ids : List String)
    → IsKeyed m
    → all_with t (summaries m ids) ≡ copies (occurrences t ids) (lookup dec_str t m)
unfolding summaries occurrences copies
all_with-summaries t m [] k = refl
all_with-summaries t m (id ∷ rest) k =
    let others = all_with-summaries t m rest k in
    let n = occurrences t rest in
    elim (Option-cases (lookup dec_str id m)) [
      | inl e ↦ elim (Dec-cases (dec_str t id)) [
        | inl (p, d) ↦
            let gone : lookup dec_str t m ≡ none = ap (λ j. lookup dec_str j m) p ∙ e in
            rw (e, d, summaries, occurrences)
              (others ∙ ap (copies n) gone ∙ copies-none n ∙ sym (ap (copies (suc n)) gone))
        | inr (q, d) ↦ rw (e, d, summaries, occurrences) others
      ]
      | inr (s, e) ↦
          let same : (summarize_recovery s).task_id ≡ id =
            summarize_recovery-task_id s ∙ lookup-Each dec_str _ id s m k e in
          let chosen =
            ap
              (λ i.
                ite (dec_str t i) (summarize_recovery s ∷ all_with t (summaries m rest))
                  (all_with t (summaries m rest)))
              same in
          elim (Dec-cases (dec_str t id)) [
            | inl (p, d) ↦
                let there : lookup dec_str t m ≡ some s = ap (λ j. lookup dec_str j m) p ∙ e in
                rw (e, d, summaries, occurrences)
                  (chosen
                    ∙ if_pos (dec_str t id) p _ _
                    ∙ ap (λ ts. summarize_recovery s ∷ ts) (others ∙ ap (copies n) there)
                    ∙ sym (ap (copies (suc n)) there))
            | inr (q, d) ↦
                rw (e, d, summaries, occurrences) (chosen ∙ if_neg (dec_str t id) q _ _ ∙ others)
          ]
    ]

latest_by_task-IsKeyed :
    (snapshots : List Snapshot) (m : List (String × Snapshot))
    → IsKeyed m
    → Distinct dec_str m
    → IsKeyed (latest_by_task snapshots m) × Distinct dec_str (latest_by_task snapshots m)
unfolding latest_by_task
latest_by_task-IsKeyed [] m k d = (k, d)
latest_by_task-IsKeyed (s ∷ rest) m k d = elim (Dec-cases (dec_str s.task_id "")) [
  | inl (blank, e) ↦ rw e (latest_by_task-IsKeyed rest m k d)
  | inr (filled, e) ↦ rw e (
      latest_by_task-IsKeyed rest (insert dec_str s.task_id s m)
        (insert-Each dec_str _ s.task_id s m refl k) (insert-Distinct dec_str s.task_id s m d))
]

copies-once :
    (o : Option Snapshot)
    → copies (once o) o ≡ (elim o [ none ↦ [] | some s ↦ summarize_recovery s ∷ [] ])
unfolding copies once
copies-once none = refl
copies-once (some s) = refl

-- The report of a recovery has every task once that has a snapshot, by the summary of the last of its
-- snapshots in the order in which they are gone through, and no other task.
pub report_of_lem :
    (now : ℕ) (snapshots : List Snapshot) (task_id : String)
    → task_id ≢ ""
    → all_with task_id (report_of now snapshots).recovered_tasks
      ≡ (elim (last_with none task_id snapshots) [ none ↦ [] | some s ↦ summarize_recovery s ∷ [] ])
unfolding report_of lookup
report_of_lem now snapshots task_id named =
    let m = latest_by_task snapshots [] in
    let (k, d) = latest_by_task-IsKeyed snapshots [] tt tt in
    all_with-summaries task_id m (sort before (keys m)) k
    ∙ ap (λ n. copies n (lookup dec_str task_id m))
        (occurrences-sort task_id (keys m) ∙ occurrences-keys task_id m d)
    ∙ copies-once (lookup dec_str task_id m)
    ∙ ap (λ (o : Option Snapshot). elim o [ none ↦ [] | some s ↦ summarize_recovery s ∷ [] ])
        (lookup-latest_by_task task_id snapshots [] named)
