-- ===== src/Capsule/Rounds.antt =====
-- internal/capsule/manager.go: the two rounds of signals of `Kill`, and the error that stops them.
use mathlib.Core.List.{append_assoc, append-nil}
use os_complete.Base.{
  ◌≡◌, ◌≢◌, refl, sym, ap, ◌∙◌, String, List, [], ◌∷◌, ◌++◌, Option, none, some, ℤ, pos, negsuc,
  zero, suc,
}
use os_complete.Capsule.{
  Signal, term, kill, Act, signalled, slept, delivered, gone, refused, System, signal_all, pause,
  kill_after, signal_pids,
}

-- The signals of one round.
abbrev pub round : Signal → List ℤ → List Act
round sig [] = []
round sig (pid ∷ rest) = signalled pid sig ∷ round sig rest

-- A grace period that is positive is slept once.
abbrev pub IsPause : ℤ → List Act → Type 0
IsPause (pos zero) acts = acts ≡ []
IsPause (pos (suc n)) acts = acts ≡ slept (pos (suc n)) ∷ []
IsPause (negsuc n) acts = acts ≡ []

pause-IsPause : (grace : ℤ) → IsPause grace (pause grace)
unfolding pause
pause-IsPause (pos zero) = refl
pause-IsPause (pos (suc n)) = refl
pause-IsPause (negsuc n) = refl

module _ (sys : System) where
  -- No signal of a round is refused; a process that is gone refuses none.
  abbrev pub Accepted : Signal → List ℤ → List Act → Type 0
  Accepted sig [] acts = Unit
  Accepted sig (pid ∷ rest) acts =
      ((error : String) → sys.signal acts pid sig ≢ refused error)
      × Accepted sig rest (acts ++ signalled pid sig ∷ [])

  -- A round reaches every pid in order, or it stops at the first that refuses the signal.
  pub data Round (sig : Signal) (pids : List ℤ) (acts : List Act) (r : List Act × Option String)
      : Type 0 where
    through : Accepted sig pids acts → r ≡ (acts ++ round sig pids, none) → Round sig pids acts r
    stopped :
        (before after : List ℤ) (pid : ℤ) (told : List Act) (error : String)
        → pids ≡ before ++ pid ∷ after
        → Accepted sig before acts
        → told ≡ acts ++ round sig before
        → sys.signal told pid sig ≡ refused error
        → r ≡ (told ++ signalled pid sig ∷ [], some error)
        → Round sig pids acts r

  Round-cons :
      (sig : Signal) (pid : ℤ) (rest : List ℤ) (acts : List Act) (r : List Act × Option String)
      → ((error : String) → sys.signal acts pid sig ≢ refused error)
      → Round sig rest (acts ++ signalled pid sig ∷ []) r
      → Round sig (pid ∷ rest) acts r
  Round-cons sig pid rest acts r fine (through all e) =
      through (fine, all)
        (e ∙ ap (λ a. (a, none)) (append_assoc acts (signalled pid sig ∷ []) (round sig rest)))
  Round-cons sig pid rest acts r fine (stopped before after at told error split all so denied e) =
      stopped (pid ∷ before) after at told error (ap (◌∷◌ pid) split) (fine, all)
        (so ∙ append_assoc acts (signalled pid sig ∷ []) (round sig before)) denied e

  signal_all-Round :
      (sig : Signal) (pids : List ℤ) (acts : List Act)
      → Round sig pids acts (signal_all sys sig pids acts)
  unfolding signal_all
  signal_all-Round sig [] acts = through tt (ap (λ a. (a, none)) (sym (append-nil acts)))
  signal_all-Round sig (pid ∷ rest) acts =
      let next = signal_all-Round sig rest (acts ++ signalled pid sig ∷ []) in
      elim (sys.signal acts pid sig)
          as (λ sent.
            sys.signal acts pid sig ≡ sent
            → Round sig (pid ∷ rest) acts (elim sent [
              | refused error ↦ (acts ++ signalled pid sig ∷ [], some error)
              | gone ↦ signal_all sys sig rest (acts ++ signalled pid sig ∷ [])
              | delivered ↦ signal_all sys sig rest (acts ++ signalled pid sig ∷ [])
            ])) [
              | refused error ↦
                  λ e. stopped [] rest pid acts error refl tt (sym (append-nil acts)) e refl
              | gone ↦ λ e. Round-cons sig pid rest acts _ (λ error no. cc (e, no)) next
              | delivered ↦ λ e. Round-cons sig pid rest acts _ (λ error no. cc (e, no)) next
            ]
        refl

  -- The agents are told to end; if none refuses, they are killed after the pause.
  pub data Signalled (grace : ℤ) (pids : List ℤ) (acts : List Act) (r : List Act × Option String)
      : Type 0 where
    nobody : (error : String) → pids ≡ [] → r ≡ (acts, some error) → Signalled grace pids acts r
    untold :
        (told : List Act) (error : String)
        → pids ≢ []
        → Round term pids acts (told, some error)
        → r ≡ (told, some error)
        → Signalled grace pids acts r
    told_first :
        (told paused : List Act)
        → pids ≢ []
        → Round term pids acts (told, none)
        → IsPause grace paused
        → Round kill pids (told ++ paused) r
        → Signalled grace pids acts r

  kill_after-Signalled :
      (grace : ℤ) (pids : List ℤ) (acts : List Act) (r : List Act × Option String)
      → pids ≢ []
      → Round term pids acts r
      → Signalled grace pids acts (kill_after sys grace pids r)
  unfolding kill_after
  kill_after-Signalled grace pids acts (told, some error) n t = untold told error n t refl
  kill_after-Signalled grace pids acts (told, none) n t =
      told_first told (pause grace) n t (pause-IsPause grace)
        (signal_all-Round kill pids (told ++ pause grace))

  pub signal_pids-Signalled :
      (grace : ℤ) (pids : List ℤ) (acts : List Act)
      → pids ≢ []
      → Signalled grace pids acts (signal_pids sys grace pids acts)
  unfolding signal_pids
  signal_pids-Signalled grace pids acts n =
      kill_after-Signalled grace pids acts (signal_all sys term pids acts) n
        (signal_all-Round term pids acts)
