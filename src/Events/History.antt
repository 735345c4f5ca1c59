-- ===== src/Events/History.antt =====
-- internal/events/hub.go: what the history holds, and what it gives a new subscriber.
use mathlib.Core.Path.{ap₂}
use os_complete.Base.{
  ℕ, ◌+◌, ◌-◌, ◌≤◌, ◌≡◌, refl, sym, ap, ◌∙◌, inl, inr, List, [], ◌∷◌, ◌++◌, length, drop, take,
  take-append-drop, subst, ◌≢◌, length-append, length-drop, drop-append_of_le, drop-drop, ltb,
  Bool-cases, arith,
}
use os_complete.Events.{Event, Hub, take_first, new_hub, subscribe, cancel, trim, publish, receive}
use mathlib.Core.List.{append_assoc, append-nil}

-- The calls that change a hub, by any of its users, in the order in which they take the lock.
pub data Op : Type 0 where
  publishes : Event → Op
  subscribes : Op
  cancels : ℕ → Op
  receives : ℕ → Op

unfoldable pub step : Op → Hub → Hub
step (publishes event) h = publish event h
step subscribes h = (subscribe h).0
step (cancels ch) h = cancel ch h
step (receives ch) h = (receive ch h).0

unfoldable pub run : List Op → Hub → Hub
run [] h = h
run (op ∷ ops) h = run ops (step op h)

-- The events that a run publishes, in order.
unfoldable pub published : List Op → List Event
published [] = []
published (publishes event ∷ ops) = event ∷ published ops
published (subscribes ∷ ops) = published ops
published (cancels ch ∷ ops) = published ops
published (receives ch ∷ ops) = published ops

trim-eq-drop : (n : ℕ) (xs : List Event) → trim n xs ≡ drop (length xs - n) xs
unfolding trim
trim-eq-drop n xs = elim (Bool-cases (ltb n (length xs))) [
  | inl e ↦ rw e
  | inr e ↦ let z : length xs - n ≡ 0 = ground arith in rw (e, z)
]

pub length-trim : (n : ℕ) (xs : List Event) → length (trim n xs) ≤ n
length-trim n xs = rw trim-eq-drop (omega (arith, length-drop (length xs - n) xs))

drop-add : (a b c : ℕ) (xs : List Event) → a + b ≡ c → drop b (drop a xs) ≡ drop c xs
drop-add a b c xs e = drop-drop b a xs ∙ ap (λ k. drop k xs) e

-- To trim before an append changes nothing that the last trim keeps.
trim-trim-append : (n : ℕ) (xs ys : List Event) → trim n (trim n xs ++ ys) ≡ trim n (xs ++ ys)
trim-trim-append n xs ys =
    rw
      (
        trim-eq-drop n (trim n xs ++ ys),
        trim-eq-drop n (xs ++ ys),
        trim-eq-drop n xs,
        ← drop-append_of_le (length xs - n) xs ys (omega arith),
      )
      (drop-add (length xs - n) _ _ (xs ++ ys) (
        omega (
          arith,
          length-drop (length xs - n) (xs ++ ys),
          length-append xs ys,
          length-append (drop (length xs - n) xs) ys,
          length-drop (length xs - n) xs,
        )))

trim_fits : (n : ℕ) (xs : List Event) → length xs ≤ n → xs ≡ trim n (xs ++ [])
trim_fits n xs le =
    rw (append-nil, trim-eq-drop n xs) (let z : length xs - n ≡ 0 = omega arith in rw z)

receive-history :
    (ch : ℕ) (h : Hub)
    → ((receive ch h).0.history ≡ h.history) × ((receive ch h).0.history_size ≡ h.history_size)
unfolding receive take_first
receive-history ch h = ground arith

-- What an operation does to the history; it leaves the size of the history alone.
step-history :
    (op : Op) (h : Hub)
    → length h.history ≤ h.history_size
    → (step op h).history ≡ trim h.history_size (h.history ++ published (op ∷ []))
unfolding step publish subscribe cancel published
step-history (publishes event) h le = refl
step-history subscribes h le = trim_fits h.history_size h.history le
step-history (cancels ch) h le = trim_fits h.history_size h.history le
step-history (receives ch) h le = (receive-history ch h).0 ∙ trim_fits h.history_size h.history le

pub step-history_size : (op : Op) (h : Hub) → (step op h).history_size ≡ h.history_size
unfolding step publish subscribe cancel
step-history_size (publishes event) h = refl
step-history_size subscribes h = refl
step-history_size (cancels ch) h = refl
step-history_size (receives ch) h = (receive-history ch h).1

published-cons :
    (op : Op) (ops : List Op) → published (op ∷ ops) ≡ published (op ∷ []) ++ published ops
unfolding published
published-cons (publishes event) ops = refl
published-cons subscribes ops = refl
published-cons (cancels ch) ops = refl
published-cons (receives ch) ops = refl

run-history_of :
    (ops : List Op) (h : Hub) (before : List Event)
    → h.history ≡ trim h.history_size before
    → (run ops h).history ≡ trim h.history_size (before ++ published ops)
unfolding run published
run-history_of [] h before e = rw append-nil e
run-history_of (op ∷ ops) h before e =
    run-history_of ops (step op h) (before ++ published (op ∷ [])) (
      step-history op h (rw e (length-trim h.history_size before))
      ∙ ap (λ xs. trim h.history_size (xs ++ published (op ∷ []))) e
      ∙ trim-trim-append h.history_size before (published (op ∷ []))
      ∙ ap (λ n. trim n (before ++ published (op ∷ []))) (sym (step-history_size op h)))
    ∙ ap₂ trim (step-history_size op h) (
        append_assoc before (published (op ∷ [])) (published ops)
        ∙ ap (before ++◌) (sym (published-cons op ops)))

-- `kept` are the last `n` of all events, or all if they are fewer.
pub record AreLast (n : ℕ) (all kept : List Event) : Type 0 where
  pub older : List Event
  pub split : all ≡ older ++ kept
  pub fits : length kept ≤ n
  pub full : older ≢ [] → length kept ≡ n

trim-AreLast : (n : ℕ) (all : List Event) → AreLast n all (trim n all)
unfolding trim
trim-AreLast n all = elim (Bool-cases (ltb n (length all))) [
  | inl e ↦
      let cut = length-drop (length all - n) all in
      rw e (record {
        older = take (length all - n) all;
        split = sym (take-append-drop (length all - n) all);
        fits = ground arith;
        full = λ _. ground arith;
      })
  | inr e ↦
      rw e
        (record { older = []; split = refl; fits = ground arith; full = λ cut. absurd (cut refl) })
]

-- Whatever the users of a new hub do, in whatever order, its history is a final segment of all the
-- events published so far, in the order of publication: the last 256, or all if they are no more.
pub run-new_hub-history :
    (buffer : ℕ) (ops : List Op) → AreLast 256 (published ops) (run ops (new_hub buffer)).history
unfolding new_hub
run-new_hub-history buffer ops =
    subst (AreLast 256 (published ops))
      (sym (run-history_of ops (new_hub buffer) [] (unfold trim in refl)))
      (trim-AreLast 256 (published ops))
