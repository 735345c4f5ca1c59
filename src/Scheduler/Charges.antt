-- ===== src/Scheduler/Charges.antt =====
-- internal/scheduler/scheduler.go: `ChargeTokens`, the virtual runtime that an agent is charged.
use os_complete.Avp.{Avp}
use os_complete.Base.{
  ℕ, zero, suc, ◌+◌, ◌-◌, ◌/◌, ◌%◌, ◌^◌, ◌≤◌, ◌<◌, ◌≡◌, refl, if◌then◌else◌, ◌==◌, ℤ, pos, negsuc,
  ◌+ℤ◌, quot, arith,
}

-- `weight <= 0` stands for 100.
unfoldable pub weight_of : ℤ → ℕ
weight_of (pos zero) = 100
weight_of (pos (suc n)) = suc n
weight_of (negsuc n) = 100

-- `uint64(q)` of a signed integer.
unfoldable pub to_uint64 : ℤ → ℕ
to_uint64 (pos n) = n % 2 ^ 64
to_uint64 (negsuc n) = 2 ^ 64 - 1 - n % 2 ^ 64

-- The virtual runtime after the charge.
unfoldable pub charged : ℕ → ℤ → ℕ → ℕ
unfolding to_uint64
charged vruntime (negsuc n) weight = (vruntime + to_uint64 (quot (negsuc n) weight)) % 2 ^ 64
charged vruntime (pos zero) weight = (vruntime + to_uint64 (quot (pos zero) weight)) % 2 ^ 64
charged vruntime (pos (suc n)) weight =
    let charge = (vruntime + to_uint64 (quot (pos (suc n)) weight)) % 2 ^ 64 in
    if suc n / weight == 0 then (charge + 1) % 2 ^ 64 else charge

unfoldable pub charge_tokens : Avp → ℤ → Avp
unfolding weight_of charged ◌+ℤ◌
charge_tokens agent consumed = record agent {
  consumed_tokens = agent.consumed_tokens +ℤ consumed;
  vruntime = charged agent.vruntime consumed (weight_of agent.weight);
}

weight_pos : (w : ℤ) → 0 < weight_of w
unfolding weight_of
weight_pos (pos zero) = omega arith
weight_pos (pos (suc n)) = omega arith
weight_pos (negsuc n) = omega arith

-- What a positive number of tokens costs while the virtual runtime does not wrap.
charged_pos :
    (vruntime n weight : ℕ)
    → vruntime + suc n < 2 ^ 64
    → 0 < weight
    → (vruntime < charged vruntime (pos (suc n)) weight)
      × (charged vruntime (pos (suc n)) weight ≤ vruntime + suc n)
unfolding charged
charged_pos vruntime n weight h k = grind arith

-- While the virtual runtime does not wrap, an agent that consumed tokens is charged at least 1 and at
-- most their number, and the tokens are added to what it consumed.
pub charge_tokens_progress :
    (agent : Avp) (n : ℕ)
    → agent.vruntime + suc n < 2 ^ 64
    → (agent.vruntime < (charge_tokens agent (pos (suc n))).vruntime)
      × ((charge_tokens agent (pos (suc n))).vruntime ≤ agent.vruntime + suc n)
      × ((charge_tokens agent (pos (suc n))).consumed_tokens ≡ agent.consumed_tokens +ℤ pos (suc n))
unfolding charge_tokens
charge_tokens_progress agent n h =
    let (more, most) =
      charged_pos agent.vruntime n (weight_of agent.weight) h (weight_pos agent.weight) in
    (more, most, refl)

div-le_of_weight : (n v w : ℕ) → 0 < v → v ≤ w → n / w ≤ n / v
div-le_of_weight n v w h k = grind arith

charged_mono :
    (vruntime n v w : ℕ)
    → vruntime + suc n < 2 ^ 64
    → 0 < v
    → v ≤ w
    → charged vruntime (pos (suc n)) w ≤ charged vruntime (pos (suc n)) v
unfolding charged
charged_mono vruntime n v w h p le = grind (arith, div-le_of_weight (suc n) v w p le)

-- Of two agents with the same virtual runtime and positive weights, the one with the greater weight is
-- charged no more for the same positive number of tokens, while the virtual runtime does not wrap.
pub charge_tokens_weight :
    (agent other : Avp) (n v w : ℕ)
    → agent.vruntime ≡ other.vruntime
    → agent.weight ≡ pos (suc v)
    → other.weight ≡ pos (suc w)
    → v ≤ w
    → agent.vruntime + suc n < 2 ^ 64
    → (charge_tokens other (pos (suc n))).vruntime ≤ (charge_tokens agent (pos (suc n))).vruntime
unfolding charge_tokens
charge_tokens_weight agent other n v w same p q le h =
    rw (p, q, ← same) (charged_mono agent.vruntime n (suc v) (suc w) h (omega arith) (omega arith))
