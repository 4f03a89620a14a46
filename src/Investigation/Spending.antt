-- ===== src/Investigation/Spending.antt =====
-- `BudgetState.record_spend` of investigation/domain/models.py, over sequences of calls.
use rev_pilot_ai.Base.{ℕ, List, [], ◌∷◌, ◌≡◌, arith}
use rev_pilot_ai.Base.Int.{ℤ, ◌≤ℤ◌}
use rev_pilot_ai.Investigation.{BudgetState, record_spend, record_spends}

record_spend-step :
    (usd : ℤ) (tokens tool_calls : ℕ) (b : BudgetState)
    → b.spent_usd ≤ℤ b.hard_stop_usd
    → let b' = (record_spend usd tokens tool_calls b).1 in
      (b'.spent_usd ≤ℤ b'.hard_stop_usd) × (b'.hard_stop_usd ≡ b.hard_stop_usd)
unfolding record_spend
record_spend-step usd tokens tool_calls b h = ground arith

-- However many spends are recorded or refused, an investigation's spend stays within its hard stop,
-- which does not change.
pub record_spends-within :
    (calls : List (ℤ × (ℕ × ℕ))) (b : BudgetState)
    → b.spent_usd ≤ℤ b.hard_stop_usd
    → (record_spends calls b).spent_usd ≤ℤ b.hard_stop_usd
record_spends-within [] b h = h
record_spends-within ((usd, (tokens, tool_calls)) ∷ calls) b h =
    let (kept, same) = record_spend-step usd tokens tool_calls b h in
    ground (arith, same, record_spends-within calls (record_spend usd tokens tool_calls b).1 kept)
