-- ===== src/Investigation.antt =====
-- investigation/domain/state_machine.py, and the budget of investigation/domain/models.py.
pub mod Lifecycle
pub mod Spending
pub mod Workflow
use rev_pilot_ai.Base.{
  ℕ, Bool, true, false, Option, none, some, List, [], ◌∷◌, ◌++◌, ◌+◌, Result, ok, err, Action,
  raise_if, modify, ◌>>=◌, ◌>>◌, if◌then◌else◌,
}
use rev_pilot_ai.Base.Int.{ℤ, ◌+ℤ◌, ltb_ℤ}

pub data InvestigationStatus : Type 0 where
  initializing planning gathering_evidence verifying completed need_more_evidence paused cancelled
        failed :
      InvestigationStatus

-- `a == b` on the members
abbrev pub same_status : InvestigationStatus → InvestigationStatus → Bool
same_status initializing initializing = true
same_status planning planning = true
same_status gathering_evidence gathering_evidence = true
same_status verifying verifying = true
same_status completed completed = true
same_status need_more_evidence need_more_evidence = true
same_status paused paused = true
same_status cancelled cancelled = true
same_status failed failed = true
same_status _ _ = false

-- `target in permitted`
abbrev pub is_in : InvestigationStatus → List InvestigationStatus → Bool
is_in a [] = false
is_in a (b ∷ bs) = if same_status a b then true else is_in a bs

unfoldable pub active_states : List InvestigationStatus
active_states = initializing ∷ planning ∷ gathering_evidence ∷ verifying ∷ []

unfoldable pub terminal_states : List InvestigationStatus
terminal_states = completed ∷ need_more_evidence ∷ cancelled ∷ failed ∷ []

-- `_STATIC_PERMITTED_TRANSITIONS.get(current, set())`
unfoldable pub static_permitted_transitions : InvestigationStatus → List InvestigationStatus
static_permitted_transitions initializing = planning ∷ failed ∷ paused ∷ cancelled ∷ []
static_permitted_transitions planning = gathering_evidence ∷ failed ∷ cancelled ∷ paused ∷ []
static_permitted_transitions gathering_evidence = verifying ∷ paused ∷ cancelled ∷ failed ∷ []
static_permitted_transitions verifying =
    completed ∷ need_more_evidence ∷ gathering_evidence ∷ paused ∷ cancelled ∷ failed ∷ []
static_permitted_transitions _ = []

-- Where `current` is paused; otherwise the table.
unfoldable pub paused_permitted : Option InvestigationStatus → List InvestigationStatus
unfolding active_states
paused_permitted none = cancelled ∷ failed ∷ active_states
paused_permitted (some prior) =
    if is_in prior active_states then cancelled ∷ failed ∷ prior ∷ [] else cancelled ∷ failed ∷ []

abbrev pub permitted_from :
    InvestigationStatus → Option InvestigationStatus → List InvestigationStatus
permitted_from paused prior = paused_permitted prior
permitted_from current prior = static_permitted_transitions current

-- The details of the failure.
pub record InvalidStateTransition : Type 0 where
  pub current_status : InvestigationStatus
  pub target_status : InvestigationStatus
  pub permitted_targets : List InvestigationStatus
  pub is_terminal : Bool

unfoldable pub transition_investigation_state :
    InvestigationStatus
    → InvestigationStatus
    → Option InvestigationStatus
    → Result InvalidStateTransition InvestigationStatus
unfolding terminal_states
transition_investigation_state current target prior =
    if is_in target (permitted_from current prior)
    then ok target
    else err (record {
      current_status = current;
      target_status = target;
      permitted_targets = permitted_from current prior;
      is_terminal = is_in current terminal_states;
    })

pub record BudgetState : Type 0 where
  pub allocated_usd : ℤ
  pub spent_usd : ℤ
  pub hard_stop_usd : ℤ
  pub allocated_tokens : ℕ
  pub spent_tokens : ℕ
  pub allocated_tool_calls : ℕ
  pub spent_tool_calls : ℕ

pub data SpendError : Type 0 where
  over_hard_stop : SpendError

abbrev pub add_spend : ℤ → ℕ → ℕ → BudgetState → BudgetState
add_spend usd tokens tool_calls b = record b {
  spent_usd = b.spent_usd +ℤ usd;
  spent_tokens = b.spent_tokens + tokens;
  spent_tool_calls = b.spent_tool_calls + tool_calls;
}

unfoldable pub record_spend : ℤ → ℕ → ℕ → Action BudgetState SpendError (Unit {0})
record_spend usd tokens tool_calls = do
  b ← λ s. (ok s, s)
  raise_if (ltb_ℤ b.hard_stop_usd (b.spent_usd +ℤ usd)) over_hard_stop
  modify (add_spend usd tokens tool_calls)

-- A sequence of calls, whether each succeeds or raises.
abbrev pub record_spends : List (ℤ × (ℕ × ℕ)) → BudgetState → BudgetState
record_spends [] b = b
record_spends ((usd, (tokens, tool_calls)) ∷ calls) b =
    record_spends calls (record_spend usd tokens tool_calls b).1
