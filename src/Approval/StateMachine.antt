-- ===== src/Approval/StateMachine.antt =====
-- approval/state_machine.py: the table of transitions and `transition`.
pub mod Paths
use rev_pilot_ai.Base.{
  String, Bool, true, false, Option, List, [], ◌∷◌, Result, ok, err, if◌then◌else◌,
}
use rev_pilot_ai.Base.Time.{UtcDateTime}

pub data ApprovalState : Type 0 where
  pending approved rejected dispatching succeeded provider_failed expired cancelled : ApprovalState

-- The name by which an enum member compares, as in `ApprovalState(text)`.
abbrev pub same_state : ApprovalState → ApprovalState → Bool
same_state pending pending = true
same_state approved approved = true
same_state rejected rejected = true
same_state dispatching dispatching = true
same_state succeeded succeeded = true
same_state provider_failed provider_failed = true
same_state expired expired = true
same_state cancelled cancelled = true
same_state _ _ = false

-- `VALID_TRANSITIONS`
unfoldable pub valid_transitions : ApprovalState → List ApprovalState
valid_transitions pending = approved ∷ rejected ∷ expired ∷ cancelled ∷ []
valid_transitions approved = dispatching ∷ expired ∷ cancelled ∷ []
valid_transitions dispatching = succeeded ∷ provider_failed ∷ []
valid_transitions rejected = []
valid_transitions succeeded = []
valid_transitions provider_failed = []
valid_transitions expired = []
valid_transitions cancelled = []

abbrev pub is_allowed : ApprovalState → List ApprovalState → Bool
is_allowed s [] = false
is_allowed s (t ∷ ts) = if same_state s t then true else is_allowed s ts

pub record TransitionEvent : Type 0 where
  pub from_state : ApprovalState
  pub to_state : ApprovalState
  pub actor : String
  pub reason : Option String
  pub timestamp : UtcDateTime

-- `Failure(f"Invalid transition from … to …")`, the two states kept
pub data TransitionError : Type 0 where
  invalid_transition : ApprovalState → ApprovalState → TransitionError

-- The call on enum members; the clock's reading is the last argument.
unfoldable pub transition :
    ApprovalState
    → ApprovalState
    → String
    → Option String
    → UtcDateTime
    → Result TransitionError TransitionEvent
unfolding valid_transitions
transition current_state new_state actor reason now =
    if is_allowed new_state (valid_transitions current_state)
    then ok (record {
      from_state = current_state;
      to_state = new_state;
      actor = actor;
      reason = reason;
      timestamp = now;
    })
    else err (invalid_transition current_state new_state)
