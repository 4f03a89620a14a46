-- ===== src/Approval/StateMachine/Paths.antt =====
-- What a sequence of transitions of approval/state_machine.py can do.
use rev_pilot_ai.Base.{◌≤◌, ◌≡◌, refl, ◌↔◌, String, Option, List, [], ◌∷◌, length, ok, arith}
use rev_pilot_ai.Base.Time.{UtcDateTime}
use rev_pilot_ai.Approval.StateMachine.{
  ApprovalState, pending, approved, rejected, dispatching, succeeded, provider_failed, expired,
  cancelled, TransitionEvent, transition,
}

-- The lifecycle as a relation, independent of the table.
infix 40 ◌⟶◌
pub data ◌⟶◌ : ApprovalState → ApprovalState → Type 0 where
  approve : pending ⟶ approved
  reject : pending ⟶ rejected
  lapse : pending ⟶ expired
  withdraw : pending ⟶ cancelled
  dispatch : approved ⟶ dispatching
  lapse_approved : approved ⟶ expired
  withdraw_approved : approved ⟶ cancelled
  succeed : dispatching ⟶ succeeded
  fail : dispatching ⟶ provider_failed

ruleset edges =
    (approve, reject, lapse, withdraw, dispatch, lapse_approved, withdraw_approved, succeed, fail)

transition-⟶ :
    (s t : ApprovalState) (actor : String) (reason : Option String) (now : UtcDateTime)
    {e : TransitionEvent}
    → transition s t actor reason now ≡ ok e
    → (s ⟶ t) × (e.from_state ≡ s) × (e.to_state ≡ t)
unfolding transition
transition-⟶ s t actor reason now h = grind (arith, edges)

⟶-transition :
    (s t : ApprovalState) (actor : String) (reason : Option String) (now : UtcDateTime)
    → s ⟶ t
    → (e : TransitionEvent) × (transition s t actor reason now ≡ ok e)
unfolding transition
⟶-transition s t actor reason now approve = (_, refl)
⟶-transition s t actor reason now reject = (_, refl)
⟶-transition s t actor reason now lapse = (_, refl)
⟶-transition s t actor reason now withdraw = (_, refl)
⟶-transition s t actor reason now dispatch = (_, refl)
⟶-transition s t actor reason now lapse_approved = (_, refl)
⟶-transition s t actor reason now withdraw_approved = (_, refl)
⟶-transition s t actor reason now succeed = (_, refl)
⟶-transition s t actor reason now fail = (_, refl)

abbrev pub Succeeds : ApprovalState → ApprovalState → String → Option String → UtcDateTime → Type 0
Succeeds s t actor reason now =
    (e : TransitionEvent) × (transition s t actor reason now ≡ ok e)
    × (e.from_state ≡ s)
    × (e.to_state ≡ t)

-- For every two states, actor, reason and time, `transition` succeeds, with an event that names the
-- two states, exactly when the lifecycle has an edge between them.
pub transition_iff_⟶ :
    (s t : ApprovalState) (actor : String) (reason : Option String) (now : UtcDateTime)
    → Succeeds s t actor reason now ↔ (s ⟶ t)
transition_iff_⟶ s t actor reason now =
    let to : Succeeds s t actor reason now → s ⟶ t =
      λ h. (transition-⟶ s t actor reason now h.1).0 in
    let back : s ⟶ t → Succeeds s t actor reason now = λ edge.
      let (e, h) = ⟶-transition s t actor reason now edge in
      let (_, f, g) = transition-⟶ s t actor reason now h in (e, h, f, g) in
    (to, back)

-- The states that successive transitions visit, from the first state to the last.
pub data Trail : ApprovalState → List ApprovalState → ApprovalState → Type 0 where
  here : {s : ApprovalState} → Trail s [] s
  then :
      {s t u : ApprovalState} {ts : List ApprovalState} (actor : String) (reason : Option String)
      (now : UtcDateTime)
      → Succeeds s t actor reason now
      → Trail t ts u
      → Trail s (t ∷ ts) u

-- From each state: how many transitions can still follow, and how `succeeded` is reached.
abbrev Bounded : ApprovalState → List ApprovalState → ApprovalState → Type 0
Bounded pending ts u =
    (length ts ≤ 3) × (u ≡ succeeded → ts ≡ approved ∷ dispatching ∷ succeeded ∷ [])
Bounded approved ts u = (length ts ≤ 2) × (u ≡ succeeded → ts ≡ dispatching ∷ succeeded ∷ [])
Bounded dispatching ts u = (length ts ≤ 1) × (u ≡ succeeded → ts ≡ succeeded ∷ [])
Bounded s ts u = (ts ≡ []) × (u ≡ s)

Bounded-here : (s : ApprovalState) → Bounded s [] s
Bounded-here pending = ground arith
Bounded-here s = ground arith

Bounded-step :
    {s t : ApprovalState} (ts : List ApprovalState) (u : ApprovalState)
    → s ⟶ t
    → Bounded t ts u
    → Bounded s (t ∷ ts) u
Bounded-step ts u approve b = ground arith
Bounded-step ts u reject b = ground arith
Bounded-step ts u lapse b = ground arith
Bounded-step ts u withdraw b = ground arith
Bounded-step ts u dispatch b = ground arith
Bounded-step ts u lapse_approved b = ground arith
Bounded-step ts u withdraw_approved b = ground arith
Bounded-step ts u succeed b = ground arith
Bounded-step ts u fail b = ground arith

Trail-Bounded : {s u : ApprovalState} {ts : List ApprovalState} → Trail s ts u → Bounded s ts u
Trail-Bounded {s} here = Bounded-here s
Trail-Bounded {s} {u} (then {t = t} {ts = ts} actor reason now h r) =
    Bounded-step ts u ((transition_iff_⟶ s t actor reason now).0 h) (Trail-Bounded r)

-- However the calls of `transition` follow one another from `pending`, at most three succeed in a
-- row, and a request that ends as `succeeded` has been approved and then dispatched.
pub pending-Trail :
    {ts : List ApprovalState} {u : ApprovalState}
    → Trail pending ts u
    → (length ts ≤ 3) × (u ≡ succeeded → ts ≡ approved ∷ dispatching ∷ succeeded ∷ [])
pending-Trail r = Trail-Bounded r
