-- ===== src/Action/Ledger/Calls.antt =====
-- Sequences of calls of action/ledger.py.
use rev_pilot_ai.Base.{◌≡◌, false, String, Bool, none, str_eq, List, [], ◌∷◌}
use rev_pilot_ai.Base.Time.{UtcDateTime}
use rev_pilot_ai.Base.Dict.{find}
use rev_pilot_ai.Approval.Domain.{ApprovalRequestRecord}
use rev_pilot_ai.Action.Domain.{ActionClassification}
use rev_pilot_ai.Action.Repository.{ActionStore}
use rev_pilot_ai.Action.Ledger.{
  create_intent, record_attempt_start, record_attempt_completion, Completion,
}

-- One call of the service, with its fresh identifier and its time.
pub data LedgerCall : Type 0 where
  creates :
      String
      → ApprovalRequestRecord
      → String
      → ActionClassification
      → Bool
      → String
      → UtcDateTime
      → LedgerCall
  starts : String → String → String → String → String → String → UtcDateTime → LedgerCall
  completes : String → String → Completion → UtcDateTime → LedgerCall

abbrev pub perform_call : LedgerCall → ActionStore → ActionStore
perform_call (creates ctx a key c dry new_id now) s = (create_intent ctx a key c dry new_id now s).1
perform_call (starts ctx i key provider digest new_id now) s =
    (record_attempt_start ctx i key provider digest new_id now s).1
perform_call (completes ctx l c now) s = (record_attempt_completion ctx l c now s).1

abbrev pub perform_calls : List LedgerCall → ActionStore → ActionStore
perform_calls [] s = s
perform_calls (q ∷ qs) s = perform_calls qs (perform_call q s)

abbrev pub empty_store : ActionStore
empty_store = record { intents = []; idempotency_index = []; ledger = [] }

-- An identifier for an intent is not empty, and no intent of the tenant has it.
abbrev pub IsNew : String → String → ActionStore → Type 0
IsNew ctx new_id s = (str_eq new_id "" ≡ false) × (find ctx new_id s.intents ≡ none)

abbrev pub IsFresh : LedgerCall → ActionStore → Type 0
IsFresh (creates ctx a key c dry new_id now) s = IsNew ctx new_id s
IsFresh _ s = Unit {0}

-- Each call finds its identifier new when its turn comes.
abbrev pub AreFresh : List LedgerCall → ActionStore → Type 0
AreFresh [] s = Unit {0}
AreFresh (q ∷ qs) s = IsFresh q s × AreFresh qs (perform_call q s)
