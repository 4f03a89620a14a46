-- ===== src/Action/Repository.antt =====
-- action/ports.py: the two in-memory repositories, as one state. Each method is one step.
use rev_pilot_ai.Base.{
  ◌≡◌, String, false, Option, none, some, List, [], keep_if, sort_by, str_eq, str_eq_self, arith,
  if◌then◌else◌,
}
use rev_pilot_ai.Base.Dict.{Nested, lookup, insert, values, inner, find, store, find-store}
use rev_pilot_ai.Action.Domain.{ActionIntentRecord, ActionLedgerRecord}

pub record ActionStore : Type 0 where
  pub intents : Nested ActionIntentRecord  -- `InMemoryActionIntentRepository._storage`
  pub idempotency_index : Nested String
  pub ledger : Nested ActionLedgerRecord  -- `InMemoryActionLedgerRepository._storage`

-- `if t_key not in self._storage: self._idempotency_index[t_key] = {}`
abbrev pub index_for : String → ActionStore → Nested String
index_for t s = elim (lookup t s.intents) [
  | none ↦ insert t [] s.idempotency_index
  | some d ↦ s.idempotency_index
]

unfoldable pub save_intent : ActionIntentRecord → ActionStore → ActionStore
save_intent i s = record s {
  intents = store i.tenant_id i.intent_id i s.intents;
  idempotency_index = store i.tenant_id i.idempotency_key i.intent_id (index_for i.tenant_id s);
}

-- The text of `update` is that of `save`.
unfoldable pub update_intent : ActionIntentRecord → ActionStore → ActionStore
update_intent i s = record s {
  intents = store i.tenant_id i.intent_id i s.intents;
  idempotency_index = store i.tenant_id i.idempotency_key i.intent_id (index_for i.tenant_id s);
}

unfoldable pub get_intent : String → String → ActionStore → Option ActionIntentRecord
get_intent t i s = find t i s.intents

-- `if not intent_id_str: return None`, then the look-up of that intent
abbrev resolve : String → ActionStore → Option String → Option ActionIntentRecord
resolve t s none = none
resolve t s (some i) = if str_eq i "" then none else find t i s.intents

unfoldable pub get_by_idempotency_key : String → String → ActionStore → Option ActionIntentRecord
get_by_idempotency_key t key s = resolve t s (find t key s.idempotency_index)

unfoldable pub save_ledger : ActionLedgerRecord → ActionStore → ActionStore
save_ledger r s = record s { ledger = store r.tenant_id r.ledger_id r s.ledger }

unfoldable pub update_ledger : ActionLedgerRecord → ActionStore → ActionStore
update_ledger r s = record s { ledger = store r.tenant_id r.ledger_id r s.ledger }

unfoldable pub get_ledger : String → String → ActionStore → Option ActionLedgerRecord
get_ledger t l s = find t l s.ledger

-- The attempts of an intent, in the order in which they were first stored.
abbrev pub attempts_of : String → List ActionLedgerRecord → List ActionLedgerRecord
attempts_of intent_id rs = keep_if (λ r. str_eq r.intent_id intent_id) rs

unfoldable pub list_by_intent : String → String → ActionStore → List ActionLedgerRecord
list_by_intent t intent_id s =
    sort_by (λ r. r.attempt_number) (attempts_of intent_id (values (inner t s.ledger)))

-- What `save` has stored is found by its key.
pub get_by_idempotency_key-save_intent :
    (i : ActionIntentRecord) (s : ActionStore)
    → str_eq i.intent_id "" ≡ false
    → get_by_idempotency_key i.tenant_id i.idempotency_key (save_intent i s) ≡ some i
unfolding get_by_idempotency_key save_intent
get_by_idempotency_key-save_intent i s h = ground (
  arith,
  str_eq_self i.tenant_id,
  str_eq_self i.idempotency_key,
  str_eq_self i.intent_id,
  find-store i.tenant_id i.idempotency_key i.intent_id i.tenant_id i.idempotency_key
      (index_for i.tenant_id s),
  find-store i.tenant_id i.intent_id i i.tenant_id i.intent_id s.intents,
)
