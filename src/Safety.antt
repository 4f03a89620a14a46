-- ===== src/Safety.antt =====
-- safety/killswitch/: the kill switches, on a shared bus and in the stores of each node.
pub mod Blocking
pub mod Outage
mod Tests
use rev_pilot_ai.Base.{
  String, ◌≡◌, Bool, true, false, not, ◌&&◌, ◌||◌, Option, none, some, List, [], ◌∷◌, map, Action,
  ok, err, raise_if, modify, pure, or_raise, gets, ◌>>=◌, ◌>>◌, if◌then◌else◌, strip, is_blank,
  lower, is_infix, is_prefix, codes, codes_eq, str_eq, keep_if,
}
use rev_pilot_ai.Base.Time.{UtcDateTime}
use rev_pilot_ai.Base.Dict.{Dict, lookup, insert, values}

pub data KillSwitchScope : Type 0 where
  global tenant capability provider investigation : KillSwitchScope

pub record KillSwitchRecord : Type 0 where
  pub switch_id : String
  pub scope : KillSwitchScope
  pub target_id : Option String
  pub is_active : Bool
  pub reason : String
  pub activated_by : String
  pub activated_at : UtcDateTime
  pub deactivated_by : Option String
  pub deactivated_at : Option UtcDateTime

-- `validation_error` is pydantic's, for an empty reason or principal.
pub data KillSwitchError : Type 0 where
  agent_override_forbidden switch_not_found validation_error : KillSwitchError

unfoldable pub is_agent_identifier : String → Bool
unfolding strip lower is_infix
is_agent_identifier principal =
    let p = lower (strip principal) in
    is_infix (codes "agent") p
    || is_infix (codes "bot") p
    || is_prefix (codes "usr_agent") p
    || is_prefix (codes "usr_bot") p
    || codes_eq p (codes "agent_delegate")

-- `DistributedKillSwitchBus`
pub record Bus : Type 0 where
  pub active_records : Dict KillSwitchRecord
  pub is_healthy : Bool

-- The stores of one `KillSwitchService`.
pub record Node : Type 0 where
  pub local_cache : Dict KillSwitchRecord
  pub db_store : Dict KillSwitchRecord
  pub is_db_healthy : Bool

-- The bus, the service that is called, and the other services that subscribe to the bus.
pub record System : Type 0 where
  pub bus : Bus
  pub self : Node
  pub peers : List Node

abbrev pub Call : Type 0 → Type 0
Call A = Action System KillSwitchError A

-- `_on_remote_update`
abbrev pub on_remote_update : KillSwitchRecord → Node → Node
on_remote_update r n = record n {
  local_cache = insert r.switch_id r n.local_cache;
  db_store = insert r.switch_id r n.db_store;
}

-- `publish`, whose `ConnectionError` the callers catch.
unfoldable pub publish : KillSwitchRecord → System → System
publish r s = if not s.bus.is_healthy then s else record {
  bus = record (s.bus) { active_records = insert r.switch_id r s.bus.active_records };
  self = on_remote_update r s.self;
  peers = map (on_remote_update r) s.peers;
}

-- The writes to the database, if it is healthy, and to the local cache.
unfoldable pub keep_record : KillSwitchRecord → System → System
keep_record r s = record s {
  self = record (s.self) {
    local_cache = insert r.switch_id r s.self.local_cache;
    db_store =
        if s.self.is_db_healthy then insert r.switch_id r s.self.db_store else s.self.db_store;
  };
}

-- `target_id.strip() if target_id else None`
abbrev pub normalized_target : Option String → Option String
normalized_target none = none
normalized_target (some t) = if str_eq t "" then none else some (strip t)

abbrev pub activation :
    KillSwitchScope → Option String → String → String → String → UtcDateTime → KillSwitchRecord
activation scope target reason principal new_id now = record {
  switch_id = new_id;
  scope = scope;
  target_id = normalized_target target;
  is_active = true;
  reason = strip reason;
  activated_by = strip principal;
  activated_at = now;
  deactivated_by = none;
  deactivated_at = none;
}

unfoldable pub activate :
    KillSwitchScope → Option String → String → String → String → UtcDateTime → Call KillSwitchRecord
activate scope target reason principal new_id now = do
  raise_if (is_agent_identifier principal) agent_override_forbidden
  raise_if (is_blank reason || is_blank principal) validation_error
  modify (keep_record (activation scope target reason principal new_id now))
  modify (publish (activation scope target reason principal new_id now))
  pure (activation scope target reason principal new_id now)

-- `self._local_cache.get(sid) or self._db_store.get(sid)`
unfoldable pub existing_switch : String → System → Option KillSwitchRecord
existing_switch sid s = elim (lookup sid s.self.local_cache) [
  | some r ↦ some r
  | none ↦ lookup sid s.self.db_store
]

abbrev pub deactivated : KillSwitchRecord → String → String → UtcDateTime → KillSwitchRecord
deactivated r reason principal now = record r {
  is_active = false;
  reason = strip reason;
  deactivated_by = some (strip principal);
  deactivated_at = some now;
}

unfoldable pub deactivate : String → String → String → UtcDateTime → Call KillSwitchRecord
deactivate switch_id reason principal now = do
  raise_if (is_agent_identifier principal) agent_override_forbidden
  r ← or_raise (← gets (existing_switch switch_id)) switch_not_found
  raise_if (is_blank reason) validation_error
  modify (keep_record (deactivated r reason principal now))
  modify (publish (deactivated r reason principal now))
  pure (deactivated r reason principal now)

-- A call of either method, with its fresh identifier and the clock's reading.
pub data Operation : Type 0 where
  activating : KillSwitchScope → Option String → String → String → String → UtcDateTime → Operation
  deactivating : String → String → String → UtcDateTime → Operation

abbrev pub principal_of : Operation → String
principal_of (activating _ _ _ principal _ _) = principal
principal_of (deactivating _ _ principal _) = principal

-- The system after calls, whether each returns or raises.
abbrev pub perform : Operation → System → System
perform (activating scope target reason principal new_id now) s =
    (activate scope target reason principal new_id now s).1
perform (deactivating switch_id reason principal now) s =
    (deactivate switch_id reason principal now s).1

abbrev pub perform_all : List Operation → System → System
perform_all [] s = s
perform_all (op ∷ ops) s = perform_all ops (perform op s)

-- The switch that stands for unreachable stores.
abbrev pub emergency : String → UtcDateTime → KillSwitchRecord
emergency new_id now = record {
  switch_id = new_id;
  scope = global;
  target_id = some "*";
  is_active = true;
  reason = "FAIL_CLOSED_SYSTEM_STORE_UNREACHABLE";
  activated_by = "system_safety_guard";
  activated_at = now;
  deactivated_by = none;
  deactivated_at = none;
}

unfoldable pub get_active_switches : Bus → Node → String → UtcDateTime → List KillSwitchRecord
get_active_switches bus n new_id now =
    if bus.is_healthy
    then keep_if (λ r. r.is_active) (values bus.active_records)
    else if n.is_db_healthy
    then keep_if (λ r. r.is_active) (values n.db_store)
    else emergency new_id now ∷ []

-- What a call of `is_blocked` is about.
pub record Target : Type 0 where
  pub tenant_id : String
  pub capability : String
  pub provider : String
  pub investigation_id : Option String

-- `switch.target_id.strip() if switch.target_id else ""`
abbrev pub target_text : KillSwitchRecord → String
target_text r = elim r.target_id [ none ↦ "" | some t ↦ strip t ]

abbrev pub same_text : String → String → Bool
same_text a b = codes_eq (lower a) (lower b)

-- `inv_str and (target == str(investigation_id) or target_lower == inv_str)`
abbrev pub same_investigation : String → Option String → Bool
same_investigation t none = false
same_investigation t (some i) = not (is_blank i) && (str_eq t i || same_text t (strip i))

-- The tests of the loop on one switch.
abbrev pub covers_scope : KillSwitchScope → String → Target → Bool
covers_scope global t q = true
covers_scope tenant t q = str_eq t q.tenant_id || same_text t q.tenant_id
covers_scope capability t q = same_text t (strip q.capability)
covers_scope provider t q = same_text t (strip q.provider)
covers_scope investigation t q = same_investigation t q.investigation_id

abbrev pub covers : Target → KillSwitchRecord → Bool
covers q r = r.is_active && covers_scope r.scope (target_text r) q

abbrev pub any_covers : Target → List KillSwitchRecord → Bool
any_covers q [] = false
any_covers q (r ∷ rs) = if covers q r then true else any_covers q rs

unfoldable pub is_blocked : Bus → Node → String → UtcDateTime → Target → Bool
is_blocked bus n new_id now q = any_covers q (get_active_switches bus n new_id now)
