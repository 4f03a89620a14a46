-- ===== src/Finops/Audit.antt =====
-- finops/audit_chain.py. The details of an event are of any type; their JSON text, the text of a time and
-- SHA-256 are parameters.
pub mod Chain
mod Tests
use rev_pilot_ai.Base.{
  ℕ, ◌+◌, String, Option, none, some, List, [], ◌∷◌, ◌++◌, str_eq, prefixed, if◌then◌else◌,
}
use rev_pilot_ai.Base.Time.{UtcDateTime}

pub record AuditRecord (Details : Type 0) : Type 0 where
  pub event_id : String
  pub occurred_at : UtcDateTime
  pub event_type : String
  pub tenant_id : Option String
  pub actor_id : String
  pub action : String
  pub details : Details
  pub previous_event_hash : String
  pub event_hash : String

-- `"0" * 64`
abbrev pub genesis : String
genesis = "0000000000000000000000000000000000000000000000000000000000000000"

-- What `verify_chain_integrity` returns: `(True, None)`, or the index and the event of its reason
pub data Integrity : Type 0 where
  intact : Integrity
  broken_link : ℕ → String → Integrity
  tampered : ℕ → String → Integrity

-- The arguments of `append_event`, with the identifier and the time it makes where they are not given
pub record Event (Details : Type 0) : Type 0 where
  pub tenant_id : Option String
  pub actor_id : String
  pub event_type : String
  pub action : String
  pub details : Details
  pub event_id : Option String
  pub occurred_at : Option UtcDateTime
  pub new_id : String
  pub now : UtcDateTime

abbrev pub id_or_new : Option String → String → String
id_or_new none new_id = prefixed "evt_" new_id
id_or_new (some i) new_id = if str_eq i "" then prefixed "evt_" new_id else i

abbrev pub time_or_now : Option UtcDateTime → UtcDateTime → UtcDateTime
time_or_now none now = now
time_or_now (some t) now = t

abbrev pub tenant_or_global : Option String → String
tenant_or_global none = "global"
tenant_or_global (some t) = t

-- f"{a}:{rest}"
abbrev pub colon : String → String → String
colon a rest = prefixed a (prefixed ":" rest)

module _ {Details : Type 0} where
  -- `self._chain[-1].event_hash if self._chain else "0" * 64`, from a hash before the list
  unfoldable pub last_hash : String → List (AuditRecord Details) → String
  last_hash expected_prev [] = expected_prev
  last_hash expected_prev (rec ∷ chain) = last_hash rec.event_hash chain

module _ {Details : Type 0} (dumps : Details → String) (isoformat : UtcDateTime → String)
    (sha256 : String → String) where
  unfoldable pub raw_to_hash : AuditRecord Details → String
  raw_to_hash rec = colon rec.event_id (
      colon (isoformat rec.occurred_at) (
        colon (tenant_or_global rec.tenant_id) (
          colon rec.actor_id (
            colon rec.event_type
              (colon rec.action (colon (dumps rec.details) rec.previous_event_hash))))))

  abbrev pub hashed : AuditRecord Details → AuditRecord Details
  hashed rec = record rec { event_hash = sha256 (raw_to_hash rec) }

  -- `event_hash` is filled in by `hashed`.
  abbrev pub unhashed : Event Details → String → AuditRecord Details
  unhashed e previous_hash = record {
    event_id = id_or_new e.event_id e.new_id;
    occurred_at = time_or_now e.occurred_at e.now;
    event_type = e.event_type;
    tenant_id = e.tenant_id;
    actor_id = e.actor_id;
    action = e.action;
    details = e.details;
    previous_event_hash = previous_hash;
    event_hash = "";
  }

  unfoldable pub append_event :
      Event Details → List (AuditRecord Details) → List (AuditRecord Details)
  append_event e chain = chain ++ hashed (unhashed e (last_hash genesis chain)) ∷ []

  -- The loop, from an index and the hash that the next record is to point to
  unfoldable pub verify_from : String → ℕ → List (AuditRecord Details) → Integrity
  verify_from expected_prev idx [] = intact
  verify_from expected_prev idx (rec ∷ chain) =
      let rest = verify_from rec.event_hash (idx + 1) chain in
      if str_eq rec.previous_event_hash expected_prev
      then (if str_eq (sha256 (raw_to_hash rec)) rec.event_hash
          then rest
          else tampered idx rec.event_id)
      else broken_link idx rec.event_id

  unfoldable pub verify_chain_integrity : List (AuditRecord Details) → Integrity
  verify_chain_integrity chain = verify_from genesis 0 chain
