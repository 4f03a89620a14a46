-- ===== src/Finops/Audit/Tests.antt =====
-- A chain of one event, with texts that stand for their own hash.
use rev_pilot_ai.Base.{
  prefixed, if◌then◌else◌, str_eq, ◌⊎◌, String, ◌≡◌, refl, some, List, [], ◌∷◌, map, ◌⊎◌,
}
use rev_pilot_ai.Base.Time.{UtcDateTime}
use rev_pilot_ai.Finops.Audit.{
  AuditRecord, Event, intact, append_event, verify_chain_integrity, raw_to_hash, verify_from,
  last_hash,
}
use rev_pilot_ai.Finops.Audit.Chain.{
  append_event-intact, verify_chain_integrity-same, verify_chain_integrity-split, split_early,
  split_late, Collides,
}

abbrev plain : String → String
plain s = s

abbrev clock_text : UtcDateTime → String
clock_text t = "2026-01-01T00:00:00Z"

abbrev login : Event String
login = record {
  tenant_id = some "ten_1";
  actor_id = "usr_1";
  event_type = "auth";
  action = "login";
  details = "{}";
  event_id = some "evt_1";
  occurred_at = some 7;
  new_id = "0";
  now = 8;
}

abbrev chain : List (AuditRecord String)
chain = append_event plain clock_text plain login []

empty-intact : verify_chain_integrity plain clock_text plain [] ≡ intact
unfolding verify_chain_integrity verify_from
empty-intact = refl

append_event-intact_example : verify_chain_integrity plain clock_text plain chain ≡ intact
append_event-intact_example = append_event-intact plain clock_text plain login [] empty-intact

-- A hash of two values, for the empty text and for all others, so that collisions exist.
abbrev two_valued : String → String
two_valued s = if str_eq s "" then "0" else "1"

abbrev logout : Event String
logout = record login { action = "logout" }

abbrev chain_of : Event String → List (AuditRecord String)
chain_of e = append_event plain clock_text two_valued e []

none-intact : verify_chain_integrity plain clock_text two_valued [] ≡ intact
unfolding verify_chain_integrity verify_from
none-intact = refl

chain_of-intact :
    (e : Event String) → verify_chain_integrity plain clock_text two_valued (chain_of e) ≡ intact
chain_of-intact e = append_event-intact plain clock_text two_valued e [] none-intact

one_hash :
    map (λ rec. rec.event_hash) (chain_of login) ≡ map (λ rec. rec.event_hash) (chain_of logout)
unfolding append_event raw_to_hash last_hash prefixed
one_hash = refl

verify_chain_integrity-same_example :
    (map (raw_to_hash plain clock_text two_valued) (chain_of login)
      ≡ map (raw_to_hash plain clock_text two_valued) (chain_of logout))
    ⊎ Collides plain clock_text two_valued (chain_of login) (chain_of logout)
verify_chain_integrity-same_example =
    verify_chain_integrity-same plain clock_text two_valued (chain_of login) (chain_of logout)
      (chain_of-intact login) (chain_of-intact logout) one_hash

abbrev exported : AuditRecord String
exported = record {
  event_id = "evt_2";
  occurred_at = 9;
  event_type = "data";
  tenant_id = some "ten_1";
  actor_id = "usr_1";
  action = "export:pii";
  details = "{}";
  previous_event_hash = "";
  event_hash = "";
}

verify_chain_integrity-split_example :
    verify_chain_integrity plain clock_text plain (split_early "data" "export" "pii" exported ∷ [])
    ≡ verify_chain_integrity plain clock_text plain (split_late "data" "export" "pii" exported ∷ [])
verify_chain_integrity-split_example =
    verify_chain_integrity-split plain clock_text plain [] [] "data" "export" "pii" exported
