-- ===== src/Safety/Tests.antt =====
-- Two services on one bus: a switch on a tenant, an agent that tries to lift it, and an outage.
use rev_pilot_ai.Base.{
  ◌≡◌, ◌↔◌, ◌⊎◌, refl, true, false, some, none, [], ◌∷◌, ok, Among, strip, is_blank, lower,
  is_infix, List,
}
use rev_pilot_ai.Safety.{
  Operation, activating, deactivating, perform_all, KillSwitchRecord, tenant, is_agent_identifier,
  Node, System, Target, publish, keep_record, activation, activate, covers, is_blocked,
}
use rev_pilot_ai.Safety.Blocking.{
  read_from, activate-is_blocked, is_blocked_iff, perform_all_agents,
}
use rev_pilot_ai.Safety.Outage.{recovered, activate-lost}

abbrev bare : Node
bare = record { local_cache = []; db_store = []; is_db_healthy = true }

abbrev calm : System
calm = record {
  bus = record { active_records = []; is_healthy = true };
  self = bare;
  peers = bare ∷ [];
}

abbrev storm : System
storm = record calm { bus = record { active_records = []; is_healthy = false } }

abbrev switch : KillSwitchRecord
switch = activation tenant (some "t1") "incident" "olga" "k1" 1000

abbrev sending : Target
sending = record {
  tenant_id = "t1";
  capability = "email";
  provider = "mail";
  investigation_id = none;
}

answered : (activate tenant (some "t1") "incident" "olga" "k1" 1000 calm).0 ≡ ok switch
unfolding activate publish keep_record is_agent_identifier is_blank strip lower is_infix
answered = refl

abbrev halted : System
halted = (activate tenant (some "t1") "incident" "olga" "k1" 1000 calm).1

switched : activate tenant (some "t1") "incident" "olga" "k1" 1000 calm ≡ (ok switch, halted)
unfolding activate is_agent_identifier is_blank strip lower is_infix
switched = refl

covered : covers sending switch ≡ true
unfolding strip lower is_blank
covered = refl

activate-is_blocked_example : is_blocked halted.bus bare "e" 2000 sending ≡ true
activate-is_blocked_example =
    activate-is_blocked tenant (some "t1") "incident" "olga" "k1" 1000 calm halted switch bare
      sending "e" 2000 refl switched covered

is_blocked_iff_example : (is_blocked halted.bus bare "e" 2000 sending ≡ true) ↔ (
    ((halted.bus.is_healthy ≡ false) × (true ≡ false))
    ⊎ ((r : KillSwitchRecord) × Among r (read_from halted.bus bare) × (covers sending r ≡ true)))
is_blocked_iff_example = is_blocked_iff halted.bus bare "e" 2000 sending

agent : is_agent_identifier "usr_agent_7" ≡ true
unfolding is_agent_identifier strip lower is_infix is_blank
agent = refl

abbrev attempts : List Operation
attempts =
    activating tenant (some "t1") "incident" "usr_agent_7" "k2" 3000
    ∷ deactivating "k1" "all clear" "usr_agent_7" 3000
    ∷ []

perform_all_agents_example : perform_all attempts halted ≡ halted
perform_all_agents_example = perform_all_agents attempts halted (agent, (agent, tt))

activate-lost_example :
    is_blocked
      (recovered (activate tenant (some "t1") "incident" "olga" "k1" 1000 storm).1.bus)
      bare
      "e"
      2000
      sending
    ≡ is_blocked (recovered storm.bus) bare "e" 2000 sending
activate-lost_example =
    activate-lost tenant (some "t1") "incident" "olga" "k1" 1000 storm bare bare sending "e" 2000
      refl
