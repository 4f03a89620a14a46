-- ===== src/Safety/Outage.antt =====
-- A kill switch that is activated while the bus of safety/killswitch/service.py is down.
use rev_pilot_ai.Base.{String, ◌≡◌, refl, true, false, Option, arith, ap, ◌∙◌}
use rev_pilot_ai.Base.Time.{UtcDateTime}
use rev_pilot_ai.Safety.{
  KillSwitchScope, Bus, Node, System, Target, activate, publish, keep_record, is_blocked,
  get_active_switches,
}

abbrev pub recovered : Bus → Bus
recovered bus = record bus { is_healthy = true }

outage-bus :
    (scope : KillSwitchScope) (target : Option String) (reason principal new_id : String)
    (now : UtcDateTime) (s : System)
    → s.bus.is_healthy ≡ false
    → (activate scope target reason principal new_id now s).1.bus ≡ s.bus
unfolding activate publish keep_record
outage-bus scope target reason principal new_id now s down = ground (arith, down)

-- While the bus is up, the stores of a service do not matter.
same_answer :
    (bus : Bus) (n n' : Node) (q : Target) (any_id : String) (later : UtcDateTime)
    → is_blocked (recovered bus) n' any_id later q ≡ is_blocked (recovered bus) n any_id later q
unfolding is_blocked get_active_switches
same_answer bus n n' q any_id later = refl

-- A switch that is activated while the bus is down blocks nothing once the bus is up again: every
-- service, that of the call too, then decides each call as if it had never been activated.
pub activate-lost :
    (scope : KillSwitchScope) (target : Option String) (reason principal new_id : String)
    (now : UtcDateTime) (s : System) (n n' : Node) (q : Target) (any_id : String)
    (later : UtcDateTime)
    → s.bus.is_healthy ≡ false
    → let s' = (activate scope target reason principal new_id now s).1 in
      is_blocked (recovered s'.bus) n' any_id later q
      ≡ is_blocked (recovered s.bus) n any_id later q
activate-lost scope target reason principal new_id now s n n' q any_id later down =
    ap (λ b. is_blocked (recovered b) n' any_id later q)
      (outage-bus scope target reason principal new_id now s down)
    ∙ same_answer s.bus n n' q any_id later
