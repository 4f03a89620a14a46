-- ===== src/Safety/Blocking.antt =====
-- What the kill switches of safety/killswitch/service.py block.
use rev_pilot_ai.Base.{
  String, ◌≡◌, ◌↔◌, ◌⊎◌, inl, inr, refl, true, false, Option, List, [], ◌∷◌, ok, arith, sym, ◌∙◌,
  subst, All, Among, Among-keep_if, Bool-cases, keep_if, if◌then◌else◌, str_eq, ap,
}
use rev_pilot_ai.Base.Time.{UtcDateTime}
use rev_pilot_ai.Base.Dict.{Dict, insert, values}
use rev_pilot_ai.Safety.{
  Operation, activating, deactivating, principal_of, perform, perform_all, KillSwitchScope,
  KillSwitchRecord, is_agent_identifier, Bus, Node, System, Target, publish, keep_record, activate,
  deactivate, covers, any_covers, get_active_switches, is_blocked,
}

any_covers-Among :
    (q : Target) (rs : List KillSwitchRecord) (r : KillSwitchRecord)
    → covers q r ≡ true
    → Among r rs
    → any_covers q rs ≡ true
any_covers-Among q [] r h m = absurd m
any_covers-Among q (x ∷ rs) r h (inl e) = rw (← e) (rw h refl)
any_covers-Among q (x ∷ rs) r h (inr m) = elim (Bool-cases (covers q x)) [
  | inl hit ↦ rw hit refl
  | inr miss ↦ rw miss (any_covers-Among q rs r h m)
]

Among-any_covers :
    (q : Target) (rs : List KillSwitchRecord)
    → any_covers q rs ≡ true
    → (r : KillSwitchRecord) × Among r rs × (covers q r ≡ true)
Among-any_covers q [] h = ground arith
Among-any_covers q (x ∷ rs) h = elim (Bool-cases (covers q x)) [
  | inl hit ↦ (x, inl refl, hit)
  | inr miss ↦ let (r, m, c) = Among-any_covers q rs (rw miss at h) in (r, inr m, c)
]

Among-values-insert :
    (k : String) (r : KillSwitchRecord) (d : Dict KillSwitchRecord)
    → Among r (values (insert k r d))
unfolding values insert
Among-values-insert k r [] = inl refl
Among-values-insert k r ((j, w) ∷ d) = elim (Bool-cases (str_eq j k)) [
  | inl same ↦ rw same (inl refl)
  | inr other ↦ rw other (inr (Among-values-insert k r d))
]

any_covers-keep_if :
    (q : Target) (rs : List KillSwitchRecord)
    → any_covers q (keep_if (λ r. r.is_active) rs) ≡ any_covers q rs
any_covers-keep_if q [] = refl
any_covers-keep_if q (x ∷ rs) = ground (arith, any_covers-keep_if q rs)

activate-bus :
    (scope : KillSwitchScope) (target : Option String) (reason principal new_id : String)
    (now : UtcDateTime) (s : System) {r : KillSwitchRecord} {s' : System}
    → s.bus.is_healthy ≡ true
    → activate scope target reason principal new_id now s ≡ (ok r, s')
    → (r.is_active ≡ true)
      × (s'.bus.is_healthy ≡ true)
      × (s'.bus.active_records ≡ insert r.switch_id r s.bus.active_records)
unfolding activate publish keep_record
activate-bus scope target reason principal new_id now s up h = ground (arith, up)

-- Once `activate` has returned a switch while the bus is healthy, every service on that bus, whatever
-- its own stores hold, blocks each call that the switch covers.
pub activate-is_blocked :
    (scope : KillSwitchScope) (target : Option String) (reason principal new_id : String)
    (now : UtcDateTime) (s s' : System) (r : KillSwitchRecord) (n : Node) (q : Target)
    (any_id : String) (later : UtcDateTime)
    → s.bus.is_healthy ≡ true
    → activate scope target reason principal new_id now s ≡ (ok r, s')
    → covers q r ≡ true
    → is_blocked s'.bus n any_id later q ≡ true
unfolding is_blocked get_active_switches
activate-is_blocked scope target reason principal new_id now s s' r n q any_id later up h c =
    let (live, still, held) = activate-bus scope target reason principal new_id now s up h in
    let there : Among r (values s'.bus.active_records) =
      subst (λ d. Among r (values d)) (sym held)
        (Among-values-insert r.switch_id r s.bus.active_records) in
    rw still (any_covers-Among q _ r c (Among-keep_if (λ x. x.is_active) r _ live there))

-- The records that a service reads: the bus's, or its database's while the bus is down.
abbrev pub read_from : Bus → Node → List KillSwitchRecord
read_from bus n = if bus.is_healthy then values bus.active_records else values n.db_store

is_blocked-read_from :
    (bus : Bus) (n : Node) (new_id : String) (now : UtcDateTime) (q : Target)
    → (bus.is_healthy ≡ true) ⊎ (n.is_db_healthy ≡ true)
    → is_blocked bus n new_id now q ≡ any_covers q (read_from bus n)
unfolding is_blocked get_active_switches
is_blocked-read_from bus n new_id now q up = ground (
  arith,
  up,
  any_covers-keep_if q (values bus.active_records),
  any_covers-keep_if q (values n.db_store),
)

is_blocked-down :
    (bus : Bus) (n : Node) (new_id : String) (now : UtcDateTime) (q : Target)
    → bus.is_healthy ≡ false
    → n.is_db_healthy ≡ false
    → is_blocked bus n new_id now q ≡ true
unfolding is_blocked get_active_switches
is_blocked-down bus n new_id now q a b = ground (arith, a, b)

stores-cases :
    (bus : Bus) (n : Node)
    → ((bus.is_healthy ≡ false) × (n.is_db_healthy ≡ false))
      ⊎ ((bus.is_healthy ≡ true) ⊎ (n.is_db_healthy ≡ true))
stores-cases bus n = ground arith

-- A call is blocked exactly when the bus and the database are both down, or else some record that
-- the service reads (of the bus, or of its database while the bus is down) is active and covers it.
pub is_blocked_iff :
    (bus : Bus) (n : Node) (new_id : String) (now : UtcDateTime) (q : Target)
    → (is_blocked bus n new_id now q ≡ true) ↔ (
        ((bus.is_healthy ≡ false) × (n.is_db_healthy ≡ false))
        ⊎ ((r : KillSwitchRecord) × Among r (read_from bus n) × (covers q r ≡ true)))
is_blocked_iff bus n new_id now q = elim (stores-cases bus n) [
  | inl down ↦ ((λ h. inl down), (λ h. is_blocked-down bus n new_id now q down.0 down.1))
  | inr up ↦
      let e = is_blocked-read_from bus n new_id now q up in
      ((λ h. inr (Among-any_covers q (read_from bus n) (sym e ∙ h))), (λ h. blocked up e h))
]
  where
    blocked :
        (bus.is_healthy ≡ true) ⊎ (n.is_db_healthy ≡ true)
        → is_blocked bus n new_id now q ≡ any_covers q (read_from bus n)
        → ((bus.is_healthy ≡ false) × (n.is_db_healthy ≡ false))
          ⊎ ((r : KillSwitchRecord) × Among r (read_from bus n) × (covers q r ≡ true))
        → is_blocked bus n new_id now q ≡ true
    blocked up e (inl (a, b)) = is_blocked-down bus n new_id now q a b
    blocked up e (inr (r, m, c)) = e ∙ any_covers-Among q (read_from bus n) r c m

agent_forbidden :
    (op : Operation) (s : System) → is_agent_identifier (principal_of op) ≡ true → perform op s ≡ s
unfolding activate deactivate
agent_forbidden (activating scope target reason principal new_id now) s h = ground (arith, h)
agent_forbidden (deactivating switch_id reason principal now) s h = ground (arith, h)

-- However often agents call `activate` and `deactivate`, whatever they pass, no switch, store or bus
-- changes.
pub perform_all_agents :
    (ops : List Operation) (s : System)
    → All (λ op. is_agent_identifier (principal_of op) ≡ true) ops
    → perform_all ops s ≡ s
perform_all_agents [] s h = refl
perform_all_agents (op ∷ ops) s h =
    ap (perform_all ops) (agent_forbidden op s h.0) ∙ perform_all_agents ops s h.1
