-- ===== src/Finops/Audit/Chain.antt =====
-- What the hash chain of finops/audit_chain.py shows, and what it does not.
use rev_pilot_ai.Base.{
  ℕ, ◌+◌, String, List, [], ◌∷◌, ◌++◌, map, str_eq, str_eq→eq, eq→str_eq, prefixed, ◌≡◌, refl, sym,
  subst, ap, ◌∙◌, arith, Bool-cases, inl, inr, ◌≢◌, ◌⊎◌, str_eq_self,
}
use text.Mathlib.TextLemmas.{append_assoc}
use rev_pilot_ai.Base.Time.{UtcDateTime}
use rev_pilot_ai.Finops.Audit.{
  AuditRecord, Event, Integrity, intact, genesis, colon, last_hash, raw_to_hash, hashed, unhashed,
  append_event, verify_from, verify_chain_integrity,
}

module _ {Details : Type 0} where
  -- The record with its type and action split at another colon of `t:u:a`.
  abbrev pub split_early : String → String → String → AuditRecord Details → AuditRecord Details
  split_early t u a rec = record rec { event_type = t; action = colon u a }

  abbrev pub split_late : String → String → String → AuditRecord Details → AuditRecord Details
  split_late t u a rec = record rec { event_type = colon t u; action = a }

module _ {Details : Type 0} (dumps : Details → String) (isoformat : UtcDateTime → String)
    (sha256 : String → String) where
  abbrev raw : AuditRecord Details → String
  raw rec = raw_to_hash dumps isoformat sha256 rec

  abbrev check : String → ℕ → List (AuditRecord Details) → Integrity
  check p n chain = verify_from dumps isoformat sha256 p n chain

  raw-hashed : (rec : AuditRecord Details) → raw (hashed dumps isoformat sha256 rec) ≡ raw rec
  unfolding raw_to_hash
  raw-hashed rec = refl

  -- What an intact chain says of its first record and of the rest.
  intact_cons :
      (p : String) (n : ℕ) (rec : AuditRecord Details) (chain : List (AuditRecord Details))
      → check p n (rec ∷ chain) ≡ intact
      → (rec.previous_event_hash ≡ p)
        × ((sha256 (raw rec) ≡ rec.event_hash) × (check rec.event_hash (n + 1) chain ≡ intact))
  unfolding verify_from
  intact_cons p n rec chain h = elim (Bool-cases (str_eq rec.previous_event_hash p)) [
    | inl e ↦ elim (Bool-cases (str_eq (sha256 (raw rec)) rec.event_hash)) [
      | inl f ↦ (
        str_eq→eq rec.previous_event_hash p e,
        (str_eq→eq (sha256 (raw rec)) rec.event_hash f, ground arith),
      )
      | inr f ↦ absurd (ground arith)
    ]
    | inr e ↦ absurd (ground arith)
  ]

  cons_intact :
      (p : String) (n : ℕ) (rec : AuditRecord Details) (chain : List (AuditRecord Details))
      → rec.previous_event_hash ≡ p
      → sha256 (raw rec) ≡ rec.event_hash
      → check p n (rec ∷ chain) ≡ check rec.event_hash (n + 1) chain
  unfolding verify_from
  cons_intact p n rec chain e f =
      let link = eq→str_eq rec.previous_event_hash p e in
      let same = eq→str_eq (sha256 (raw rec)) rec.event_hash f in cc

  verify_from-append :
      (p : String) (n : ℕ) (chain : List (AuditRecord Details)) (rec : AuditRecord Details)
      → check p n chain ≡ intact
      → rec.previous_event_hash ≡ last_hash p chain
      → sha256 (raw rec) ≡ rec.event_hash
      → check p n (chain ++ rec ∷ []) ≡ intact
  unfolding last_hash verify_from
  verify_from-append p n [] rec h e f = cons_intact p n rec [] e f
  verify_from-append p n (x ∷ chain) rec h e f =
      let (link, (same, rest)) = intact_cons p n x chain h in
      cons_intact p n x (chain ++ rec ∷ []) link same
      ∙ verify_from-append x.event_hash (n + 1) chain rec rest e f

  -- Appending an event to an intact chain leaves it intact.
  pub append_event-intact :
      (e : Event Details) (chain : List (AuditRecord Details))
      → verify_chain_integrity dumps isoformat sha256 chain ≡ intact
      → verify_chain_integrity dumps isoformat sha256 (append_event dumps isoformat sha256 e chain)
        ≡ intact
  unfolding append_event verify_chain_integrity
  append_event-intact e chain h =
      verify_from-append genesis 0 chain
        (hashed dumps isoformat sha256
          (unhashed dumps isoformat sha256 e (last_hash genesis chain)))
        h refl
        (ap sha256 (raw-hashed (unhashed dumps isoformat sha256 e (last_hash genesis chain))))

  -- At one place of both chains stand records of different texts that have the same hash.
  pub data Collides : List (AuditRecord Details) → List (AuditRecord Details) → Type 0 where
    here :
        {x y : AuditRecord Details} {xs ys : List (AuditRecord Details)}
        → raw x ≢ raw y
        → sha256 (raw x) ≡ sha256 (raw y)
        → Collides (x ∷ xs) (y ∷ ys)
    behind :
        {x y : AuditRecord Details} {xs ys : List (AuditRecord Details)}
        → Collides xs ys
        → Collides (x ∷ xs) (y ∷ ys)

  same_hashes :
      (p : String) (n : ℕ) (chain chain' : List (AuditRecord Details))
      → check p n chain ≡ intact
      → check p n chain' ≡ intact
      → map (λ rec. rec.event_hash) chain ≡ map (λ rec. rec.event_hash) chain'
      → (map raw chain ≡ map raw chain') ⊎ Collides chain chain'
  same_hashes p n [] [] h h' e = inl refl
  same_hashes p n [] (y ∷ ys) h h' e = absurd (cc)
  same_hashes p n (x ∷ xs) [] h h' e = absurd (cc)
  same_hashes p n (x ∷ xs) (y ∷ ys) h h' e =
      let (link, (sx, rx)) = intact_cons p n x xs h in
      let (link', (sy, ry)) = intact_cons p n y ys h' in
      let first : x.event_hash ≡ y.event_hash = cc in
      let others : map (λ rec. rec.event_hash) xs ≡ map (λ rec. rec.event_hash) ys = cc in
      elim (Bool-cases (str_eq (raw x) (raw y))) [
        | inr apart ↦
            let one = str_eq_self (raw x) in
            inr (here (λ same. absurd (cc)) (sx ∙ (first ∙ sym sy)))
        | inl at ↦
            let text : raw x ≡ raw y = str_eq→eq (raw x) (raw y) at in
            elim (same_hashes x.event_hash (n + 1) xs ys rx
              (subst (λ z. check z (n + 1) ys ≡ intact) (sym first) ry) others) [
                | inl rest ↦ inl (cc)
                | inr found ↦ inr (behind found)
              ]
      ]

  -- Two intact chains with the same event hashes hash the same texts, record by record, or at one place
  -- their records have different texts of the same hash: no record's text can be changed behind its hash
  -- without a collision of that text with the new one.
  pub verify_chain_integrity-same :
      (chain chain' : List (AuditRecord Details))
      → verify_chain_integrity dumps isoformat sha256 chain ≡ intact
      → verify_chain_integrity dumps isoformat sha256 chain' ≡ intact
      → map (λ rec. rec.event_hash) chain ≡ map (λ rec. rec.event_hash) chain'
      → (map raw chain ≡ map raw chain') ⊎ Collides chain chain'
  unfolding verify_chain_integrity
  verify_chain_integrity-same chain chain' h h' e = same_hashes genesis 0 chain chain' h h' e

  raw-split :
      (t u a : String) (rec : AuditRecord Details)
      → raw (split_early t u a rec) ≡ raw (split_late t u a rec)
  unfolding raw_to_hash prefixed
  raw-split t u a rec = simp (append_assoc)

  verify_from-split :
      (p : String) (n : ℕ) (before after : List (AuditRecord Details)) (t u a : String)
      (rec : AuditRecord Details)
      → check p n (before ++ split_early t u a rec ∷ after)
        ≡ check p n (before ++ split_late t u a rec ∷ after)
  unfolding verify_from
  verify_from-split p n [] after t u a rec = let same = raw-split t u a rec in cc
  verify_from-split p n (x ∷ xs) after t u a rec =
      let rest = verify_from-split x.event_hash (n + 1) xs after t u a rec in cc

  -- The fields are joined by colons that they may hold too: a record whose type and action are split at
  -- another colon passes the check just as the true one does, whatever the hash.
  pub verify_chain_integrity-split :
      (before after : List (AuditRecord Details)) (t u a : String) (rec : AuditRecord Details)
      → verify_chain_integrity dumps isoformat sha256 (before ++ split_early t u a rec ∷ after)
        ≡ verify_chain_integrity dumps isoformat sha256 (before ++ split_late t u a rec ∷ after)
  unfolding verify_chain_integrity
  verify_chain_integrity-split before after t u a rec =
      verify_from-split genesis 0 before after t u a rec
