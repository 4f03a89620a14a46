-- ===== src/Action/Saga/Inquiry.antt =====
-- The inquiry loop of action/saga/reconciliation.py, by its first conclusive answer.
use rev_pilot_ai.Base.{
  ℕ, zero, suc, ◌+◌, ◌<◌, ◌≡◌, ◌⊎◌, String, List, [], ◌∷◌, ◌++◌, subst, sym, ◌∙◌, subst, sym, ◌∙◌,
}
use rev_pilot_ai.Base.Time.{UtcDateTime}
use rev_pilot_ai.Action.Domain.{ActionIntentRecord, ActionLedgerRecord}
use rev_pilot_ai.Action.Saga.Reconciliation.{
  confirmed, no_record, inconclusive, ProviderInquiryResult, Answer, InquiryEntry, Manager, settle,
  confirmed_entry, no_record_entry, escalated_entry, escalation, inquiry_entry,
}

module _ (query : ℕ → Answer) (i : ActionIntentRecord) (l : ActionLedgerRecord) (max_attempts : ℕ)
    (event_id : String) (now : UtcDateTime) where
  -- The `n` answers from attempt `a` on are all inconclusive.
  abbrev pub Unsettled : ℕ → ℕ → Type 0
  Unsettled a zero = Unit
  Unsettled a (suc n) = ((settle (query a)).status ≡ inconclusive) × Unsettled (a + 1) n

  -- The history entries of `n` inquiries from attempt `a` on.
  abbrev pub entries_from : ℕ → ℕ → List InquiryEntry
  entries_from a zero = []
  entries_from a (suc n) = inquiry_entry l now a ∷ entries_from (a + 1) n

  -- The entry that a conclusive answer gives.
  abbrev pub Concludes : ProviderInquiryResult → ActionLedgerRecord → Type 0
  Concludes r e =
      ((r.status ≡ confirmed) × (e ≡ confirmed_entry l r now))
      ⊎ ((r.status ≡ no_record) × (e ≡ no_record_entry l now))

  -- `n` answers are inconclusive and the next one settles the entry, with nothing emitted.
  pub record Settled (a rounds n : ℕ) (m : Manager) (out : ActionLedgerRecord × Manager)
      : Type 0 where
    pub in_time : n < rounds
    pub waited : Unsettled a n
    pub concluded : Concludes (settle (query (a + n))) out.0
    pub asked : out.1.inquiry_history ≡ m.inquiry_history ++ entries_from a (suc n)
    pub silent : out.1.emitted_outbox_events ≡ m.emitted_outbox_events

  -- Every answer is inconclusive: the entry stays unknown, and one event is emitted.
  pub record Escalated (a rounds : ℕ) (m : Manager) (out : ActionLedgerRecord × Manager)
      : Type 0 where
    pub waited : Unsettled a rounds
    pub parked : out.0 ≡ escalated_entry l now
    pub asked : out.1.inquiry_history ≡ m.inquiry_history ++ entries_from a rounds
    pub emitted :
        (last : ProviderInquiryResult) × (out.1.emitted_outbox_events
          ≡ m.emitted_outbox_events ++ escalation i l max_attempts last event_id now ∷ [])

  abbrev Outcome : ℕ → ℕ → Manager → ActionLedgerRecord × Manager → Type 0
  Outcome a rounds m out = ((n : ℕ) × Settled a rounds n m out) ⊎ Escalated a rounds m out
