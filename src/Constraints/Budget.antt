-- ===== src/Constraints/Budget.antt =====
-- constraints/ports.py: the in-memory budget ledgers, by tenant and date. Each method is one step.
use rev_pilot_ai.Base.{
  String, false, Option, some, ◌+◌, ◌≡◌, inl, inr, arith, subst, ◌&&◌, Action, pure, raise_if,
  modify, gets, or_raise, ◌>>=◌, ◌>>◌, if◌then◌else◌, str_eq, Option-cases, Bool-cases, [],
}
use rev_pilot_ai.Base.Int.{ℤ, pos, ◌+ℤ◌, ◌-ℤ◌, ◌≤ℤ◌, ltb_ℤ, int_laws}
use rev_pilot_ai.Base.Money.{Usd}
use rev_pilot_ai.Base.Dict.{Nested, find, store, find-store, inner, lookup}
use rev_pilot_ai.Constraints.{BudgetLedgerEntry}

pub data BudgetError : Type 0 where
  ledger_not_found budget_exceeded : BudgetError

abbrev pub Ledgers : Type 0
Ledgers = Nested BudgetLedgerEntry

abbrev LedgerCall : Type 0 → Type 0
LedgerCall A = Action Ledgers BudgetError A

-- The entry's validation refuses a total below zero.
unfoldable pub init_ledger : String → String → Usd → Ledgers → Ledgers
init_ledger t date total s =
    store t date
      (record {
        tenant_id = t;
        ledger_date = date;
        total_allocated_usd = pos total;
        committed_expenditure_usd = pos 0;
        remaining_balance_usd = pos total;
        version = 1;
      })
      s

unfoldable pub get_budget_ledger : String → String → Ledgers → Option BudgetLedgerEntry
get_budget_ledger t date s = find t date s

-- The entry with an amount moved from the balance to what is committed.
abbrev spent : ℤ → BudgetLedgerEntry → BudgetLedgerEntry
spent x e = record e {
  committed_expenditure_usd = e.committed_expenditure_usd +ℤ x;
  remaining_balance_usd = e.remaining_balance_usd -ℤ x;
  version = e.version + 1;
}

abbrev refunded : ℤ → BudgetLedgerEntry → BudgetLedgerEntry
refunded x e = record e {
  committed_expenditure_usd = e.committed_expenditure_usd -ℤ x;
  remaining_balance_usd = e.remaining_balance_usd +ℤ x;
  version = e.version + 1;
}

unfoldable pub reserve_budget : String → String → ℤ → LedgerCall BudgetLedgerEntry
unfolding get_budget_ledger
reserve_budget t date amount = do
  current ← or_raise (← gets (get_budget_ledger t date)) ledger_not_found
  raise_if (ltb_ℤ current.remaining_balance_usd amount) budget_exceeded
  modify (store t date (spent amount current))
  pure (spent amount current)

abbrev min_ℤ : ℤ → ℤ → ℤ
min_ℤ a b = if ltb_ℤ b a then b else a

unfoldable pub release_budget : String → String → ℤ → LedgerCall BudgetLedgerEntry
unfolding get_budget_ledger
release_budget t date amount = do
  current ← or_raise (← gets (get_budget_ledger t date)) ledger_not_found
  modify (store t date (refunded (min_ℤ amount current.committed_expenditure_usd) current))
  pure (refunded (min_ℤ amount current.committed_expenditure_usd) current)

-- `clear`
abbrev pub clear_ledgers : Ledgers → Ledgers
clear_ledgers s = []

-- The two parts of an entry are not negative and add up to what was allocated.
pub record IsSolvent (e : BudgetLedgerEntry) : Type 0 where
  pub sum : e.committed_expenditure_usd +ℤ e.remaining_balance_usd ≡ e.total_allocated_usd
  pub no_debt : pos 0 ≤ℤ e.committed_expenditure_usd
  pub no_overdraft : pos 0 ≤ℤ e.remaining_balance_usd

abbrev pub AllSolvent : Ledgers → Type 0
AllSolvent s = (t date : String) (e : BudgetLedgerEntry) → find t date s ≡ some e → IsSolvent e

store-AllSolvent :
    (t date : String) (e : BudgetLedgerEntry) (s : Ledgers)
    → IsSolvent e
    → AllSolvent s
    → AllSolvent (store t date e s)
store-AllSolvent t date e s fine b u day e' h = elim (Bool-cases (str_eq t u && str_eq date day)) [
  | inl same ↦
      let here : e ≡ e' = ground (arith, find-store t date e u day s, same, h) in
      subst IsSolvent here fine
  | inr other ↦ b u day e' (ground (arith, find-store t date e u day s, other, h))
]

pub init_ledger-AllSolvent :
    (t date : String) (total : Usd) (s : Ledgers)
    → AllSolvent s
    → AllSolvent (init_ledger t date total s)
unfolding init_ledger
init_ledger-AllSolvent t date total s b =
    store-AllSolvent t date _ s
      (record { sum = omega int_laws; no_debt = omega arith; no_overdraft = omega arith }) b

pub empty-AllSolvent : AllSolvent []
unfolding find inner lookup
empty-AllSolvent t date e h = ground arith

spent-IsSolvent :
    (x : ℤ) (e : BudgetLedgerEntry)
    → pos 0 ≤ℤ x
    → ltb_ℤ e.remaining_balance_usd x ≡ false
    → IsSolvent e
    → IsSolvent (spent x e)
spent-IsSolvent x e h fits v = record {
  sum = grind (int_laws, v.sum);
  no_debt = grind (int_laws, v.no_debt);
  no_overdraft = grind (int_laws, v.no_overdraft);
}

refunded-IsSolvent :
    (x : ℤ) (e : BudgetLedgerEntry)
    → pos 0 ≤ℤ x
    → IsSolvent e
    → IsSolvent (refunded (min_ℤ x e.committed_expenditure_usd) e)
refunded-IsSolvent x e h v =
    let y = min_ℤ x e.committed_expenditure_usd in
    let low : pos 0 ≤ℤ y = ground (arith, h, v.no_debt) in
    let high : y ≤ℤ e.committed_expenditure_usd = ground arith in
    record {
      sum = grind (int_laws, v.sum);
      no_debt = omega (int_laws, high, low);
      no_overdraft = omega (int_laws, low, v.no_overdraft);
    }

-- `reserve_budget` of an amount that is not negative keeps every ledger solvent: nothing is
-- overdrawn, and what is committed and what remains add up to the allocation.
pub reserve_budget-AllSolvent :
    (t date : String) (amount : ℤ) (s : Ledgers)
    → pos 0 ≤ℤ amount
    → AllSolvent s
    → AllSolvent (reserve_budget t date amount s).1
unfolding reserve_budget get_budget_ledger
reserve_budget-AllSolvent t date amount s h b = elim (Option-cases (find t date s)) [
  | inl missing ↦ subst AllSolvent (ground (arith, missing)) b
  | inr (e, found) ↦ elim (Bool-cases (ltb_ℤ e.remaining_balance_usd amount)) [
    | inl short ↦ subst AllSolvent (ground (arith, found, short)) b
    | inr fits ↦ subst AllSolvent (ground (arith, found, fits)) (
        store-AllSolvent t date (spent amount e) s
          (spent-IsSolvent amount e h fits (b t date e found)) b)
  ]
]

-- `release_budget` of an amount that is not negative keeps every ledger solvent, also where more is
-- released than was committed.
pub release_budget-AllSolvent :
    (t date : String) (amount : ℤ) (s : Ledgers)
    → pos 0 ≤ℤ amount
    → AllSolvent s
    → AllSolvent (release_budget t date amount s).1
unfolding release_budget get_budget_ledger
release_budget-AllSolvent t date amount s h b = elim (Option-cases (find t date s)) [
  | inl missing ↦ subst AllSolvent (ground (arith, missing)) b
  | inr (e, found) ↦ subst AllSolvent (ground (arith, found)) (
      store-AllSolvent t date (refunded (min_ℤ amount e.committed_expenditure_usd) e) s
        (refunded-IsSolvent amount e h (b t date e found)) b)
]
