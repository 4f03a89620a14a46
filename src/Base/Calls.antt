-- ===== src/Base/Calls.antt =====
-- Rules for calls that read and write a state and may raise: what a call keeps, and what holds when it
-- returns.
use mathlib.Core.Path.{◌≡◌, refl, sym, subst, ap, ◌∙◌}
use mathlib.Core.Logic.{◌⊎◌, inl, inr}
use mathlib.Core.Bool.{Bool, true, false}
use rev_pilot_ai.Base.Tests.{if◌then◌else◌}
use rev_pilot_ai.Base.Outcome.{Result, ok, err, Action, pure, raise, raise_if, modify, ◌>>=◌}

module _ {E A : Type 0} where
  pub Result-cases : (r : Result E A) → ((a : A) × (r ≡ ok a)) ⊎ ((e : E) × (r ≡ err e))
  Result-cases (ok a) = inl (a, refl)
  Result-cases (err e) = inr (e, refl)

module _ {S E A B : Type 0} (m : Action S E A) (f : A → Action S E B) (s : S) where
  pub bind_ok : {a : A} → (m s).0 ≡ ok a → (m >>= f) s ≡ f a (m s).1
  bind_ok h = cc

  pub bind_err : {e : E} → (m s).0 ≡ err e → (m >>= f) s ≡ (err e, (m s).1)
  bind_err h = cc

  pub bind_at : {a : A} {s' : S} → m s ≡ (ok a, s') → (m >>= f) s ≡ f a s'
  bind_at h = cc

  pub bind_raises : {e : E} {s' : S} → m s ≡ (err e, s') → (m >>= f) s ≡ (err e, s')
  bind_raises h = cc

  pub bind_returns :
      {b : B} → ((m >>= f) s).0 ≡ ok b → (a : A) × (((m s).0 ≡ ok a) × ((m >>= f) s ≡ f a (m s).1))
  bind_returns {b} h = elim (Result-cases (m s).0) [
    | inl (a, e) ↦ (a, (e, bind_ok e))
    | inr (x, e) ↦ let raised = bind_err e in cc
  ]

pub if_cases :
    {A : Type 0} (P : A → Type 0) (b : Bool) (x y : A)
    → (b ≡ true → P x)
    → (b ≡ false → P y)
    → P (if b then x else y)
if_cases P true x y = λ yes no. yes refl
if_cases P false x y = λ yes no. no refl

-- Whether it returns or raises, the call keeps `P`.
unfoldable pub Keeps : {S E A : Type 0} → (S → Type 0) → Action S E A → Type 0
Keeps {S} P m = (s : S) → P s → P (m s).1

-- When the call returns, its value and state meet `Q`.
unfoldable pub Ensures : {S E A : Type 0} → (A → S → Type 0) → Action S E A → Type 0
Ensures {S} {E} {A} Q m = (s : S) (a : A) → (m s).0 ≡ ok a → Q a (m s).1

module _ {S E A B : Type 0} (P : S → Type 0) (m : Action S E A) (f : A → Action S E B) where
  pub Keeps-bind : Keeps P m → ((a : A) → Keeps P (f a)) → Keeps P (m >>= f)
  unfolding Keeps
  Keeps-bind first next s h = elim (Result-cases (m s).0) [
    | inl (a, e) ↦ subst (λ o. P o.1) (sym (bind_ok m f s e)) (next a (m s).1 (first s h))
    | inr (x, e) ↦ subst (λ o. P o.1) (sym (bind_err m f s e)) (first s h)
  ]

module _ {S : Type 0} (P : S → Type 0) (E : Type 0) where
  pub Keeps-pure : {A : Type 0} (a : A) → Keeps P (pure {E = E} a)
  unfolding Keeps
  Keeps-pure a s h = h

  pub Keeps-raise : (A : Type 0) (e : E) → Keeps P (raise {A = A} e)
  unfolding Keeps
  Keeps-raise A e s h = h

  pub Keeps-raise_if : (b : Bool) (e : E) → Keeps P (raise_if b e)
  unfolding Keeps
  Keeps-raise_if true e s h = h
  Keeps-raise_if false e s h = h

  pub Keeps-if :
      {A : Type 0} (b : Bool) (m k : Action S E A)
      → Keeps P m
      → Keeps P k
      → Keeps P (if b then m else k)
  Keeps-if b m k kept_m kept_k = if_cases (Keeps P) b m k (λ _. kept_m) (λ _. kept_k)

  pub Keeps-modify : (f : S → S) → ((s : S) → P s → P (f s)) → Keeps P (modify {E = E} f)
  unfolding Keeps
  Keeps-modify f kept = kept

  pub Keeps-choose :
      {A : Type 0} (b : S → Bool) (m k : Action S E A)
      → Keeps P m
      → Keeps P k
      → Keeps P (λ s. if b s then m s else k s)
  unfolding Keeps
  Keeps-choose b m k kept_m kept_k s h =
      if_cases (λ o. P o.1) (b s) (m s) (k s) (λ e. kept_m s h) (λ e. kept_k s h)

module _ {S E A B : Type 0} (Q : B → S → Type 0) (m : Action S E A) (f : A → Action S E B) where
  pub Ensures-bind : ((a : A) → Ensures Q (f a)) → Ensures Q (m >>= f)
  unfolding Ensures
  Ensures-bind next s b h =
      let (a, (e, same)) = bind_returns m f s h in
      subst (λ o. Q b o.1) (sym same) (next a (m s).1 b (sym (ap (λ o. o.0) same) ∙ h))
