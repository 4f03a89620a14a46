-- ===== src/Base/Lists.antt =====
-- Lists over the native numbers: length, predicates on all items, a stable sort by a key.
use Prim.Native.Nat.{ℕ, suc, ◌+◌}
use mathlib.Core.Path.{◌≡◌, refl}
use mathlib.Core.Logic.{◌⊎◌, inl, inr}
use mathlib.Core.Bool.{Bool, true}
use mathlib.Core.List.{List, [], ◌∷◌, ◌++◌}
use native.Mathlib.Omega.{arith}
use rev_pilot_ai.Base.Tests.{leb, if◌then◌else◌, Bool-cases}

module _ {ℓ} {A : Type ℓ} where
  abbrev pub length : List A → ℕ
  length [] = 0
  length (x ∷ xs) = suc (length xs)

  pub length-append : (xs ys : List A) → length (xs ++ ys) ≡ length xs + length ys
  length-append [] ys = omega arith
  length-append (x ∷ xs) ys = omega (arith, length-append xs ys)

  -- The items that pass a test, in order.
  abbrev pub keep_if : (A → Bool) → List A → List A
  keep_if p [] = []
  keep_if p (x ∷ xs) = let rest = keep_if p xs in if p x then x ∷ rest else rest

  -- Python's `sorted(xs, key=key)`, which is stable.
  abbrev pub insert_by : (A → ℕ) → A → List A → List A
  insert_by key x [] = x ∷ []
  insert_by key x (y ∷ ys) = if leb (key x) (key y) then x ∷ y ∷ ys else y ∷ insert_by key x ys

  unfoldable pub sort_by : (A → ℕ) → List A → List A
  sort_by key [] = []
  sort_by key (x ∷ xs) = insert_by key x (sort_by key xs)

-- A predicate of every item, which computes to a tuple.
abbrev pub All {ℓ κ} : {A : Type ℓ} → (A → Type κ) → List A → Type κ
All P [] = Unit
All P (x ∷ xs) = P x × All P xs

module _ {ℓ κ} {A : Type ℓ} where
  pub All-insert_by :
      (P : A → Type κ) (key : A → ℕ) (x : A) (xs : List A)
      → P x
      → All P xs
      → All P (insert_by key x xs)
  All-insert_by P key x [] p h = (p, tt)
  All-insert_by P key x (y ∷ ys) p h = ground (arith, All-insert_by P key x ys p h.1)

  pub All-sort_by : (P : A → Type κ) (key : A → ℕ) (xs : List A) → All P xs → All P (sort_by key xs)
  unfolding sort_by
  All-sort_by P key [] h = tt
  All-sort_by P key (x ∷ xs) h =
      All-insert_by P key x (sort_by key xs) h.0 (All-sort_by P key xs h.1)

-- `Among x xs`: one of the items is `x`.
abbrev pub Among : {A : Type 0} → A → List A → Type 0
Among x [] = ⊥
Among x (y ∷ ys) = (x ≡ y) ⊎ Among x ys

module _ {A : Type 0} where
  pub Among-keep_if :
      (p : A → Bool) (x : A) (xs : List A) → p x ≡ true → Among x xs → Among x (keep_if p xs)
  Among-keep_if p x [] h m = m
  Among-keep_if p x (y ∷ ys) h (inl e) = rw (← e) (rw h (inl refl))
  Among-keep_if p x (y ∷ ys) h (inr m) = elim (Bool-cases (p y)) [
    | inl kept ↦ rw kept (inr (Among-keep_if p x ys h m))
    | inr dropped ↦ rw dropped (Among-keep_if p x ys h m)
  ]

  Among-insert_by_self : (key : A → ℕ) (x : A) (xs : List A) → Among x (insert_by key x xs)
  Among-insert_by_self key x [] = inl refl
  Among-insert_by_self key x (y ∷ ys) = elim (Bool-cases (leb (key x) (key y))) [
    | inl first ↦ rw first (inl refl)
    | inr later ↦ rw later (inr (Among-insert_by_self key x ys))
  ]

  Among-insert_by :
      (key : A → ℕ) (x y : A) (ys : List A) → Among x ys → Among x (insert_by key y ys)
  Among-insert_by key x y [] m = inr m
  Among-insert_by key x y (z ∷ zs) (inl e) = elim (Bool-cases (leb (key y) (key z))) [
    | inl first ↦ rw first (inr (inl e))
    | inr later ↦ rw later (inl e)
  ]
  Among-insert_by key x y (z ∷ zs) (inr m) = elim (Bool-cases (leb (key y) (key z))) [
    | inl first ↦ rw first (inr (inr m))
    | inr later ↦ rw later (inr (Among-insert_by key x y zs m))
  ]

  pub Among-sort_by : (key : A → ℕ) (x : A) (xs : List A) → Among x xs → Among x (sort_by key xs)
  unfolding sort_by
  Among-sort_by key x [] m = m
  Among-sort_by key x (y ∷ ys) (inl e) = rw e (Among-insert_by_self key y (sort_by key ys))
  Among-sort_by key x (y ∷ ys) (inr m) =
      Among-insert_by key x y (sort_by key ys) (Among-sort_by key x ys m)

module _ {ℓ κ} {A : Type ℓ} where
  pub All-keep_if :
      (P : A → Type κ) (p : A → Bool) (xs : List A)
      → All P xs
      → All (λ x. P x × (p x ≡ true)) (keep_if p xs)
  All-keep_if P p [] h = tt
  All-keep_if P p (x ∷ xs) h = elim (Bool-cases (p x)) [
    | inl kept ↦ rw kept ((h.0, kept), All-keep_if P p xs h.1)
    | inr dropped ↦ rw dropped (All-keep_if P p xs h.1)
  ]

  pub All-weaken : {P Q : A → Type κ} (xs : List A) → ((x : A) → P x → Q x) → All P xs → All Q xs
  All-weaken [] f h = tt
  All-weaken (x ∷ xs) f h = (f x h.0, All-weaken xs f h.1)

module _ {ℓ} {A : Type ℓ} (key : A → ℕ) where
  length-insert_by : (x : A) (xs : List A) → length (insert_by key x xs) ≡ suc (length xs)
  length-insert_by x [] = refl
  length-insert_by x (y ∷ ys) = ground (arith, length-insert_by x ys)

  pub length-sort_by : (xs : List A) → length (sort_by key xs) ≡ length xs
  unfolding sort_by
  length-sort_by [] = refl
  length-sort_by (x ∷ xs) = omega (arith, length-insert_by x (sort_by key xs), length-sort_by xs)
