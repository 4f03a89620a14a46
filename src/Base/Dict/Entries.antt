-- ===== src/Base/Dict/Entries.antt =====
-- A property of every entry of a dict, with the keys distinct: what each assignment keeps.
use rev_pilot_ai.Base.{
  String, ◌≡◌, refl, subst, sym, none, some, List, [], ◌∷◌, All, Among, arith, str_eq, str_eq→eq,
  str_eq_symm, str_eq_self, Bool-cases, Option-cases, ◌⊎◌, inl, inr,
}
use rev_pilot_ai.Base.Dict.{Dict, Nested, lookup, insert, values, inner, find, store, lookup-insert}

abbrev pub Entries : {V : Type 0} → (String → V → Type 0) → Dict V → Type 0
Entries P [] = Unit
Entries P ((k, v) ∷ d) = P k v × (lookup k d ≡ none) × Entries P d

module _ {V : Type 0} (P : String → V → Type 0) where
  pub insert-Entries :
      (k : String) (v : V) (d : Dict V) → P k v → Entries P d → Entries P (insert k v d)
  unfolding insert lookup
  insert-Entries k v [] p e = (p, refl, tt)
  insert-Entries k v ((j, w) ∷ d) p (q, new, e) = elim (Bool-cases (str_eq j k)) [
    | inl same ↦ rw same (subst (λ x. P x v) (sym (str_eq→eq j k same)) p, new, e)
    | inr other ↦
        let apart : lookup j (insert k v d) ≡ none =
          ground (arith, other, str_eq_symm j k, lookup-insert k j v d, new) in
        rw other (q, apart, insert-Entries k v d p e)
  ]

  pub lookup-Entries : (k : String) (d : Dict V) {v : V} → Entries P d → lookup k d ≡ some v → P k v
  unfolding lookup
  lookup-Entries k [] e h = cc
  lookup-Entries k ((j, w) ∷ d) {v} (q, new, e) h = elim (Bool-cases (str_eq j k)) [
    | inl same ↦
        let found : w ≡ v = ground (arith, same, h) in
        subst (λ x. P x v) (str_eq→eq j k same) (subst (λ x. P j x) found q)
    | inr other ↦
        let rest : lookup k d ≡ some v = ground (arith, other, h) in lookup-Entries k d e rest
  ]

module _ {V : Type 0} (P : String → V → Type 0) where
  -- Each value is the one that its key gives.
  abbrev pub IsHeld : Dict V → V → Type 0
  IsHeld d v = (k : String) × (lookup k d ≡ some v) × P k v

  IsHeld-later :
      (j : String) (w : V) (d : Dict V) (v : V)
      → lookup j d ≡ none
      → IsHeld d v
      → IsHeld ((j, w) ∷ d) v
  unfolding lookup
  IsHeld-later j w d v new (k, found, p) = elim (Bool-cases (str_eq j k)) [
    | inl same ↦
        absurd (ground (arith, found, new, subst (λ x. lookup x d ≡ none) (str_eq→eq j k same) new))
    | inr other ↦ (k, rw other found, p)
  ]

  All-later :
      (j : String) (w : V) (d : Dict V) (vs : List V)
      → lookup j d ≡ none
      → All (IsHeld d) vs
      → All (IsHeld ((j, w) ∷ d)) vs
  All-later j w d [] new h = tt
  All-later j w d (v ∷ vs) new h = (IsHeld-later j w d v new h.0, All-later j w d vs new h.1)

  pub values-IsHeld : (d : Dict V) → Entries P d → All (IsHeld d) (values d)
  unfolding lookup values
  values-IsHeld [] e = tt
  values-IsHeld ((k, v) ∷ d) (p, new, e) =
      ((k, rw (str_eq_self k) refl, p), All-later k v d (values d) new (values-IsHeld d e))

inner-cases :
    {V : Type 0} (t : String) (s : Nested V)
    → (inner t s ≡ []) ⊎ ((d : Dict V) × (lookup t s ≡ some d) × (inner t s ≡ d))
unfolding inner
inner-cases t s = elim (Option-cases (lookup t s)) [
  | inl missing ↦ inl (ground arith)
  | inr (d, found) ↦ inr (d, found, ground arith)
]

-- The same for a dict of dicts.
module _ {V : Type 0} (P : String → String → V → Type 0) where
  abbrev pub NestedEntries : Nested V → Type 0
  NestedEntries s = Entries (λ t d. Entries (P t) d) s

  pub inner-Entries : (t : String) (s : Nested V) → NestedEntries s → Entries (P t) (inner t s)
  inner-Entries t s e = elim (inner-cases t s) [
    | inl bare ↦ subst (λ d. Entries (P t) d) (sym bare) tt
    | inr (d, found, same) ↦
        subst (λ x. Entries (P t) x) (sym same)
          (lookup-Entries (λ u x. Entries (P u) x) t s e found)
  ]

  pub store-Entries :
      (t a : String) (v : V) (s : Nested V)
      → P t a v
      → NestedEntries s
      → NestedEntries (store t a v s)
  unfolding store
  store-Entries t a v s p e =
      insert-Entries (λ t d. Entries (P t) d) t (insert a v (inner t s)) s
        (insert-Entries (P t) a v (inner t s) p (inner-Entries t s e)) e

  pub find-Entries :
      (t a : String) (s : Nested V) {v : V} → NestedEntries s → find t a s ≡ some v → P t a v
  unfolding find
  find-Entries t a s e h = lookup-Entries (P t) a (inner t s) (inner-Entries t s e) h

pub lookup-Among :
    {V : Type 0} (k : String) (d : Dict V) {v : V} → lookup k d ≡ some v → Among v (values d)
unfolding lookup values
lookup-Among k [] h = cc
lookup-Among k ((j, w) ∷ d) h = elim (Bool-cases (str_eq j k)) [
  | inl same ↦ inl (ground (arith, same, h))
  | inr other ↦ inr (lookup-Among k d (ground (arith, other, h)))
]
