-- ===== src/Connectors/Drift/Breaking.antt =====
-- When a payload breaks its schema, by connectors/ingestion/drift.py.
use rev_pilot_ai.Base.{
  String, Bool, true, false, not, Option, none, some, List, [], ◌∷◌, ◌++◌, ◌≡◌, ◌≢◌, ◌↔◌, refl,
  arith, All, Bool-cases, inl, inr, sym, subst, ◌∙◌,
}
use rev_pilot_ai.Base.Dict.{Dict, lookup}
use rev_pilot_ai.Connectors.Quarantine.{breaking}
use rev_pilot_ai.Connectors.Drift.{
  Kind, none_type, is_instance, Schema, is_missing, is_mismatch, missing_from, mismatches_in,
  classify, evaluate_payload, extra_in,
}

-- What a mandatory field asks of the payload, and an optional one.
abbrev pub Present : Dict Kind → String × List Kind → Type 0
Present payload (f, ts) =
    (k : Kind) × ((lookup f payload ≡ some k) × ((k ≢ none_type) × (is_instance k ts ≡ true)))

abbrev pub Fitting : Dict Kind → String × List Kind → Type 0
Fitting payload (f, ts) =
    (k : Kind) → lookup f payload ≡ some k → k ≢ none_type → is_instance k ts ≡ true

not-false : (b : Bool) → not b ≡ false → b ≡ true
not-false true h = refl
not-false false h = absurd (cc)

present_of :
    (o : Option Kind) (ts : List Kind)
    → is_missing o ≡ false
    → is_mismatch o ts ≡ false
    → (k : Kind) × ((o ≡ some k) × ((k ≢ none_type) × (is_instance k ts ≡ true)))
present_of none ts m t = absurd (cc)
present_of (some none_type) ts m t = absurd (cc)
present_of (some Kind.bool) ts m t =
    (Kind.bool, (refl, (λ e. absurd (cc), not-false (is_instance Kind.bool ts) t)))
present_of (some Kind.int) ts m t =
    (Kind.int, (refl, (λ e. absurd (cc), not-false (is_instance Kind.int ts) t)))
present_of (some Kind.float) ts m t =
    (Kind.float, (refl, (λ e. absurd (cc), not-false (is_instance Kind.float ts) t)))
present_of (some Kind.str) ts m t =
    (Kind.str, (refl, (λ e. absurd (cc), not-false (is_instance Kind.str ts) t)))
present_of (some Kind.list) ts m t =
    (Kind.list, (refl, (λ e. absurd (cc), not-false (is_instance Kind.list ts) t)))
present_of (some Kind.dict) ts m t =
    (Kind.dict, (refl, (λ e. absurd (cc), not-false (is_instance Kind.dict ts) t)))

fits_of :
    (k : Kind) (ts : List Kind)
    → k ≢ none_type
    → is_instance k ts ≡ true
    → (is_missing (some k) ≡ false) × (is_mismatch (some k) ts ≡ false)
fits_of none_type ts ne i = absurd (ne refl)
fits_of Kind.bool ts ne i = (refl, ground arith)
fits_of Kind.int ts ne i = (refl, ground arith)
fits_of Kind.float ts ne i = (refl, ground arith)
fits_of Kind.str ts ne i = (refl, ground arith)
fits_of Kind.list ts ne i = (refl, ground arith)
fits_of Kind.dict ts ne i = (refl, ground arith)

module _ (payload : Dict Kind) where
  fitting_of :
      (o : Option Kind) (ts : List Kind)
      → is_mismatch o ts ≡ false
      → (k : Kind) → o ≡ some k
      → k ≢ none_type
      → is_instance k ts ≡ true
  fitting_of o ts t k e ne = elim (Bool-cases (is_instance k ts)) [
    | inl i ↦ i
    | inr i ↦ absurd (mismatch_of k ts ne i (subst (λ z. is_mismatch z ts ≡ false) e t))
  ]
    where
      mismatch_of :
          (k : Kind) (ts : List Kind)
          → k ≢ none_type
          → is_instance k ts ≡ false
          → is_mismatch (some k) ts ≢ false
      mismatch_of none_type ts ne i = λ h. ne refl
      mismatch_of Kind.bool ts ne i = λ h. absurd (cc)
      mismatch_of Kind.int ts ne i = λ h. absurd (cc)
      mismatch_of Kind.float ts ne i = λ h. absurd (cc)
      mismatch_of Kind.str ts ne i = λ h. absurd (cc)
      mismatch_of Kind.list ts ne i = λ h. absurd (cc)
      mismatch_of Kind.dict ts ne i = λ h. absurd (cc)

  mismatches_in-nil :
      (specs : Dict (List Kind)) → mismatches_in specs payload ≡ [] → All (Fitting payload) specs
  unfolding mismatches_in
  mismatches_in-nil [] h = tt
  mismatches_in-nil ((f, ts) ∷ specs) h = elim (Bool-cases (is_mismatch (lookup f payload) ts)) [
    | inl e ↦ absurd (cc)
    | inr e ↦ (fitting_of (lookup f payload) ts e, mismatches_in-nil specs (cc))
  ]

  nil-mismatches_in :
      (specs : Dict (List Kind)) → All (Fitting payload) specs → mismatches_in specs payload ≡ []
  unfolding mismatches_in
  nil-mismatches_in [] h = refl
  nil-mismatches_in ((f, ts) ∷ specs) (here, rest) =
      let none_left = nil-mismatches_in specs rest in
      let fine = fitting_is (lookup f payload) ts here in cc
    where
      fitting_is :
          (o : Option Kind) (ts : List Kind)
          → ((k : Kind) → o ≡ some k → k ≢ none_type → is_instance k ts ≡ true)
          → is_mismatch o ts ≡ false
      fitting_is none ts h = refl
      fitting_is (some none_type) ts h = refl
      fitting_is (some Kind.bool) ts h =
          (fits_of Kind.bool ts (λ e. absurd (cc)) (h Kind.bool refl (λ e. absurd (cc)))).1
      fitting_is (some Kind.int) ts h =
          (fits_of Kind.int ts (λ e. absurd (cc)) (h Kind.int refl (λ e. absurd (cc)))).1
      fitting_is (some Kind.float) ts h =
          (fits_of Kind.float ts (λ e. absurd (cc)) (h Kind.float refl (λ e. absurd (cc)))).1
      fitting_is (some Kind.str) ts h =
          (fits_of Kind.str ts (λ e. absurd (cc)) (h Kind.str refl (λ e. absurd (cc)))).1
      fitting_is (some Kind.list) ts h =
          (fits_of Kind.list ts (λ e. absurd (cc)) (h Kind.list refl (λ e. absurd (cc)))).1
      fitting_is (some Kind.dict) ts h =
          (fits_of Kind.dict ts (λ e. absurd (cc)) (h Kind.dict refl (λ e. absurd (cc)))).1

  required-nil :
      (specs : Dict (List Kind))
      → missing_from specs payload ≡ []
      → mismatches_in specs payload ≡ []
      → All (Present payload) specs
  unfolding missing_from mismatches_in
  required-nil [] m t = tt
  required-nil ((f, ts) ∷ specs) m t = elim (Bool-cases (is_missing (lookup f payload))) [
    | inl e ↦ absurd (cc)
    | inr e ↦ elim (Bool-cases (is_mismatch (lookup f payload) ts)) [
      | inl d ↦ absurd (cc)
      | inr d ↦ (present_of (lookup f payload) ts e d, required-nil specs (cc) (cc))
    ]
  ]

  nil-required :
      (specs : Dict (List Kind))
      → All (Present payload) specs
      → (missing_from specs payload ≡ []) × (mismatches_in specs payload ≡ [])
  unfolding missing_from mismatches_in
  nil-required [] h = (refl, refl)
  nil-required ((f, ts) ∷ specs) ((k, (e, (ne, i))), rest) =
      let (m, t) = nil-required specs rest in let (fine, fit) = fits_of k ts ne i in (cc, cc)

append-nil_cases : (xs ys : List String) → xs ++ ys ≡ [] → (xs ≡ []) × (ys ≡ [])
append-nil_cases [] ys h = (refl, h)
append-nil_cases (x ∷ xs) ys h = absurd (cc)

classify-breaking : (m t x : List String) → classify m t x ≢ breaking → (m ≡ []) × (t ≡ [])
classify-breaking [] [] x h = (refl, refl)
classify-breaking [] (y ∷ t) x h = absurd (h refl)
classify-breaking (y ∷ m) t x h = absurd (h refl)

classify-fine : (x : List String) → classify [] [] x ≢ breaking
classify-fine [] h = absurd (cc)
classify-fine (y ∷ x) h = absurd (cc)

-- A payload is not BREAKING exactly when every mandatory field is there, is not None and has one of its
-- types, and every optional field that is there and not None has one of its types.
pub evaluate_payload_iff :
    (connector_id : String) (payload : Dict Kind) (schema : Schema)
    → ((evaluate_payload connector_id payload schema).classification ≢ breaking) ↔ (
        All (Present payload) schema.required_fields × All (Fitting payload) schema.optional_fields)
unfolding evaluate_payload
evaluate_payload_iff connector_id payload schema = (to, from)
  where
    to :
        (evaluate_payload connector_id payload schema).classification ≢ breaking
        → All (Present payload) schema.required_fields
          × All (Fitting payload) schema.optional_fields
    to h =
        let (m, t) =
          classify-breaking (missing_from schema.required_fields payload)
            (mismatches_in schema.required_fields payload
              ++ mismatches_in schema.optional_fields payload)
            (extra_in schema payload) h in
        let (r, o) =
          append-nil_cases (mismatches_in schema.required_fields payload)
            (mismatches_in schema.optional_fields payload) t in
        (
          required-nil payload schema.required_fields m r,
          mismatches_in-nil payload schema.optional_fields o,
        )

    from :
        All (Present payload) schema.required_fields × All (Fitting payload) schema.optional_fields
        → (evaluate_payload connector_id payload schema).classification ≢ breaking
    from (req, opt) =
        let (m, r) = nil-required payload schema.required_fields req in
        let o = nil-mismatches_in payload schema.optional_fields opt in
        let both : mismatches_in schema.required_fields payload
              ++ mismatches_in schema.optional_fields payload
            ≡ [] =
          cc in
        let same : (evaluate_payload connector_id payload schema).classification
            ≡ classify [] [] (extra_in schema payload) =
          cc in
        λ h. classify-fine (extra_in schema payload) (sym same ∙ h)
