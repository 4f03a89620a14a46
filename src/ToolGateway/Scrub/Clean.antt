-- ===== src/ToolGateway/Scrub/Clean.antt =====
-- What `scrub_secrets` of tool_gateway/action/gateway.py leaves of sensitive values.
use rev_pilot_ai.Base.{
  String, Bool, true, false, not, ◌&&◌, ◌||◌, List, ◌≡◌, refl, arith, codes, is_infix, if_cases,
  Bool-cases, inl, inr,
}
use rev_pilot_ai.ToolGateway.Scrub.{
  Json, null, boolean, number, text, array, object, Items, no_items, item, Fields, no_fields, field,
  Pattern, is_sensitive, scrub_secrets, scrub_items, scrub_fields, redacted, is_nested, scrub_items,
  scrub_fields,
}

-- A text that says that something was taken out.
abbrev pub is_mark : Json → Bool
is_mark (text v) = is_infix (codes "[REDACTED]") (codes v)
is_mark v = false

-- Every sensitive key has a dict, a list or such a text.
unfoldable mutual
  pub is_clean : Json → Bool
  is_clean (array xs) = is_clean_items xs
  is_clean (object fs) = is_clean_fields fs
  is_clean v = true

  pub is_clean_items : Items → Bool
  is_clean_items no_items = true
  is_clean_items (item v xs) = is_clean v && is_clean_items xs

  pub is_clean_fields : Fields → Bool
  is_clean_fields no_fields = true
  is_clean_fields (field k v fs) =
      (is_nested v || not (is_sensitive k) || is_mark v) && (is_clean v && is_clean_fields fs)

module _ (bearer : Pattern) (known_secrets : List String)
    (marks : (v : String)
      → bearer.search v ≡ true
      → is_infix (codes "[REDACTED]") (codes (bearer.sub v)) ≡ true) where
  redacted-is_mark : (v : Json) → is_mark (redacted bearer known_secrets v) ≡ true
  unfolding is_infix
  redacted-is_mark (text v) = elim (Bool-cases (bearer.search v)) [
    | inl e ↦ let found = marks v e in ground arith
    | inr e ↦ ground arith
  ]
  redacted-is_mark null = refl
  redacted-is_mark (boolean b) = refl
  redacted-is_mark (number n) = refl
  redacted-is_mark (array xs) = refl
  redacted-is_mark (object fs) = refl

  redacted-clean : (v : Json) → is_clean (redacted bearer known_secrets v) ≡ true
  unfolding is_clean
  redacted-clean (text v) = ground arith
  redacted-clean null = refl
  redacted-clean (boolean b) = refl
  redacted-clean (number n) = refl
  redacted-clean (array xs) = refl
  redacted-clean (object fs) = refl

  scrub-is_nested : (v : Json) → is_nested (scrub_secrets bearer known_secrets v) ≡ is_nested v
  unfolding scrub_secrets
  scrub-is_nested null = refl
  scrub-is_nested (boolean b) = refl
  scrub-is_nested (number n) = refl
  scrub-is_nested (text v) = refl
  scrub-is_nested (array xs) = refl
  scrub-is_nested (object fs) = refl

  mutual
    unfolding is_clean scrub_secrets

    scrub-clean : (v : Json) → is_clean (scrub_secrets bearer known_secrets v) ≡ true
    scrub-clean null = refl
    scrub-clean (boolean b) = refl
    scrub-clean (number n) = refl
    scrub-clean (text v) = refl
    scrub-clean (array xs) = scrub_items-clean xs
    scrub-clean (object fs) = scrub_fields-clean fs

    scrub_items-clean : (xs : Items) → is_clean_items (scrub_items bearer known_secrets xs) ≡ true
    scrub_items-clean no_items = refl
    scrub_items-clean (item v xs) = ground (arith, scrub-clean v, scrub_items-clean xs)

    scrub_fields-clean :
        (fs : Fields) → is_clean_fields (scrub_fields bearer known_secrets fs) ≡ true
    scrub_fields-clean no_fields = refl
    scrub_fields-clean (field k v fs) =
        let here = scrub-clean v in
        let rest = scrub_fields-clean fs in
        let nested = scrub-is_nested v in
        let mark = redacted-is_mark v in
        let fine = redacted-clean v in
        if_cases (λ f. is_clean_fields f ≡ true) (is_nested v)
          (field k (scrub_secrets bearer known_secrets v) (scrub_fields bearer known_secrets fs)) _
          (λ e. ground arith)
          (λ e.
            if_cases (λ f. is_clean_fields f ≡ true) (is_sensitive k)
              (field k (redacted bearer known_secrets v) (scrub_fields bearer known_secrets fs))
              (field k (scrub_secrets bearer known_secrets v)
                (scrub_fields bearer known_secrets fs))
              (λ h. ground arith) (λ h. ground arith))

  -- Where a replaced bearer token leaves its mark in the text, no sensitive key of a scrubbed value keeps
  -- a plain value: each has a dict, a list, or a text with the mark.
  pub scrub_secrets-is_clean : (v : Json) → is_clean (scrub_secrets bearer known_secrets v) ≡ true
  scrub_secrets-is_clean v = scrub-clean v
