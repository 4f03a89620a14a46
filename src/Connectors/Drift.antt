-- ===== src/Connectors/Drift.antt =====
-- connectors/ingestion/drift.py. Of a value of a payload, only its type is read. The messages are left out:
-- a mismatch is the name of its field.
pub mod Breaking
use rev_pilot_ai.Base.{
  String, Bool, true, false, not, ◌&&◌, ◌||◌, Option, none, some, List, [], ◌∷◌, ◌++◌,
  if◌then◌else◌, str_eq,
}
use rev_pilot_ai.Base.Dict.{Dict, lookup}
use rev_pilot_ai.Connectors.Quarantine.{DriftClassification, compatible, benign, breaking}

-- `type(val)`
pub data Kind : Type 0 where
  none_type bool int float str list dict : Kind

-- `isinstance(val, t)`: a bool is an int too
abbrev pub is_kind : Kind → Kind → Bool
is_kind none_type none_type = true
is_kind bool bool = true
is_kind bool int = true
is_kind int int = true
is_kind float float = true
is_kind str str = true
is_kind list list = true
is_kind dict dict = true
is_kind _ _ = false

abbrev pub is_instance : Kind → List Kind → Bool
is_instance k [] = false
is_instance k (t ∷ ts) = is_kind k t || is_instance k ts

pub record Schema : Type 0 where
  pub required_fields : Dict (List Kind)
  pub optional_fields : Dict (List Kind)

pub record DriftEvaluationResult : Type 0 where
  pub connector_id : String
  pub classification : DriftClassification
  pub missing_fields : List String
  pub type_mismatches : List String
  pub extra_fields : List String

-- Where `v` is the value of a mandatory field, if there is one
abbrev pub is_missing : Option Kind → Bool
is_missing none = true
is_missing (some none_type) = true
is_missing (some k) = false

abbrev pub is_mismatch : Option Kind → List Kind → Bool
is_mismatch none ts = false
is_mismatch (some none_type) ts = false
is_mismatch (some k) ts = not (is_instance k ts)

unfoldable pub missing_from : Dict (List Kind) → Dict Kind → List String
missing_from [] payload = []
missing_from ((f, ts) ∷ specs) payload =
    let rest = missing_from specs payload in
    if is_missing (lookup f payload) then f ∷ rest else rest

-- The mismatches of the mandatory fields, and likewise of the optional ones
unfoldable pub mismatches_in : Dict (List Kind) → Dict Kind → List String
mismatches_in [] payload = []
mismatches_in ((f, ts) ∷ specs) payload =
    let rest = mismatches_in specs payload in
    if is_mismatch (lookup f payload) ts then f ∷ rest else rest

abbrev is_key : String → Dict (List Kind) → Bool
is_key k specs = elim (lookup k specs) [ none ↦ false | some ts ↦ true ]

abbrev pub extra_in : Schema → Dict Kind → List String
extra_in schema [] = []
extra_in schema ((k, v) ∷ payload) =
    let rest = extra_in schema payload in
    if is_key k schema.required_fields || is_key k schema.optional_fields then rest else k ∷ rest

abbrev pub classify : List String → List String → List String → DriftClassification
classify (x ∷ xs) mismatches extra = breaking
classify [] (x ∷ xs) extra = breaking
classify [] [] (x ∷ xs) = benign
classify [] [] [] = compatible

unfoldable pub evaluate_payload : String → Dict Kind → Schema → DriftEvaluationResult
evaluate_payload connector_id payload schema =
    let missing = missing_from schema.required_fields payload in
    let mismatches =
      mismatches_in schema.required_fields payload
      ++ mismatches_in schema.optional_fields payload in
    let extra = extra_in schema payload in
    record {
      connector_id = connector_id;
      classification = classify missing mismatches extra;
      missing_fields = missing;
      type_mismatches = mismatches;
      extra_fields = extra;
    }
