-- ===== src/Approval/Digest.antt =====
-- approval/digest.py. `json.dumps` and SHA-256 are a parameter: the hexadecimal digest of the
-- canonical value that the code hands them.
use Prim.Native.Char.{code}
use rev_pilot_ai.Base.{String, Bool, true, false, List, [], ◌∷◌, strip, ltb, ◌==◌, if◌then◌else◌}
use rev_pilot_ai.Base.Money.{Usd}

-- Python's order of texts, by code points.
unfoldable pub text_leb : String → String → Bool
text_leb String.[] t = true
text_leb (String.◌∷◌ c s) String.[] = false
text_leb (String.◌∷◌ c s) (String.◌∷◌ d t) =
    let rest = text_leb s t in
    if ltb (code c) (code d) then true else if code c == code d then rest else false

abbrev insert_text : String → List String → List String
insert_text x [] = x ∷ []
insert_text x (y ∷ ys) =
    let rest = insert_text x ys in if text_leb x y then x ∷ y ∷ ys else y ∷ rest

-- `sorted(list(target_entities))`
unfoldable pub sort_texts : List String → List String
unfolding text_leb
sort_texts [] = []
sort_texts (x ∷ xs) = insert_text x (sort_texts xs)

-- The dictionary `canonical` of `compute_payload_digest`.
pub record Canonical : Type 0 where
  pub action_type : String
  pub cost_usd : Usd
  pub payload : String
  pub target_entities : List String

-- What `compute_policy_digest` is given: a text, a JSON value, or anything else as `str` shows it.
pub data PolicyRules : Type 0 where
  text json other : String → PolicyRules

-- What it serialises: `{"policy": …}`, or the value itself.
pub data CanonicalPolicy : Type 0 where
  policy value : String → CanonicalPolicy

-- `hashlib.sha256(json.dumps(…).encode("utf-8")).hexdigest()`
pub record Hasher : Type 0 where
  pub payload_hex : Canonical → String
  pub policy_hex : CanonicalPolicy → String

unfoldable pub canonical : String → List String → String → Usd → Canonical
unfolding strip sort_texts
canonical action_type target_entities payload cost_usd = record {
  action_type = strip action_type;
  cost_usd = cost_usd;
  payload = payload;
  target_entities = sort_texts target_entities;
}

unfoldable pub compute_payload_digest : Hasher → String → List String → String → Usd → String
unfolding canonical
compute_payload_digest hasher action_type target_entities payload cost_usd =
    hasher.payload_hex (canonical action_type target_entities payload cost_usd)

unfoldable pub compute_policy_digest : Hasher → PolicyRules → String
unfolding strip
compute_policy_digest hasher (text t) = hasher.policy_hex (policy (strip t))
compute_policy_digest hasher (json t) = hasher.policy_hex (value t)
compute_policy_digest hasher (other t) = hasher.policy_hex (policy t)
