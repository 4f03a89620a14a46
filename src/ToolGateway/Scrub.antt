-- ===== src/ToolGateway/Scrub.antt =====
-- `scrub_secrets` of tool_gateway/action/gateway.py. The regular expression is a parameter: whether it
-- occurs in a text, and the text with its occurrences replaced. The known secrets come in any order.
pub mod Clean
use rev_pilot_ai.Base.{
  ℕ, zero, suc, String, Bool, true, false, not, ◌&&◌, ◌||◌, List, [], ◌∷◌, length, if◌then◌else◌,
  str_eq, prefixed, codes, is_prefix, is_infix, lower, ◌-◌,
}

mutual
  pub data Json : Type 0 where
    null : Json
    boolean : Bool → Json
    number : String → Json
    text : String → Json
    array : Items → Json
    object : Fields → Json

  pub data Items : Type 0 where
    no_items : Items
    item : Json → Items → Items

  -- The entries of a dict, in order
  pub data Fields : Type 0 where
    no_fields : Fields
    field : String → Json → Fields → Fields

-- `BEARER_PATTERN`: `search` as a Boolean, and `sub("Bearer [REDACTED]", …)`
pub record Pattern : Type 0 where
  pub search : String → Bool
  pub sub : String → String

unfoldable pub sensitive_keys : List String
sensitive_keys =
    "token" ∷ "token_id" ∷ "token_value" ∷ "token_secret" ∷ "secret" ∷ "api_key" ∷ "apikey"
    ∷ "authorization" ∷ "auth_token" ∷ "access_token" ∷ "bearer" ∷ "password" ∷ "private_key"
    ∷ "credential" ∷ "secret_key" ∷ "client_secret" ∷ []

abbrev pub any_in : List String → List ℕ → Bool
any_in [] k = false
any_in (x ∷ xs) k = is_infix (codes x) k || any_in xs k

-- `any(sens in k.lower() for sens in SENSITIVE_KEYS)`
unfoldable pub is_sensitive : String → Bool
unfolding sensitive_keys
is_sensitive k = any_in sensitive_keys (lower k)

-- `s.replace(old, new)` for a text `old` that is not empty, with the characters still to leave out
abbrev pub replace_from : String → String → ℕ → String → String
replace_from old new n String.[] = String.[]
replace_from old new (suc n) (String.◌∷◌ c s) = replace_from old new n s
replace_from old new zero (String.◌∷◌ c s) =
    let skipped = replace_from old new (length (codes old) - 1) s in
    let kept = replace_from old new 0 s in
    if is_prefix (codes old) (codes (String.◌∷◌ c s))
    then prefixed new skipped
    else String.◌∷◌ c kept

abbrev pub redact_each : List String → String → String
redact_each [] v = v
redact_each (x ∷ xs) v = redact_each xs (
    if not (str_eq x "") && is_infix (codes x) (codes v)
    then replace_from x "[REDACTED]" 0 v
    else v)

abbrev pub is_nested : Json → Bool
is_nested (array xs) = true
is_nested (object fs) = true
is_nested v = false

module _ (bearer : Pattern) (known_secrets : List String) where
  abbrev pub scrub_text : String → String
  scrub_text v = redact_each known_secrets (if bearer.search v then bearer.sub v else v)

  -- The value of a sensitive key that is neither a dict nor a list
  abbrev pub redacted : Json → Json
  redacted (text v) = if bearer.search v then text (bearer.sub v) else text "[REDACTED]"
  redacted v = text "[REDACTED]"

  unfoldable mutual
    pub scrub_secrets : Json → Json
    scrub_secrets null = null
    scrub_secrets (boolean b) = boolean b
    scrub_secrets (number n) = number n
    scrub_secrets (text v) = text (scrub_text v)
    scrub_secrets (array xs) = array (scrub_items xs)
    scrub_secrets (object fs) = object (scrub_fields fs)

    pub scrub_items : Items → Items
    scrub_items no_items = no_items
    scrub_items (item v xs) = item (scrub_secrets v) (scrub_items xs)

    pub scrub_fields : Fields → Fields
    scrub_fields no_fields = no_fields
    scrub_fields (field k v fs) =
        let rest = scrub_fields fs in
        let inner = scrub_secrets v in
        if is_nested v
        then field k inner rest
        else if is_sensitive k
        then field k (redacted v) rest
        else field k inner rest
