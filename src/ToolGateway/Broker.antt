-- ===== src/ToolGateway/Broker.antt =====
-- tool_gateway/action/credential_broker.py. The random texts and the time of a call are arguments.
pub mod Texts
pub mod Scope
use rev_pilot_ai.Base.{
  ℕ, suc, ◌+◌, ◌-◌, String, Bool, true, false, not, ◌&&◌, ◌||◌, Option, none, some, List, [], ◌∷◌,
  Action, Result, ok, err, pure, raise_if, modify, ◌>>=◌, ◌>>◌, leb, if◌then◌else◌, str_eq,
  prefixed, codes, codes_eq, is_prefix, is_infix,
}
use rev_pilot_ai.Base.Int.{ℤ, pos, negsuc, ltb_ℤ}
use rev_pilot_ai.Base.Time.{UtcDateTime, seconds}
use rev_pilot_ai.Base.Dict.{Dict, insert}

-- `GatewayError` by its code; `validation_error` is pydantic's, for an empty provider
pub data GatewayError : Type 0 where
  invalid_token_ttl credential_expired credential_scope_mismatch validation_error : GatewayError

pub record EphemeralCredential : Type 0 where
  pub token_id : String
  pub target_provider : String
  pub scope : String
  pub expires_at : UtcDateTime
  pub token_secret : String

-- `self._active_tokens`
abbrev pub Tokens : Type 0
Tokens = Dict EphemeralCredential

abbrev pub max_ttl_seconds : ℤ
max_ttl_seconds = pos 900

-- `now + timedelta(seconds=ttl)`
abbrev pub later : UtcDateTime → ℤ → UtcDateTime
later now (pos n) = now + seconds n
later now (negsuc n) = now - seconds (suc n)

-- f"tenant:{tenant_id}:provider:{provider}:action:{action_type}"
unfoldable pub scope_of : String → String → String → String
scope_of tenant_id provider action_type = prefixed "tenant:" (
    prefixed tenant_id
      (prefixed ":provider:" (prefixed provider (prefixed ":action:" action_type))))

-- The arguments of `issue_ephemeral_token`, with `secrets.token_hex(16)` and `secrets.token_urlsafe(32)`
pub record TokenRequest : Type 0 where
  pub tenant_id : String
  pub provider : String
  pub action_type : String
  pub ttl_seconds : ℤ
  pub token_hex : String
  pub token_urlsafe : String

abbrev pub new_credential : TokenRequest → UtcDateTime → EphemeralCredential
new_credential q now = record {
  token_id = prefixed "tok_eph_" q.token_hex;
  target_provider = q.provider;
  scope = scope_of q.tenant_id q.provider q.action_type;
  expires_at = later now q.ttl_seconds;
  token_secret = q.token_urlsafe;
}

abbrev pub keep_token : EphemeralCredential → Tokens → Tokens
keep_token c s = insert c.token_id c s

unfoldable pub issue_ephemeral_token :
    TokenRequest → UtcDateTime → Action Tokens GatewayError EphemeralCredential
issue_ephemeral_token q now = do
  raise_if (ltb_ℤ max_ttl_seconds q.ttl_seconds) invalid_token_ttl
  raise_if (str_eq q.provider "") validation_error
  modify (keep_token (new_credential q now))
  pure (new_credential q now)

-- `s.endswith(part)`, on code points
unfoldable pub is_suffix : List ℕ → List ℕ → Bool
is_suffix part [] = codes_eq part []
is_suffix part (d ∷ ds) = codes_eq part (d ∷ ds) || is_suffix part ds

-- f"tenant:{tenant_id}:", f":provider:{provider}:", f":action:{action_type}"
abbrev pub tenant_prefix : String → List ℕ
tenant_prefix tenant_id = codes (prefixed "tenant:" (prefixed tenant_id ":"))

abbrev pub provider_part : String → List ℕ
provider_part provider = codes (prefixed ":provider:" (prefixed provider ":"))

abbrev pub action_suffix : String → List ℕ
action_suffix action_type = codes (prefixed ":action:" action_type)

unfoldable pub validate_token :
    EphemeralCredential → String → String → String → UtcDateTime → Result GatewayError (Unit {0})
validate_token c tenant_id provider action_type as_of =
    if leb c.expires_at as_of
    then err credential_expired
    else if not (is_prefix (tenant_prefix tenant_id) (codes c.scope))
    then err credential_scope_mismatch
    else if not (str_eq c.target_provider provider)
        || not (is_infix (provider_part provider) (codes c.scope))
    then err credential_scope_mismatch
    else if not (is_suffix (action_suffix action_type) (codes c.scope))
    then err credential_scope_mismatch
    else ok tt
