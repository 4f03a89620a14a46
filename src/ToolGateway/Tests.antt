-- ===== src/ToolGateway/Tests.antt =====
-- A token for one call of a provider.
use rev_pilot_ai.Base.{
  ◌⊎◌, ◌∷◌, true, false, none, is_infix, prefixed, ◌≡◌, ◌<◌, refl, ok, [], arith, codes, is_infix,
  prefixed, String,
}
use rev_pilot_ai.Base.Int.{pos}
use rev_pilot_ai.ToolGateway.Gateway.{
  Gateway, Fresh, ActionCapabilityRequest, GatewayState, dispatch_action,
}
use rev_pilot_ai.ToolGateway.Gateway.Gates.{
  Passes, CalledOnce, dispatch_action-executions, dispatch_action-dry_run,
}
use rev_pilot_ai.ToolGateway.Scrub.{Pattern, null, object, field, no_fields, text, scrub_secrets}
use rev_pilot_ai.ToolGateway.Scrub.Clean.{is_clean, scrub_secrets-is_clean}
use rev_pilot_ai.ToolGateway.Broker.{
  EphemeralCredential, TokenRequest, new_credential, issue_ephemeral_token, validate_token,
  scope_of, is_suffix,
}
use rev_pilot_ai.ToolGateway.Broker.Scope.{
  issue_ephemeral_token-validate_token, validate_token-issued,
}
use rev_pilot_ai.ToolGateway.Broker.Texts.{NoColon, empty, other}

abbrev request : TokenRequest
request = record {
  tenant_id = "t1";
  provider = "ups";
  action_type = "ship";
  ttl_seconds = pos 60;
  token_hex = "0f";
  token_urlsafe = "s3cret";
}

issue_ephemeral_token-validate_token_example :
    (c : EphemeralCredential) × (((issue_ephemeral_token request 1000 []).0 ≡ ok c)
      × (validate_token c "t1" "ups" "ship" 2000 ≡ ok tt))
issue_ephemeral_token-validate_token_example =
    issue_ephemeral_token-validate_token request 1000 2000 [] (omega arith) refl (omega arith)

plain : NoColon (codes "t1")
plain = other (omega arith) (other (omega arith) empty)

issues : (issue_ephemeral_token request 1000 []).0 ≡ ok (new_credential request 1000)
unfolding issue_ephemeral_token
issues = refl

passes : validate_token (new_credential request 1000) "t1" "ups" "ship" 2000 ≡ ok tt
unfolding validate_token scope_of is_infix is_suffix prefixed
passes = refl

validate_token-issued_example :
    ("t1" ≡ request.tenant_id) × (("ups" ≡ request.provider) × (2000 < 900001000))
validate_token-issued_example =
    validate_token-issued request 1000 2000 [] (new_credential request 1000) "t1" "ups" "ship" plain
      plain issues passes

-- A gateway outside tests, and a dry run through it.
abbrev pattern : Pattern
pattern = record {
  search = λ v. is_infix (codes "Bearer ") (codes v);
  sub = λ v. "Bearer [REDACTED]";
}

abbrev gateway : Gateway
gateway = record {
  is_test = false;
  is_mock = false;
  default_provider = "ups";
  bearer = pattern;
  number_of = λ n. "0";
  compute_canonical_digest = λ j. "d";
  compute_approval_digest = λ a. "a";
  execute =
      λ x. ok (record { http_status_code = 200; provider_tx_id = "tx"; response_payload = null });
}

abbrev fresh : Fresh
fresh = record {
  ledger_id = "led";
  token_hex = "0f";
  token_urlsafe = "s3cret";
  issued_at = 1000;
  now = 2000;
}

abbrev capability : ActionCapabilityRequest
capability = record {
  intent_id = "int_1";
  tenant_id = "t1";
  approval_id = "app_1";
  approval_digest = "0000000000000000000000000000000000000000000000000000000000000000";
  action_type = "ship";
  idempotency_key = "k";
  target_entities = [];
  payload = object (field "api_key" (text "abc") no_fields);
  is_dry_run = true;
  as_of_time = 2000;
  approval_artifact = none;
}

abbrev live : ActionCapabilityRequest
live = record capability { is_dry_run = false }

abbrev idle : GatewayState
idle = record { tokens = []; executions = [] }

dispatch_action-executions_example :
    let s' = (dispatch_action gateway fresh "t1" live none idle).1 in
    (s'.executions ≡ [])
    ⊎ (Passes gateway fresh live "t1" none × CalledOnce gateway fresh live idle s')
dispatch_action-executions_example = dispatch_action-executions gateway fresh live "t1" none idle

dispatch_action-dry_run_example : (dispatch_action gateway fresh "t1" capability none idle).1 ≡ idle
dispatch_action-dry_run_example =
    dispatch_action-dry_run gateway fresh capability "t1" none idle refl

leaves_mark :
    (v : String)
    → pattern.search v ≡ true
    → is_infix (codes "[REDACTED]") (codes (pattern.sub v)) ≡ true
unfolding is_infix
leaves_mark v h = refl

scrub_secrets-is_clean_example :
    is_clean (scrub_secrets pattern ("s3cret" ∷ []) capability.payload) ≡ true
scrub_secrets-is_clean_example =
    scrub_secrets-is_clean pattern ("s3cret" ∷ []) leaves_mark capability.payload
