-- ===== src/ToolGateway/Gateway.antt =====
-- `dispatch_action` of tool_gateway/action/gateway.py. The provider's answer is a parameter, and the
-- calls of it are kept in order; so are the digests (SHA-256 of JSON) and the regular expression.
pub mod Gates
use rev_pilot_ai.Base.{
  ℕ, String, Bool, true, false, not, ◌&&◌, ◌||◌, Option, none, some, List, [], ◌∷◌, ◌++◌, length,
  Action, Result, ok, err, pure, raise_if, modify, ◌>>=◌, ◌>>◌, if◌then◌else◌, str_eq, prefixed,
  codes, first, ◌==◌,
}
use rev_pilot_ai.Base.Int.{pos}
use rev_pilot_ai.Base.Time.{UtcDateTime}
use rev_pilot_ai.Action.Domain.{ActionLedgerRecord, ActionLedgerStatus, success, provider_error}
use rev_pilot_ai.ToolGateway.Broker.{
  GatewayError, invalid_token_ttl, EphemeralCredential, Tokens, TokenRequest, issue_ephemeral_token,
  validate_token,
}
use rev_pilot_ai.ToolGateway.Scrub.{
  Json, number, text, boolean, object, field, no_fields, Pattern, scrub_secrets, replace_from,
}

pub record ApprovalArtifact : Type 0 where
  pub tenant_id : String
  pub action_type : String
  pub target_entities : List String
  pub payload : Json
  pub policy_version : String
  pub required_tier : String
  pub expires_at : String
  pub created_by : String

pub record ActionCapabilityRequest : Type 0 where
  pub intent_id : String
  pub tenant_id : String
  pub approval_id : String
  pub approval_digest : String
  pub action_type : String
  pub idempotency_key : String
  pub target_entities : List String
  pub payload : Json
  pub is_dry_run : Bool
  pub as_of_time : UtcDateTime
  pub approval_artifact : Option ApprovalArtifact

pub record ProviderResponse : Type 0 where
  pub http_status_code : ℕ
  pub provider_tx_id : String
  pub response_payload : Json

-- The `GatewayError` of a provider: its code, and `details.get("status_code", 500)`
pub record ProviderError : Type 0 where
  pub code : String
  pub status_code : ℕ

-- The arguments of `provider_adapter.execute`
pub record Execution : Type 0 where
  pub intent_id : String
  pub action_type : String
  pub target_entities : List String
  pub payload : Json
  pub credential : EphemeralCredential

-- What the gateway gets from elsewhere. `environment` and `adapter` are what the first check reads of
-- them: whether the environment is "test", and whether the adapter is a mock.
pub record Gateway : Type 0 where
  pub is_test : Bool
  pub is_mock : Bool
  pub default_provider : String
  pub bearer : Pattern
  pub number_of : ℕ → String
  pub compute_canonical_digest : Json → String
  pub compute_approval_digest : ApprovalArtifact → String
  pub execute : Execution → Result ProviderError ProviderResponse

-- The identifiers and the times of one call
pub record Fresh : Type 0 where
  pub ledger_id : String
  pub token_hex : String
  pub token_urlsafe : String
  pub issued_at : UtcDateTime
  pub now : UtcDateTime

pub record GatewayState : Type 0 where
  pub tokens : Tokens
  pub executions : List Execution

pub data DispatchError : Type 0 where
  mock_provider_forbidden tenant_mismatch approval_digest_mismatch : DispatchError
  credential_issuance_failed : DispatchError
  invalid_credential : GatewayError → DispatchError
  exception : GatewayError → DispatchError

abbrev pub Dispatch : Type 0 → Type 0
Dispatch A = Action GatewayState DispatchError A

abbrev pub ledger_record :
    Gateway
    → Fresh
    → ActionCapabilityRequest
    → String
    → Option String
    → ℕ
    → Option String
    → ActionLedgerStatus
    → Option String
    → ActionLedgerRecord
ledger_record g f req request_digest response_digest status tx execution_status code = record {
  ledger_id = f.ledger_id;
  tenant_id = req.tenant_id;
  intent_id = req.intent_id;
  attempt_number = 1;
  idempotency_key = req.idempotency_key;
  provider_name = g.default_provider;
  request_digest = request_digest;
  response_digest = response_digest;
  http_status_code = some status;
  provider_tx_id = tx;
  execution_status = execution_status;
  error_code = code;
  started_at = req.as_of_time;
  completed_at = some f.now;
}

-- Gate 2
abbrev pub is_digest : String → Bool
is_digest d = length (codes d) == 64

abbrev pub or_artifact : Option ApprovalArtifact → Option ApprovalArtifact → Option ApprovalArtifact
or_artifact none b = b
or_artifact (some a) b = some a

abbrev pub is_verified : Gateway → Option ApprovalArtifact → String → Bool
is_verified g none digest = true
is_verified g (some a) digest = str_eq (g.compute_approval_digest a) digest

-- Gate 3
abbrev pub simulated_response : Gateway → ActionCapabilityRequest → Json
simulated_response g req = object (
    field "status" (text "DRY_RUN_ACCEPTED") (
      field "action_type" (text req.action_type) (
        field "targets_count" (number (g.number_of (length req.target_entities)))
          (field "zero_side_effect" (boolean true) no_fields))))

abbrev pub dry_run_record : Gateway → Fresh → ActionCapabilityRequest → ActionLedgerRecord
dry_run_record g f req =
    ledger_record g f req (g.compute_canonical_digest (scrub_secrets g.bearer [] req.payload))
      (some (g.compute_canonical_digest (simulated_response g req))) 200
      (some (prefixed "tx_dryrun_" (first 12 (replace_from "-" "" 0 req.intent_id)))) success none

-- Gate 4
abbrev pub token_request : Gateway → Fresh → ActionCapabilityRequest → TokenRequest
token_request g f req = record {
  tenant_id = req.tenant_id;
  provider = g.default_provider;
  action_type = req.action_type;
  ttl_seconds = pos 900;
  token_hex = f.token_hex;
  token_urlsafe = f.token_urlsafe;
}

abbrev pub issuance_error : GatewayError → DispatchError
issuance_error invalid_token_ttl = credential_issuance_failed
issuance_error e = exception e

unfoldable pub exchange : Gateway → Fresh → ActionCapabilityRequest → Dispatch EphemeralCredential
exchange g f req s =
    let (r, tokens) = issue_ephemeral_token (token_request g f req) f.issued_at s.tokens in
    elim r [
      | ok c ↦ (ok c, record s { tokens = tokens })
      | err e ↦ (err (issuance_error e), record s { tokens = tokens })
    ]

-- Gate 5
unfoldable pub revalidate :
    Gateway → ActionCapabilityRequest → EphemeralCredential → Dispatch (Unit {0})
revalidate g req c s =
    elim (validate_token c req.tenant_id g.default_provider req.action_type req.as_of_time) [
      | ok u ↦ (ok tt, s)
      | err e ↦ (err (invalid_credential e), s)
    ]

-- Gate 7, and the record of its answer
abbrev pub execution_of : ActionCapabilityRequest → EphemeralCredential → Execution
execution_of req c = record {
  intent_id = req.intent_id;
  action_type = req.action_type;
  target_entities = req.target_entities;
  payload = req.payload;
  credential = c;
}

abbrev pub answer_record :
    Gateway
    → Fresh
    → ActionCapabilityRequest
    → EphemeralCredential
    → Result ProviderError ProviderResponse
    → ActionLedgerRecord
answer_record g f req c (err e) =
    let request_digest =
      g.compute_canonical_digest
        (scrub_secrets g.bearer (c.token_id ∷ c.token_secret ∷ []) req.payload) in
    ledger_record g f req request_digest none e.status_code none provider_error (some e.code)
answer_record g f req c (ok r) =
    let known = c.token_id ∷ c.token_secret ∷ [] in
    let request_digest = g.compute_canonical_digest (scrub_secrets g.bearer known req.payload) in
    let response_digest =
      g.compute_canonical_digest (scrub_secrets g.bearer known r.response_payload) in
    ledger_record g f req request_digest (some response_digest) r.http_status_code
      (some r.provider_tx_id) (if r.http_status_code == 200 then success else provider_error) none

unfoldable pub call_provider :
    Gateway → Fresh → ActionCapabilityRequest → EphemeralCredential → Dispatch ActionLedgerRecord
call_provider g f req c s = (
  ok (answer_record g f req c (g.execute (execution_of req c))),
  record s { executions = s.executions ++ execution_of req c ∷ [] },
)

-- Gates 4 to 7
unfoldable pub send : Gateway → Fresh → ActionCapabilityRequest → Dispatch ActionLedgerRecord
send g f req = do c ← exchange g f req; revalidate g req c; call_provider g f req c

unfoldable pub dispatch_action :
    Gateway
    → Fresh
    → String
    → ActionCapabilityRequest
    → Option ApprovalArtifact
    → Dispatch ActionLedgerRecord
dispatch_action g f ctx_tenant_id req approval_artifact = do
  raise_if (not g.is_test && g.is_mock) mock_provider_forbidden
  raise_if (not (str_eq ctx_tenant_id req.tenant_id)) tenant_mismatch
  raise_if (not (is_digest req.approval_digest)) approval_digest_mismatch
  raise_if
      (not
        (is_verified g (or_artifact approval_artifact req.approval_artifact) req.approval_digest))
      approval_digest_mismatch
  if req.is_dry_run then pure (dry_run_record g f req) else send g f req
