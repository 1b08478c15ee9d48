-- ===== src/Guard.antt =====
-- The execution guard of the middleware (packages/middleware/src/index.js).
pub mod Remedy
pub mod Keys
pub mod Body
pub mod Capture
pub mod Laws
mod Tests
use capability_demo.Prelude.{
  ℕ, ℤ, Bool, true, false, not, ◌&&◌, String, ◌==◌, concat, List, [], ◌∷◌, Option, none, some,
  if◌then◌else◌,
}
use capability_demo.Json.{Json, str}
use capability_demo.Runtime.{Node}
use capability_demo.Grant.Verdict.{
  Verdict, Status, malformed, unknown_key, invalid_signature, grant_expired, grant_unbound,
  grant_wrong_audience, grant_scope_mismatch, grant_current, Reason, malformed_structure, bad_json,
  unsupported_version, missing_field, bad_optional, unknown_field, bad_max_attempts, bad_target_uri,
  delimiter_in_field, unknown_kid, retired_kid, signature_error, signature_mismatch, bad_timestamp,
  expired, iat_in_future, nbf_in_future, missing_receipt_digest, receipt_digest_mismatch,
  receipt_hash_mismatch, audience_mismatch, operation_mismatch, target_mismatch, executor_mismatch,
  adapter_mismatch, scope_hash_mismatch, after_payload_mismatch, missing_grant_header,
  unmapped_operation,
}
use capability_demo.Grant.Options.{Intended, VerifyOptions}
use capability_demo.Grant.Profile.{peek_kid}
use capability_demo.Grant.V1.{compute_scope_hash}
use capability_demo.Grant.AnyVersion.{peek_version_is_v2, verify_execution_grant_any_version}
use Remedy.{DenyError, Observed, DenyRemedy, build_deny_remedy, deny_error_for_reason}
use Keys.{PinnedKey, Keyring, pinned_for}

abbrev pub status_text : Status → String
status_text malformed = "MALFORMED"
status_text unknown_key = "UNKNOWN_KEY"
status_text invalid_signature = "INVALID_SIGNATURE"
status_text grant_expired = "GRANT_EXPIRED"
status_text grant_unbound = "GRANT_UNBOUND"
status_text grant_wrong_audience = "GRANT_WRONG_AUDIENCE"
status_text grant_scope_mismatch = "GRANT_SCOPE_MISMATCH"
status_text grant_current = "GRANT_CURRENT"

abbrev pub reason_text : Reason → String
reason_text malformed_structure = "malformed_structure"
reason_text bad_json = "bad_json"
reason_text unsupported_version = "unsupported_version"
reason_text missing_field = "missing_field"
reason_text bad_optional = "bad_optional"
reason_text unknown_field = "unknown_field"
reason_text bad_max_attempts = "bad_max_attempts"
reason_text bad_target_uri = "bad_target_uri"
reason_text delimiter_in_field = "delimiter_in_field"
reason_text unknown_kid = "unknown_kid"
reason_text retired_kid = "retired_kid"
reason_text signature_error = "signature_error"
reason_text signature_mismatch = "signature_mismatch"
reason_text bad_timestamp = "bad_timestamp"
reason_text expired = "expired"
reason_text iat_in_future = "iat_in_future"
reason_text nbf_in_future = "nbf_in_future"
reason_text missing_receipt_digest = "missing_receipt_digest"
reason_text receipt_digest_mismatch = "receipt_digest_mismatch"
reason_text receipt_hash_mismatch = "receipt_hash_mismatch"
reason_text audience_mismatch = "audience_mismatch"
reason_text operation_mismatch = "operation_mismatch"
reason_text target_mismatch = "target_mismatch"
reason_text executor_mismatch = "executor_mismatch"
reason_text adapter_mismatch = "adapter_mismatch"
reason_text scope_hash_mismatch = "scope_hash_mismatch"
reason_text after_payload_mismatch = "after_payload_mismatch"
reason_text missing_grant_header = "missing_grant_header"
reason_text unmapped_operation = "unmapped_operation"

-- A request as the guard reads it: the grant header, `none` if it is no text, the bytes of the
-- raw body, and
-- the route pattern, `none` outside a route.
pub record HttpRequest : Type 0 where
  pub method : String
  pub route_path : Option String
  pub path : String
  pub header : Option String
  pub raw_body : Option (List ℕ)
  pub id_param : Option String

-- The options of the guard. `target_id` is the configured function or the default one.
pub record GuardOptions : Type 0 where
  pub audience : Option String
  pub operation_map : List (String × String)
  pub target_id : HttpRequest → String
  pub target_uri : HttpRequest → Option String
  pub now : Option ℤ

-- `req.params.id` as a text, `''` without one
abbrev pub default_target_id : HttpRequest → String
default_target_id req = elim req.id_param [ none ↦ "" | some id ↦ id ]

pub data Answer : Type 0 where
  -- `next()`, with `req.coderifts.payload`
  passed : Option Json → Answer
  -- status 403
  denied : Status → Option Reason → Option DenyRemedy → Answer

unfoldable pub route_of : HttpRequest → String
route_of req = elim req.route_path [ none ↦ req.path | some p ↦ if p == "" then req.path else p ]

-- `operationMap[key]`; a missing one is the empty text, which is refused as well
abbrev pub operation_at : String → List (String × String) → String
operation_at key [] = ""
operation_at key ((k, op) ∷ rest) = if k == key then op else operation_at key rest

unfoldable pub target_of : HttpRequest → String
unfolding route_of
target_of req = concat req.method (concat " " (route_of req))

abbrev pub or_empty : Option String → String
or_empty none = ""
or_empty (some s) = s

-- `a || b`
abbrev pub first_error : Option DenyError → Option DenyError → Option DenyError
first_error (some e) b = some e
first_error none b = b

abbrev pub reason_or_empty : Option Reason → String
reason_or_empty none = ""
reason_or_empty (some r) = reason_text r

module _ (node : Node) (ring : Keyring) (config : GuardOptions) where
  -- The pinned key for the kid that the token claims, or the unnamed key.
  unfoldable pub pinned_key : String → Option PinnedKey
  pinned_key token = elim (peek_kid node token) [
    | none ↦ ring.unnamed
    | some kid ↦ elim (pinned_for kid ring.by_kid) [ some key ↦ some key | none ↦ ring.unnamed ]
  ]

  unfoldable pub operation_of : HttpRequest → String
  unfolding target_of
  operation_of req = operation_at (target_of req) config.operation_map

  -- `req.rawBody != null ? req.rawBody.toString('utf8') : ''`
  abbrev pub body_text : Option (List ℕ) → String
  body_text none = ""
  body_text (some bytes) = node.utf8 bytes

  -- The intent in the vocabulary of the version that the token claims.
  unfoldable pub intent_of : HttpRequest → String → Intended
  unfolding operation_of
  intent_of req token = record {
    receipt_token = none;
    audience = some (or_empty config.audience);
    operation = some (operation_of req);
    target_id = if peek_version_is_v2 node token then none else some (config.target_id req);
    target_uri =
        if peek_version_is_v2 node token
        then (if or_empty (config.target_uri req) == "" then none else config.target_uri req)
        else none;
    executor_id = none;
    adapter_id = none;
    scope_hash = none;
    after_payload = some (body_text req.raw_body);
  }

  unfoldable pub with_key : HttpRequest → String → Option PinnedKey → VerifyOptions
  with_key req token none = record {
    public_key = none;
    key_status = none;
    key_kid = none;
    intended = intent_of req token;
    now = config.now;
  }
  with_key req token (some key) = record {
    public_key = some key.public_key;
    key_status = some key.status;
    key_kid = key.kid;
    intended = intent_of req token;
    now = config.now;
  }

  unfoldable pub verify_options : HttpRequest → String → VerifyOptions
  unfolding with_key pinned_key
  verify_options req token = with_key req token (pinned_key token)

  unfoldable pub scope_of : HttpRequest → String
  unfolding operation_of
  scope_of req =
      compute_scope_hash node (some (str (operation_of req))) (some (str (config.target_id req)))
        (some (str (body_text req.raw_body)))

  -- A refusal with the next step of an error class.
  unfoldable pub deny_with : HttpRequest → Status → Option Reason → Option DenyError → Answer
  unfolding scope_of target_of
  deny_with req status reason error = denied status reason (
      build_deny_remedy error (some (target_of req)) (some (scope_of req))
        (some (record { status = status_text status; reason = reason_or_empty reason })))

  unfoldable pub answer_of : HttpRequest → Verdict → Answer
  unfolding deny_with
  answer_of req result =
      if result.valid
      then passed result.payload
      else deny_with req result.status result.reason (
          first_error (deny_error_for_reason (reason_or_empty result.reason))
            (deny_error_for_reason (status_text result.status)))

  unfoldable pub execution_grant_guard : HttpRequest → Answer
  unfolding answer_of verify_options intent_of
  execution_grant_guard req =
      if operation_of req == ""
      then denied grant_scope_mismatch (some unmapped_operation) none
      else if or_empty req.header == ""
      then deny_with req malformed (some missing_grant_header)
          (deny_error_for_reason "missing_grant_header")
      else answer_of req (
          verify_execution_grant_any_version node (verify_options req (or_empty req.header))
            (or_empty req.header))
