-- ===== src/Grant/V1.antt =====
-- cr.exec.v1: scope hashes, the signing input, the parser and the verifier.
-- (packages/middleware/src/verify-grant.js)
pub mod Parsing
pub mod Acceptance
pub mod Signing
pub mod Slots
pub mod Binding
use mathlib.Core.Option
use capability_demo.Prelude.{
  Bool, true, false, not, ◌||◌, ◌&&◌, String, ◌==◌, concat, join, includes, split_on, elem, List,
  [], ◌∷◌, ◌++◌, Option, none, some, all, any, is_some, if◌then◌else◌,
}
use text.Mathlib.Text.{starts_with}
use capability_demo.Json.{
  Json, str, get, keys, is_object, is_string, is_optional_string, is_text, text_or_empty,
}
use capability_demo.Runtime.{Node, scalar}
use capability_demo.Grant.Verdict.{
  Gate, refuse_if, first_refusal, conclude, Verdict, Parsed, rejected, parsed, Status, malformed,
  invalid_signature, grant_unbound, grant_wrong_audience, grant_scope_mismatch, malformed_structure,
  bad_json, unsupported_version, missing_field, bad_optional, unknown_field, delimiter_in_field,
  iat_in_future, missing_receipt_digest, receipt_digest_mismatch, audience_mismatch,
  operation_mismatch, target_mismatch, scope_hash_mismatch,
}
use capability_demo.Grant.Token.{token_segments}
use capability_demo.Grant.Options.{
  Intended, VerifyOptions, differs, check_key_given, check_kid, check_retired, check_signature,
  check_time,
}

abbrev pub grant_version : String
grant_version = "cr.exec.v1"

abbrev pub signing_prefix : String
signing_prefix = "crexec.v1"

-- The unit separator of the scope preimage.
abbrev pub us : String
us = "\u{1f}"

abbrev pub signed_fields : List String
signed_fields =
    "kid" ∷ "receipt_digest" ∷ "scope_hash" ∷ "audience" ∷ "operation" ∷ "target_id" ∷ "jti" ∷ "iat"
    ∷ "exp" ∷ []

abbrev pub optional_signed_fields : List String
optional_signed_fields = "state_nonce" ∷ "deployment_id" ∷ []

abbrev pub allowed_fields : List String
allowed_fields = "v" ∷ (signed_fields ++ optional_signed_fields)

-- A slot that is signed only where it holds a text that is not empty.
abbrev pub slot : String → List String
slot s = if s == "" then [] else s ∷ []

-- typeof body[k] === 'string' && body[k].includes('|')
abbrev pub has_delimiter : Option Json → Bool
has_delimiter v = is_string v && includes b'|' (text_or_empty v)

unfoldable pub field_has_delimiter : Json → Bool
field_has_delimiter body =
    any (λ k. has_delimiter (get k body)) (signed_fields ++ optional_signed_fields)

module _ (node : Node) where
  unfoldable pub compute_scope_hash : Option Json → Option Json → Option Json → String
  compute_scope_hash operation target_id after_payload = concat "sha256:" (
      node.sha256
        (join us (scalar node operation ∷ scalar node target_id ∷ scalar node after_payload ∷ [])))

  unfoldable pub receipt_digest : String → String
  receipt_digest token = concat "sha256:" (node.sha256 token)

  -- The parts that `signingInput` joins.
  unfoldable pub signing_parts : Json → List String
  signing_parts body =
      signing_prefix
      ∷ scalar node (get "kid" body)
      ∷ scalar node (get "receipt_digest" body)
      ∷ scalar node (get "scope_hash" body)
      ∷ scalar node (get "audience" body)
      ∷ scalar node (get "operation" body)
      ∷ scalar node (get "target_id" body)
      ∷ scalar node (get "jti" body)
      ∷ scalar node (get "iat" body)
      ∷ scalar node (get "exp" body)
      ∷ (slot (scalar node (get "state_nonce" body))
          ++ slot (scalar node (get "deployment_id" body)))

  unfoldable pub signing_input : Json → String
  signing_input body = join "|" (signing_parts body)

  parse_body : Option Json → String → Parsed
  parse_body none sig = rejected bad_json none
  parse_body (some payload) sig =
      if not (is_object payload)
      then rejected bad_json none
      else if not (is_text (get "v" payload) grant_version)
      then rejected unsupported_version (some payload)
      else if not (all (λ k. is_string (get k payload)) signed_fields)
      then rejected missing_field (some payload)
      else if not (all (λ k. is_optional_string (get k payload)) optional_signed_fields)
      then rejected bad_optional (some payload)
      else if not (all (λ k. elem k allowed_fields) (keys payload))
      then rejected unknown_field (some payload)
      else parsed payload sig

  unfoldable pub parse_grant_token : String → Parsed
  unfolding parse_body token_segments
  parse_grant_token token = elim (token_segments token) [
    | none ↦ rejected malformed_structure none
    | some (head, sig) ↦ parse_body (node.decode head) sig
  ]

  module _ (opts : VerifyOptions) where
    -- Step 7: the receipt that the grant is bound to.
    check_receipt : Json → Gate
    check_receipt payload =
        refuse_if (not (starts_with (scalar node (get "receipt_digest" payload)) "sha256:"))
          grant_unbound missing_receipt_digest

    check_receipt_token : Option String → Json → Gate
    check_receipt_token none payload = none
    check_receipt_token (some token) payload =
        refuse_if
          (not (token == "") && not (is_text (get "receipt_digest" payload) (receipt_digest token)))
          grant_unbound receipt_digest_mismatch

    -- Step 9: `intended.x != null ? intended.x : payload.x`
    pub intended_or : Option String → Option Json → Option Json
    intended_or none have = have
    intended_or (some s) have = some (str s)

    scope_of_payload : Option String → Json → Option String
    unfolding intended_or
    scope_of_payload none payload = none
    scope_of_payload (some after) payload = some (
        compute_scope_hash (intended_or opts.intended.operation (get "operation" payload))
          (intended_or opts.intended.target_id (get "target_id" payload)) (some (str after)))

    expected_scope : Option String → Json → Option String
    unfolding scope_of_payload
    expected_scope none payload = scope_of_payload opts.intended.after_payload payload
    expected_scope (some hash) payload =
        if hash == "" then scope_of_payload opts.intended.after_payload payload else some hash

    scope_answer : Option String → Json → Gate
    scope_answer none payload = none
    scope_answer (some expected) payload =
        refuse_if (not (is_text (get "scope_hash" payload) expected)) grant_scope_mismatch
          scope_hash_mismatch

    check_scope : Json → Gate
    unfolding expected_scope scope_answer
    check_scope payload = scope_answer (expected_scope opts.intended.scope_hash payload) payload

    -- Steps 4 to 9, in their order.
    grant_gates : Json → String → List Gate
    grant_gates payload sig =
        refuse_if (field_has_delimiter payload) invalid_signature delimiter_in_field
        ∷ check_key_given node opts
        ∷ check_kid node opts payload
        ∷ check_retired node opts
        ∷ check_signature node opts (signing_input payload) sig
        ∷ check_time node opts iat_in_future "exp" "iat" payload
        ∷ check_receipt payload
        ∷ check_receipt_token opts.intended.receipt_token payload
        ∷ refuse_if (differs opts.intended.audience (get "audience" payload)) grant_wrong_audience
            audience_mismatch
        ∷ refuse_if (differs opts.intended.operation (get "operation" payload)) grant_scope_mismatch
            operation_mismatch
        ∷ refuse_if (differs opts.intended.target_id (get "target_id" payload)) grant_scope_mismatch
            target_mismatch
        ∷ check_scope payload
        ∷ []

    verify_parsed : Parsed → Verdict
    verify_parsed (rejected reason payload) = record {
      valid = false;
      status = malformed;
      reason = some reason;
      payload = payload;
    }
    verify_parsed (parsed payload sig) = conclude payload (first_refusal (grant_gates payload sig))

    unfoldable pub verify_execution_grant : String → Verdict
    unfolding verify_parsed grant_gates field_has_delimiter check_receipt check_receipt_token
        check_scope first_refusal
    verify_execution_grant token = verify_parsed (parse_grant_token token)
