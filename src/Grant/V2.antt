-- ===== src/Grant/V2.antt =====
-- cr.exec.v2: the canonical body, the parser and the verifier.
-- (packages/middleware/src/verify-grant.js)
pub mod Canonical
pub mod Fields
pub mod Parsing
pub mod Acceptance
use Prim.Native.Nat.{ℕ, ◌-◌}
use Prim.Native.Char.{Char, code}
use Prim.Native.String
use mathlib.Core.Option
use text.Mathlib.Text.{starts_with}
use capability_demo.Prelude.{
  lowers_to, ◌+◌, pos, Bool, true, false, not, ◌||◌, ◌&&◌, String, ◌==◌, concat, join, elem, List,
  [], ◌∷◌, ◌++◌, Option, none, some, all, any, is_some, if◌then◌else◌, leb, eqb,
}
use capability_demo.Json.{Json, int, str, get, keys, is_object, is_string, is_text, text_or_empty}
use capability_demo.Runtime.{Node, scalar}
use capability_demo.Grant.Verdict.{
  Gate, refuse_if, first_refusal, conclude, Verdict, Parsed, rejected, parsed, malformed,
  invalid_signature, grant_unbound, grant_wrong_audience, grant_scope_mismatch, refuse,
  malformed_structure, bad_json, unsupported_version, missing_field, unknown_field,
  bad_max_attempts, bad_target_uri, nbf_in_future, receipt_hash_mismatch, audience_mismatch,
  operation_mismatch, target_mismatch, executor_mismatch, adapter_mismatch, after_payload_mismatch,
  signature_error,
}
use capability_demo.Grant.Token.{token_segments}
use capability_demo.Grant.Profile.{grant_version_v2}
use capability_demo.Grant.Options.{
  Intended, VerifyOptions, differs, differs_by, check_key_given, check_kid, check_retired,
  check_signature, check_time,
}
use capability_demo.Grant.V2.Canonical.{canonical_json_v2}

abbrev pub signing_prefix_v2 : String
signing_prefix_v2 = "crexec.v2"

abbrev pub required_strings_v2 : List String
required_strings_v2 =
    "v" ∷ "kid" ∷ "grant_id" ∷ "receipt_hash" ∷ "tenant_id" ∷ "executor_id" ∷ "adapter_id"
    ∷ "operation" ∷ "target_uri" ∷ "expected_state_token" ∷ "after_payload_hash" ∷ "nonce_hash"
    ∷ "policy_hash" ∷ "audience_hash" ∷ "not_before" ∷ "expires_at" ∷ []

abbrev pub target_schemes_v2 : List String
target_schemes_v2 = "fs" ∷ "git" ∷ "api" ∷ "db" ∷ "registry" ∷ "deploy" ∷ []

abbrev pub allowed_fields_v2 : List String
allowed_fields_v2 =
    required_strings_v2
    ++ "max_attempts" ∷ "call_hash" ∷ "executor_image_digest" ∷ "applied_policy_hash" ∷ []

-- typeof payload[k] === 'string' && payload[k].length > 0
abbrev pub is_full_string : Option Json → Bool
is_full_string v = is_string v && not (text_or_empty v == "")

-- Number.isInteger(v) && v >= 1
abbrev pub is_positive : Option Json → Bool
is_positive (some (int (pos n))) = leb 1 n
is_positive _ = false

-- The text before the first `://`, if it stands anywhere.
unfoldable pub before_scheme_mark : String → Option String
before_scheme_mark String.[] = none
before_scheme_mark (String.◌∷◌ c s) =
    let rest = Option.map (String.◌∷◌ c) (before_scheme_mark s) in
    if starts_with (String.◌∷◌ c s) "://" then some "" else rest

-- No character outside ASCII lowers to a letter of a scheme, so `lowers_to` decides what
-- `toLowerCase` and `includes` decide.
unfoldable pub scheme_ok : Option String → Bool
unfolding lowers_to
scheme_ok none = false
scheme_ok (some s) = not (s == "") && any (λ t. lowers_to s t) target_schemes_v2

unfoldable pub target_uri_scheme_ok : Option Json → Bool
unfolding scheme_ok before_scheme_mark
target_uri_scheme_ok v = is_full_string v && scheme_ok (before_scheme_mark (text_or_empty v))

module _ (node : Node) where
  -- `pref`
  unfoldable pub hash_of : String → String
  hash_of s = concat "sha256:" (node.sha256 s)

  -- The prefix and the canonical body; `none` where the canonical form throws.
  unfoldable pub signing_input_v2 : Json → Option String
  signing_input_v2 body =
      Option.map (λ s. concat signing_prefix_v2 (concat "|" s)) (canonical_json_v2 node body)

  parse_body_v2 : Option Json → String → Parsed
  parse_body_v2 none sig = rejected bad_json none
  parse_body_v2 (some payload) sig =
      if not (is_object payload)
      then rejected bad_json none
      else if not (is_text (get "v" payload) grant_version_v2)
      then rejected unsupported_version (some payload)
      else if not (all (λ k. is_full_string (get k payload)) required_strings_v2)
      then rejected missing_field (some payload)
      else if not (is_positive (get "max_attempts" payload))
      then rejected bad_max_attempts (some payload)
      else if not (all (λ k. elem k allowed_fields_v2) (keys payload))
      then rejected unknown_field (some payload)
      else if not (target_uri_scheme_ok (get "target_uri" payload))
      then rejected bad_target_uri (some payload)
      else parsed payload sig

  unfoldable pub parse_grant_token_v2 : String → Parsed
  unfolding parse_body_v2 token_segments target_uri_scheme_ok
  parse_grant_token_v2 token = elim (token_segments token) [
    | none ↦ rejected malformed_structure none
    | some (head, sig) ↦ parse_body_v2 (node.decode head) sig
  ]

  module _ (opts : VerifyOptions) where
    -- `signingInputV2` may throw inside the same `try` as the verification.
    check_signature_v2 : Option String → String → Gate
    check_signature_v2 none sig = refuse invalid_signature signature_error
    check_signature_v2 (some message) sig = check_signature node opts message sig

    -- `intended.after_payload != null`: an empty payload is compared too.
    check_after : Option String → Option Json → Gate
    check_after none have = none
    check_after (some after) have =
        refuse_if (not (is_text have (hash_of after))) grant_scope_mismatch after_payload_mismatch

    grant_gates_v2 : Json → String → List Gate
    grant_gates_v2 payload sig =
        check_key_given node opts
        ∷ check_kid node opts payload
        ∷ check_retired node opts
        ∷ check_signature_v2 (signing_input_v2 payload) sig
        ∷ check_time node opts nbf_in_future "expires_at" "not_before" payload
        ∷ refuse_if (differs_by hash_of opts.intended.receipt_token (get "receipt_hash" payload))
            grant_unbound receipt_hash_mismatch
        ∷ refuse_if (differs opts.intended.operation (get "operation" payload)) grant_scope_mismatch
            operation_mismatch
        ∷ refuse_if (differs opts.intended.target_uri (get "target_uri" payload))
            grant_scope_mismatch target_mismatch
        ∷ refuse_if (differs opts.intended.executor_id (get "executor_id" payload))
            grant_scope_mismatch executor_mismatch
        ∷ refuse_if (differs opts.intended.adapter_id (get "adapter_id" payload))
            grant_scope_mismatch adapter_mismatch
        ∷ refuse_if (differs_by hash_of opts.intended.audience (get "audience_hash" payload))
            grant_wrong_audience audience_mismatch
        ∷ check_after opts.intended.after_payload (get "after_payload_hash" payload)
        ∷ []

    verify_parsed_v2 : Parsed → Verdict
    verify_parsed_v2 (rejected reason payload) = record {
      valid = false;
      status = malformed;
      reason = some reason;
      payload = payload;
    }
    verify_parsed_v2 (parsed payload sig) =
        conclude payload (first_refusal (grant_gates_v2 payload sig))

    unfoldable pub verify_execution_grant_v2 : String → Verdict
    unfolding verify_parsed_v2 grant_gates_v2 check_after check_signature_v2 first_refusal
    verify_execution_grant_v2 token = verify_parsed_v2 (parse_grant_token_v2 token)
