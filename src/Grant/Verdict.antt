-- ===== src/Grant/Verdict.antt =====
-- The answers of the grant verifiers, and chains of checks that end at the first refusal.
-- (packages/middleware/src/verify-grant.js)
use capability_demo.Prelude.{
  ◌≡◌, ◌↔◌, refl, Bool, true, false, String, List, [], ◌∷◌, Option, none, some, All, if◌then◌else◌,
}
use capability_demo.Json.{Json}

pub data Status : Type 0 where
  malformed unknown_key invalid_signature grant_expired grant_unbound grant_wrong_audience : Status
  grant_scope_mismatch grant_current : Status

pub data Reason : Type 0 where
  malformed_structure bad_json unsupported_version missing_field bad_optional : Reason
  unknown_field bad_max_attempts bad_target_uri delimiter_in_field unknown_kid : Reason
  retired_kid signature_error signature_mismatch bad_timestamp expired iat_in_future : Reason
  nbf_in_future missing_receipt_digest receipt_digest_mismatch receipt_hash_mismatch : Reason
  audience_mismatch operation_mismatch target_mismatch executor_mismatch : Reason
  adapter_mismatch scope_hash_mismatch after_payload_mismatch : Reason
  missing_grant_header unmapped_operation : Reason

-- { valid, status, reason, payload }
pub record Verdict : Type 0 where
  pub valid : Bool
  pub status : Status
  pub reason : Option Reason
  pub payload : Option Json

pub record Refusal : Type 0 where
  pub status : Status
  pub reason : Reason

-- One early return: `some` is the refusal that it returns, `none` goes on.
abbrev pub Gate : Type 0
Gate = Option Refusal

abbrev pub refuse : Status → Reason → Gate
refuse status reason = some (record { status = status; reason = reason })

abbrev pub refuse_if : Bool → Status → Reason → Gate
refuse_if test status reason = if test then refuse status reason else none

-- A sequence of early returns.
unfoldable pub first_refusal : List Gate → Gate
first_refusal [] = none
first_refusal (none ∷ rest) = first_refusal rest
first_refusal (some r ∷ rest) = some r

unfoldable pub conclude : Json → Gate → Verdict
conclude payload none = record {
  valid = true;
  status = grant_current;
  reason = none;
  payload = some payload;
}
conclude payload (some r) = record {
  valid = false;
  status = r.status;
  reason = some r.reason;
  payload = some payload;
}

-- What a parser of tokens returns: a refusal, with the payload if it was read, or the payload and
-- the signature segment.
pub data Parsed : Type 0 where
  rejected : Reason → Option Json → Parsed
  parsed : Json → String → Parsed

pub first_refusal-none_iff : (gs : List Gate) → (first_refusal gs ≡ none) ↔ All (λ g. g ≡ none) gs
unfolding first_refusal
first_refusal-none_iff [] = (λ _. tt, λ _. refl)
first_refusal-none_iff (none ∷ rest) =
    (λ h. (refl, (first_refusal-none_iff rest).0 h), λ h. (first_refusal-none_iff rest).1 h.1)
first_refusal-none_iff (some r ∷ rest) = (λ h. cc, λ h. cc h.0)

pub conclude-valid_iff : (p : Json) (g : Gate) → ((conclude p g).valid ≡ true) ↔ (g ≡ none)
unfolding conclude
conclude-valid_iff p none = (λ _. refl, λ _. refl)
conclude-valid_iff p (some r) = (λ h. cc, λ h. cc)

pub refuse_if-none_iff :
    (b : Bool) (s : Status) (r : Reason) → (refuse_if b s r ≡ none) ↔ (b ≡ false)
refuse_if-none_iff true s r = (λ h. cc, λ h. cc)
refuse_if-none_iff false s r = (λ _. refl, λ _. refl)
