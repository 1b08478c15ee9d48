-- ===== src/Attestation.antt =====
-- The offline check of an execution attestation (`verifyAtomicExecutionAttestation` of
-- demo/src/atomic.js). Its encoding stands in Git/Execute, where the git adapter uses it.
pub mod Laws
mod Tests
use capability_demo.Prelude.{
  Bool, true, false, not, ◌&&◌, ◌||◌, String, ◌==◌, split_on, any, List, [], ◌∷◌, Option, none,
  some, if◌then◌else◌,
}
use capability_demo.Json.{Json}
use capability_demo.Runtime.{Node, to_text}
use capability_demo.Grant.Profile.{NormalizedGrant, normalize_grant}
use capability_demo.Git.Retention.{is_truthy}
use capability_demo.Git.Execute.{atomic_attest_v, gate_preimage_v}

pub data AttestStatus : Type 0 where
  attest_malformed attest_unknown_key attest_invalid_signature attest_unbound : AttestStatus

pub data AttestReason : Type 0 where
  malformed_structure unknown_kid signature_error signature_mismatch : AttestReason
  grant_jti_mismatch deployment_id_mismatch : AttestReason

pub record AttestPayload : Type 0 where
  pub executor_kid : String
  pub preimage : String
  pub signature : String

pub data AttestVerdict : Type 0 where
  attest_valid : AttestPayload → AttestVerdict
  attest_refused : AttestStatus → AttestReason → AttestVerdict

-- The four segments, if the token has exactly four, the first is the version and none is empty.
unfoldable pub four_segments : List String → Option (String × String × String)
four_segments (v ∷ kid ∷ preimage ∷ sig ∷ []) =
    if not (v == atomic_attest_v) || any (λ s. s == "") (v ∷ kid ∷ preimage ∷ sig ∷ [])
    then none
    else some (kid, preimage, sig)
four_segments _ = none

-- The first three fields of a preimage.
unfoldable pub preimage_fields : List String → Option (String × String × String)
preimage_fields (magic ∷ jti ∷ did ∷ rest) = some (magic, jti, did)
preimage_fields _ = none

abbrev pub jti_text : (node : Node) → Option Json → String
jti_text node none = ""
jti_text node (some v) = if is_truthy (some v) then to_text node v else ""

module _ (node : Node) where
  -- The preimage names the grant and its deployment; `none` passes.
  unfoldable pub check_fields :
      String → String → Option (String × String × String) → Option AttestReason
  check_fields jti did none = some grant_jti_mismatch
  check_fields jti did (some (magic, field_jti, field_did)) =
      if not (magic == gate_preimage_v) || not (field_jti == jti)
      then some grant_jti_mismatch
      else if not (field_did == did)
      then some deployment_id_mismatch
      else none

  -- `opts.intended.grant`, normalized; a grant without a jti binds nothing.
  unfoldable pub check_bound : Option Json → String → Option AttestReason
  unfolding check_fields preimage_fields normalize_grant
  check_bound none preimage = none
  check_bound (some grant) preimage =
      if is_truthy (some grant) && is_truthy (normalize_grant node grant).jti
      then check_fields (jti_text node (normalize_grant node grant).jti)
          (normalize_grant node grant).deployment_id (preimage_fields (split_on b'|' preimage))
      else none

  bound_answer : Option AttestReason → AttestPayload → AttestVerdict
  bound_answer none payload = attest_valid payload
  bound_answer (some r) payload = attest_refused attest_unbound r

  signed_answer : Option Bool → Option Json → AttestPayload → AttestVerdict
  unfolding bound_answer
  signed_answer none grant payload = attest_refused attest_invalid_signature signature_error
  signed_answer (some false) grant payload =
      attest_refused attest_invalid_signature signature_mismatch
  signed_answer (some true) grant payload =
      bound_answer (check_bound grant payload.preimage) payload

  key_answer : Option String → Option Json → AttestPayload → AttestVerdict
  unfolding signed_answer
  key_answer none grant payload = attest_refused attest_unknown_key unknown_kid
  key_answer (some key) grant payload =
      signed_answer (node.verify key payload.preimage payload.signature) grant payload

  segments_answer : Option String → Option Json → Option (String × String × String) → AttestVerdict
  unfolding key_answer
  segments_answer key grant none = attest_refused attest_malformed malformed_structure
  segments_answer key grant (some (kid, preimage, sig)) =
      key_answer key grant
        (record { executor_kid = kid; preimage = node.from_base64url preimage; signature = sig })

  -- `Buffer.from(s, 'base64url')` never throws, so `bad_preimage` is not an answer.
  unfoldable pub verify_atomic_execution_attestation :
      Option String → Option Json → String → AttestVerdict
  unfolding segments_answer check_bound four_segments
  verify_atomic_execution_attestation key grant token =
      if token == ""
      then attest_refused attest_malformed malformed_structure
      else segments_answer key grant (four_segments (split_on b'|' token))
