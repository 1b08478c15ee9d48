-- ===== src/Attestation/Tests.antt =====
-- An attestation that is encoded and verified, and the theorem at it.
use capability_demo.Prelude.{
  ◌≡◌, ◌≢◌, refl, false, includes, if◌then◌else◌, String, ◌==◌, eq_iff, split_on, none, some, arith,
}
use capability_demo.Json.{Json, str, obj, field, end, get}
use capability_demo.Runtime.{Node, scalar}
use capability_demo.Samples.{toy}
use capability_demo.Git.Execute.{encode_atomic_execution_attestation}
use capability_demo.Attestation.{
  verify_atomic_execution_attestation, attest_valid, attest_refused, attest_unbound, check_bound,
  deployment_id_mismatch, attest_malformed, malformed_structure,
}
use capability_demo.Attestation.Laws.{IsSegment, verify-encode, IsAttested, verify-valid-IsAttested}

-- Base64url of the letters of a preimage, its bars written as dots.
abbrev dotted : String → String
dotted s = if s == "cr.gate.preimage.v1|j1|d1|x" then "AAAA" else s

abbrev undotted : String → String
undotted s = if s == "AAAA" then "cr.gate.preimage.v1|j1|d1|x" else s

abbrev runtime : Node
runtime = record toy { to_base64url = dotted; from_base64url = undotted }

abbrev preimage : String
preimage = "cr.gate.preimage.v1|j1|d1|x"

abbrev grant : String → Json
grant did = obj (field "jti" (str "j1") (field "deployment_id" (str did) end))

bound : check_bound runtime (some (grant "d1")) preimage ≡ none
unfolding check_bound get scalar split_on
bound = refl

refusals :
    (verify_atomic_execution_attestation runtime
        (some "pem")
        (some (grant "d2"))
        "cr.atomic.execution.attestation.v1|e1|AAAA|good"
      ≡ attest_refused attest_unbound deployment_id_mismatch)
    × (verify_atomic_execution_attestation runtime
          (some "pem")
          none
          "cr.atomic.execution.attestation.v1|e1|AAAA"
        ≡ attest_refused attest_malformed malformed_structure)
unfolding verify_atomic_execution_attestation get scalar split_on
refusals = (refl, refl)

segment : (s : String) → s ≢ "" → includes b'|' s ≡ false → IsSegment s
segment s f p = record { full = f; plain = p }

ne_of_test : (s t : String) → (s == t) ≡ false → s ≢ t
ne_of_test s t h e = ground (arith, eq_iff s t)

verify-encode_example :
    verify_atomic_execution_attestation runtime
      (some "pem")
      (some (grant "d1"))
      (encode_atomic_execution_attestation runtime "e1" preimage "good")
    ≡ attest_valid (record { executor_kid = "e1"; preimage = preimage; signature = "good" })
verify-encode_example =
    verify-encode runtime "pem" "e1" preimage "good" (some (grant "d1")) refl
      (segment "e1" (ne_of_test _ _ refl) refl) (segment "AAAA" (ne_of_test _ _ refl) refl)
      (segment "good" (ne_of_test _ _ refl) refl) refl bound

direct :
    verify_atomic_execution_attestation runtime
      (some "pem")
      (some (grant "d1"))
      "cr.atomic.execution.attestation.v1|e1|AAAA|good"
    ≡ attest_valid (record { executor_kid = "e1"; preimage = preimage; signature = "good" })
unfolding verify_atomic_execution_attestation get scalar split_on
direct = refl

verify-valid-IsAttested_example :
    IsAttested runtime
      (some "pem")
      (some (grant "d1"))
      "cr.atomic.execution.attestation.v1|e1|AAAA|good"
      (record { executor_kid = "e1"; preimage = preimage; signature = "good" })
verify-valid-IsAttested_example =
    verify-valid-IsAttested runtime (some "pem") (some (grant "d1"))
      "cr.atomic.execution.attestation.v1|e1|AAAA|good"
      (record { executor_kid = "e1"; preimage = preimage; signature = "good" }) direct
