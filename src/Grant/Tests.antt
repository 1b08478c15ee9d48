-- ===== src/Grant/Tests.antt =====
-- Runs of the grant verifiers over a small runtime, and the theorems at these inputs.
use capability_demo.Prelude.{
  pos, ◌≡◌, ◌↔◌, refl, true, String, ◌++◌, none, some, All, split_on, arith, eq_iff, ◌+ℤ◌,
}
use capability_demo.Json.{Json, str, obj, end, field, get, keys}
use capability_demo.Runtime.{scalar}
use capability_demo.Grant.Verdict.{
  conclude, parsed, malformed_structure, bad_json, expired, signature_mismatch, scope_hash_mismatch,
  after_payload_mismatch, unsupported_version,
}
use capability_demo.Grant.Options.{
  VerifyOptions, check_key_given, check_kid, check_retired, check_signature, check_time,
}
use capability_demo.Grant.Token.{peek_segment}
use capability_demo.Grant.Profile.{grant_profile, atomic, bearer, peek_kid, normalize_grant}
use capability_demo.Grant.V1.{
  signed_fields, optional_signed_fields, parse_grant_token, compute_scope_hash, signing_parts,
  signing_input, verify_execution_grant,
}
use capability_demo.Grant.V1.Parsing.{IsToken, IsGrantBody, parse_grant_token-parsed_iff}
use capability_demo.Grant.V1.Acceptance.{IsUndelimited, IsCurrent, verify_execution_grant-valid_iff}
use capability_demo.Grant.V1.Signing.{signing_input-injective}
use capability_demo.Grant.V1.Slots.{IsMoved, moved_slot-valid}
use capability_demo.Grant.V2.Canonical.{canonical_json_v2}
use capability_demo.Grant.V2.{
  parse_grant_token_v2, hash_of, signing_input_v2, verify_execution_grant_v2,
}
use capability_demo.Grant.V2.Parsing.{IsTokenV2, parse_grant_token_v2-parsed_iff}
use capability_demo.Grant.V2.Acceptance.{IsCurrentV2, verify_execution_grant_v2-valid_iff}
use capability_demo.Grant.AnyVersion.{
  peek_version_is_v2, verify_execution_grant_any_version, IsAccepted, verify_any_version-valid_iff,
}
use capability_demo.Samples.{
  bound_body, moved_body, body_v2, toy, no_intent, publish, at, now_publish,
}

verifiers : Unit {0}
unfolding verify_execution_grant verify_execution_grant_v2 verify_execution_grant_any_version
    parse_grant_token parse_grant_token_v2 grant_profile get keys split_on ◌+ℤ◌ scalar conclude
    check_key_given check_kid check_retired check_signature check_time compute_scope_hash
    peek_version_is_v2 peek_segment signing_input signing_parts hash_of signing_input_v2
    canonical_json_v2 normalize_grant peek_kid
verifiers = tt

accepted_runs :
    ((verify_execution_grant toy now_publish "bound.good").valid ≡ true)
    × ((verify_execution_grant toy now_publish "moved.good").valid ≡ true)
    × ((verify_execution_grant toy (at (pos 90000) (publish "hello")) "bound.good").valid ≡ true)
    × ((verify_execution_grant_any_version toy now_publish "bound.good").valid ≡ true)
unfolding verifiers
accepted_runs = (refl, refl, refl, refl)

refused_runs :
    ((verify_execution_grant toy (at (pos 90001) (publish "hello")) "bound.good").reason
      ≡ some expired)
    × ((verify_execution_grant toy now_publish "bound.bad").reason ≡ some signature_mismatch)
    × ((verify_execution_grant toy now_publish "bound").reason ≡ some malformed_structure)
    × ((verify_execution_grant toy now_publish "zz.good").reason ≡ some bad_json)
    × ((verify_execution_grant toy now_publish "two.good").reason ≡ some unsupported_version)
    × ((verify_execution_grant toy (at (pos 1000) (publish "hellO")) "bound.good").reason
        ≡ some scope_hash_mismatch)
unfolding verifiers
refused_runs = (refl, refl, refl, refl, refl, refl)

v2_runs :
    ((verify_execution_grant_any_version toy
        (at (pos 1000) (record no_intent { after_payload = some "hello" }))
        "two.good").valid
      ≡ true)
    × ((verify_execution_grant_any_version toy
          (at (pos 1000) (record no_intent { after_payload = some "" }))
          "two.good").reason
        ≡ some after_payload_mismatch)
unfolding verifiers
v2_runs = (refl, refl)

peeks : (peek_kid toy "two.x" ≡ some "k1") × (peek_kid toy "zz.x" ≡ none)
unfolding verifiers
peeks = (refl, refl)

parse_grant_token-parsed_iff_example :
    (parse_grant_token toy "bound.good" ≡ parsed bound_body "good")
    ↔ IsToken toy "bound.good" bound_body "good"
parse_grant_token-parsed_iff_example =
    parse_grant_token-parsed_iff toy "bound.good" bound_body "good"

verify_execution_grant-valid_iff_example :
    ((verify_execution_grant toy now_publish "bound.good").valid ≡ true) ↔ (
      (payload : Json) × (sig : String) × IsToken toy "bound.good" payload sig
      × IsCurrent toy now_publish payload sig)
verify_execution_grant-valid_iff_example =
    verify_execution_grant-valid_iff toy now_publish "bound.good"

parse_grant_token_v2-parsed_iff_example :
    (parse_grant_token_v2 toy "two.good" ≡ parsed body_v2 "good")
    ↔ IsTokenV2 toy "two.good" body_v2 "good"
parse_grant_token_v2-parsed_iff_example =
    parse_grant_token_v2-parsed_iff toy "two.good" body_v2 "good"

verify_execution_grant_v2-valid_iff_example :
    ((verify_execution_grant_v2 toy now_publish "two.good").valid ≡ true) ↔ (
      (payload : Json) × (sig : String) × IsTokenV2 toy "two.good" payload sig
      × IsCurrentV2 toy now_publish payload sig)
verify_execution_grant_v2-valid_iff_example =
    verify_execution_grant_v2-valid_iff toy now_publish "two.good"

verify_any_version-valid_iff_example :
    ((verify_execution_grant_any_version toy now_publish "moved.good").valid ≡ true)
    ↔ IsAccepted toy now_publish "moved.good"
verify_any_version-valid_iff_example = verify_any_version-valid_iff toy now_publish "moved.good"

bound-IsToken : IsToken toy "bound.good" bound_body "good"
bound-IsToken =
    (parse_grant_token-parsed_iff toy "bound.good" bound_body "good").0 (unfold verifiers in refl)

moved-IsToken : IsToken toy "moved.good" moved_body "good"
moved-IsToken =
    (parse_grant_token-parsed_iff toy "moved.good" moved_body "good").0 (unfold verifiers in refl)

fields-IsMoved : IsMoved bound_body moved_body "d1"
unfolding get
fields-IsMoved = record {
  same = (refl, (refl, (refl, (refl, (refl, (refl, (refl, (refl, (refl, tt)))))))));
  no_nonce = refl;
  deployment = refl;
  nonce = refl;
  no_deployment = refl;
}

moved_slot-valid_example :
    ((verify_execution_grant toy now_publish "moved.good").valid ≡ true)
    × (grant_profile toy bound_body ≡ bearer)
    × (grant_profile toy moved_body ≡ atomic)
moved_slot-valid_example =
    moved_slot-valid toy now_publish "bound.good" "moved.good" bound_body moved_body "good" "d1"
      bound-IsToken moved-IsToken fields-IsMoved (ground (arith, eq_iff "d1" "")) accepted_runs.0

-- The body of `bound_body`, its deployment first.
abbrev shuffled_body : Json
shuffled_body = obj (
    field "deployment_id" (str "d1") (
      field "v" (str "cr.exec.v1") (
        field "kid" (str "k1") (
          field "receipt_digest" (str "sha256:r") (
            field "scope_hash" (str "sha256:publish\u{1f}doc\u{1f}hello") (
              field "audience" (str "api") (
                field "operation" (str "publish") (
                  field "target_id" (str "doc") (
                    field "jti" (str "j1")
                      (field "iat" (str "0") (field "exp" (str "60") end)))))))))))

IsUndelimited-bound : IsUndelimited bound_body
unfolding get
IsUndelimited-bound =
    (refl, (refl, (refl, (refl, (refl, (refl, (refl, (refl, (refl, (refl, (refl, tt)))))))))))

IsUndelimited-shuffled : IsUndelimited shuffled_body
unfolding get
IsUndelimited-shuffled =
    (refl, (refl, (refl, (refl, (refl, (refl, (refl, (refl, (refl, (refl, (refl, tt)))))))))))

shuffled_good : IsGrantBody shuffled_body
unfolding get keys
shuffled_good = record {
  object = refl;
  version = refl;
  signed = (refl, (refl, (refl, (refl, (refl, (refl, (refl, (refl, (refl, tt)))))))));
  optional = (refl, (refl, tt));
  known =
      (refl, (refl, (refl, (refl, (refl, (refl, (refl, (refl, (refl, (refl, (refl, tt)))))))))));
}

signing_input-injective_example :
    All
      (λ k. scalar toy (get k bound_body) ≡ scalar toy (get k shuffled_body))
      (signed_fields ++ optional_signed_fields)
signing_input-injective_example =
    signing_input-injective toy bound_body shuffled_body bound-IsToken.body IsUndelimited-bound
      shuffled_good IsUndelimited-shuffled (unfold get in refl) (unfold get in refl)
      (unfold verifiers in refl)

abbrev later_publish : VerifyOptions
later_publish = at (pos 90000) (publish "hello")
