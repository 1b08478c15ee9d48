-- ===== src/Transition/Tests.antt =====
-- A graded move, and the theorem at it.
use capability_demo.Prelude.{◌≡◌, refl, true, String, split_on, none, some, trim, after_prefix}
use capability_demo.Json.{Json, nil, cons, arr, str, obj, field, end, get}
use capability_demo.Samples.{toy}
use capability_demo.Transition.Attested.{Expected, CoreVerifier}
use capability_demo.Transition.Grade.{
  GradeInput, CatFile, proven_by_trusted_executor, carried_unverified, grade_state_transition,
  parent_check, touched_only,
}

abbrev observation : String → Json
observation extra = obj (
    field "before_commit" (str "b") (
      field "observed_commit" (str "c") (
        field "contract_path" (str "api.yaml") (
          field "contract_blob_digest" (str "sha256:hello") (
            field "changed_paths" (arr (cons (str "api.yaml") (cons (str extra) nil))) (
              field "observer_mode" (str "read_only")
                (field "observation_source" (str "git-object-database") end)))))))

abbrev expected : Expected
expected = record {
  grant_id = some "g1";
  canonical_target_uri = none;
  repo_id = none;
  ref = none;
  base = some "b";
  contract_commit = some "c";
  contract_path = some "api.yaml";
  contract_blob_digest = none;
  after_payload = some "hello";
}

-- A verifier that accepts one token.
abbrev core : CoreVerifier
core token registry now = some (record {
  valid = true;
  payload = some (
      obj (
        field "grant_jti" (str "g1")
          (field "result_digest" (str "sha256:b\u{1f}c\u{1f}sha256:hello") end)));
})

abbrev cat_file : CatFile
cat_file repo commit = some "tree t\nparent b\nauthor a"

abbrev input : Json → GradeInput
input seen = record {
  observation = some seen;
  expected = expected;
  attestation = some (record { token = some (str "t"); registry = none; now = none });
  repo_path = some "/repo";
}

grades :
    ((grade_state_transition toy core cat_file (input (observation "api.yaml"))).state
      ≡ proven_by_trusted_executor)
    × ((grade_state_transition toy core cat_file (input (observation "deploy.sh"))).state
        ≡ carried_unverified)
unfolding grade_state_transition get split_on trim after_prefix parent_check touched_only
grades = (refl, refl)
