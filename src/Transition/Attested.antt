-- ===== src/Transition/Attested.antt =====
-- The executor's attestation over a move (demo/src/target-state-transition.js). Its verifier,
-- verifyExecutionAttestation of packages/verifier-core, is a parameter.
use capability_demo.Prelude.{
  Bool, true, false, not, ◌&&◌, String, ◌==◌, concat, join, [], ◌∷◌, Option, none, some,
  if◌then◌else◌,
}
use capability_demo.Json.{Json, str, get}
use capability_demo.Runtime.{Node, to_text}
use capability_demo.Git.Retention.{is_truthy}

-- What the grader holds; `none` is a part that is not given.
pub record Expected : Type 0 where
  pub grant_id : Option String
  pub canonical_target_uri : Option String
  pub repo_id : Option String
  pub ref : Option String
  pub base : Option String
  pub contract_commit : Option String
  pub contract_path : Option String
  pub contract_blob_digest : Option String
  pub after_payload : Option String

-- An attestation that is an object.
pub record Attestation : Type 0 where
  pub token : Option Json
  pub registry : Option Json
  pub now : Option Json

-- The verifier's answer: whether `valid` is `true`, and the payload.
pub record CoreVerdict : Type 0 where
  pub valid : Bool
  pub payload : Option Json

-- By token, registry and time; `none` where it throws.
abbrev pub CoreVerifier : Type 0
CoreVerifier = String → Option Json → Option Json → Option CoreVerdict

pub data Refusal : Type 0 where
  no_attestation no_token verifier_failed not_verified other_grant other_transition : Refusal

pub data TransitionVerdict : Type 0 where
  attested : (kid jti result_digest : Option Json) → TransitionVerdict
  unattested : Refusal → TransitionVerdict

-- `v === s` for an expected text; both may be `undefined`
abbrev pub matches : Option Json → Option String → Bool
matches none none = true
matches (some (str s)) (some t) = s == t
matches _ _ = false

-- `verified.payload || {}`
abbrev pub field_of : String → Option Json → Option Json
field_of k none = none
field_of k (some payload) = get k payload

-- `expectedJti && body.grant_jti !== expectedJti`
abbrev pub other_jti : Option String → Option Json → Bool
other_jti none jti = false
other_jti (some expected) jti = not (expected == "") && not (matches jti (some expected))

-- The token, if it is a text that is not empty.
abbrev pub full_token : Option Json → Option String
full_token (some (str t)) = if t == "" then none else some t
full_token _ = none

module _ (node : Node) where
  -- String(v || '')
  abbrev pub text_or_blank : Option Json → String
  text_or_blank none = ""
  text_or_blank (some v) = if is_truthy (some v) then to_text node v else ""

  unfoldable pub transition_result_digest : Option Json → Option Json → Option Json → String
  transition_result_digest before observed blob = concat "sha256:" (
      node.sha256
        (join "\u{1f}" (text_or_blank before ∷ text_or_blank observed ∷ text_or_blank blob ∷ [])))

  -- The digest of the move that an observation shows.
  unfoldable pub observed_digest : Json → String
  unfolding transition_result_digest
  observed_digest observation =
      transition_result_digest (get "before_commit" observation) (get "observed_commit" observation)
        (get "contract_blob_digest" observation)

  unfoldable pub check_payload : Expected → Json → Option Json → TransitionVerdict
  unfolding observed_digest
  check_payload expected observation payload =
      if other_jti expected.grant_id (field_of "grant_jti" payload)
      then unattested other_grant
      else if not (matches (field_of "result_digest" payload) (some (observed_digest observation)))
      then unattested other_transition
      else attested (field_of "executor_kid" payload) (field_of "grant_jti" payload)
          (field_of "result_digest" payload)

  unfoldable pub check_core : Expected → Json → Option CoreVerdict → TransitionVerdict
  unfolding check_payload
  check_core expected observation none = unattested verifier_failed
  check_core expected observation (some v) =
      if not v.valid then unattested not_verified else check_payload expected observation v.payload

  unfoldable pub check_token :
      CoreVerifier → Attestation → Expected → Json → Option String → TransitionVerdict
  unfolding check_core
  check_token core att expected observation none = unattested no_token
  check_token core att expected observation (some token) =
      check_core expected observation (core token att.registry att.now)

  unfoldable pub verify_transition_attestation :
      CoreVerifier → Option Attestation → Expected → Json → TransitionVerdict
  unfolding check_token
  verify_transition_attestation core none expected observation = unattested no_attestation
  verify_transition_attestation core (some att) expected observation =
      check_token core att expected observation (full_token att.token)
