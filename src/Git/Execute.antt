-- ===== src/Git/Execute.antt =====
-- `gitAtomicExecute` (demo/src/git-atomic.js), with the signing helpers of demo/src/atomic.js.
use Prim.Native.Nat.{ℕ}
use Prim.Native.String.{slice}
use text.Mathlib.Text.{starts_with}
use capability_demo.Prelude.{
  Bool, false, not, ◌&&◌, ◌||◌, String, ◌==◌, concat, join, includes, any, List, [], ◌∷◌, Option,
  none, some, if◌then◌else◌,
}
use capability_demo.Json.{Json, get}
use capability_demo.Runtime.{Node, scalar}
use capability_demo.Git.Repo.{GitTool, is_sha, batch, read_ref, reflog_markers}

abbrev pub atomic_attest_v : String
atomic_attest_v = "cr.atomic.execution.attestation.v1"

abbrev pub git_profile : String
git_profile = "ENFORCING_EXCLUSIVE_REF_CAS"

abbrev pub gate_preimage_v : String
gate_preimage_v = "cr.gate.preimage.v1"

abbrev pub reflog_marker : String
reflog_marker = "cr.exclusive.v1"

abbrev pub ledger_prefix : String
ledger_prefix = "refs/coderifts/consumed"

-- String(o) for an optional text, `''` where it is null
abbrev pub text_or : Option String → String
text_or none = ""
text_or (some s) = s

unfoldable pub field_has_delimiter : List String → Bool
field_has_delimiter values = any (λ v. includes b'|' v) values

-- A pin that the caller supplied: a sha, or `absent:<ref>`.
unfoldable pub is_caller_supplied_pin : Option String → Bool
is_caller_supplied_pin none = false
is_caller_supplied_pin (some pin) = not (pin == "") && (is_sha pin || starts_with pin "absent:")

unfoldable pub git_target_descriptor : String → String → String → String
git_target_descriptor ref old_state new_sha =
    concat "git:" (concat ref (concat "@" (concat old_state (concat "->" new_sha))))

pub data Status : Type 0 where
  deployment_mismatch state_challenge_unknown grant_consumed state_drift : Status

pub data Reason : Type 0 where
  deployment_id_mismatch missing_jti new_sha_not_40_hex missing_expected_old_sha : Reason
  delimiter_in_field grant_already_consumed grant_already_consumed_cross_ref : Reason
  state_changed_since_challenge : Reason

-- What a refusal adds to its status.
pub data Detail : Type 0 where
  no_detail : Detail
  ledger_ref : String → Detail
  drift : (challenged current ledger : String) → Detail

pub record Attested : Type 0 where
  pub executor_kid : String
  pub jti : String
  pub deployment_id : String
  pub preimage : String
  pub preimage_hash : String
  pub signature : String

pub record Row : Type 0 where
  pub ref : String
  pub old_sha : String
  pub new_sha : String
  pub profile : String

pub data Outcome : Type 0 where
  executed : Row → (attestation : String) → Attested → Outcome
  refused : Status → Reason → (http : ℕ) → Detail → Outcome
  -- an exception after the ref has moved
  crashed : Outcome

pub record Executor : Type 0 where
  pub private_key : String
  pub kid : String

-- The arguments of `gitAtomicExecute`.
pub record Request : Type 0 where
  pub ref : String
  pub payload : Json
  pub expected_old_sha : Option String
  pub new_sha : String
  pub operation : Option String
  pub executor : Executor
  pub deployment_id : Option String
  pub crash_before_seal : Bool

module _ (node : Node) where
  unfoldable pub encode_atomic_execution_attestation : String → String → String → String
  encode_atomic_execution_attestation executor_kid preimage signature =
      join "|" (atomic_attest_v ∷ executor_kid ∷ node.to_base64url preimage ∷ signature ∷ [])

  -- The ledger ref of a jti: its hash, in a shard of the first two digits.
  unfoldable pub ledger_ref_for : String → String
  ledger_ref_for jti =
      let h = node.sha256 jti in
      concat ledger_prefix (concat "/" (concat (slice h 0 2) (concat "/" h)))

  unfoldable pub marker_of : String → String
  marker_of jti = concat reflog_marker (concat " jti=" jti)

  -- The evidence for a move that has been made.
  unfoldable pub attest : Request → String → String → String → Outcome
  attest q jti configured pin =
      let target = git_target_descriptor q.ref pin q.new_sha in
      let mut_digest =
        node.sha256 (join "\u{1f}" (q.ref ∷ pin ∷ q.new_sha ∷ text_or q.operation ∷ [])) in
      let preimage =
        join "|" (gate_preimage_v ∷ jti ∷ configured ∷ concat "sha256:" mut_digest ∷ target ∷ []) in
      let signature = node.sign q.executor.private_key preimage in
      executed (record { ref = q.ref; old_sha = pin; new_sha = q.new_sha; profile = git_profile })
        (encode_atomic_execution_attestation q.executor.kid preimage signature)
        (record {
          executor_kid = q.executor.kid;
          jti = jti;
          deployment_id = configured;
          preimage = preimage;
          preimage_hash = concat "sha256:" (node.sha256 preimage);
          signature = signature;
        })

  module _ {Repo : Type 0} (git : GitTool Repo) where
    -- A batch that failed: read again, and tell a spent grant from a moved target.
    unfoldable pub after_failure : Repo → Request → String → String → Outcome
    after_failure repo q ledger pin =
        if not (starts_with (read_ref git repo ledger) "absent:")
        then refused grant_consumed grant_already_consumed_cross_ref 409 (ledger_ref ledger)
        else refused state_drift state_changed_since_challenge 409
            (drift pin (read_ref git repo q.ref) ledger)

    -- What follows the batch.
    unfoldable pub settle : Repo → Request → String → String → String → Option Repo → Outcome × Repo
    unfolding after_failure
    settle repo q jti configured pin none = (after_failure repo q (ledger_ref_for jti) pin, repo)
    settle repo q jti configured pin (some repo') =
        (if q.crash_before_seal then crashed else attest q jti configured pin, repo')

    -- The ledger claim and the move of the target, in one batch.
    unfoldable pub transact : Repo → Request → String → String → String → Outcome × Repo
    unfolding settle
    transact repo q jti configured pin = settle repo q jti configured pin (
        git.update_refs repo (marker_of jti) (
          batch (ledger_ref_for jti) q.ref q.new_sha
            (if starts_with pin "absent:" then "" else pin)))

    unfoldable pub git_atomic_execute : Repo → Request → Outcome × Repo
    unfolding transact field_has_delimiter
    git_atomic_execute repo q =
        let configured = text_or q.deployment_id in
        let grant_did = scalar node (get "deployment_id" q.payload) in
        let jti = scalar node (get "jti" q.payload) in
        let pin = text_or q.expected_old_sha in
        if configured == "" || not (grant_did == configured)
        then (refused deployment_mismatch deployment_id_mismatch 403 no_detail, repo)
        else if jti == ""
        then (refused state_challenge_unknown missing_jti 403 no_detail, repo)
        else if not (is_sha q.new_sha)
        then (refused state_challenge_unknown new_sha_not_40_hex 403 no_detail, repo)
        else if not (is_caller_supplied_pin q.expected_old_sha)
        then (refused state_challenge_unknown missing_expected_old_sha 403 no_detail, repo)
        else if field_has_delimiter (q.ref ∷ jti ∷ configured ∷ pin ∷ q.new_sha ∷ [])
        then (refused state_challenge_unknown delimiter_in_field 403 no_detail, repo)
        else if any (λ m. m == marker_of jti) (reflog_markers git repo q.ref)
        then (refused grant_consumed grant_already_consumed 409 no_detail, repo)
        else transact repo q jti configured pin
