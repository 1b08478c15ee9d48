-- ===== src/Reconcile/Stored.antt =====
-- The check of a stored attestation, with the target that it was signed for
-- (demo/src/reconcile.js).
use capability_demo.Prelude.{
  Bool, true, false, not, ◌&&◌, String, ◌==◌, split_on, before_last, after_prefix, List, [], ◌∷◌,
  Option, none, some, if◌then◌else◌,
}
use capability_demo.Json.{Json, str, obj, field, end}
use capability_demo.Runtime.{Node}
use capability_demo.Attestation.{
  AttestVerdict, attest_valid, attest_refused, attest_malformed,
  verify_atomic_execution_attestation,
}
use capability_demo.Reconcile.Report.{
  AttestCode, no_keys, unknown_kid_code, key_not_in_force, bad_key, target_mismatch,
  digest_mismatch, preimage_mismatch, verifier,
}
use capability_demo.Reconcile.Keyring.{
  Manifest, KeyEntry, Force, in_force, resolve_key_manifest, key_in_force, public_key_of,
}

-- The fifth field of a preimage.
abbrev pub fifth : List String → Option String
fifth (a ∷ b ∷ c ∷ d ∷ e ∷ rest) = some e
fifth _ = none

abbrev pub fourth : List String → Option String
fourth (a ∷ b ∷ c ∷ d ∷ rest) = some d
fourth _ = none

abbrev same_length : List String → List String → Bool
same_length [] [] = true
same_length (x ∷ xs) (y ∷ ys) = same_length xs ys
same_length _ _ = false

-- `a === b` for two fields
abbrev pub same_field : Option String → Option String → Bool
same_field (some a) (some b) = a == b
same_field none none = true
same_field _ _ = false

abbrev pub is_field : Option String → Bool
is_field none = false
is_field (some s) = true

unfoldable pub preimage_divergence : String → String → AttestCode
preimage_divergence signed ledger =
    let a = split_on b'|' signed in
    let b = split_on b'|' ledger in
    if not (same_length a b && is_field (fifth a))
    then preimage_mismatch
    else if not (same_field (fifth a) (fifth b))
    then target_mismatch
    else if not (same_field (fourth a) (fourth b))
    then digest_mismatch
    else preimage_mismatch

abbrev pub ref_before : Option String → Option String
unfolding before_last
ref_before none = none
ref_before (some rest) = before_last b'@' rest

-- `target.slice('git:'.length, target.lastIndexOf('@'))`
unfoldable pub git_ref_of_target : String → Option String
unfolding before_last after_prefix
git_ref_of_target target = ref_before (after_prefix "git:" target)

-- The target that the caller knows.
pub data Expected : Type 0 where
  exact : String → Expected
  git_ref : String → Expected

abbrev pub expected_value : Expected → String
expected_value (exact v) = v
expected_value (git_ref v) = v

-- `signed` is the target field of the preimage.
pub data TargetCheck : Type 0 where
  not_compared : TargetCheck
  no_target : TargetCheck
  compared : (ok : Bool) → (signed : String) → TargetCheck

unfoldable pub matches_target : Expected → String → Bool
unfolding git_ref_of_target
matches_target (exact v) signed = signed == v
matches_target (git_ref v) signed = same_field (git_ref_of_target signed) (some v)

unfoldable pub check_signed : Expected → Option String → TargetCheck
unfolding git_ref_of_target
check_signed e none = no_target
check_signed e (some signed) =
    if signed == "" then no_target else compared (matches_target e signed) signed

unfoldable pub compare_target : String → Option Expected → TargetCheck
unfolding git_ref_of_target split_on
compare_target preimage none = not_compared
compare_target preimage (some e) =
    if expected_value e == "" then not_compared else check_signed e (fifth (split_on b'|' preimage))

-- The kid of a token of four segments.
abbrev pub second_of_four : List String → Option String
second_of_four (a ∷ kid ∷ c ∷ d ∷ []) = if kid == "" then none else some kid
second_of_four _ = none

unfoldable pub kid_of : Option Json → Option (String × String)
unfolding split_on
kid_of (some (str token)) = elim (second_of_four (split_on b'|' token)) [
  | none ↦ none
  | some kid ↦ some (token, kid)
]
kid_of _ = none

-- An attestation that is accepted, or the reason why not.
pub data StoredCheck : Type 0 where
  proven : (kid preimage : String) → TargetCheck → StoredCheck
  doubtful : AttestCode → StoredCheck

-- `intended.grant`
abbrev pub intended_grant : String → String → Json
intended_grant jti deployment_id =
    obj (field "jti" (str jti) (field "deployment_id" (str deployment_id) end))

abbrev pub judge_target : String → String → TargetCheck → StoredCheck
judge_target kid preimage not_compared = proven kid preimage not_compared
judge_target kid preimage no_target = doubtful target_mismatch
judge_target kid preimage (compared ok signed) =
    if ok then proven kid preimage (compared ok signed) else doubtful target_mismatch

unfoldable pub judge_verdict : String → Option Expected → AttestVerdict → StoredCheck
unfolding compare_target
judge_verdict kid expected (attest_refused status reason) = doubtful (verifier status)
judge_verdict kid expected (attest_valid payload) =
    judge_target kid payload.preimage (compare_target payload.preimage expected)

-- The arguments of verifyStoredAttestation but the keys.
pub record StoredQuery : Type 0 where
  pub token : Option Json
  pub jti : String
  pub deployment_id : String
  pub as_of : Option String
  pub expected : Option Expected

module _ (node : Node) where
  -- `asOf || new Date().toISOString()`
  abbrev pub as_of_or_now : Option String → String
  as_of_or_now none = node.now_iso
  as_of_or_now (some t) = if t == "" then node.now_iso else t

  unfoldable pub check_with_key : StoredQuery → String → String → Option String → StoredCheck
  unfolding verify_atomic_execution_attestation compare_target
  check_with_key q token kid none = doubtful bad_key
  check_with_key q token kid (some key) = judge_verdict kid q.expected (
      verify_atomic_execution_attestation node (some key)
        (some (intended_grant q.jti q.deployment_id)) token)

  unfoldable pub check_in_force : StoredQuery → String → String → KeyEntry → Force → StoredCheck
  unfolding check_with_key public_key_of
  check_in_force q token kid entry in_force = check_with_key q token kid (public_key_of node entry)
  check_in_force q token kid entry _ = doubtful key_not_in_force

  unfoldable pub check_entry : StoredQuery → String → String → Option KeyEntry → StoredCheck
  unfolding check_in_force key_in_force
  check_entry q token kid none = doubtful unknown_kid_code
  check_entry q token kid (some entry) =
      check_in_force q token kid entry (key_in_force node entry (as_of_or_now q.as_of))

  unfoldable pub check_kid : StoredQuery → Manifest → Option (String × String) → StoredCheck
  unfolding check_entry resolve_key_manifest
  check_kid q keys none = doubtful (verifier attest_malformed)
  check_kid q keys (some (token, kid)) = check_entry q token kid (resolve_key_manifest keys kid)

  unfoldable pub verify_stored_attestation : Option Manifest → StoredQuery → StoredCheck
  unfolding check_entry resolve_key_manifest kid_of
  verify_stored_attestation none q = doubtful no_keys
  verify_stored_attestation (some keys) q = check_kid q keys (kid_of q.token)
