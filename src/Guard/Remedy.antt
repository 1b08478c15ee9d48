-- ===== src/Guard/Remedy.antt =====
-- The next step attached to a refusal (packages/middleware/src/deny-remedy.js).
use Prim.Native.Nat.{ℕ}
use Prim.Native.Char.{code}
use Prim.Native.String.{count, slice}
use text.Mathlib.Text.{starts_with}
use capability_demo.Prelude.{
  Bool, true, ◌&&◌, ◌||◌, String, ◌==◌, leb, eqb, lowers_to, any, List, [], ◌∷◌, Option, none, some,
  if◌then◌else◌,
}

pub data DenyError : Type 0 where
  grant_required grant_invalid grant_mismatch : DenyError

abbrev pub does_not_promise : String
does_not_promise = "a grant does not guarantee execution (CAS may still fail)"

-- ARGS_SHAPE
pub record ArgsShape : Type 0 where
  pub artifacts : String
  pub context : String

abbrev pub args_shape : ArgsShape
args_shape = record {
  artifacts = "Array<{ id, type, before, after }> — the change set being authorized";
  context =
      "{ operation, environment?, repository?, branch?, pull_request? } — operation is required for authorize";
}

pub record Observed : Type 0 where
  pub status : String
  pub reason : String

pub record DenyRemedy : Type 0 where
  pub error : DenyError
  pub target : Option String
  pub fingerprint : Option String
  pub tool : String
  pub mode : String
  pub args : ArgsShape
  pub promise : String
  pub observed : Option Observed

is_lower_hex : ℕ → Bool
is_lower_hex c = (leb 48 c && leb c 57) || (leb 97 c && leb c 102)

all_lower_hex : String → Bool
all_lower_hex String.[] = true
all_lower_hex (String.◌∷◌ c s) = is_lower_hex (code c) && all_lower_hex s

-- /^sha256:[0-9a-f]{64}$/
unfoldable pub is_fingerprint : String → Bool
unfolding all_lower_hex is_lower_hex
is_fingerprint s = starts_with s "sha256:" && eqb (count s) 71 && all_lower_hex (slice s 7 64)

abbrev pub full_target : Option String → Option String
full_target none = none
full_target (some s) = if s == "" then none else some s

abbrev pub well_formed : Option String → Option String
well_formed none = none
well_formed (some s) = if is_fingerprint s then some s else none

-- `none` for the error is a value that is no error class.
unfoldable pub build_deny_remedy :
    Option DenyError → Option String → Option String → Option Observed → Option DenyRemedy
build_deny_remedy none target fingerprint observed = none
build_deny_remedy (some error) target fingerprint observed = some (record {
  error = error;
  target = full_target target;
  fingerprint = well_formed fingerprint;
  tool = "preflight_change_set";
  mode = "authorize";
  args = args_shape;
  promise = does_not_promise;
  observed = observed;
})

abbrev pub required_reasons : List String
required_reasons =
    "receipt_missing" ∷ "missing_receipt" ∷ "missing_grant_header" ∷ "decision_missing"
    ∷ "missing_decision_result" ∷ "no_preflight_response" ∷ "grant_not_supplied" ∷ []

abbrev pub invalid_reasons : List String
invalid_reasons =
    "receipt_invalid" ∷ "receipt_unverified" ∷ "invalid_signature" ∷ "unknown_key" ∷ "unknown_kid"
    ∷ "dsse_malformed" ∷ "dsse_unsupported" ∷ "dsse_predicate_mismatch" ∷ "malformed"
    ∷ "grant_malformed" ∷ "grant_unverified" ∷ "grant_expired" ∷ []

abbrev pub mismatch_reasons : List String
mismatch_reasons =
    "scope_mismatch" ∷ "target_mismatch" ∷ "operation_mismatch" ∷ "grant_scope_mismatch"
    ∷ "mode_mismatch" ∷ "repo_mismatch" ∷ "base_mismatch" ∷ "head_mismatch"
    ∷ "grant_does_not_cover_path" ∷ "grant_bound_elsewhere" ∷ "receipt_envelope_mismatch"
    ∷ "artifact_mismatch" ∷ "grant_unbound" ∷ "grant_wrong_audience" ∷ []

-- The reason is an ASCII text.
unfoldable pub deny_error_for_reason : String → Option DenyError
deny_error_for_reason reason =
    if any (lowers_to reason) required_reasons
    then some grant_required
    else if any (lowers_to reason) invalid_reasons
    then some grant_invalid
    else if any (lowers_to reason) mismatch_reasons
    then some grant_mismatch
    else none
