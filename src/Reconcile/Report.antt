-- ===== src/Reconcile/Report.antt =====
-- The vocabulary of reconciliation and its roll-up (demo/src/reconcile.js). The texts of the
-- reasons and the tags that an entry repeats are left out.
use Prim.Native.Nat.{ℕ, ◌+◌}
use capability_demo.Prelude.{
  Bool, true, false, not, ◌&&◌, String, ltb, length, select, map, List, [], ◌∷◌, Option, none, some,
  if◌then◌else◌,
}
use capability_demo.Attestation.{AttestStatus}

pub data Outcome : Type 0 where
  confirmed rejected released indeterminate : Outcome

abbrev pub same_outcome : Outcome → Outcome → Bool
same_outcome confirmed confirmed = true
same_outcome rejected rejected = true
same_outcome released released = true
same_outcome indeterminate indeterminate = true
same_outcome _ _ = false

-- Ranked worst first.
abbrev pub severity : List Outcome
severity = indeterminate ∷ released ∷ rejected ∷ confirmed ∷ []

-- The attestation codes; `verifier` is a status of the attestation verifier.
pub data AttestCode : Type 0 where
  attest_ok no_keys unknown_kid_code key_not_in_force bad_key target_mismatch : AttestCode
  absent no_ledger_preimage no_ledger_claim digest_mismatch preimage_mismatch : AttestCode
  origin_unreadable no_expected_representation origin_contradicts : AttestCode
  verifier : AttestStatus → AttestCode

pub data Adapter : Type 0 where
  git postgres http : Adapter

-- One entry of the report: `subject` is the ref or the resource, `status` that of the ledger row,
-- and `downgraded` tells whether the entry carries `downgraded_from`.
pub record Entry : Type 0 where
  pub adapter : Adapter
  pub jti : Option String
  pub outcome : Outcome
  pub attest_status : Option AttestCode
  pub executor_kid : Option String
  pub subject : Option String
  pub status : Option String
  pub downgraded : Bool

abbrev pub is_confirmed : Entry → Bool
is_confirmed e = same_outcome e.outcome confirmed

-- `e.evidence.attest_status === ATTEST.OK`
abbrev pub is_ok : Option AttestCode → Bool
is_ok (some attest_ok) = true
is_ok _ = false

unfoldable pub enforced : (Entry → Bool) → Entry → Entry
enforced has_attestation e =
    if not (is_confirmed e)
    then e
    else if is_ok e.attest_status && has_attestation e
    then e
    else record e { outcome = indeterminate; downgraded = true }

unfoldable pub enforce_no_unproven_confirmed : (Entry → Bool) → List Entry → List Entry
unfolding enforced
enforce_no_unproven_confirmed has_attestation entries = map (enforced has_attestation) entries

pub record Report : Type 0 where
  pub grants : List Entry
  pub counts : Outcome → ℕ
  pub outcome : Option Outcome
  pub needs_attention : ℕ

-- `counts[g.outcome] += 1` over the grants, from zeros
unfoldable pub count_outcomes : List Entry → Outcome → ℕ
count_outcomes [] o = 0
count_outcomes (g ∷ gs) o =
    let rest = count_outcomes gs o in if same_outcome g.outcome o then rest + 1 else rest

-- `list.find((s) => counts[s] > 0) || null`
unfoldable pub first_present : (Outcome → ℕ) → List Outcome → Option Outcome
first_present counts [] = none
first_present counts (o ∷ os) =
    let rest = first_present counts os in if ltb 0 (counts o) then some o else rest

unfoldable pub roll_up : List Entry → Report
unfolding count_outcomes first_present
roll_up grants = record {
  grants = grants;
  counts = count_outcomes grants;
  outcome = first_present (count_outcomes grants) severity;
  needs_attention = length (select (λ g. not (is_confirmed g)) grants);
}
