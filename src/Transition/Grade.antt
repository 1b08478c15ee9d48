-- ===== src/Transition/Grade.antt =====
-- `gradeStateTransition` (demo/src/target-state-transition.js). The texts of the checks and the
-- constant fields of the answer are left out.
use capability_demo.Prelude.{
  Bool, true, false, not, ◌&&◌, ◌||◌, String, ◌==◌, concat, split_on, after_prefix, trim, select,
  map, List, [], ◌∷◌, ◌++◌, Option, none, some, if◌then◌else◌,
}
use capability_demo.Json.{Json, Items, nil, cons, arr, get, is_text}
use capability_demo.Runtime.{Node}
use capability_demo.Git.Retention.{is_truthy}
use capability_demo.Grant.Profile.{is_nullish}
use capability_demo.Transition.Attested.{
  Expected, Attestation, CoreVerifier, TransitionVerdict, attested, unattested, matches,
  verify_transition_attestation,
}

pub data State : Type 0 where
  carried_unverified proven_by_trusted_executor proven_by_external_witness not_run : State

-- One check; `ok` is `none` where it was not made.
pub record Check : Type 0 where
  pub id : String
  pub ok : Option Bool

-- `failures` are the ids of the checks that failed, or the one reason of an early return.
pub record Graded : Type 0 where
  pub state : State
  pub checks : List Check
  pub failures : List String

pub record GradeInput : Type 0 where
  pub observation : Option Json
  pub expected : Expected
  pub attestation : Option Attestation
  pub repo_path : Option String

-- The parents that a printed commit names.
unfoldable pub parent_lines : List String → List String
parent_lines [] = []
parent_lines (l ∷ ls) =
    let rest = parent_lines ls in
    elim (after_prefix "parent " l) [ none ↦ rest | some parent ↦ trim parent ∷ rest ]

-- `git cat-file -p <commit>` in a repository: what it prints, `none` where it fails.
abbrev pub CatFile : Type 0
CatFile = String → String → Option String

unfoldable pub parents_of : CatFile → String → String → Option (List String)
unfolding parent_lines
parents_of cat_file repo commit = elim (cat_file repo commit) [
  | none ↦ none
  | some out ↦ some (parent_lines (split_on b'\n' out))
]

abbrev pub note : String → Bool → Check
note id ok = record { id = id; ok = some ok }

-- A check that is made only where the grader holds a value.
abbrev pub note_if : Option String → String → (String → Bool) → List Check
note_if none id test = []
note_if (some v) id test = note id (test v) ∷ []

-- `parents.length === 1 && parents[0] === base`
abbrev pub is_single : Option (List String) → Option String → Bool
is_single (some (p ∷ [])) (some base) = p == base
is_single _ _ = false

-- `a && b` for two texts
abbrev pub both_full : Option String → Option String → Option (String × String)
both_full (some a) (some b) = if a == "" || b == "" then none else some (a, b)
both_full _ _ = none

unfoldable pub parent_check : Option (String × String) → CatFile → Option String → Check
unfolding parents_of
parent_check none cat_file base = record { id = "single_parent"; ok = none }
parent_check (some (repo, commit)) cat_file base =
    note "single_parent" (is_single (parents_of cat_file repo commit) base)

-- `paths.filter((x) => x !== path).length === 0`
unfoldable pub only_path : String → Items → Bool
only_path path nil = true
only_path path (cons v vs) = is_text (some v) path && only_path path vs

unfoldable pub touched_only : String → Option Json → Bool
unfolding only_path
touched_only path (some (arr paths)) = only_path path paths
touched_only path _ = false

abbrev pub is_attested : TransitionVerdict → Bool
is_attested (attested _ _ _) = true
is_attested (unattested _) = false

-- `before_commit` is given, and is the base.
abbrev pub moved_from : Option Json → String → Bool
moved_from before base = not (is_nullish before) && matches before (some base)

-- Lists one after the other.
unfoldable pub flatten : List (List Check) → List Check
flatten [] = []
flatten (xs ∷ xss) = xs ++ flatten xss

-- `ok === false`
abbrev pub has_failed : Check → Bool
has_failed c = elim c.ok [ none ↦ false | some ok ↦ not ok ]

unfoldable pub failures_of : List Check → List String
failures_of checks = map (λ (c : Check). c.id) (select has_failed checks)

abbrev pub state_of : List String → State
state_of [] = proven_by_trusted_executor
state_of (f ∷ fs) = carried_unverified

unfoldable pub graded_by : List Check → Graded
unfolding failures_of
graded_by checks = record {
  state = state_of (failures_of checks);
  checks = checks;
  failures = failures_of checks;
}

abbrev pub unobserved : Graded
unobserved = record { state = carried_unverified; checks = []; failures = "observation" ∷ [] }

abbrev pub unread : Graded
unread = record { state = not_run; checks = []; failures = "readback" ∷ [] }

module _ (node : Node) (core : CoreVerifier) (cat_file : CatFile) where
  -- The checks, in the order in which they are made.
  unfoldable pub parts_of : GradeInput → Json → List (List Check)
  unfolding verify_transition_attestation only_path parents_of
  parts_of o seen =
      let e = o.expected in
      note_if e.canonical_target_uri "canonical_target_uri"
        (λ v. matches (get "canonical_target_uri" seen) (some v))
      ∷ note_if e.repo_id "repo_identity" (λ v. matches (get "repo_lineage_id" seen) (some v))
      ∷ note_if e.ref "ref" (λ v. matches (get "target_ref" seen) (some v))
      ∷ (note "after_state_token" (matches (get "observed_commit" seen) e.contract_commit) ∷ [])
      ∷ note_if e.base "state_transition" (λ v. moved_from (get "before_commit" seen) v)
      ∷ note_if e.contract_path "contract_path" (λ v. matches (get "contract_path" seen) (some v))
      ∷ note_if e.contract_blob_digest "blob_digest"
          (λ v. matches (get "contract_blob_digest" seen) (some v))
      ∷ note_if e.after_payload "after_payload"
          (λ v. matches (get "contract_blob_digest" seen) (some (concat "sha256:" (node.sha256 v))))
      ∷ (parent_check (both_full o.repo_path e.contract_commit) cat_file e.base ∷ [])
      ∷ note_if e.contract_path "no_unauthorized_company"
          (λ v. touched_only v (get "changed_paths" seen))
      ∷ (note "observer_mode" (is_text (get "observer_mode" seen) "read_only") ∷ [])
      ∷ (note "observation_source" (is_text (get "observation_source" seen) "git-object-database")
          ∷ [])
      ∷ (note "executor_attested"
            (is_attested (verify_transition_attestation node core o.attestation e seen))
          ∷ [])
      ∷ []

  unfoldable pub checks_of : GradeInput → Json → List Check
  unfolding flatten parts_of
  checks_of o seen = flatten (parts_of o seen)

  -- An observation that is falsy is none.
  unfoldable pub grade_seen : GradeInput → Json → Graded
  unfolding checks_of graded_by
  grade_seen o seen =
      if not (is_truthy (some seen))
      then unobserved
      else if is_text (get "state" seen) "READBACK_UNAVAILABLE"
      then unread
      else graded_by (checks_of o seen)

  unfoldable pub grade_observation : GradeInput → Option Json → Graded
  unfolding grade_seen
  grade_observation o none = unobserved
  grade_observation o (some seen) = grade_seen o seen

  unfoldable pub grade_state_transition : GradeInput → Graded
  unfolding grade_observation
  grade_state_transition o = grade_observation o o.observation
