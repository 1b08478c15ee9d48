-- ===== src/Git/Tests.antt =====
-- Runs of the git adapter on a small repository, and its theorems at these inputs.
use capability_demo.Prelude.{
  ◌≡◌, ◌≢◌, refl, ap, sym, ◌∙◌, Bool, true, false, not, String, ◌==◌, eq_iff, eq_refl, List, [],
  ◌∷◌, Option, none, some, is_some, includes, Bool-cases, inl, inr, if◌then◌else◌, arith, concat,
  ◌||◌, pos, All, some-inj,
}
use capability_demo.Json.{obj, field, str, end, get}
use capability_demo.Runtime.{Node, scalar}
use capability_demo.Prelude.{◌≤ℤ◌, split_on, ◌+ℤ◌}
use capability_demo.Json.{keys}
use capability_demo.Samples.{toy, bound_body, at, publish}
use capability_demo.Grant.V1.{parse_grant_token, verify_execution_grant}
use capability_demo.Grant.V1.Parsing.{IsToken, parse_grant_token-parsed_iff}
use capability_demo.Git.Retention.{
  CleanupOptions, cleanup_eligible_at, signed_exp_ms, is_terminal_entry, outcome_of, cleanup_now,
  exp_not_elapsed, exp_unsigned_or_missing, non_terminal,
}
use capability_demo.Grant.Options.{now_of}
use capability_demo.Git.Laws.Reclaim.{eligible-refused}
use capability_demo.Git.Repo.{
  GitTool, IsTransactional, HasOld, is_sha, reflog_markers, value_after, RefUpdate, must_not_exist,
  batch, read_ref,
}
use capability_demo.Git.Execute.{
  Request, field_has_delimiter, ledger_ref_for, marker_of, git_atomic_execute,
  is_caller_supplied_pin, transact, settle, attest, after_failure,
}
use capability_demo.Git.Reconcile.{reconcile_ref, reconcile_ledger}
use capability_demo.Git.Hook.{PushedRef, pre_receive}
use capability_demo.Git.Laws.Pushes.{pushed, IsHonest, pre_receive-keeps_ledger}
use capability_demo.Git.Laws.Moves.{
  has_moved, IsAdmitted, moved-claims, zero_sha-claims_nothing, transacted, jti_of, ledger_of,
}
use capability_demo.Git.Laws.OneUse.{
  begin, execution, refusal, IsKeeping, History-one_use, IsNodup, IsClaimed,
}

-- A repository is the values of its refs; no reflog is kept.
abbrev Refs : Type 0
Refs = String → Option String

abbrev has_value : Option String → String → Bool
has_value none v = false
has_value (some w) v = w == v

-- The old value of an update holds.
abbrev holds : Refs → String → String → Bool
holds refs ref old =
    if old == "" || old == must_not_exist
    then not (is_some (refs ref))
    else has_value (refs ref) old

abbrev after : Refs → String → String → String → Refs
after refs l t n = λ x. if x == l then value_after n else if x == t then value_after n else refs x

abbrev update_pair : Refs → RefUpdate → RefUpdate → Option Refs
update_pair refs a b =
    if a.ref == b.ref
    then none
    else if not (holds refs a.ref a.old)
    then none
    else if not (holds refs b.ref b.old)
    then none
    else some (after refs a.ref b.ref a.new_sha)

abbrev update_batch : Refs → String → List RefUpdate → Option Refs
update_batch refs m [] = some refs
update_batch refs m (a ∷ []) = none
update_batch refs m (a ∷ b ∷ []) = update_pair refs a b
update_batch refs m (a ∷ b ∷ c ∷ rest) = none

abbrev toy_git : GitTool Refs
toy_git = record {
  rev_parse = λ refs ref. refs ref;
  reflog = λ refs ref. none;
  update_refs = update_batch;
  for_each_ref = λ refs prefix. none;
}

unless-none :
    {A : Type 0} (b : Bool) (x : Option A) (v : A)
    → (if b then none else x) ≡ some v
    → (b ≡ false) × (x ≡ some v)
unless-none true x v h = cc
unless-none false x v h = (refl, h)

not-false : (b : Bool) → not b ≡ false → b ≡ true
not-false true h = refl
not-false false h = cc

is_none_sound : (o : Option String) → not (is_some o) ≡ true → o ≡ none
is_none_sound none h = refl
is_none_sound (some v) h = cc

has_value_sound : (o : Option String) (v : String) → has_value o v ≡ true → o ≡ some v
has_value_sound none v h = cc
has_value_sound (some w) v h = ground (arith, eq_iff w v)

holds_sound : (r : Refs) (x o : String) → holds r x o ≡ true → HasOld toy_git r x o
holds_sound r x o = split (o == "" || o == must_not_exist)
  where
    split :
        (b : Bool)
        → (if b then not (is_some (r x)) else has_value (r x) o) ≡ true
        → if b then r x ≡ none else (r o ≡ some o → r x ≡ some o)
    split true h = is_none_sound (r x) h
    split false h = λ _. has_value_sound (r x) o h

landed :
    (r r' : Refs) (m l t n o : String)
    → update_batch r m (batch l t n o) ≡ some r'
    → ((l == t) ≡ false) × (r l ≡ none) × HasOld toy_git r t o × (after r l t n ≡ r')
landed r r' m l t n o h =
    let (d, h₁) = unless-none (l == t) _ r' h in
    let (c, h₂) = unless-none (not (holds r l must_not_exist)) _ r' h₁ in
    let (p, h₃) = unless-none (not (holds r t o)) _ r' h₂ in
    (
      d,
      holds_sound r l must_not_exist (not-false _ c),
      holds_sound r t o (not-false _ p),
      some-inj h₃,
    )

ne_of_test : (s t : String) → (s == t) ≡ false → s ≢ t
ne_of_test s t h e = ground (arith, eq_iff s t)

test_of_ne : (s t : String) → s ≢ t → (s == t) ≡ false
test_of_ne s t h = ground (arith, eq_iff s t)

value_at : {r r' : Refs} → r ≡ r' → (x : String) → r' x ≡ r x
value_at e x = ap (λ (f : Refs). f x) (sym e)

value_of_real :
    (n : String) → n ≢ must_not_exist → (if n == must_not_exist then none else some n) ≡ some n
value_of_real n real = ground (arith, eq_iff n must_not_exist)

at_ledger :
    (r r' : Refs) (m l t n o : String)
    → update_batch r m (batch l t n o) ≡ some r'
    → r' l ≡ value_after n
at_ledger r r' m l t n o h = value_at (landed r r' m l t n o h).3 l ∙ rw (eq_refl l) refl

at_target :
    (r r' : Refs) (m l t n o : String)
    → update_batch r m (batch l t n o) ≡ some r'
    → r' t ≡ value_after n
at_target r r' m l t n o h =
    value_at (landed r r' m l t n o h).3 t
    ∙ rw (test_of_ne t l (λ e. ne_of_test l t (landed r r' m l t n o h).0 (sym e)), eq_refl t) refl

toy-IsTransactional : IsTransactional toy_git
toy-IsTransactional = record {
  distinct = λ r r' m l t n o h. ne_of_test l t (landed r r' m l t n o h).0;
  claim_old = λ r r' m l t n o h. (landed r r' m l t n o h).1;
  target_old = λ r r' m l t n o h. (landed r r' m l t n o h).2;
  claimed = λ r r' m l t n o h commit real. at_ledger r r' m l t n o h ∙ value_of_real n real;
  moved = λ r r' m l t n o h commit real. at_target r r' m l t n o h ∙ value_of_real n real;
  deleted = λ r r' m l t o h.
      (at_ledger r r' m l t must_not_exist o h, at_target r r' m l t must_not_exist o h);
}

after_keeps :
    (r : Refs) (l t n x : String) → n ≢ must_not_exist → r x ≢ none → after r l t n x ≢ none
after_keeps r l t n x real there = elim (Bool-cases (x == l)) [
  | inl e ↦ rw (e, value_of_real n real) (λ h. full h)
  | inr e ↦ elim (Bool-cases (x == t)) [
    | inl f ↦ rw (e, f, value_of_real n real) (λ h. full h)
    | inr f ↦ rw (e, f) there
  ]
]
  where
    full : some n ≡ none → ⊥
    full h = cc

abbrev toy_node : Node
toy_node = record {
  sha256 = λ s. s;
  decode = λ s. none;
  verify = λ m k s. none;
  sign = λ k m. concat k m;
  to_base64url = λ s. s;
  from_base64url = λ s. s;
  date_parse = λ s. none;
  date_now = pos 0;
  show = λ v. "";
  quote = λ s. s;
  parse = λ s. none;
  now_iso = "0";
  create_public_key = λ s. some s;
  utf8 = λ bytes. "";
  to_upper_case = λ s. s;
  stringify = λ v. "{}";
}

toy-IsKeeping : IsKeeping toy_node toy_git
toy-IsKeeping = record {
  keeps = λ r r' m l t n o jti h commit real there e.
      after_keeps r l t n _ real there (sym (value_at (landed r r' m l t n o h).3 _) ∙ e);
}

abbrev sha_of : String → String
sha_of d = concat d "000000000000000000000000000000000000000"

-- main is at 1…, the ledger is empty, and 1… and 2… are commits.
abbrev repository : Refs
repository x =
    if x == "refs/heads/main"
    then some (sha_of "1")
    else if (x == sha_of "1") || (x == sha_of "2")
    then some x
    else none

abbrev request : String → String → Request
request old new_sha = record {
  ref = "refs/heads/main";
  payload = obj (field "jti" (str "j1") (field "deployment_id" (str "d1") end));
  expected_old_sha = some old;
  new_sha = new_sha;
  operation = some "push";
  executor = record { private_key = "key"; kid = "e1" };
  deployment_id = some "d1";
  crash_before_seal = false;
}

admitted :
    (n : String)
    → is_sha n ≡ true
    → includes b'|' n ≡ false
    → IsAdmitted toy_node toy_git repository (request (sha_of "1") n)
unfolding is_caller_supplied_pin field_has_delimiter reflog_markers scalar get is_sha
admitted n s d = record {
  configured = refl;
  deployment = refl;
  jti = refl;
  sha = s;
  pin = refl;
  undelimited = rw d refl;
  unmarked = refl;
}

-- Runs: a move, and its replay with the same grant.
runs :
    (has_moved
        (git_atomic_execute toy_node toy_git repository (request (sha_of "1") (sha_of "2"))).0
      ≡ true)
    × (has_moved
          (git_atomic_execute toy_node toy_git repository (request (sha_of "3") (sha_of "2"))).0
        ≡ false)
unfolding git_atomic_execute transact settle attest is_caller_supplied_pin field_has_delimiter
    reflog_markers scalar get is_sha ledger_ref_for after_failure read_ref
runs = (refl, refl)

abbrev moving : Request
moving = request (sha_of "1") (sha_of "2")

abbrev deleting : Request
deleting = request (sha_of "1") must_not_exist

moving-IsAdmitted : IsAdmitted toy_node toy_git repository moving
unfolding is_sha
moving-IsAdmitted = admitted (sha_of "2") refl refl

batch_lands :
    (has_moved (transacted toy_node toy_git repository moving).0 ≡ true)
    × (jti_of toy_node toy_git moving ≡ "j1")
unfolding scalar get ledger_ref_for marker_of transact settle attest
batch_lands = (refl, refl)

abbrev moved_repo : Refs
moved_repo = (git_atomic_execute toy_node toy_git repository moving).1

moved-claims_example :
    (ledger_of toy_node toy_git moving ≢ "refs/heads/main")
    × (repository (ledger_of toy_node toy_git moving) ≡ none)
    × HasOld toy_git repository "refs/heads/main" (sha_of "1")
    × (moved_repo "refs/heads/main" ≡ some (sha_of "2"))
    × (moved_repo (ledger_of toy_node toy_git moving) ≡ some (sha_of "2"))
moved-claims_example =
    moved-claims toy_node toy_git toy-IsTransactional repository moving runs.0 refl
      (ne_of_test _ _ refl)

deletes : has_moved (git_atomic_execute toy_node toy_git repository deleting).0 ≡ true
unfolding git_atomic_execute transact settle attest is_caller_supplied_pin field_has_delimiter
    reflog_markers scalar get is_sha ledger_ref_for after_failure read_ref
deletes = refl

zero_sha-claims_nothing_example :
    ((git_atomic_execute toy_node toy_git repository deleting).1 "refs/heads/main" ≡ none)
    × ((git_atomic_execute toy_node toy_git repository deleting).1
          (ledger_of toy_node toy_git deleting)
        ≡ none)
zero_sha-claims_nothing_example =
    zero_sha-claims_nothing toy_node toy_git toy-IsTransactional repository deleting deletes refl

abbrev replayed_repo : Refs
replayed_repo = (git_atomic_execute toy_node toy_git moved_repo moving).1

replay : has_moved (git_atomic_execute toy_node toy_git moved_repo moving).0 ≡ false
unfolding git_atomic_execute transact settle attest is_caller_supplied_pin field_has_delimiter
    reflog_markers scalar get is_sha ledger_ref_for after_failure read_ref
replay = refl

-- A move, and its replay, which is refused.
History-one_use_example :
    IsNodup (jti_of toy_node toy_git moving ∷ [])
    × All (IsClaimed toy_node toy_git replayed_repo) (jti_of toy_node toy_git moving ∷ [])
History-one_use_example =
    History-one_use toy_node toy_git toy-IsTransactional toy-IsKeeping repository replayed_repo
      (jti_of toy_node toy_git moving ∷ [])
      (refusal moving (execution moving begin refl (ne_of_test _ _ refl) runs.0) replay)

abbrev closed_entry : CleanupOptions
closed_entry = record {
  exp_signed = some true;
  terminal = none;
  outcome = some "RECONCILED";
  status = none;
  now = some (pos 90001);
  clock_skew_leeway = some (pos 1);
}

reclaims :
    ((cleanup_eligible_at toy closed_entry bound_body).eligible ≡ true)
    × ((cleanup_eligible_at toy (record closed_entry { now = some (pos 90000) }) bound_body).reason
        ≡ some exp_not_elapsed)
    × ((cleanup_eligible_at toy (record closed_entry { exp_signed = none }) bound_body).reason
        ≡ some exp_unsigned_or_missing)
    × ((cleanup_eligible_at toy (record closed_entry { outcome = none }) bound_body).reason
        ≡ some non_terminal)
unfolding cleanup_eligible_at signed_exp_ms is_terminal_entry outcome_of scalar get ◌+ℤ◌
reclaims = (refl, refl, refl, refl)

bound-IsToken : IsToken toy "bound.good" bound_body "good"
unfolding parse_grant_token get keys split_on
bound-IsToken = (parse_grant_token-parsed_iff toy "bound.good" bound_body "good").0 refl

clocks_agree :
    cleanup_now toy closed_entry (some (pos 90001)) ≤ℤ now_of toy (at (pos 90001) (publish "hello"))
unfolding now_of
clocks_agree = ground arith

eligible-refused_example :
    (verify_execution_grant toy (at (pos 90001) (publish "hello")) "bound.good").valid ≡ false
eligible-refused_example =
    eligible-refused toy closed_entry (at (pos 90001) (publish "hello")) "bound.good" bound_body
      "good" bound-IsToken reclaims.0 clocks_agree

-- A repository whose reflog names two grants, of which the ledger has one.
abbrev logged : GitTool Unit
logged = record {
  rev_parse = λ repo ref. none;
  reflog =
      λ repo ref. some ("cr.exclusive.v1 jti=j1" ∷ "commit: text" ∷ "cr.exclusive.v1 jti=j2" ∷ []);
  update_refs = λ repo message updates. none;
  for_each_ref = λ repo prefix. some (("refs/coderifts/consumed/j1/j1", sha_of "1") ∷ []);
}

reconciles :
    ((reconcile_ref logged tt "refs/heads/main" (λ jti. jti == "j1")).unattested ≡ "j2" ∷ [])
    × ((reconcile_ledger logged toy_node tt ("refs/heads/main" ∷ []) (λ jti. true)).missing_ledger
        ≡ record { ref = "refs/heads/main"; jti = "j2" } ∷ [])
unfolding reconcile_ref reconcile_ledger reflog_markers split_on
reconciles = (refl, refl)

abbrev push : List PushedRef
push =
    record { old = sha_of "1"; new_sha = must_not_exist; ref = "refs/heads/main" }
    ∷ record { old = must_not_exist; new_sha = sha_of "2"; ref = "refs/coderifts/consumed/j2/j2" }
    ∷ []

abbrev with_claim : Refs
with_claim x = if x == "refs/coderifts/consumed/j1/j1" then some (sha_of "1") else repository x

hooks :
    (pre_receive push ≡ true)
    × (pre_receive (
          record {
            old = sha_of "1";
            new_sha = must_not_exist;
            ref = "refs/coderifts/consumed/j1/j1";
          }
          ∷ [])
        ≡ false)
unfolding pre_receive
hooks = (refl, refl)

push-IsHonest : IsHonest push with_claim
push-IsHonest = ((λ e. absurd (ne_of_test (sha_of "1") must_not_exist refl e)), ((λ e. refl), tt))

pre_receive-keeps_ledger_example :
    pushed push with_claim "refs/coderifts/consumed/j1/j1" ≡ some (sha_of "1")
pre_receive-keeps_ledger_example =
    pre_receive-keeps_ledger push with_claim "refs/coderifts/consumed/j1/j1" (sha_of "1") refl
      hooks.0 push-IsHonest refl
