-- ===== src/Git/Laws/Moves.antt =====
-- When an execution moves the target, and what it leaves behind (demo/src/git-atomic.js).
use Prim.Native.Nat.{ℕ}
use text.Mathlib.Text.{starts_with}
use capability_demo.Prelude.{
  ◌≡◌, ◌≢◌, refl, ap, sym, ◌∙◌, Bool, true, false, not, ◌||◌, String, ◌==◌, [], ◌∷◌, Option, none,
  some, any, if◌then◌else◌, arith, or-eq-false_iff,
}
use mathlib.Core.Path.{subst}
use capability_demo.Json.{get}
use capability_demo.Runtime.{Node, scalar}
use capability_demo.Git.Repo.{
  GitTool, IsTransactional, HasOld, IsCommit, is_sha, must_not_exist, batch, reflog_markers,
}
use capability_demo.Git.Execute.{
  Request, Outcome, executed, refused, crashed, Status, Reason, Detail, text_or,
  field_has_delimiter, is_caller_supplied_pin, ledger_ref_for, marker_of, attest, settle, transact,
  git_atomic_execute,
}

-- The target moved: the execution returned evidence, or crashed after the move.
abbrev pub has_moved : Outcome → Bool
has_moved (executed _ _ _) = true
has_moved (refused _ _ _ _) = false
has_moved crashed = true

-- The old value that the batch states for a pin: empty for `absent:`.
abbrev pub old_of : String → String
old_of pin = if starts_with pin "absent:" then "" else pin

not-false : (b : Bool) → not b ≡ false → b ≡ true
not-false true h = refl
not-false false h = cc

true-ne-false : {b : Bool} → b ≡ true → b ≡ false → ⊥
true-ne-false p q = cc

module _ (node : Node) {Repo : Type 0} (git : GitTool Repo) where
  abbrev pub jti_of : Request → String
  jti_of q = scalar node (get "jti" q.payload)

  abbrev pub ledger_of : Request → String
  ledger_of q = ledger_ref_for node (jti_of q)

  -- The request passes every check that comes before the batch.
  pub record IsAdmitted (repo : Repo) (q : Request) : Type 0 where
    pub configured : (text_or q.deployment_id == "") ≡ false
    pub deployment : (scalar node (get "deployment_id" q.payload) == text_or q.deployment_id) ≡ true
    pub jti : (jti_of q == "") ≡ false
    pub sha : is_sha q.new_sha ≡ true
    pub pin : is_caller_supplied_pin q.expected_old_sha ≡ true
    pub undelimited :
        field_has_delimiter
          (q.ref ∷ jti_of q ∷ text_or q.deployment_id ∷ text_or q.expected_old_sha ∷ q.new_sha ∷ [])
        ≡ false
    pub unmarked : any (λ m. m == marker_of node (jti_of q)) (reflog_markers git repo q.ref) ≡ false

  abbrev pub transaction : Repo → Request → Option Repo
  transaction repo q =
      git.update_refs repo (marker_of node (jti_of q))
        (batch (ledger_of q) q.ref q.new_sha (old_of (text_or q.expected_old_sha)))

  pass :
      (b : Bool) (s : Status) (r : Reason) (n : ℕ) (d : Detail) (repo : Repo)
      (rest : Outcome × Repo)
      → has_moved (if b then (refused s r n d, repo) else rest).0 ≡ true
      → (b ≡ false) × (has_moved rest.0 ≡ true)
  pass true s r n d repo rest h = cc
  pass false s r n d repo rest h = (refl, h)

  moved-IsAdmitted :
      (repo : Repo) (q : Request)
      → has_moved (git_atomic_execute node git repo q).0 ≡ true
      → IsAdmitted repo q
  unfolding git_atomic_execute
  moved-IsAdmitted repo q h =
      let (first, h₁) =
        pass
          (text_or q.deployment_id == ""
            || not (scalar node (get "deployment_id" q.payload) == text_or q.deployment_id))
          _ _ _ _ repo _ h in
      let (jti, h₂) = pass (jti_of q == "") _ _ _ _ repo _ h₁ in
      let (sha, h₃) = pass (not (is_sha q.new_sha)) _ _ _ _ repo _ h₂ in
      let (pin, h₄) = pass (not (is_caller_supplied_pin q.expected_old_sha)) _ _ _ _ repo _ h₃ in
      let (undelimited, h₅) =
        pass
          (field_has_delimiter (
            q.ref
            ∷ jti_of q
            ∷ text_or q.deployment_id
            ∷ text_or q.expected_old_sha
            ∷ q.new_sha
            ∷ []))
          _ _ _ _ repo _ h₄ in
      let (unmarked, h₆) =
        pass (any (λ m. m == marker_of node (jti_of q)) (reflog_markers git repo q.ref)) _ _ _ _
          repo _ h₅ in
      let (configured, deployment) = (or-eq-false_iff (text_or q.deployment_id == "") _).0 first in
      record {
        configured = configured;
        deployment = not-false _ deployment;
        jti = jti;
        sha = not-false _ sha;
        pin = not-false _ pin;
        undelimited = undelimited;
        unmarked = unmarked;
      }

  admitted-transact :
      (repo : Repo) (q : Request)
      → IsAdmitted repo q
      → git_atomic_execute node git repo q
        ≡ transact node git repo q (jti_of q) (text_or q.deployment_id) (text_or q.expected_old_sha)
  unfolding git_atomic_execute
  admitted-transact repo q a =
      rw (a.configured, a.deployment, a.jti, a.sha, a.pin, a.undelimited, a.unmarked) refl

  settled :
      (repo : Repo) (q : Request) (jti did pin : String) (r : Option Repo)
      → has_moved (settle node git repo q jti did pin r).0 ≡ true
      → (repo' : Repo) × (r ≡ some repo') × ((settle node git repo q jti did pin r).1 ≡ repo')
  unfolding settle
  settled repo q jti did pin none h = ground arith
  settled repo q jti did pin (some repo') h = (repo', refl, refl)

  settle-some :
      (repo repo' : Repo) (q : Request) (jti did pin : String)
      → (has_moved (settle node git repo q jti did pin (some repo')).0 ≡ true)
        × ((settle node git repo q jti did pin (some repo')).1 ≡ repo')
  unfolding settle attest
  settle-some repo repo' q jti did pin = (ground arith, refl)

  settle-none :
      (repo : Repo) (q : Request) (jti did pin : String)
      → (has_moved (settle node git repo q jti did pin none).0 ≡ false)
        × ((settle node git repo q jti did pin none).1 ≡ repo)
  unfolding settle
  settle-none repo q jti did pin = (ground arith, refl)

  -- The claim and the move of a request, after its checks.
  abbrev pub transacted : Repo → Request → Outcome × Repo
  transacted repo q =
      transact node git repo q (jti_of q) (text_or q.deployment_id) (text_or q.expected_old_sha)

  pub transacted-landed :
      (repo : Repo) (q : Request)
      → has_moved (transacted repo q).0 ≡ true
      → transaction repo q ≡ some (transacted repo q).1
  unfolding transact
  transacted-landed repo q h =
      let (repo', landed, same) = settled repo q _ _ _ (transaction repo q) h in
      landed ∙ ap some (sym same)

  -- A move is a batch that landed.
  pub moved-landed :
      (repo : Repo) (q : Request)
      → has_moved (git_atomic_execute node git repo q).0 ≡ true
      → (transaction repo q ≡ some (git_atomic_execute node git repo q).1) × IsAdmitted repo q
  moved-landed repo q h =
      let a = moved-IsAdmitted repo q h in
      let e = admitted-transact repo q a in
      (transacted-landed repo q (rw e at h) ∙ ap (λ (o : Outcome × Repo). some o.1) (sym e), a)

  -- An answer that is no move comes with the repository unchanged.
  record KeepsRepo (repo : Repo) (o : Outcome × Repo) : Type 0 where
    kept : has_moved o.0 ≡ false → o.1 ≡ repo

  keep :
      (b : Bool) (s : Status) (r : Reason) (n : ℕ) (d : Detail) (repo : Repo)
      (rest : Outcome × Repo)
      → KeepsRepo repo rest
      → KeepsRepo repo (if b then (refused s r n d, repo) else rest)
  keep true s r n d repo rest k = record { kept = λ h. refl }
  keep false s r n d repo rest k = k

  settle-keeps :
      (repo : Repo) (q : Request) (jti did pin : String) (r : Option Repo)
      → KeepsRepo repo (settle node git repo q jti did pin r)
  settle-keeps repo q jti did pin none = record { kept = λ h. (settle-none repo q jti did pin).1 }
  settle-keeps repo q jti did pin (some repo') = record {
    kept = λ h. absurd (true-ne-false (settle-some repo repo' q jti did pin).0 h);
  }

  execute-keeps : (repo : Repo) (q : Request) → KeepsRepo repo (git_atomic_execute node git repo q)
  unfolding git_atomic_execute transact
  execute-keeps repo q =
      keep
        (text_or q.deployment_id == ""
          || not (scalar node (get "deployment_id" q.payload) == text_or q.deployment_id))
        _ _ _ _ repo _
        (keep (jti_of q == "") _ _ _ _ repo _ (
          keep (not (is_sha q.new_sha)) _ _ _ _ repo _ (
            keep (not (is_caller_supplied_pin q.expected_old_sha)) _ _ _ _ repo _ (
              keep
                (field_has_delimiter (
                  q.ref
                  ∷ jti_of q
                  ∷ text_or q.deployment_id
                  ∷ text_or q.expected_old_sha
                  ∷ q.new_sha
                  ∷ []))
                _ _ _ _ repo _
                (keep (any (λ m. m == marker_of node (jti_of q)) (reflog_markers git repo q.ref)) _
                  _ _ _ repo _
                  (settle-keeps repo q (jti_of q) (text_or q.deployment_id)
                    (text_or q.expected_old_sha) (transaction repo q)))))))

  pub refused-keeps_repo :
      (repo : Repo) (q : Request)
      → has_moved (git_atomic_execute node git repo q).0 ≡ false
      → (git_atomic_execute node git repo q).1 ≡ repo
  refused-keeps_repo repo q h = (execute-keeps repo q).kept h

  module _ (laws : IsTransactional git) where
    -- A move to a commit, other than forty zeros: the grant's ledger ref is not the target and did
    -- not exist, the target was at the pin or, for an `absent:` pin, did not exist, and both are
    -- now at that commit. A pin is compared where it is a commit in the form in which git prints
    -- it.
    pub moved-claims :
        (repo : Repo) (q : Request)
        → has_moved (git_atomic_execute node git repo q).0 ≡ true
        → IsCommit git repo q.new_sha
        → q.new_sha ≢ must_not_exist
        → (ledger_of q ≢ q.ref)
          × (git.rev_parse repo (ledger_of q) ≡ none)
          × HasOld git repo q.ref (old_of (text_or q.expected_old_sha))
          × (git.rev_parse (git_atomic_execute node git repo q).1 q.ref ≡ some q.new_sha)
          × (git.rev_parse (git_atomic_execute node git repo q).1 (ledger_of q) ≡ some q.new_sha)
    moved-claims repo q h commit real =
        let (landed, a) = moved-landed repo q h in
        (
          laws.distinct _ _ _ _ _ _ _ landed,
          laws.claim_old _ _ _ _ _ _ _ landed,
          laws.target_old _ _ _ _ _ _ _ landed,
          laws.moved _ _ _ _ _ _ _ landed commit real,
          laws.claimed _ _ _ _ _ _ _ landed commit real,
        )

    -- A move to forty zeros, which pass for a sha, deletes the target and claims nothing: the
    -- grant's ledger ref does not exist afterwards.
    pub zero_sha-claims_nothing :
        (repo : Repo) (q : Request)
        → has_moved (git_atomic_execute node git repo q).0 ≡ true
        → q.new_sha ≡ must_not_exist
        → (git.rev_parse (git_atomic_execute node git repo q).1 q.ref ≡ none)
          × (git.rev_parse (git_atomic_execute node git repo q).1 (ledger_of q) ≡ none)
    zero_sha-claims_nothing repo q h zeros =
        let (landed, a) = moved-landed repo q h in
        let gone = laws.deleted _ _ _ _ _ _ (
          subst
            (λ n.
              git.update_refs repo (marker_of node (jti_of q))
                (batch (ledger_of q) q.ref n (old_of (text_or q.expected_old_sha)))
              ≡ some (git_atomic_execute node git repo q).1)
            zeros landed) in
        (gone.1, gone.0)
