-- ===== src/Git/Laws/OneUse.antt =====
-- One grant moves one ref once, over any history of a repository (demo/src/git-atomic.js).
use capability_demo.Prelude.{
  ◌≡◌, ◌≢◌, ap, sym, ◌∙◌, true, false, String, List, [], ◌∷◌, none, some, All,
}
use mathlib.Core.Path.{subst}
use capability_demo.Runtime.{Node}
use capability_demo.Git.Repo.{GitTool, IsTransactional, IsCommit, batch, must_not_exist}
use capability_demo.Git.Execute.{Request, ledger_ref_for, git_atomic_execute}
use capability_demo.Git.Laws.Moves.{
  has_moved, moved-landed, refused-keeps_repo, IsAdmitted, transaction, transacted,
  transacted-landed, jti_of,
}

-- No element stands twice.
abbrev pub IsNodup : List String → Type 0
IsNodup [] = Unit
IsNodup (x ∷ xs) = All (λ y. x ≢ y) xs × IsNodup xs

module _ (node : Node) {Repo : Type 0} (git : GitTool Repo) where
  -- The ledger ref of a grant exists.
  abbrev pub IsClaimed : Repo → String → Type 0
  IsClaimed repo jti = git.rev_parse repo (ledger_ref_for node jti) ≢ none

  -- A batch that lands with a commit leaves the claims of all grants in place, as it creates or
  -- moves the two refs that it names and deletes none.
  pub record IsKeeping : Type 0 where
    pub keeps :
        (r r' : Repo) (m l t n o jti : String)
        → git.update_refs r m (batch l t n o) ≡ some r'
        → IsCommit git r n
        → n ≢ must_not_exist
        → IsClaimed r jti
        → IsClaimed r' jti

  -- Histories of a repository, with the grants that have moved a ref, the last first: whole
  -- executions, executions whose batch runs on the repository as it is then, after checks that have
  -- read an older state of it, and changes by others, except that claims stay, which is what the
  -- pre-receive hook keeps for pushes. An execution moves its target to a commit.
  pub data History (start : Repo) : Repo → List String → Type 0 where
    begin : History start start []
    execution :
        {repo : Repo} {spent : List String} (q : Request)
        → History start repo spent
        → IsCommit git repo q.new_sha
        → q.new_sha ≢ must_not_exist
        → has_moved (git_atomic_execute node git repo q).0 ≡ true
        → History start (git_atomic_execute node git repo q).1 (jti_of node git q ∷ spent)
    refusal :
        {repo : Repo} {spent : List String} (q : Request)
        → History start repo spent
        → has_moved (git_atomic_execute node git repo q).0 ≡ false
        → History start (git_atomic_execute node git repo q).1 spent
    late_batch :
        {repo : Repo} {spent : List String} (seen : Repo) (q : Request)
        → History start repo spent
        → IsAdmitted node git seen q
        → IsCommit git repo q.new_sha
        → q.new_sha ≢ must_not_exist
        → has_moved (transacted node git repo q).0 ≡ true
        → History start (transacted node git repo q).1 (jti_of node git q ∷ spent)
    others :
        {repo : Repo} {spent : List String} (repo' : Repo)
        → History start repo spent
        → ((jti : String) → IsClaimed repo jti → IsClaimed repo' jti)
        → History start repo' spent

  module _ (laws : IsTransactional git) (keeping : IsKeeping) where
    All-map :
        (repo repo' : Repo) (xs : List String)
        → ((jti : String) → IsClaimed repo jti → IsClaimed repo' jti)
        → All (IsClaimed repo) xs
        → All (IsClaimed repo') xs
    All-map repo repo' [] k h = tt
    All-map repo repo' (x ∷ xs) k (h, hs) = (k x h, All-map repo repo' xs k hs)

    fresh :
        (repo : Repo) (jti : String) (xs : List String)
        → git.rev_parse repo (ledger_ref_for node jti) ≡ none
        → All (IsClaimed repo) xs
        → All (λ y. jti ≢ y) xs
    fresh repo jti [] e h = tt
    fresh repo jti (x ∷ xs) e (h, hs) = (
      (λ same. h (ap (λ j. git.rev_parse repo (ledger_ref_for node j)) (sym same) ∙ e)),
      fresh repo jti xs e hs,
    )

    landed-invariant :
        (repo repo' : Repo) (spent : List String) (q : Request)
        → IsCommit git repo q.new_sha
        → q.new_sha ≢ must_not_exist
        → transaction node git repo q ≡ some repo'
        → All (IsClaimed repo) spent × IsNodup spent
        → All (IsClaimed repo') (jti_of node git q ∷ spent) × IsNodup (jti_of node git q ∷ spent)
    landed-invariant repo repo' spent q commit real landed (claimed, nodup) =
        let unclaimed : git.rev_parse repo (ledger_ref_for node (jti_of node git q)) ≡ none =
          laws.claim_old _ _ _ _ _ _ _ landed in
        let now : IsClaimed repo' (jti_of node git q) =
          λ e. none-ne-some (sym e ∙ laws.claimed _ _ _ _ _ _ _ landed commit real) in
        (
          (
            now,
            All-map repo repo' spent
                (λ j there. keeping.keeps _ _ _ _ _ _ _ j landed commit real there) claimed,
          ),
          (fresh repo (jti_of node git q) spent unclaimed claimed, nodup),
        )
      where
        none-ne-some : {v : String} → none ≡ some v → ⊥
        none-ne-some q = cc

    History-invariant :
        {start repo : Repo} {spent : List String}
        → History start repo spent
        → All (IsClaimed repo) spent × IsNodup spent
    History-invariant begin = (tt, tt)
    History-invariant (others repo' h keeps) =
        let (claimed, nodup) = History-invariant h in (All-map _ repo' _ keeps claimed, nodup)
    History-invariant (refusal {repo} {spent} q h refused) =
        let (claimed, nodup) = History-invariant h in
        let same = refused-keeps_repo node git repo q refused in
        (
          All-map repo _ spent (λ j there. subst (λ r. IsClaimed r j) (sym same) there) claimed,
          nodup,
        )
    History-invariant (execution {repo} {spent} q h commit real moved) =
        landed-invariant repo _ spent q commit real (moved-landed node git repo q moved).0
          (History-invariant h)
    History-invariant (late_batch {repo} {spent} seen q h admitted commit real moved) =
        landed-invariant repo _ spent q commit real (transacted-landed node git repo q moved)
          (History-invariant h)

    -- In every history of executions, each of which moves its target to a commit other than forty
    -- zeros or is refused, the batch perhaps after checks on an older state, and in which others
    -- leave the claims in place but change what else they like, whatever the refs and the callers
    -- are: no grant moves a ref twice, and each grant that moved one has its ledger ref. Moves to
    -- forty zeros, which claim nothing, are not part of such a history.
    pub History-one_use :
        (start repo : Repo) (spent : List String)
        → History start repo spent
        → IsNodup spent × All (IsClaimed repo) spent
    History-one_use start repo spent h =
        let (claimed, nodup) = History-invariant h in (nodup, claimed)
