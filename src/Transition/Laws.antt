-- ===== src/Transition/Laws.antt =====
-- When a move is graded as proven (demo/src/target-state-transition.js).
use capability_demo.Prelude.{◌≡◌, String, concat, some}
use capability_demo.Json.{Json, str, get}
use capability_demo.Runtime.{Node}
use capability_demo.Transition.Attested.{CoreVerifier}
use capability_demo.Transition.Grade.{GradeInput, CatFile, parents_of, both_full}
use capability_demo.Transition.Signed.{IsSigned}
use capability_demo.Transition.Shown.{IsOnlyParent, TouchesOnly, IsHeld}
use capability_demo.Transition.Checks.{Holds, Shows}

module _ (node : Node) (core : CoreVerifier) (cat_file : CatFile) where
  -- What a move must show to be graded as proven.
  pub record IsProvenMove (o : GradeInput) (seen : Json) : Type 0 where
    pub target : Shows seen "canonical_target_uri" o.expected.canonical_target_uri
    pub lineage : Shows seen "repo_lineage_id" o.expected.repo_id
    pub ref : Shows seen "target_ref" o.expected.ref
    pub reached : IsHeld (get "observed_commit" seen) o.expected.contract_commit
    pub left : Shows seen "before_commit" o.expected.base
    pub path : Shows seen "contract_path" o.expected.contract_path
    pub bytes : Shows seen "contract_blob_digest" o.expected.contract_blob_digest
    pub payload :
        Holds o.expected.after_payload
          (λ v. get "contract_blob_digest" seen ≡ some (str (concat "sha256:" (node.sha256 v))))
    pub parents :
        (repo commit : String)
        → both_full o.repo_path o.expected.contract_commit ≡ some (repo, commit)
        → IsOnlyParent (parents_of cat_file repo commit) o.expected.base
    pub company : Holds o.expected.contract_path (λ v. TouchesOnly v (get "changed_paths" seen))
    pub mode : get "observer_mode" seen ≡ some (str "read_only")
    pub source : get "observation_source" seen ≡ some (str "git-object-database")
    pub signed : IsSigned node core o.attestation o.expected seen
