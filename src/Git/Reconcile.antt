-- ===== src/Git/Reconcile.antt =====
-- Reconciliation after a crash (reconcileRef, listConsumedLedger and reconcileLedger of
-- demo/src/git-atomic.js). The texts of the reasons are left out.
use Prim.Native.Nat.{ℕ}
use Prim.Native.String.{slice, count}
use text.Mathlib.Text.{starts_with}
use capability_demo.Prelude.{
  Bool, not, String, concat, elem, split_on, length, select, map, List, [], ◌∷◌, ◌++◌, Option, none,
  some, eqb, ◌+◌, if◌then◌else◌,
}
use capability_demo.Runtime.{Node}
use capability_demo.Git.Repo.{GitTool, reflog_markers}
use capability_demo.Git.Execute.{reflog_marker, ledger_prefix}

abbrev pub marker_prefix : String
marker_prefix = concat reflog_marker " jti="

-- The jtis of the markers: `slice` from the end of the prefix.
unfoldable pub jtis_of : List String → List String
jtis_of markers =
    map (λ m. slice m (count marker_prefix) (count m))
      (select (λ m. starts_with m marker_prefix) markers)

pub data ReconcileOutcome : Type 0 where
  reconciled indeterminate : ReconcileOutcome

abbrev pub outcome_of_problems : ℕ → ReconcileOutcome
outcome_of_problems n = if eqb n 0 then reconciled else indeterminate

pub record RefReport : Type 0 where
  pub ref : String
  pub moved_by_grants : List String
  pub unattested : List String
  pub outcome : ReconcileOutcome

pub record LedgerEntry : Type 0 where
  pub ref : String
  pub object : String
  pub jti_hash : String

pub record Move : Type 0 where
  pub ref : String
  pub jti : String

pub record LedgerReport : Type 0 where
  pub ledger_entries : ℕ
  pub moves : List Move
  pub missing_ledger : List Move
  pub unattested : List Move
  pub ledger_without_move : List LedgerEntry
  pub outcome : ReconcileOutcome

-- `split('/').pop()`
abbrev last_of : List String → String
last_of [] = ""
last_of (x ∷ []) = x
last_of (x ∷ (y ∷ rest)) = last_of (y ∷ rest)

abbrev entry_of : String × String → LedgerEntry
entry_of line = record { ref = line.0; object = line.1; jti_hash = last_of (split_on b'/' line.0) }

abbrev entries_or_none : Option (List (String × String)) → List (String × String)
entries_or_none none = []
entries_or_none (some lines) = lines

module _ {Repo : Type 0} (git : GitTool Repo) where
  -- `attested` tells whether there is an attestation for a jti.
  unfoldable pub reconcile_ref : Repo → String → (String → Bool) → RefReport
  unfolding jtis_of
  reconcile_ref repo ref attested =
      let mine = jtis_of (reflog_markers git repo ref) in
      let unattested = select (λ jti. not (attested jti)) mine in
      record {
        ref = ref;
        moved_by_grants = mine;
        unattested = unattested;
        outcome = outcome_of_problems (length unattested);
      }

  unfoldable pub list_consumed_ledger : Repo → List LedgerEntry
  list_consumed_ledger repo = map entry_of (entries_or_none (git.for_each_ref repo ledger_prefix))

  unfoldable pub moves_of : Repo → List String → List Move
  unfolding jtis_of
  moves_of repo [] = []
  moves_of repo (ref ∷ refs) =
      map (λ jti. record { ref = ref; jti = jti }) (jtis_of (reflog_markers git repo ref))
      ++ moves_of repo refs

  unfoldable pub reconcile_ledger : Node → Repo → List String → (String → Bool) → LedgerReport
  unfolding moves_of list_consumed_ledger
  reconcile_ledger node repo refs attested =
      let ledger = list_consumed_ledger repo in
      let moves = moves_of repo refs in
      let missing =
        select
          (λ (mv : Move).
            not (elem (node.sha256 mv.jti) (map (λ (e : LedgerEntry). e.jti_hash) ledger)))
          moves in
      let unattested = select (λ (mv : Move). not (attested mv.jti)) moves in
      record {
        ledger_entries = length ledger;
        moves = moves;
        missing_ledger = missing;
        unattested = unattested;
        ledger_without_move =
            select
              (λ (e : LedgerEntry).
                not (elem e.jti_hash (map (λ (mv : Move). node.sha256 mv.jti) moves)))
              ledger;
        outcome = outcome_of_problems (length missing + length unattested);
      }
