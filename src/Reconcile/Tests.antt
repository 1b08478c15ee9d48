-- ===== src/Reconcile/Tests.antt =====
-- Reconciliations of a sealed grant, and the theorems at them.
use Prim.Native.Nat.{ℕ}
use capability_demo.Prelude.{
  ◌≡◌, ◌↔◌, ◌+◌, refl, select, String, ◌==◌, ℤ, split_on, length, List, [], ◌∷◌, none, some,
  if◌then◌else◌,
}
use capability_demo.Json.{str, get}
use capability_demo.Runtime.{scalar}
use capability_demo.Git.Repo.{GitTool}
use capability_demo.Git.Execute.{git_target_descriptor}
use capability_demo.Reconcile.Report.{
  Entry, Outcome, confirmed, rejected, indeterminate, Report, roll_up,
}
use capability_demo.Reconcile.Keyring.{
  inside, check_key_window, posture_clock_skew_leeway_ms, finite_or, text_of_any,
}
use capability_demo.Reconcile.Stored.{
  StoredQuery, exact, check_kid, judge_verdict, check_signed, matches_target,
  verify_stored_attestation, git_ref_of_target,
}
use capability_demo.Reconcile.Readers.{LedgerTables, row_target, readable, query_of}
use capability_demo.Reconcile.Rollup.{PostgresAdapter, HttpAdapter, item_offers, reconcile}
use capability_demo.Reconcile.Laws.Proven.{IsProven, verify_stored_attestation-IsProven}
use capability_demo.Reconcile.Laws.Counts.{worst, total, has_outcome, roll_up-adds_up}
use capability_demo.Reconcile.Laws.Target.{
  IsWithin, git_ref_of_target-git_target_descriptor, check_key_window-inside_iff,
}
use capability_demo.Reconcile.Samples.{preimage, short_preimage, runtime, context, token}

abbrev short_token : String
short_token = "cr.atomic.execution.attestation.v1|e1|BBBB|good"

abbrev no_repo : GitTool ℕ
no_repo = record {
  rev_parse = λ r ref. none;
  reflog = λ r ref. none;
  update_refs = λ r message updates. none;
  for_each_ref = λ r ref. none;
}

abbrev tables : String → String → LedgerTables
tables preimage token = record {
  consumed_grant = λ did jti.
      if jti == "j1"
      then some (record { status = some "sealed"; preimage = some preimage })
      else none;
  attestation = λ did jti. if jti == "j1" then some (str token) else none;
}

abbrev ledger : String → String → PostgresAdapter
ledger preimage token = record {
  context = context;
  tables = tables preimage token;
  jtis = "j1" ∷ "j2" ∷ [];
}

abbrev resource : String → HttpAdapter
resource jti = record {
  context = context;
  read_resource = λ path. readable (some "\"1\"");
  items =
      record {
        jti = jti;
        resource_path = "/doc";
        expected_etag = some "\"1\"";
        attestation = some (str token);
      }
      ∷ [];
}

abbrev outcomes : Report → List Outcome
outcomes r = map_outcomes r.grants
  where
    map_outcomes : List Entry → List Outcome
    map_outcomes [] = []
    map_outcomes (e ∷ es) = e.outcome ∷ map_outcomes es

runs :
    (outcomes (reconcile runtime no_repo none (some (ledger preimage token)) none)
      ≡ confirmed ∷ rejected ∷ [])
    × (outcomes (reconcile runtime no_repo none none (some (resource "j1"))) ≡ confirmed ∷ [])
    × (outcomes (reconcile runtime no_repo none none (some (resource "j2"))) ≡ indeterminate ∷ [])
unfolding reconcile get scalar split_on check_kid judge_verdict row_target check_signed
    matches_target item_offers
runs = (refl, refl, refl)

-- An item without a jti is confirmed by an attestation of another grant, and a row whose preimage
-- ends before the target by one that names no target.
unbound :
    (outcomes (reconcile runtime no_repo none none (some (resource ""))) ≡ confirmed ∷ [])
    × (outcomes (reconcile runtime no_repo none (some (ledger short_preimage short_token)) none)
        ≡ confirmed ∷ rejected ∷ [])
unfolding reconcile get scalar split_on check_kid judge_verdict row_target check_signed
    matches_target item_offers
unbound = (refl, refl)

abbrev stored : StoredQuery
stored = query_of context (some (str token)) "j1" (some (exact "/doc"))

verify_stored_attestation-IsProven_example : IsProven runtime context.executor_keys stored
unfolding verify_stored_attestation get scalar split_on check_kid judge_verdict check_signed
    matches_target
verify_stored_attestation-IsProven_example =
    verify_stored_attestation-IsProven runtime context.executor_keys stored refl

abbrev entries : List Entry
entries = (reconcile runtime no_repo none (some (ledger preimage token)) none).grants

roll_up-adds_up_example :
    ((roll_up entries).outcome ≡ worst entries)
    × (total (roll_up entries).counts ≡ length entries)
    × ((o : Outcome) → (roll_up entries).counts o ≡ length (select (has_outcome o) entries))
    × ((roll_up entries).needs_attention + (roll_up entries).counts confirmed ≡ length entries)
roll_up-adds_up_example = roll_up-adds_up entries

git_ref_of_target-git_target_descriptor_example :
    git_ref_of_target (git_target_descriptor "refs/heads/a@b" "absent:x" "1")
    ≡ some "refs/heads/a@b"
git_ref_of_target-git_target_descriptor_example =
    git_ref_of_target-git_target_descriptor "refs/heads/a@b" "absent:x" "1" refl refl

check_key_window-inside_iff_example :
    (check_key_window runtime "0" (some (str "0")) (some (str "60")) none ≡ inside) ↔ (
      (a : ℤ) × (b : ℤ) × (c : ℤ) × (runtime.date_parse "0" ≡ some a)
      × (runtime.date_parse (text_of_any runtime (some (str "0"))) ≡ some b)
      × (runtime.date_parse (text_of_any runtime (some (str "60"))) ≡ some c)
      × IsWithin (finite_or none posture_clock_skew_leeway_ms) a b c)
check_key_window-inside_iff_example =
    check_key_window-inside_iff runtime "0" (some (str "0")) (some (str "60")) none
