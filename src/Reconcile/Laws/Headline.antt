-- ===== src/Reconcile/Laws/Headline.antt =====
-- What the report of a reconciliation says (demo/src/reconcile.js).
use capability_demo.Prelude.{◌≡◌, ◌⊎◌, Bool, true, Option, some}
use capability_demo.Runtime.{Node}
use capability_demo.Git.Repo.{GitTool}
use capability_demo.Reconcile.Report.{Entry, is_ok}
use capability_demo.Reconcile.Rollup.{GitAdapter, PostgresAdapter, HttpAdapter, is_sealed}
use capability_demo.Reconcile.Laws.Confirmed.{IsGitBacked, IsPostgresBacked, IsHttpBacked}

-- What a report of the three adapters may confirm: the entry carries the code of an accepted
-- attestation, and the reader's evidence stands behind it; on Postgres the row is sealed.
module _ (node : Node) {Repo : Type 0} (g : Option (GitAdapter Repo)) (p : Option PostgresAdapter)
    (h : Option HttpAdapter) (tool : GitTool Repo) where
  abbrev pub IsBacked : Entry → Type 0
  IsBacked e =
      (is_ok e.attest_status ≡ true)
      × (((a : GitAdapter Repo) × (g ≡ some a) × IsGitBacked node tool a e)
          ⊎ (((a : PostgresAdapter) × (p ≡ some a)
                × (is_sealed e ≡ true)
                × IsPostgresBacked node a e)
              ⊎ ((a : HttpAdapter) × (h ≡ some a) × IsHttpBacked node a e)))
