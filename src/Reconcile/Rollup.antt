-- ===== src/Reconcile/Rollup.antt =====
-- The unified entry point, `reconcile` of demo/src/reconcile.js.
use capability_demo.Prelude.{
  Bool, false, String, ◌==◌, List, [], ◌∷◌, ◌++◌, Option, none, some, if◌then◌else◌,
}
use capability_demo.Json.{Json}
use capability_demo.Runtime.{Node}
use capability_demo.Git.Repo.{GitTool}
use capability_demo.Git.Retention.{is_truthy}
use capability_demo.Reconcile.Report.{Entry, Report, enforce_no_unproven_confirmed, roll_up}
use capability_demo.Reconcile.Readers.{
  Context, LedgerTables, HttpItem, Reading, reconcile_git, reconcile_postgres, reconcile_http,
}

-- The adapters that the caller supplies. Each has its own context, into which the keys and the time
-- of the call have been put where the adapter brings none.
pub record GitAdapter (Repo : Type 0) : Type 0 where
  pub context : Context
  pub repo : Repo
  pub refs : List String
  pub attestations_by_jti : String → Option Json

pub record PostgresAdapter : Type 0 where
  pub context : Context
  pub tables : LedgerTables
  pub jtis : List String

pub record HttpAdapter : Type 0 where
  pub context : Context
  pub read_resource : String → Reading
  pub items : List HttpItem

-- `att[e.jti]`, where a missing jti names no attestation
abbrev pub offers : (String → Option Json) → Entry → Bool
offers attestations e = elim e.jti [ none ↦ false | some jti ↦ is_truthy (attestations jti) ]

abbrev pub is_sealed : Entry → Bool
is_sealed e = elim e.status [ none ↦ false | some s ↦ s == "sealed" ]

-- The last item of a jti, as a `Map` keeps it.
unfoldable pub last_item : List HttpItem → String → Option HttpItem
last_item [] jti = none
last_item (it ∷ its) jti = elim (last_item its jti) [
  | some other ↦ some other
  | none ↦ if it.jti == jti then some it else none
]

abbrev pub item_attested : Option HttpItem → Bool
item_attested none = false
item_attested (some it) = is_truthy it.attestation

unfoldable pub item_offers : List HttpItem → Entry → Bool
unfolding last_item
item_offers items e = elim e.jti [ none ↦ false | some jti ↦ item_attested (last_item items jti) ]

module _ (node : Node) {Repo : Type 0} (tool : GitTool Repo) where
  unfoldable pub git_part : Option (GitAdapter Repo) → List Entry
  unfolding reconcile_git enforce_no_unproven_confirmed
  git_part none = []
  git_part (some a) =
      enforce_no_unproven_confirmed (offers a.attestations_by_jti)
        (reconcile_git node a.context tool a.repo a.refs a.attestations_by_jti)

  unfoldable pub postgres_part : Option PostgresAdapter → List Entry
  unfolding reconcile_postgres enforce_no_unproven_confirmed
  postgres_part none = []
  postgres_part (some a) =
      enforce_no_unproven_confirmed is_sealed (reconcile_postgres node a.context a.tables a.jtis)

  unfoldable pub http_part : Option HttpAdapter → List Entry
  unfolding reconcile_http enforce_no_unproven_confirmed last_item
  http_part none = []
  http_part (some a) =
      enforce_no_unproven_confirmed (item_offers a.items)
        (reconcile_http node a.context a.read_resource a.items)

  unfoldable pub reconcile :
      Option (GitAdapter Repo) → Option PostgresAdapter → Option HttpAdapter → Report
  unfolding git_part postgres_part http_part roll_up
  reconcile g p h = roll_up (git_part g ++ (postgres_part p ++ http_part h))
