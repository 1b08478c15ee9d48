-- ===== src/Reconcile/Readers.antt =====
-- The readers of the three adapters: reconcileGit, reconcilePostgres and reconcileHttp of
-- demo/src/reconcile.js. The SQL queries and the read of the origin are parameters, as of the
-- moment of the call; a query that throws ends the whole call and is left out.
use capability_demo.Prelude.{
  Bool, false, not, String, ◌==◌, split_on, elem, map, List, [], ◌∷◌, ◌++◌, Option, none, some,
  if◌then◌else◌,
}
use capability_demo.Json.{Json}
use capability_demo.Runtime.{Node, to_text}
use capability_demo.Git.Repo.{GitTool}
use capability_demo.Git.Retention.{is_truthy}
use capability_demo.Git.Reconcile.{LedgerReport, LedgerEntry, Move, reconcile_ledger}
use capability_demo.Reconcile.Report.{
  Adapter, git, postgres, http, Entry, Outcome, confirmed, rejected, released, indeterminate,
  AttestCode, attest_ok, absent, no_ledger_preimage, no_ledger_claim, preimage_mismatch,
  origin_unreadable, no_expected_representation, origin_contradicts,
}
use capability_demo.Reconcile.Keyring.{Manifest}
use capability_demo.Reconcile.Stored.{
  Expected, exact, git_ref, StoredQuery, StoredCheck, proven, doubtful, fifth, preimage_divergence,
  verify_stored_attestation,
}

-- The keys, the deployment and the time that a reader is called with.
pub record Context : Type 0 where
  pub executor_keys : Option Manifest
  pub deployment_id : String
  pub as_of : Option String

abbrev pub entry_with :
    Adapter → Option String → Outcome → Option AttestCode → Option String → Option String → Entry
entry_with adapter jti outcome code subject status = record {
  adapter = adapter;
  jti = jti;
  outcome = outcome;
  attest_status = code;
  executor_kid = none;
  subject = subject;
  status = status;
  downgraded = false;
}

-- An accepted attestation confirms; any other leaves the entry in doubt.
abbrev pub entry_by : Adapter → String → Option String → Option String → StoredCheck → Entry
entry_by adapter jti subject status (proven kid preimage _) =
    record (entry_with adapter (some jti) confirmed (some attest_ok) subject status) {
      executor_kid = some kid;
    }
entry_by adapter jti subject status (doubtful code) =
    entry_with adapter (some jti) indeterminate (some code) subject status

abbrev pub query_of : Context → Option Json → String → Option Expected → StoredQuery
query_of c token jti expected = record {
  token = token;
  jti = jti;
  deployment_id = c.deployment_id;
  as_of = c.as_of;
  expected = expected;
}

-- A row of consumed_grants.
pub record LedgerRow : Type 0 where
  pub status : Option String
  pub preimage : Option String

-- The two queries, by deployment and jti: the first row, and the token of the first row.
pub record LedgerTables : Type 0 where
  pub consumed_grant : String → String → Option LedgerRow
  pub attestation : String → String → Option Json

pub record HttpItem : Type 0 where
  pub jti : String
  pub resource_path : String
  pub expected_etag : Option String
  pub attestation : Option Json

-- What readResource gives: `unreadable` where it throws or its answer is not `ok`.
pub data Reading : Type 0 where
  unreadable : Reading
  readable : (etag : Option String) → Reading

abbrev pub is_text_of : Option String → String → Bool
is_text_of none s = false
is_text_of (some t) s = t == s

abbrev pub full_text_of : Option String → Option String
full_text_of none = none
full_text_of (some s) = if s == "" then none else some s

module _ (node : Node) (c : Context) where
  module _ {Repo : Type 0} (tool : GitTool Repo) where
    unfoldable pub git_entry : (String → Option Json) → LedgerReport → Move → Entry
    unfolding verify_stored_attestation
    git_entry attestations r mv =
        if elem mv.jti (map (λ (m : Move). m.jti) r.missing_ledger)
        then entry_with git (some mv.jti) indeterminate (some no_ledger_claim) (some mv.ref) none
        else if elem mv.jti (map (λ (m : Move). m.jti) r.unattested)
        then entry_with git (some mv.jti) indeterminate (some absent) (some mv.ref) none
        else entry_by git mv.jti (some mv.ref) none (
            verify_stored_attestation node c.executor_keys
              (query_of c (attestations mv.jti) mv.jti (some (git_ref mv.ref))))

    abbrev pub released_entry : LedgerEntry → Entry
    released_entry e = entry_with git none released none (some e.ref) none

    unfoldable pub reconcile_git : Repo → List String → (String → Option Json) → List Entry
    unfolding git_entry reconcile_ledger
    reconcile_git repo refs attestations =
        let r = reconcile_ledger tool node repo refs (λ jti. is_truthy (attestations jti)) in
        map (git_entry attestations r) r.moves ++ map released_entry r.ledger_without_move

  -- `fields.length >= 5 ? { kind: EXACT, value: fields[4] } : null`
  unfoldable pub row_target : String → Option Expected
  unfolding split_on
  row_target preimage = elim (fifth (split_on b'|' preimage)) [
    | none ↦ none
    | some target ↦ some (exact target)
  ]

  -- The preimage of a token of four segments.
  abbrev pub third_of_four : List String → Option String
  third_of_four (a ∷ b ∷ body ∷ d ∷ []) = some (node.from_base64url body)
  third_of_four _ = none

  unfoldable pub divergence_of : Option String → String → AttestCode
  unfolding preimage_divergence
  divergence_of none preimage = preimage_mismatch
  divergence_of (some signed) preimage = preimage_divergence signed preimage

  unfoldable pub bound_entry : String → LedgerRow → String → Option Json → Entry
  unfolding divergence_of verify_stored_attestation split_on
  bound_entry jti row preimage token =
      let signed =
        third_of_four (split_on b'|' (elim token [ none ↦ "" | some t ↦ to_text node t ])) in
      if not (is_text_of signed preimage)
      then entry_with postgres (some jti) indeterminate (some (divergence_of signed preimage)) none
          row.status
      else entry_by postgres jti none row.status (
          verify_stored_attestation node c.executor_keys
            (query_of c token jti (row_target preimage)))

  unfoldable pub row_entry : String → LedgerRow → Option Json → Entry
  unfolding bound_entry
  row_entry jti row token =
      if not (is_truthy token)
      then entry_with postgres (some jti) indeterminate (some absent) none row.status
      else elim (full_text_of row.preimage) [
        | none ↦
            entry_with postgres (some jti) indeterminate (some no_ledger_preimage) none row.status
        | some preimage ↦ bound_entry jti row preimage token
      ]

  unfoldable pub postgres_entry : LedgerTables → String → Entry
  unfolding row_entry
  postgres_entry tables jti = elim (tables.consumed_grant c.deployment_id jti) [
    | none ↦ entry_with postgres (some jti) rejected none none none
    | some row ↦ row_entry jti row (tables.attestation c.deployment_id jti)
  ]

  unfoldable pub reconcile_postgres : LedgerTables → List String → List Entry
  unfolding postgres_entry
  reconcile_postgres tables jtis = map (postgres_entry tables) jtis

  unfoldable pub compared_entry : HttpItem → Option String → String → Entry
  unfolding verify_stored_attestation
  compared_entry it etag expected =
      if not (is_text_of etag expected)
      then (if is_truthy it.attestation
          then entry_with http (some it.jti) indeterminate (some origin_contradicts)
              (some it.resource_path) none
          else entry_with http (some it.jti) rejected none (some it.resource_path) none)
      else if not (is_truthy it.attestation)
      then entry_with http (some it.jti) indeterminate (some absent) (some it.resource_path) none
      else entry_by http it.jti (some it.resource_path) none (
          verify_stored_attestation node c.executor_keys
            (query_of c it.attestation it.jti (some (exact it.resource_path))))

  unfoldable pub read_entry : HttpItem → Reading → Entry
  unfolding compared_entry
  read_entry it unreadable =
      entry_with http (some it.jti) indeterminate (some origin_unreadable) (some it.resource_path)
        none
  read_entry it (readable etag) = elim (full_text_of it.expected_etag) [
    | none ↦
        entry_with http (some it.jti) indeterminate (some no_expected_representation)
          (some it.resource_path) none
    | some expected ↦ compared_entry it etag expected
  ]

  unfoldable pub reconcile_http : (String → Reading) → List HttpItem → List Entry
  unfolding read_entry
  reconcile_http read_resource items =
      map (λ it. read_entry it (read_resource it.resource_path)) items
