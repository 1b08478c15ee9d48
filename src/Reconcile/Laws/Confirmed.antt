-- ===== src/Reconcile/Laws/Confirmed.antt =====
-- What stands behind a grant that a reconciliation confirms (demo/src/reconcile.js).
use capability_demo.Prelude.{
  ◌≡◌, refl, ap, ◌∙◌, not, String, split_on, elem, map, All, Option, none, some, Option-cases, inl,
  inr,
}
use capability_demo.Json.{Json}
use capability_demo.Runtime.{Node, to_text}
use capability_demo.Git.Repo.{GitTool}
use capability_demo.Git.Retention.{is_truthy}
use capability_demo.Prelude.{Bool, true, false, ◌||◌, ◌⊎◌, eq_refl, select, List, [], ◌∷◌, ◌==◌}
use capability_demo.Git.Reconcile.{
  LedgerEntry, list_consumed_ledger, LedgerReport, Move, reconcile_ledger,
}
use capability_demo.Reconcile.Report.{git, postgres, http, Entry}
use capability_demo.Reconcile.Stored.{exact, git_ref, verify_stored_attestation}
use capability_demo.Reconcile.Readers.{
  LedgerRow, HttpItem, Reading, unreadable, readable, query_of, is_text_of, full_text_of,
  third_of_four, row_target, git_entry, released_entry, reconcile_git, bound_entry, row_entry,
  postgres_entry, reconcile_postgres, compared_entry, read_entry, reconcile_http,
}
use capability_demo.Reconcile.Rollup.{GitAdapter, PostgresAdapter, HttpAdapter}
use capability_demo.Reconcile.Laws.Proven.{IsProven, verify_stored_attestation-IsProven}
use capability_demo.Reconcile.Laws.Entries.{
  map-All, map-All-in, append-All, entry_by-confirmed, doubt, refusal, release, entry_by-parts,
  is_text_of_sound, full_text_of_sound, Backs, if-Backs, if-Backs-else,
}

module _ (node : Node) where
  -- A ledger ref with the hash of the jti is listed.
  abbrev pub HasClaim : {Repo : Type 0} → GitTool Repo → Repo → String → Type 0
  HasClaim tool repo jti =
      elem (node.sha256 jti)
        (map (λ (e : LedgerEntry). e.jti_hash) (list_consumed_ledger tool repo))
      ≡ true

  -- The ledger has the grant, and the attestation offered for it holds for the ref.
  pub record IsGitBacked {Repo : Type 0} (tool : GitTool Repo) (a : GitAdapter Repo) (e : Entry)
      : Type 0 where
    pub jti : String
    pub ref : String
    pub names : e.jti ≡ some jti
    pub about : e.subject ≡ some ref
    pub claimed : HasClaim tool a.repo jti
    pub proof :
        IsProven node a.context.executor_keys
          (query_of a.context (a.attestations_by_jti jti) jti (some (git_ref ref)))

  -- The grant was consumed, and the stored attestation carries the preimage of its row.
  pub record IsPostgresBacked (a : PostgresAdapter) (e : Entry) : Type 0 where
    pub jti : String
    pub names : e.jti ≡ some jti
    pub row : LedgerRow
    pub consumed : a.tables.consumed_grant a.context.deployment_id jti ≡ some row
    pub status : e.status ≡ row.status
    pub preimage : String
    pub has_preimage : row.preimage ≡ some preimage
    pub token : Json
    pub stored : a.tables.attestation a.context.deployment_id jti ≡ some token
    pub carries : third_of_four node a.context (split_on b'|' (to_text node token)) ≡ some preimage
    pub proof :
        IsProven node a.context.executor_keys
          (query_of a.context (some token) jti (row_target node a.context preimage))

  -- The origin shows the expected representation, and the attestation holds for that resource.
  pub record IsHttpBacked (a : HttpAdapter) (e : Entry) : Type 0 where
    pub item : HttpItem
    pub names : e.jti ≡ some item.jti
    pub about : e.subject ≡ some item.resource_path
    pub etag : String
    pub shown : a.read_resource item.resource_path ≡ readable (some etag)
    pub expected : item.expected_etag ≡ some etag
    pub proof :
        IsProven node a.context.executor_keys
          (query_of a.context item.attestation item.jti (some (exact item.resource_path)))

  module _ {Repo : Type 0} (tool : GitTool Repo) (a : GitAdapter Repo) where
    -- A move is listed as missing from the ledger, or its grant has a claim.
    abbrev IsSorted : LedgerReport → Move → Type 0
    IsSorted r mv =
        HasClaim tool a.repo mv.jti
        ⊎ (elem mv.jti (map (λ (m : Move). m.jti) r.missing_ledger) ≡ true)

    git_entry-IsGitBacked :
        (r : LedgerReport) (mv : Move)
        → IsSorted r mv
        → Backs (IsGitBacked tool a) (git_entry node a.context tool a.attestations_by_jti r mv)
    unfolding git_entry
    git_entry-IsGitBacked r mv sorted =
        let check =
          verify_stored_attestation node a.context.executor_keys
            (query_of a.context (a.attestations_by_jti mv.jti) mv.jti (some (git_ref mv.ref))) in
        let (names, about, _) = entry_by-parts git mv.jti (some mv.ref) none check in
        if-Backs (IsGitBacked tool a) (elem mv.jti (map (λ (m : Move). m.jti) r.missing_ledger)) _ _
          doubt
          (λ listed.
            if-Backs (IsGitBacked tool a) (elem mv.jti (map (λ (m : Move). m.jti) r.unattested)) _ _
              doubt
              (λ _ h. record {
                jti = mv.jti;
                ref = mv.ref;
                names = names;
                about = about;
                claimed = sorted_claim sorted listed;
                proof =
                    verify_stored_attestation-IsProven node _ _
                      (entry_by-confirmed _ _ _ _ check h);
              }))
      where
        sorted_claim :
            IsSorted r mv
            → elem mv.jti (map (λ (m : Move). m.jti) r.missing_ledger) ≡ false
            → HasClaim tool a.repo mv.jti
        sorted_claim (inl h) k = h
        sorted_claim (inr h) k = cc

    -- Each move has the property or is listed as missing.
    abbrev Sorts : (Move → Bool) → List Move → List Move → Type 0
    Sorts p missing ms =
        All
          (λ (mv : Move). (p mv ≡ true) ⊎ (elem mv.jti (map (λ (m : Move). m.jti) missing) ≡ true))
          ms

    Sorts-later :
        (p : Move → Bool) (m : Move) (missing xs : List Move)
        → Sorts p missing xs
        → Sorts p (m ∷ missing) xs
    Sorts-later p m missing [] h = tt
    Sorts-later p m missing (x ∷ xs) (inl h, k) = (inl h, Sorts-later p m missing xs k)
    Sorts-later p m missing (x ∷ xs) (inr h, k) =
        (inr (rw h (or_true (m.jti == x.jti))), Sorts-later p m missing xs k)
      where
        or_true : (b : Bool) → (b || true) ≡ true
        or_true true = refl
        or_true false = refl

    Sorts-step :
        (p : Move → Bool) (m : Move) (b : Bool) (missing xs : List Move)
        → p m ≡ b
        → Sorts p missing xs
        → Sorts p (elim (not b) [ true ↦ m ∷ missing | false ↦ missing ]) (m ∷ xs)
    Sorts-step p m true missing xs e h = (inl e, h)
    Sorts-step p m false missing xs e h =
        (inr (rw (eq_refl m.jti) refl), Sorts-later p m missing xs h)

    sorts : (p : Move → Bool) (ms : List Move) → Sorts p (select (λ m. not (p m)) ms) ms
    sorts p [] = tt
    sorts p (m ∷ ms) = Sorts-step p m (p m) (select (λ x. not (p x)) ms) ms refl (sorts p ms)

    pub reconcile_git-IsGitBacked :
        All
          (Backs (IsGitBacked tool a))
          (reconcile_git node a.context tool a.repo a.refs a.attestations_by_jti)
    unfolding reconcile_git reconcile_ledger
    reconcile_git-IsGitBacked =
        let r =
          reconcile_ledger tool node a.repo a.refs (λ jti. is_truthy (a.attestations_by_jti jti)) in
        let entry_for = git_entry node a.context tool a.attestations_by_jti r in
        let free = released_entry node a.context tool in
        append-All (Backs (IsGitBacked tool a)) (map entry_for r.moves)
          (map free r.ledger_without_move)
          (map-All-in (Backs (IsGitBacked tool a)) (IsSorted r) entry_for r.moves
            (git_entry-IsGitBacked r)
            (sorts
              (λ (mv : Move).
                elem (node.sha256 mv.jti)
                  (map (λ (e : LedgerEntry). e.jti_hash) (list_consumed_ledger tool a.repo)))
              r.moves))
          (map-All (Backs (IsGitBacked tool a)) free r.ledger_without_move
            (λ e h. absurd (release h)))

  module _ (a : PostgresAdapter) where
    bound-IsPostgresBacked :
        (jti preimage : String) (row : LedgerRow) (token : Json)
        → a.tables.consumed_grant a.context.deployment_id jti ≡ some row
        → row.preimage ≡ some preimage
        → a.tables.attestation a.context.deployment_id jti ≡ some token
        → Backs (IsPostgresBacked a) (bound_entry node a.context jti row preimage (some token))
    unfolding bound_entry
    bound-IsPostgresBacked jti preimage row token consumed has stored =
        let check =
          verify_stored_attestation node a.context.executor_keys
            (query_of a.context (some token) jti (row_target node a.context preimage)) in
        let signed = third_of_four node a.context (split_on b'|' (to_text node token)) in
        let (names, _, status) = entry_by-parts postgres jti none row.status check in
        if-Backs (IsPostgresBacked a) (not (is_text_of signed preimage)) _ _ doubt (λ same h.
          record {
            jti = jti;
            names = names;
            row = row;
            consumed = consumed;
            status = status;
            preimage = preimage;
            has_preimage = has;
            token = token;
            stored = stored;
            carries = is_text_of_sound signed preimage same;
            proof =
                verify_stored_attestation-IsProven node _ _ (entry_by-confirmed _ _ _ _ check h);
          })

    row-IsPostgresBacked :
        (jti : String) (row : LedgerRow) (token : Option Json)
        → a.tables.consumed_grant a.context.deployment_id jti ≡ some row
        → a.tables.attestation a.context.deployment_id jti ≡ token
        → Backs (IsPostgresBacked a) (row_entry node a.context jti row token)
    unfolding row_entry
    row-IsPostgresBacked jti row none consumed stored = λ h. absurd (doubt h)
    row-IsPostgresBacked jti row (some token) consumed stored =
        if-Backs (IsPostgresBacked a) (not (is_truthy (some token))) _ _ doubt (λ _.
          elim (Option-cases (full_text_of row.preimage)) [
            | inl e ↦ rw e (λ h. absurd (doubt h))
            | inr (preimage, e) ↦ rw e (
                bound-IsPostgresBacked jti preimage row token consumed
                  (full_text_of_sound row.preimage preimage e) stored)
          ])

    postgres_entry-IsPostgresBacked :
        (jti : String) → Backs (IsPostgresBacked a) (postgres_entry node a.context a.tables jti)
    unfolding postgres_entry
    postgres_entry-IsPostgresBacked jti =
        elim (Option-cases (a.tables.consumed_grant a.context.deployment_id jti)) [
          | inl e ↦ rw (e, postgres_entry) (λ h. absurd (refusal h))
          | inr (row, e) ↦ rw (e, postgres_entry) (row-IsPostgresBacked jti row _ e refl)
        ]

    pub reconcile_postgres-IsPostgresBacked :
        All (Backs (IsPostgresBacked a)) (reconcile_postgres node a.context a.tables a.jtis)
    unfolding reconcile_postgres
    reconcile_postgres-IsPostgresBacked =
        map-All (Backs (IsPostgresBacked a)) _ a.jtis postgres_entry-IsPostgresBacked

  module _ (a : HttpAdapter) where
    compared-IsHttpBacked :
        (it : HttpItem) (etag : Option String) (expected : String)
        → a.read_resource it.resource_path ≡ readable etag
        → it.expected_etag ≡ some expected
        → Backs (IsHttpBacked a) (compared_entry node a.context it etag expected)
    unfolding compared_entry
    compared-IsHttpBacked it etag expected shown wanted =
        let check =
          verify_stored_attestation node a.context.executor_keys
            (query_of a.context it.attestation it.jti (some (exact it.resource_path))) in
        let (names, about, _) = entry_by-parts http it.jti (some it.resource_path) none check in
        if-Backs-else (IsHttpBacked a) (not (is_text_of etag expected)) _ _
          (if-Backs-else (IsHttpBacked a) (is_truthy it.attestation) _ _ (λ h. absurd (doubt h))
            (λ _ h. absurd (refusal h)))
          (λ same. if-Backs (IsHttpBacked a) (not (is_truthy it.attestation)) _ _ doubt (λ _ h.
            record {
              item = it;
              names = names;
              about = about;
              etag = expected;
              shown = shown ∙ ap readable (is_text_of_sound etag expected same);
              expected = wanted;
              proof =
                  verify_stored_attestation-IsProven node _ _ (entry_by-confirmed _ _ _ _ check h);
            }))

    read-IsHttpBacked :
        (it : HttpItem) (r : Reading)
        → a.read_resource it.resource_path ≡ r
        → Backs (IsHttpBacked a) (read_entry node a.context it r)
    unfolding read_entry
    read-IsHttpBacked it unreadable e = λ h. absurd (doubt h)
    read-IsHttpBacked it (readable etag) e = elim (Option-cases (full_text_of it.expected_etag)) [
      | inl f ↦ rw (f, read_entry) (λ h. absurd (doubt h))
      | inr (expected, f) ↦
          rw (f, read_entry)
            (compared-IsHttpBacked it etag expected e
              (full_text_of_sound it.expected_etag expected f))
    ]

    pub reconcile_http-IsHttpBacked :
        All (Backs (IsHttpBacked a)) (reconcile_http node a.context a.read_resource a.items)
    unfolding reconcile_http
    reconcile_http-IsHttpBacked =
        map-All (Backs (IsHttpBacked a)) _ a.items (λ it. read-IsHttpBacked it _ refl)
