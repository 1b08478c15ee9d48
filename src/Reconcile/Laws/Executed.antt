-- ===== src/Reconcile/Laws/Executed.antt =====
-- A write that the HTTP adapter reports, reconciled with the key of its executor
-- (demo/src/http-atomic.js, demo/src/reconcile.js).
use capability_demo.Prelude.{
  ◌≡◌, refl, sym, ap, ◌∙◌, false, String, ◌==◌, List, ◌∷◌, Option, none, some,
}
use capability_demo.Json.{str}
use capability_demo.Runtime.{Node}
use capability_demo.Git.Execute.{text_or, Attested}
use capability_demo.Attestation.Laws.{not_empty}
use capability_demo.Http.Request.{Origin}
use capability_demo.Http.Canary.{CanaryResult}
use capability_demo.Http.Execute.{HttpRequest, HttpRow, written, http_atomic_execute}
use capability_demo.Http.Laws.Evidence.{IsSealed, http_atomic_execute-IsSealed}
use capability_demo.Reconcile.Report.{Entry, http, confirmed, attest_ok}
use capability_demo.Reconcile.Readers.{
  Context, HttpItem, Reading, readable, read_entry, compared_entry, entry_with, reconcile_http,
}
use capability_demo.Reconcile.Laws.Sealed.{IsPlain, IsRegistered, same_test, stored-Sealed}

module _ (node : Node) where
  confirmed_entry : HttpItem → String → Entry
  confirmed_entry it kid =
      record (entry_with http (some it.jti) confirmed (some attest_ok) (some it.resource_path)
        none) { executor_kid = some kid }

  -- The item that a client keeps of a write that was reported.
  abbrev pub item_of : HttpRow → String → Attested → HttpItem
  item_of row token a = record {
    jti = a.jti;
    resource_path = row.resource_path;
    expected_etag = row.etag_after;
    attestation = some (str token);
  }

  read-Sealed :
      (q : HttpRequest) (row : HttpRow) (token tag : String) (a : Attested) (c : Context)
      → IsSealed node q row token a
      → IsPlain node a
      → IsRegistered node c q.executor.kid q.executor.private_key
      → c.deployment_id ≡ a.deployment_id
      → row.etag_after ≡ some tag
      → (tag == "") ≡ false
      → read_entry node c (item_of row token a) (readable (some tag))
        ≡ confirmed_entry (item_of row token a) q.executor.kid
  unfolding read_entry compared_entry confirmed_entry
  read-Sealed q row token tag a c h p r same after full =
      let (check, accepted) = stored-Sealed node q row token a c h p r same in
      let token_full : (token == "") ≡ false =
        ap (λ t. t == "") h.encoded
        ∙ not_empty node a.executor_kid a.preimage a.signature p.kid p.body p.signature in
      rw (after, full, same_test node tag tag refl, token_full, accepted, h.executor) refl

  -- Whatever the origin answered: a write that an execution reports, with a tag that is not empty,
  -- is confirmed by a reconciliation of the same deployment that is given the jti, the path, the
  -- tag and the token of the report, whatever items follow. The entry has the kid of the executor.
  -- The origin still has to show that tag, and the manifest to have an active key for the kid,
  -- which verifies what the executor signs. The encoding of the preimage is assumed to be read
  -- back, the kid, it and the signature to be full and free of bars, and hashes to be free of bars.
  pub reconcile_http-http_atomic_execute :
      {S : Type 0} (origin : Origin S) (q : HttpRequest) (s : S) (row : HttpRow) (token : String)
      (a : Attested) (canary : Option CanaryResult) (c : Context) (tag : String)
      (read_resource : String → Reading) (items : List HttpItem)
      → (http_atomic_execute node origin s q).0 ≡ written row token a canary
      → IsPlain node a
      → IsRegistered node c q.executor.kid q.executor.private_key
      → c.deployment_id ≡ text_or q.deployment_id
      → row.etag_after ≡ some tag
      → (tag == "") ≡ false
      → read_resource row.resource_path ≡ readable (some tag)
      → reconcile_http node c read_resource (item_of row token a ∷ items)
        ≡ record (entry_with http
            (some a.jti)
            confirmed
            (some attest_ok)
            (some row.resource_path)
            none) { executor_kid = some q.executor.kid }
          ∷ reconcile_http node c read_resource items
  unfolding reconcile_http confirmed_entry
  reconcile_http-http_atomic_execute origin q s row token a canary c tag read_resource items done p
        r same after full shown =
      let h = http_atomic_execute-IsSealed node origin q s row token a canary done in
      ap (λ e. e ∷ reconcile_http node c read_resource items)
        (ap (read_entry node c (item_of row token a)) shown
          ∙ read-Sealed q row token tag a c h p r (same ∙ sym h.deployment) after full)
