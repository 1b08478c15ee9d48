-- ===== src/Reconcile/ExecutedTests.antt =====
-- A write of the HTTP adapter that is reconciled.
use Prim.Native.Nat.{ℕ}
use capability_demo.Prelude.{◌≡◌, refl, String, ◌==◌, [], ◌∷◌, none, some}
use capability_demo.Json.{get}
use capability_demo.Runtime.{Node, scalar}
use capability_demo.Reconcile.Report.{confirmed}
use capability_demo.Reconcile.Readers.{readable}
use capability_demo.Prelude.{◌≢◌, eq_iff, true, false}
use capability_demo.Samples.{bound_body}
use capability_demo.Git.Execute.{Attested}
use capability_demo.Http.Request.{Origin}
use capability_demo.Http.Execute.{HttpRequest, HttpRow, passive, http_profile, http_atomic_execute}
use capability_demo.Reconcile.Report.{http, attest_ok}
use capability_demo.Reconcile.Keyring.{resolve_key_manifest, public_key_of}
use capability_demo.Reconcile.Readers.{reconcile_http, entry_with}
use capability_demo.Reconcile.Laws.Sealed.{IsPlain, IsRegistered}
use capability_demo.Reconcile.Laws.Executed.{item_of, reconcile_http-http_atomic_execute}
use capability_demo.Reconcile.Samples.{preimage, runtime, key, context, token}

-- A runtime whose hash is short.
abbrev hashing : Node
hashing = record runtime { sha256 = λ s. "x" }

-- An origin that accepts every write and keeps its tag.
abbrev steady : Origin ℕ
steady = record {
  fetch =
      λ s url init. (some (record { status = 200; ok = true; etag = some "\"1\""; text = "" }), s);
}

abbrev request : HttpRequest
request = record {
  base_url = some "https://api/";
  resource_path = some "/doc";
  payload = some bound_body;
  if_match_etag = some "\"1\"";
  method = none;
  body = none;
  executor = record { private_key = "key"; kid = "e1" };
  deployment_id = some "d1";
  crash_before_seal = false;
  canary = passive;
}

abbrev row : HttpRow
row = record {
  method = "PUT";
  resource_path = "/doc";
  if_match = "\"1\"";
  etag_after = some "\"1\"";
  profile = http_profile;
}

abbrev attested : Attested
attested = record {
  executor_kid = "e1";
  jti = "j1";
  deployment_id = "d1";
  preimage = preimage;
  preimage_hash = "sha256:x";
  signature = "good";
}

full : (s : String) → (s == "") ≡ false → s ≢ ""
full s h e = let empty : (s == "") ≡ true = (eq_iff s "").1 e in cc

plain : IsPlain hashing attested
plain = record {
  back = refl;
  kid = record { full = full _ refl; plain = refl };
  body = record { full = full _ refl; plain = refl };
  signature = record { full = full _ refl; plain = refl };
  hash = λ s. refl;
}

registered : IsRegistered hashing context "e1" "key"
unfolding resolve_key_manifest public_key_of
registered = record {
  manifest = record { keys = some (key ∷ []) };
  has_keys = refl;
  entry = key;
  found = refl;
  active = refl;
  key = "pem";
  usable = refl;
  pair = λ message. refl;
}

reconcile_http-http_atomic_execute_example :
    reconcile_http hashing context
      (λ path. readable (some "\"1\""))
      (item_of hashing row token attested ∷ [])
    ≡ record (entry_with http (some "j1") confirmed (some attest_ok) (some "/doc") none) {
      executor_kid = some "e1";
    }
      ∷ reconcile_http hashing context (λ path. readable (some "\"1\"")) []
unfolding http_atomic_execute scalar get
reconcile_http-http_atomic_execute_example =
    reconcile_http-http_atomic_execute hashing steady request 0 row token attested none context
      "\"1\"" (λ path. readable (some "\"1\"")) [] refl plain registered refl refl refl refl
