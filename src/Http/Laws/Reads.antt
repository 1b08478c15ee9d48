-- ===== src/Http/Laws/Reads.antt =====
-- The requests that a probe sends, on an origin that keeps them (demo/src/http-atomic.js).
use capability_demo.Prelude.{
  ◌≡◌, refl, String, ◌==◌, List, ◌∷◌, All, Option, none, some, Bool-cases, inl, inr,
}
use capability_demo.Http.Request.{
  FetchInit, HttpResponse, Origin, Observed, Resource, resource_at, no_resource, observation,
  observed_by, is_redirect_status, http_request, observe_etag,
}
use capability_demo.Http.Canary.{probe_etag, probe_observed, probe_resource}

-- A request as it goes out.
pub record Sent : Type 0 where
  pub url : String
  pub init : FetchInit

-- An origin that keeps the requests, the last one first.
abbrev pub logged : {S : Type 0} → Origin S → Origin (S × List Sent)
logged origin = record {
  fetch = λ s url init. (
    (origin.fetch s.0 url init).0,
    ((origin.fetch s.0 url init).1, record { url = url; init = init } ∷ s.1),
  );
}

-- A GET without a body.
abbrev pub IsRead : Sent → Type 0
IsRead r = (r.init.method ≡ "GET") × (r.init.body ≡ none)

module _ {S : Type 0} (origin : Origin S) where
  probed_reads :
      (s : S × List Sent) (url : String) (o : Observed) (etag : Option String)
      → All IsRead s.1
      → All IsRead (probe_etag (logged origin) s url o etag).1.1
  unfolding probe_etag http_request
  probed_reads s url o none k = k
  probed_reads s url o (some etag) k = elim (Bool-cases (etag == "")) [
    | inl e ↦ rw e k
    | inr e ↦ rw e ((refl, refl), k)
  ]

  judged_reads :
      (s : S × List Sent) (url : String) (o : Option Observed)
      → All IsRead s.1
      → All IsRead (probe_observed (logged origin) url (o, s)).1.1
  unfolding probe_observed
  judged_reads s url none k = k
  judged_reads s url (some o) k = elim (Bool-cases (is_redirect_status o.status)) [
    | inl e ↦ rw e k
    | inr e ↦
        rw e
          (elim (Bool-cases o.ok) [ inl f ↦ rw f (probed_reads s url o o.etag k) | inr f ↦ rw f k ])
  ]

  pub resource_reads :
      (s : S × List Sent) (r : Resource)
      → All IsRead s.1
      → All IsRead (probe_resource (logged origin) s r).1.1
  unfolding probe_resource observe_etag http_request probe_observed
  resource_reads s (no_resource reason) k = k
  resource_reads s (resource_at url) k =
      observed_reads (origin.fetch s.0 url _).0 (_, _) ((refl, refl), k)
    where
      observed_reads :
          (r : Option HttpResponse) (t : S × List Sent)
          → All IsRead t.1
          → All IsRead (probe_observed (logged origin) url (observed_by (r, t))).1.1
      observed_reads none t k = judged_reads t url none k
      observed_reads (some r) t k = judged_reads t url (some (observation r)) k
