-- ===== src/Http/Laws/Trace.antt =====
-- What the requests of an execution are (demo/src/http-atomic.js).
use capability_demo.Prelude.{
  ◌≡◌, ◌⊎◌, refl, Bool, true, false, ◌||◌, ◌==◌, List, [], ◌∷◌, All, Option, none, some, inl,
  if◌then◌else◌,
}
use capability_demo.Prelude.{◌≢◌}
use capability_demo.Json.{get}
use capability_demo.Runtime.{Node, scalar}
use capability_demo.Git.Execute.{text_or, field_has_delimiter}
use capability_demo.Http.Request.{
  FetchInit, HttpResponse, Origin, resource_at, is_strong_etag, is_create_intent_pin, resource_url,
  observation, is_redirect_status,
}
use capability_demo.Http.Canary.{CanaryResult}
use capability_demo.Http.Execute.{
  HttpRequest, HttpOutcome, Write, CanaryChoice, passive, run_canary, prior, written, turned_down,
  crash, write_of, write_headers,
}
use capability_demo.Http.Laws.Reads.{Sent, IsRead}

-- The answer says, or cannot exclude, that the resource was written.
abbrev pub reports_write : HttpOutcome → Bool
reports_write (written _ _ _ _) = true
reports_write (turned_down r) = elim r.mutation_applied [ none ↦ false | some b ↦ b ]
reports_write crash = true

abbrev pub get_init : FetchInit
get_init = record { method = "GET"; headers = []; redirect = "manual"; body = none }

module _ (node : Node) where
  -- The gates that a request has passed when its write is sent.
  pub record IsAdmitted (q : HttpRequest) (w : Write) : Type 0 where
    pub configured : (w.configured == "") ≡ false
    pub bound :
        scalar node (elim q.payload [ none ↦ none | some p ↦ get "deployment_id" p ])
        ≡ text_or q.deployment_id
    pub spends : (w.jti == "") ≡ false
    pub has_pin : (w.pin == "") ≡ false
    pub pinned : (is_create_intent_pin w.pin || is_strong_etag (some w.pin)) ≡ true
    pub verb : ((w.verb == "PUT") || (w.verb == "PATCH")) ≡ true
    pub delimited :
        field_has_delimiter (text_or q.resource_path ∷ w.jti ∷ w.configured ∷ w.pin ∷ []) ≡ false
    pub place : resource_url q.base_url q.resource_path ≡ resource_at w.url
    pub same : w ≡ write_of node q w.url

  -- What the canary says that an execution goes by: nothing where none is asked for, the result
  -- that the caller brings, or that of the probe.
  abbrev pub IsChosen : CanaryChoice → CanaryResult → Option CanaryResult → Type 0
  IsChosen passive probed canary = canary ≡ none
  IsChosen run_canary probed canary = canary ≡ some probed
  IsChosen (prior c) probed canary = canary ≡ some c

  -- The one write of the request, with its precondition, and what the origin has shown before it:
  -- the canary, if there is one, has the verdict that the origin honours If-Match; the last request
  -- before is a GET of the resource, and its answer is no redirect and no error but 404, with a
  -- strong tag for an update and with 404 for a creation. `probed` is the result of the probe.
  module _ {S : Type 0} (origin : Origin S) where
    pub record IsWrite (q : HttpRequest) (probed : CanaryResult) (before : List Sent) (r : Sent)
        : Type 0 where
      pub write : Write
      pub admitted : IsAdmitted q write
      pub canary : Option CanaryResult
      pub chosen : IsChosen q.canary probed canary
      pub honored : (c : CanaryResult) → canary ≡ some c → c.honored ≡ some "HONORS_IF_MATCH"
      pub earlier : List Sent
      pub looked : before ≡ record { url = write.url; init = get_init } ∷ earlier
      pub state : S
      pub answer : HttpResponse
      pub answered : (origin.fetch state write.url get_init).0 ≡ some answer
      pub direct : is_redirect_status (observation answer).status ≡ false
      pub fine : (observation answer).ok ≡ true
      pub creation : is_create_intent_pin write.pin ≡ true → answer.status ≡ 404
      pub update :
          is_create_intent_pin write.pin ≡ false
          → (answer.status ≢ 404) × (is_strong_etag answer.etag ≡ true)
      pub sent : r ≡ record {
        url = write.url;
        init = record {
          method = write.verb;
          headers = write_headers write;
          redirect = "manual";
          body = some write.wire_body;
        };
      }

  -- GETs, and after them at most one write; without a write the answer reports none.
  module _ {S : Type 0} (origin : Origin S) (q : HttpRequest) (probed : CanaryResult) where
    pub record IsTrace (x : HttpOutcome × (S × List Sent)) : Type 0 where
      pub reads : List Sent
      pub all_reads : All IsRead reads
      pub last :
          ((x.1.1 ≡ reads) × (reports_write x.0 ≡ false))
          ⊎ ((r : Sent) × (x.1.1 ≡ r ∷ reads) × IsWrite origin q probed reads r)

    pub quiet-IsTrace :
        (out : HttpOutcome) (s : S × List Sent)
        → reports_write out ≡ false
        → All IsRead s.1
        → IsTrace (out, s)
    quiet-IsTrace out s h k = record { reads = s.1; all_reads = k; last = inl (refl, h) }

    pub if-IsTrace :
        (b : Bool) (x y : HttpOutcome × (S × List Sent))
        → (b ≡ true → IsTrace x)
        → (b ≡ false → IsTrace y)
        → IsTrace (if b then x else y)
    if-IsTrace true x y h k = h refl
    if-IsTrace false x y h k = k refl
