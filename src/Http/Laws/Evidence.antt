-- ===== src/Http/Laws/Evidence.antt =====
-- The evidence of an execution that has written (demo/src/http-atomic.js).
use capability_demo.Prelude.{
  ◌≡◌, refl, Bool, true, false, not, ◌&&◌, ◌||◌, String, ◌==◌, eqb, concat, join, includes, [], ◌∷◌,
  Option, none, some, or-eq-false_iff, if◌then◌else◌,
}
use mathlib.Core.Path.{subst}
use capability_demo.Json.{get}
use capability_demo.Runtime.{Node, scalar}
use capability_demo.Git.Execute.{
  Attested, gate_preimage_v, text_or, field_has_delimiter, encode_atomic_execution_attestation,
}
use capability_demo.Http.Request.{
  Origin, HttpResponse, Observed, Resource, resource_at, no_resource, resource_url, is_strong_etag,
  is_create_intent_pin, is_redirect_status, is_2xx, http_request, observe_etag,
}
use capability_demo.Http.Canary.{
  CanaryResult, CanaryGate, block, proceed, canary_gate_refusal, provider_canary,
}
use capability_demo.Http.Execute.{
  HttpRequest, HttpOutcome, HttpRow, written, turned_down, crash, CanaryChoice, passive, run_canary,
  prior, Write, write_headers, write_of, differs, attest_write, judge_write, send_write,
  after_observation, after_gate, choose_canary, at_resource, http_atomic_execute,
}

if-holds :
    {A : Type 0} (P : A → Type 0) (b : Bool) (x y : A)
    → P x
    → (b ≡ false → P y)
    → P (if b then x else y)
if-holds P true x y h k = h
if-holds P false x y h k = k refl

module _ (node : Node) where
  -- The token is the encoding of a preimage that the executor of the request has signed, with its
  -- kid. The preimage names the grant, the deployment and the resource of the request, none of which
  -- holds a bar.
  pub record IsSealed (q : HttpRequest) (row : HttpRow) (token : String) (a : Attested)
      : Type 0 where
    pub executor : a.executor_kid ≡ q.executor.kid
    pub signed : a.signature ≡ node.sign q.executor.private_key a.preimage
    pub encoded :
        token ≡ encode_atomic_execution_attestation node a.executor_kid a.preimage a.signature
    pub mutation : String
    pub fields :
        a.preimage
        ≡ join "|" (
            gate_preimage_v
            ∷ a.jti
            ∷ a.deployment_id
            ∷ concat "sha256:" (node.sha256 mutation)
            ∷ row.resource_path
            ∷ [])
    pub grant : a.jti ≡ (write_of node q "").jti
    pub deployment : a.deployment_id ≡ text_or q.deployment_id
    pub resource : row.resource_path ≡ text_or q.resource_path
    pub spends : (a.jti == "") ≡ false
    pub plain_path : includes b'|' row.resource_path ≡ false
    pub plain_jti : includes b'|' a.jti ≡ false
    pub plain_deployment : includes b'|' a.deployment_id ≡ false

  -- A write that is reported is sealed.
  abbrev pub Sealed : HttpRequest → HttpOutcome → Type 0
  Sealed q (written row token a canary) = IsSealed q row token a
  Sealed q (turned_down r) = Unit
  Sealed q crash = Unit

  -- What the checks of a request have shown once it is written.
  record IsChecked (q : HttpRequest) (w : Write) : Type 0 where
    spends : (w.jti == "") ≡ false
    delimited : field_has_delimiter (w.path ∷ w.jti ∷ w.configured ∷ w.pin ∷ []) ≡ false

  attest_write-Sealed :
      (q : HttpRequest) (url : String) (canary : Option CanaryResult) (cas : HttpResponse)
      → IsChecked q (write_of node q url)
      → Sealed q (attest_write node (write_of node q url) canary cas)
  unfolding attest_write field_has_delimiter
  attest_write-Sealed q url canary cas h =
      let (path, h₁) = (or-eq-false_iff _ _).0 h.delimited in
      let (jti, h₂) = (or-eq-false_iff _ _).0 h₁ in
      let (did, h₃) = (or-eq-false_iff _ _).0 h₂ in
      record {
        executor = refl;
        signed = refl;
        encoded = refl;
        mutation = _;
        fields = refl;
        grant = refl;
        deployment = refl;
        resource = refl;
        spends = h.spends;
        plain_path = path;
        plain_jti = jti;
        plain_deployment = did;
      }

  judge_write-Sealed :
      (q : HttpRequest) (url : String) (canary : Option CanaryResult) (o : Observed)
      (r : Option HttpResponse)
      → IsChecked q (write_of node q url)
      → Sealed q (judge_write node (write_of node q url) canary o r)
  unfolding judge_write
  judge_write-Sealed q url canary o none h = tt
  judge_write-Sealed q url canary o (some cas) h =
      let w = write_of node q url in
      if-holds (Sealed q) (eqb cas.status 412) _ _ tt (λ _.
        if-holds (Sealed q) (is_2xx cas.status) _ _
          (if-holds (Sealed q) (differs o.etag w.pin) _ _ tt (λ _.
            if-holds (Sealed q) w.crash_before_seal _ _ tt
              (λ _. attest_write-Sealed q url canary cas h)))
          (λ _. tt))

  module _ {S : Type 0} (origin : Origin S) where
    SealedFirst : HttpRequest → HttpOutcome × S → Type 0
    SealedFirst q r = Sealed q r.0

    observed-Sealed :
        (q : HttpRequest) (url : String) (canary : Option CanaryResult) (r : Option Observed × S)
        → IsChecked q (write_of node q url)
        → SealedFirst q (after_observation node origin (write_of node q url) canary r)
    unfolding after_observation send_write SealedFirst
    observed-Sealed q url canary (none, s) h = tt
    observed-Sealed q url canary (some o, s) h =
        let w = write_of node q url in
        if-holds (SealedFirst q) (not o.ok || is_redirect_status o.status) _ _ tt (λ _.
          if-holds (SealedFirst q)
            (not (is_create_intent_pin w.pin) && (eqb o.status 404 || not (is_strong_etag o.etag)))
            _ _ tt
            (λ _.
              if-holds (SealedFirst q) (is_create_intent_pin w.pin && not (eqb o.status 404)) _ _ tt
                (λ _.
                  judge_write-Sealed q url canary o
                    (http_request origin s url w.verb (write_headers w) (some w.wire_body)).0 h)))

    gate-Sealed :
        (q : HttpRequest) (url : String) (canary : Option CanaryResult) (s : S) (g : CanaryGate)
        → IsChecked q (write_of node q url)
        → SealedFirst q (after_gate node origin (write_of node q url) canary s g)
    unfolding after_gate SealedFirst
    gate-Sealed q url canary s (block status reason http honored) h = tt
    gate-Sealed q url canary s proceed h =
        observed-Sealed q url canary (observe_etag origin s url) h

    chosen-Sealed :
        (q : HttpRequest) (url : String) (s : S) (choice : CanaryChoice)
        → IsChecked q (write_of node q url)
        → SealedFirst q (choose_canary node origin q (write_of node q url) s choice)
    unfolding choose_canary
    chosen-Sealed q url s passive h = gate-Sealed q url none s (canary_gate_refusal none) h
    chosen-Sealed q url s run_canary h =
        let probed = provider_canary origin s q.base_url q.resource_path in
        gate-Sealed q url (some probed.0) probed.1 (canary_gate_refusal (some probed.0)) h
    chosen-Sealed q url s (prior c) h =
        gate-Sealed q url (some c) s (canary_gate_refusal (some c)) h

    place-Sealed :
        (q : HttpRequest) (s : S) (r : Resource)
        → ((url : String) → IsChecked q (write_of node q url))
        → SealedFirst q (at_resource node origin q s r)
    unfolding at_resource SealedFirst
    place-Sealed q s (no_resource reason) h = tt
    place-Sealed q s (resource_at url) h = chosen-Sealed q url s q.canary (h url)

    executed-Sealed :
        (q : HttpRequest) (s : S) → SealedFirst q (http_atomic_execute node origin s q)
    unfolding http_atomic_execute SealedFirst
    executed-Sealed q s =
        let w = write_of node q "" in
        let grant_did =
          scalar node (elim q.payload [ none ↦ none | some p ↦ get "deployment_id" p ]) in
        if-holds (SealedFirst q) (w.configured == "" || not (grant_did == w.configured)) _ _ tt
          (λ _. if-holds (SealedFirst q) (w.jti == "") _ _ tt (λ spends.
            if-holds (SealedFirst q) (w.pin == "") _ _ tt (λ _.
              if-holds (SealedFirst q)
                (not (is_create_intent_pin w.pin) && not (is_strong_etag (some w.pin))) _ _ tt
                (λ _.
                  if-holds (SealedFirst q) (not (w.verb == "PUT") && not (w.verb == "PATCH")) _ _ tt
                    (λ _.
                      if-holds (SealedFirst q)
                        (field_has_delimiter (w.path ∷ w.jti ∷ w.configured ∷ w.pin ∷ [])) _ _ tt
                        (λ delimited.
                          place-Sealed q s (resource_url q.base_url q.resource_path)
                            (λ url. record { spends = spends; delimited = delimited })))))))

    -- Whatever the origin answers, an execution that reports a write gives a token that encodes a
    -- preimage under the kid of its executor, signed with the executor's key. The preimage names
    -- the grant's jti, the deployment, a digest and the resource path, all of the request; the jti
    -- is not empty, and none of jti, deployment and path holds a bar.
    pub http_atomic_execute-IsSealed :
        (q : HttpRequest) (s : S) (row : HttpRow) (token : String) (a : Attested)
        (canary : Option CanaryResult)
        → (http_atomic_execute node origin s q).0 ≡ written row token a canary
        → IsSealed q row token a
    unfolding SealedFirst
    http_atomic_execute-IsSealed q s row token a canary h = subst (Sealed q) h (executed-Sealed q s)
