-- ===== src/Http/Laws/Probe.antt =====
-- What stands behind a probe that lets an execution go on (demo/src/http-atomic.js).
use Prim.Native.Nat.{ℕ}
use capability_demo.Prelude.{
  ◌≡◌, ◌≢◌, refl, sym, ap, ◌∙◌, Bool, true, false, not, String, ◌==◌, eqb, eqb_iff, eq_iff, [],
  Option, none, some, Bool-cases, inl, inr, if◌then◌else◌,
}
use capability_demo.Http.Request.{
  HttpResponse, Origin, Observed, Resource, resource_at, no_resource, resource_url, observation,
  observed_by, is_redirect_status, is_2xx, http_request, observe_etag,
}
use capability_demo.Http.Canary.{
  CanaryResult, proceed, canary_stale_if_match, canary_unknown, dishonored, stale_for, judge_probe,
  probe_headers, probe_etag, probe_observed, probe_resource, provider_canary, canary_gate_refusal,
}

module _ {S : Type 0} (origin : Origin S) where
  -- The resource answered a plain GET with a tag, and a GET with another tag in If-Match with 412.
  pub record IsProbed (s : S) (base path : Option String) (after : S) : Type 0 where
    pub url : String
    pub place : resource_url base path ≡ resource_at url
    pub between : S
    pub first : HttpResponse
    pub etag : String
    pub seen : http_request origin s url "GET" [] none ≡ (some first, between)
    pub tagged : first.etag ≡ some etag
    pub stale : stale_for etag ≢ etag
    pub second : HttpResponse
    pub probed :
        http_request origin between url "GET" (probe_headers (stale_for etag)) none
        ≡ (some second, after)
    pub failed : second.status ≡ 412

IsBlocked : CanaryResult → Type 0
IsBlocked c = canary_gate_refusal (some c) ≢ proceed

past :
    (b : Bool) (x y : CanaryResult)
    → IsBlocked x
    → canary_gate_refusal (some (if b then x else y)) ≡ proceed
    → (b ≡ false) × (canary_gate_refusal (some y) ≡ proceed)
unfolding IsBlocked
past true x y stop h = absurd (stop h)
past false x y stop h = (refl, h)

past_state :
    {S : Type 0} (b : Bool) (x y : CanaryResult × S)
    → IsBlocked x.0
    → canary_gate_refusal (some (if b then x else y).0) ≡ proceed
    → (b ≡ false) × (canary_gate_refusal (some y.0) ≡ proceed)
unfolding IsBlocked
past_state true x y stop h = absurd (stop h)
past_state false x y stop h = (refl, h)

canary_unknown-IsBlocked :
    (reason : String) (observed stale : Option String) (status : Option ℕ)
    → IsBlocked (canary_unknown reason observed stale status)
unfolding IsBlocked canary_gate_refusal canary_unknown
canary_unknown-IsBlocked reason observed stale status h = cc

stale_for-differs : (etag : String) → stale_for etag ≢ etag
unfolding stale_for
stale_for-differs etag h = elim (Bool-cases (canary_stale_if_match == etag)) [
  | inl e ↦
      let second : "\"cr.http.canary.stale.2\"" ≡ etag = rw e at h in
      let test : false ≡ true =
        (eq_iff "\"cr.http.canary.stale.2\"" canary_stale_if_match).1
          (second ∙ sym ((eq_iff canary_stale_if_match etag).0 e)) in
      cc
  | inr e ↦
      let first : canary_stale_if_match ≡ etag = rw e at h in
      let test : false ≡ true = sym e ∙ (eq_iff canary_stale_if_match etag).1 first in cc
]

dishonored-IsBlocked : (etag stale : String) (status : ℕ) → IsBlocked (dishonored etag stale status)
unfolding IsBlocked canary_gate_refusal
dishonored-IsBlocked etag stale status h = cc

judge_probe-refused :
    (etag stale : String) (r : Option HttpResponse)
    → canary_gate_refusal (some (judge_probe etag stale r)) ≡ proceed
    → (second : HttpResponse) × (r ≡ some second) × (second.status ≡ 412)
unfolding judge_probe IsBlocked
judge_probe-refused etag stale none h = absurd (canary_unknown-IsBlocked _ _ _ _ h)
judge_probe-refused etag stale (some second) h =
    let (_, direct) =
      past (is_redirect_status second.status) _ _ (canary_unknown-IsBlocked _ _ _ _) h in
    elim (Bool-cases (eqb second.status 412)) [
      | inl e ↦ (second, refl, (eqb_iff _ _).0 e)
      | inr e ↦
          let other = rw e at direct in
          let (_, last) =
            past (is_2xx second.status) _ _ (dishonored-IsBlocked etag stale second.status) other in
          absurd (canary_unknown-IsBlocked _ _ _ _ last)
    ]

full_tag :
    {S : Type 0} (origin : Origin S) (s : S) (url : String) (o : Observed) (etag : Option String)
    → canary_gate_refusal (some (probe_etag origin s url o etag).0) ≡ proceed
    → (tag : String) × (etag ≡ some tag)
      × (second : HttpResponse) × (http_request origin s url "GET"
            (probe_headers (stale_for tag))
            none
          ≡ (some second, (probe_etag origin s url o etag).1))
      × (second.status ≡ 412)
unfolding probe_etag IsBlocked
full_tag origin s url o none h = absurd (canary_unknown-IsBlocked _ _ _ _ h)
full_tag origin s url o (some tag) h =
    let (full, probed) = past_state (tag == "") _ _ (canary_unknown-IsBlocked _ _ _ _) h in
    let answer = http_request origin s url "GET" (probe_headers (stale_for tag)) none in
    let (second, same, status) = judge_probe-refused tag (stale_for tag) answer.0 probed in
    (tag, refl, second, rw full (ap (λ r. (r, answer.1)) same), status)

seen_tag : (r : HttpResponse) (tag : String) → (observation r).etag ≡ some tag → r.etag ≡ some tag
seen_tag r tag h = elim (Bool-cases (eqb r.status 404)) [
  | inl e ↦ let none_tag : none ≡ some tag = rw e at h in cc
  | inr e ↦ elim (Bool-cases r.ok) [ inl f ↦ rw (e, f) at h | inr f ↦ rw (e, f) at h ]
]

module _ {S : Type 0} (origin : Origin S) (s : S) (base path : Option String) where
  observed-IsProbed :
      (url : String) (x : Option HttpResponse × S)
      → resource_url base path ≡ resource_at url
      → http_request origin s url "GET" [] none ≡ x
      → canary_gate_refusal (some (probe_observed origin url (observed_by x)).0) ≡ proceed
      → IsProbed origin s base path (probe_observed origin url (observed_by x)).1
  unfolding probe_observed IsBlocked
  observed-IsProbed url (none, t) place seen h = absurd (canary_unknown-IsBlocked _ _ _ _ h)
  observed-IsProbed url (some first, t) place seen h =
      let o = observation first in
      let (direct, h1) =
        past_state (is_redirect_status o.status) _ _ (canary_unknown-IsBlocked _ _ _ _) h in
      let (good, h2) = past_state (not o.ok) _ _ (canary_unknown-IsBlocked _ _ _ _) h1 in
      let (tag, tagged, second, probed, status) = full_tag origin t url o o.etag h2 in
      record {
        url = url;
        place = place;
        between = t;
        first = first;
        etag = tag;
        seen = seen;
        tagged = seen_tag first tag tagged;
        stale = stale_for-differs tag;
        second = second;
        probed = rw (direct, good) probed;
        failed = status;
      }

  place-IsProbed :
      (r : Resource)
      → resource_url base path ≡ r
      → canary_gate_refusal (some (probe_resource origin s r).0) ≡ proceed
      → IsProbed origin s base path (probe_resource origin s r).1
  unfolding probe_resource observe_etag IsBlocked
  place-IsProbed (no_resource reason) e h = absurd (canary_unknown-IsBlocked _ _ _ _ h)
  place-IsProbed (resource_at url) e h = observed-IsProbed url _ e refl h

  -- A probe after which an execution goes on, whatever the origin: a plain GET has shown a tag of
  -- the resource, and a GET with another tag in If-Match was then answered with 412.
  pub provider_canary-IsProbed :
      canary_gate_refusal (some (provider_canary origin s base path).0) ≡ proceed
      → IsProbed origin s base path (provider_canary origin s base path).1
  unfolding provider_canary
  provider_canary-IsProbed = place-IsProbed (resource_url base path) refl
