-- ===== src/Http/Canary.antt =====
-- The probe whether an origin evaluates If-Match, and the gate on its result
-- (demo/src/http-atomic.js).
use Prim.Native.Nat.{ℕ}
use capability_demo.Prelude.{
  Bool, true, false, not, String, ◌==◌, eqb, List, [], ◌∷◌, Option, none, some, if◌then◌else◌,
}
use capability_demo.Http.Request.{
  HttpResponse, Origin, Observed, Resource, resource_at, no_resource, resource_url,
  is_redirect_status, is_2xx, http_request, observe_etag,
}

abbrev pub canary_honors : String
canary_honors = "HONORS_IF_MATCH"

abbrev pub canary_does_not_honor : String
canary_does_not_honor = "DOES_NOT_HONOR"

abbrev pub canary_unknown_verdict : String
canary_unknown_verdict = "UNKNOWN"

abbrev pub canary_stale_if_match : String
canary_stale_if_match = "\"cr.http.canary.stale\""

-- A result of providerCanary, without the texts of canaryHonesty and of caught errors. A result
-- that a caller brings may lack a verdict.
pub record CanaryResult : Type 0 where
  pub ok : Bool
  pub honored : Option String
  pub reason : String
  pub green_light : Bool
  pub observed_etag : Option String
  pub stale_if_match : Option String
  pub probe_status : Option ℕ

-- The fields that the caller of canaryUnknown adds: the tags and the status seen so far.
unfoldable pub canary_unknown : String → Option String → Option String → Option ℕ → CanaryResult
canary_unknown reason observed stale status = record {
  ok = false;
  honored = some canary_unknown_verdict;
  reason = reason;
  green_light = false;
  observed_etag = observed;
  stale_if_match = stale;
  probe_status = status;
}

-- The stale tag is never the tag that the origin has.
unfoldable pub stale_for : String → String
stale_for etag =
    if canary_stale_if_match == etag then "\"cr.http.canary.stale.2\"" else canary_stale_if_match

abbrev pub dishonored : String → String → ℕ → CanaryResult
dishonored etag stale status = record {
  ok = false;
  honored = some canary_does_not_honor;
  reason = "stale_if_match_2xx";
  green_light = false;
  observed_etag = some etag;
  stale_if_match = some stale;
  probe_status = some status;
}

-- The verdict on the answer to the probe.
unfoldable pub judge_probe : String → String → Option HttpResponse → CanaryResult
unfolding canary_unknown is_redirect_status
judge_probe etag stale none = canary_unknown "probe_failed" (some etag) (some stale) none
judge_probe etag stale (some probe) =
    if is_redirect_status probe.status
    then canary_unknown "redirect" (some etag) (some stale) (some probe.status)
    else if eqb probe.status 412
    then record {
      ok = true;
      honored = some canary_honors;
      reason = "stale_if_match_412";
      green_light = true;
      observed_etag = some etag;
      stale_if_match = some stale;
      probe_status = some probe.status;
    }
    else if is_2xx probe.status
    then dishonored etag stale probe.status
    else canary_unknown "unexpected_probe_status" (some etag) (some stale) (some probe.status)

abbrev pub judged : {S : Type 0} → String → String → Option HttpResponse × S → CanaryResult × S
unfolding judge_probe
judged etag stale (r, s) = (judge_probe etag stale r, s)

abbrev pub probe_headers : String → List (String × String)
probe_headers stale = ("if-match", stale) ∷ ("cache-control", "no-cache") ∷ []

module _ {S : Type 0} (origin : Origin S) where
  unfoldable pub probe_etag : S → String → Observed → Option String → CanaryResult × S
  unfolding stale_for http_request canary_unknown judge_probe
  probe_etag s url o none = (canary_unknown "no_etag" none none (some o.status), s)
  probe_etag s url o (some etag) =
      if etag == ""
      then (canary_unknown "no_etag" (some etag) none (some o.status), s)
      else judged etag (stale_for etag)
          (http_request origin s url "GET" (probe_headers (stale_for etag)) none)

  unfoldable pub probe_observed : String → Option Observed × S → CanaryResult × S
  unfolding probe_etag canary_unknown is_redirect_status
  probe_observed url (none, s) = (canary_unknown "observe_failed" none none none, s)
  probe_observed url (some o, s) =
      if is_redirect_status o.status
      then (canary_unknown "redirect" o.etag none (some o.status), s)
      else if not o.ok
      then (canary_unknown "observe_failed" o.etag none (some o.status), s)
      else probe_etag s url o o.etag

  unfoldable pub probe_resource : S → Resource → CanaryResult × S
  unfolding probe_observed observe_etag canary_unknown
  probe_resource s (no_resource reason) = (canary_unknown reason none none none, s)
  probe_resource s (resource_at url) = probe_observed url (observe_etag origin s url)

  unfoldable pub provider_canary : S → Option String → Option String → CanaryResult × S
  unfolding resource_url probe_resource
  provider_canary s base_url resource_path = probe_resource s (resource_url base_url resource_path)

-- What canaryGateRefusal answers; the answer to a bad origin is `none`.
pub data CanaryGate : Type 0 where
  proceed : CanaryGate
  block : (status reason : String) → (http : ℕ) → (honored : String) → CanaryGate

-- `canaryResult.honored || CANARY_UNKNOWN`
abbrev pub verdict_or_unknown : Option String → String
verdict_or_unknown none = canary_unknown_verdict
verdict_or_unknown (some h) = if h == "" then canary_unknown_verdict else h

abbrev pub gate_verdict : Option String → CanaryGate
gate_verdict none = block "STATE_CHALLENGE_UNKNOWN" "canary_unknown" 403 canary_unknown_verdict
gate_verdict (some h) =
    if h == canary_honors
    then proceed
    else if h == canary_does_not_honor
    then block "IF_MATCH_CANARY_REFUSED" "canary_does_not_honor" 409 canary_does_not_honor
    else block "STATE_CHALLENGE_UNKNOWN" "canary_unknown" 403 (verdict_or_unknown (some h))

unfoldable pub canary_gate_refusal : Option CanaryResult → CanaryGate
canary_gate_refusal none = proceed
canary_gate_refusal (some c) = gate_verdict c.honored
