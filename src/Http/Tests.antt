-- ===== src/Http/Tests.antt =====
-- Executions against a small origin, and the theorems at them.
use capability_demo.Prelude.{
  ◌≡◌, refl, sym, ap, ◌∙◌, Bool, true, false, String, Option, none, some, is_some, if◌then◌else◌,
}
use capability_demo.Json.{get}
use capability_demo.Runtime.{scalar}
use capability_demo.Samples.{toy, bound_body}
use capability_demo.Git.Execute.{field_has_delimiter}
use capability_demo.Http.Request.{
  Origin, HttpResponse, resource_url, is_strong_etag, is_create_intent_pin,
}
use capability_demo.Http.Canary.{canary_gate_refusal, provider_canary}
use capability_demo.Http.Execute.{
  HttpRequest, CanaryChoice, passive, run_canary, write_of, http_atomic_execute,
}
use capability_demo.Http.Laws.Trace.{IsAdmitted}
use capability_demo.Http.Laws.Swap.{
  precondition_of, Stored, IsConforming, is_written, seen, swap, http_atomic_execute-swap,
}
use capability_demo.Http.Laws.Probe.{IsProbed, provider_canary-IsProbed}

-- The state is the tag of the one resource.
abbrev tag_one : String
tag_one = "\"1\""

abbrev tag_two : String
tag_two = "\"2\""

abbrev ok_response : String → HttpResponse
ok_response etag = record { status = 200; ok = true; etag = some etag; text = "" }

abbrev failed_response : HttpResponse
failed_response = record { status = 412; ok = false; etag = none; text = "" }

-- Bool : the resource has been written
abbrev tag_of : Bool → String
tag_of false = tag_one
tag_of true = tag_two

abbrev answer : Bool → Bool → Option Bool → Option HttpResponse × Bool
answer s writes (some true) = (some (ok_response (tag_of s)), if writes then true else s)
answer s writes _ = (some failed_response, s)

-- An origin that evaluates If-Match on every method.
abbrev one_resource : Origin Bool
one_resource = record {
  fetch =
      λ s url init. answer s (is_some init.body) (precondition_of (some (tag_of s)) init.headers);
}

abbrev request : CanaryChoice → HttpRequest
request choice = record {
  base_url = some "https://api/";
  resource_path = some "/doc";
  payload = some bound_body;
  if_match_etag = some tag_one;
  method = none;
  body = none;
  executor = record { private_key = "key"; kid = "e1" };
  deployment_id = some "d1";
  crash_before_seal = false;
  canary = choice;
}

executions :
    (is_written (http_atomic_execute toy one_resource false (request run_canary)).0 ≡ true)
    × ((http_atomic_execute toy one_resource false (request run_canary)).1 ≡ true)
    × (is_written (http_atomic_execute toy one_resource true (request passive)).0 ≡ false)
unfolding http_atomic_execute scalar get
executions = (refl, refl, refl)

provider_canary-IsProbed_example :
    IsProbed one_resource false
      (some "https://api/")
      (some "/doc")
      (provider_canary one_resource false (some "https://api/") (some "/doc")).1
unfolding canary_gate_refusal provider_canary
provider_canary-IsProbed_example =
    provider_canary-IsProbed one_resource false (some "https://api/") (some "/doc") refl

abbrev stored_one : Stored Bool
stored_one = record {
  current = λ s. some (tag_of s);
  text = λ s. "";
  replaced = λ s verb body. true;
  accepted = λ s. ok_response (tag_of s);
  failed = λ s. failed_response;
}

unfoldable pub admitted :
    IsAdmitted toy (request passive) (write_of toy (request passive) "https://api/doc")
unfolding scalar get is_strong_etag resource_url is_create_intent_pin field_has_delimiter
admitted = record {
  configured = refl;
  bound = refl;
  spends = refl;
  has_pin = refl;
  delimited = refl;
  pinned = refl;
  verb = refl;
  place = refl;
  same = refl;
}

tag_of-strong : (s : Bool) → is_strong_etag (some (tag_of s)) ≡ true
unfolding is_strong_etag
tag_of-strong true = refl
tag_of-strong false = refl

one_resource-IsConforming : IsConforming Bool one_resource "https://api/doc" stored_one
one_resource-IsConforming = record {
  strong = λ s etag e. sym (ap is_strong_etag e) ∙ tag_of-strong s;
  reads = λ s. refl;
  accepts = λ s. refl;
  fails = λ s. refl;
  writes = λ s verb body headers v h. rw h refl;
  keeps = λ s verb body headers v h. rw h refl;
}

http_atomic_execute-swap_example :
    seen (http_atomic_execute toy one_resource false (request passive))
    ≡ swap stored_one (write_of toy (request passive) "https://api/doc") false
http_atomic_execute-swap_example =
    http_atomic_execute-swap toy one_resource stored_one (request passive) "https://api/doc" false
      admitted refl refl one_resource-IsConforming
