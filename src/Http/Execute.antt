-- ===== src/Http/Execute.antt =====
-- `httpAtomicExecute` (demo/src/http-atomic.js).
use Prim.Native.Nat.{ℕ}
use capability_demo.Prelude.{
  Bool, true, false, not, ◌&&◌, ◌||◌, String, ◌==◌, eqb, concat, join, List, [], ◌∷◌, Option, none,
  some, if◌then◌else◌,
}
use capability_demo.Json.{Json, get}
use capability_demo.Runtime.{Node, scalar}
use capability_demo.Git.Execute.{
  Attested, Executor, text_or, gate_preimage_v, field_has_delimiter,
  encode_atomic_execution_attestation,
}
use capability_demo.Http.Request.{
  HttpResponse, Origin, Observed, Resource, resource_at, no_resource, is_strong_etag,
  is_create_intent_pin, resource_url, is_redirect_status, is_2xx, http_request, observe_etag,
}
use capability_demo.Http.Canary.{
  CanaryResult, CanaryGate, proceed, block, provider_canary, canary_gate_refusal,
}

abbrev pub http_profile : String
http_profile = "ENFORCING_EXCLUSIVE_HTTP_CAS"

-- The argument `canary`: absent, `true`, or an earlier result.
pub data CanaryChoice : Type 0 where
  passive : CanaryChoice
  run_canary : CanaryChoice
  prior : CanaryResult → CanaryChoice

-- The arguments of httpAtomicExecute but the pin, which is checked apart; `none` stands for a
-- value that is no text, or for `undefined`.
pub record HttpRequest : Type 0 where
  pub base_url : Option String
  pub resource_path : Option String
  pub payload : Option Json
  pub if_match_etag : Option String
  pub method : Option String
  pub body : Option Json
  pub executor : Executor
  pub deployment_id : Option String
  pub crash_before_seal : Bool
  pub canary : CanaryChoice

pub record HttpRow : Type 0 where
  pub method : String
  pub resource_path : String
  pub if_match : String
  pub etag_after : Option String
  pub profile : String

-- What a refusal adds; `current` of a drift and the tags of the write that ignored the pin.
pub data HttpDetail : Type 0 where
  plain : HttpDetail
  canary_verdict : String → HttpDetail
  response_seen : (status : ℕ) (etag : Option String) → HttpDetail
  drifted : (challenged : String) (current : Option String) → HttpDetail
  ignored : (challenged before : String) (after : Option String) → HttpDetail

-- `mutation_applied` and `cas_proven` are `none` where the answer does not hold them.
pub record HttpRefusal : Type 0 where
  pub status : String
  pub reason : String
  pub http : ℕ
  pub mutation_applied : Option Bool
  pub cas_proven : Option Bool
  pub detail : HttpDetail

-- The constants `honesty` and `httpAssurance` of an answer are left out.
pub data HttpOutcome : Type 0 where
  written : HttpRow → (attestation : String) → Attested → Option CanaryResult → HttpOutcome
  turned_down : HttpRefusal → HttpOutcome
  -- the test hook throws after the write
  crash : HttpOutcome

abbrev pub refuse_with : String → String → ℕ → Option Bool → Option Bool → HttpDetail → HttpOutcome
refuse_with status reason http mutation_applied cas_proven d = turned_down (record {
  status = status;
  reason = reason;
  http = http;
  mutation_applied = mutation_applied;
  cas_proven = cas_proven;
  detail = d;
})

abbrev pub unknown_state : String → ℕ → HttpDetail → HttpOutcome
unknown_state reason http d = refuse_with "STATE_CHALLENGE_UNKNOWN" reason http none none d

-- `etag || other`
abbrev pub full_text : Option String → Option String → Option String
full_text none other = other
full_text (some t) other = if t == "" then other else some t

-- The validated parts of a request.
pub record Write : Type 0 where
  pub url : String
  pub path : String
  pub verb : String
  pub jti : String
  pub configured : String
  pub pin : String
  pub wire_body : String
  pub executor : Executor
  pub crash_before_seal : Bool

-- The method that is asked for, PUT without one.
abbrev pub verb_of : Node → Option String → String
verb_of node none = "PUT"
verb_of node (some method) = if method == "" then "PUT" else node.to_upper_case method

-- JSON.stringify(body === undefined ? {} : body)
abbrev pub wire_of : Node → Option Json → String
wire_of node none = "{}"
wire_of node (some body) = node.stringify body

abbrev pub write_headers : Write → List (String × String)
write_headers w =
    ("content-type", "application/json")
    ∷ (if is_create_intent_pin w.pin then ("if-none-match", "*") else ("if-match", w.pin))
    ∷ ("idempotency-key", w.jti)
    ∷ []

-- `observedEtag != null && observedEtag !== ifMatchEtag`
abbrev pub differs : Option String → String → Bool
differs none pin = false
differs (some etag) pin = not (etag == pin)

module _ (node : Node) where
  -- The evidence for a write that has landed.
  unfoldable pub attest_write : Write → Option CanaryResult → HttpResponse → HttpOutcome
  unfolding encode_atomic_execution_attestation
  attest_write w canary cas =
      let mut_digest = node.sha256 (join "\u{1f}" (w.verb ∷ w.path ∷ w.pin ∷ w.wire_body ∷ [])) in
      let preimage =
        join "|"
          (gate_preimage_v ∷ w.jti ∷ w.configured ∷ concat "sha256:" mut_digest ∷ w.path ∷ []) in
      let signature = node.sign w.executor.private_key preimage in
      written
        (record {
          method = w.verb;
          resource_path = w.path;
          if_match = w.pin;
          etag_after = cas.etag;
          profile = http_profile;
        })
        (encode_atomic_execution_attestation node w.executor.kid preimage signature)
        (record {
          executor_kid = w.executor.kid;
          jti = w.jti;
          deployment_id = w.configured;
          preimage = preimage;
          preimage_hash = concat "sha256:" (node.sha256 preimage);
          signature = signature;
        })
        canary

  -- What follows the write.
  unfoldable pub judge_write :
      Write → Option CanaryResult → Observed → Option HttpResponse → HttpOutcome
  unfolding attest_write
  judge_write w canary observed none = unknown_state "cas_request_failed" 503 plain
  judge_write w canary observed (some cas) =
      if eqb cas.status 412
      then refuse_with "STATE_DRIFT" "state_changed_since_challenge" 409 none none
          (drifted w.pin (full_text cas.etag (full_text observed.etag none)))
      else if is_2xx cas.status
      then (if differs observed.etag w.pin
          then refuse_with "IF_MATCH_NOT_HONORED" "origin_ignored_if_match" 409 (some true)
              (some false) (ignored w.pin (text_or observed.etag) cas.etag)
          else if w.crash_before_seal
          then crash
          else attest_write w canary cas)
      else unknown_state "unexpected_http_status" cas.status (response_seen cas.status none)

  abbrev pub write_of : HttpRequest → String → Write
  write_of q url = record {
    url = url;
    path = text_or q.resource_path;
    verb = verb_of node q.method;
    jti = scalar node (elim q.payload [ none ↦ none | some p ↦ get "jti" p ]);
    configured = text_or q.deployment_id;
    pin = text_or q.if_match_etag;
    wire_body = wire_of node q.body;
    executor = q.executor;
    crash_before_seal = q.crash_before_seal;
  }

  module _ {S : Type 0} (origin : Origin S) where
    unfoldable pub send_write : Write → Option CanaryResult → Observed → S → HttpOutcome × S
    unfolding judge_write http_request
    send_write w canary observed s =
        let (answer, s') =
          http_request origin s w.url w.verb (write_headers w) (some w.wire_body) in
        (judge_write w canary observed answer, s')

    -- What follows the observation: an update needs a strong tag, a creation needs a 404.
    unfoldable pub after_observation :
        Write → Option CanaryResult → Option Observed × S → HttpOutcome × S
    unfolding send_write is_redirect_status is_strong_etag is_create_intent_pin
    after_observation w canary (none, s) = (unknown_state "observe_failed" 503 plain, s)
    after_observation w canary (some o, s) =
        if not o.ok || is_redirect_status o.status
        then (unknown_state "observe_failed" 503 (response_seen o.status o.etag), s)
        else if not (is_create_intent_pin w.pin)
            && (eqb o.status 404 || not (is_strong_etag o.etag))
        then (
          refuse_with "ETAG_UNVERIFIABLE" "missing_strong_etag" 409 (some false) (some false)
              (response_seen o.status o.etag),
          s,
        )
        else if is_create_intent_pin w.pin && not (eqb o.status 404)
        then (
          refuse_with "STATE_DRIFT" "state_changed_since_challenge" 409 (some false) none
              (drifted w.pin (full_text o.etag (some (concat "present:" w.path)))),
          s,
        )
        else send_write w canary o s

    -- What follows the gate on the canary.
    unfoldable pub after_gate : Write → Option CanaryResult → S → CanaryGate → HttpOutcome × S
    unfolding after_observation observe_etag
    after_gate w canary s (block status reason http honored) =
        (refuse_with status reason http (some false) (some false) (canary_verdict honored), s)
    after_gate w canary s proceed = after_observation w canary (observe_etag origin s w.url)

    abbrev pub after_canary : Write → Option CanaryResult → S → HttpOutcome × S
    unfolding after_gate canary_gate_refusal
    after_canary w canary s = after_gate w canary s (canary_gate_refusal canary)

    abbrev pub canary_then : Write → CanaryResult × S → HttpOutcome × S
    unfolding after_gate canary_gate_refusal
    canary_then w (c, s) = after_canary w (some c) s

    unfoldable pub choose_canary : HttpRequest → Write → S → CanaryChoice → HttpOutcome × S
    unfolding after_gate canary_gate_refusal provider_canary
    choose_canary q w s passive = after_canary w none s
    choose_canary q w s run_canary =
        canary_then w (provider_canary origin s q.base_url q.resource_path)
    choose_canary q w s (prior c) = after_canary w (some c) s

    unfoldable pub at_resource : HttpRequest → S → Resource → HttpOutcome × S
    unfolding choose_canary
    at_resource q s (no_resource reason) = (unknown_state reason 403 plain, s)
    at_resource q s (resource_at url) = choose_canary q (write_of q url) s q.canary

    unfoldable pub http_atomic_execute : S → HttpRequest → HttpOutcome × S
    unfolding resource_url at_resource field_has_delimiter is_strong_etag is_create_intent_pin
    http_atomic_execute s q =
        let configured = text_or q.deployment_id in
        let grant_did =
          scalar node (elim q.payload [ none ↦ none | some p ↦ get "deployment_id" p ]) in
        let verb = verb_of node q.method in
        let jti = scalar node (elim q.payload [ none ↦ none | some p ↦ get "jti" p ]) in
        let pin = text_or q.if_match_etag in
        if configured == "" || not (grant_did == configured)
        then (refuse_with "DEPLOYMENT_MISMATCH" "deployment_id_mismatch" 403 none none plain, s)
        else if jti == ""
        then (unknown_state "missing_jti" 403 plain, s)
        else if pin == ""
        then (unknown_state "missing_if_match" 403 plain, s)
        else if not (is_create_intent_pin pin) && not (is_strong_etag (some pin))
        then (refuse_with "ETAG_UNVERIFIABLE" "missing_strong_etag" 409 (some false) none plain, s)
        else if not (verb == "PUT") && not (verb == "PATCH")
        then (unknown_state "method_not_cas" 403 plain, s)
        else if field_has_delimiter (text_or q.resource_path ∷ jti ∷ configured ∷ pin ∷ [])
        then (unknown_state "delimiter_in_field" 403 plain, s)
        else at_resource q s (resource_url q.base_url q.resource_path)
