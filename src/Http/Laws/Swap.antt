-- ===== src/Http/Laws/Swap.antt =====
-- An execution against an origin that evaluates preconditions is a compare-and-swap
-- (demo/src/http-atomic.js).
use Prim.Native.Nat.{ℕ}
use capability_demo.Prelude.{
  List, is_some, ◌≡◌, refl, sym, ap, ◌∙◌, Bool, true, false, not, ◌&&◌, ◌||◌, String, ◌==◌, eqb,
  eq_iff, arith, [], ◌∷◌, Option, none, some, Bool-cases, inl, inr, if◌then◌else◌,
}
use capability_demo.Json.{get}
use capability_demo.Runtime.{Node, scalar}
use capability_demo.Git.Execute.{text_or, field_has_delimiter}
use capability_demo.Http.Request.{
  FetchInit, HttpResponse, Origin, Observed, is_strong_etag, is_create_intent_pin, observation,
  observed_by, is_2xx, http_request, observe_etag,
}
use capability_demo.Http.Canary.{canary_gate_refusal}
use capability_demo.Http.Execute.{
  HttpRequest, HttpOutcome, Write, passive, written, turned_down, crash, write_of, write_headers,
  attest_write, differs, judge_write, send_write, after_observation, after_gate, choose_canary,
  at_resource, http_atomic_execute,
}
use capability_demo.Http.Laws.Trace.{IsAdmitted}

abbrev pub is_written : HttpOutcome → Bool
is_written (written _ _ _ _) = true
is_written (turned_down _) = false
is_written crash = false

-- Whether an execution answers with evidence, and the state that it leaves.
abbrev pub seen : {S : Type 0} → HttpOutcome × S → Bool × S
seen x = (is_written x.0, x.1)

-- A resource behind the origin: its current tag, `none` where it does not exist, and its next state
-- under a write.
pub record Stored (S : Type 0) : Type 0 where
  pub current : S → Option String
  pub text : S → String
  pub replaced : S → (verb body : String) → S
  -- what the origin answers to a write, and to one whose precondition fails
  pub accepted : S → HttpResponse
  pub failed : S → HttpResponse

-- Whether a write with this pin may go ahead (RFC 9110, If-Match and If-None-Match: *).
abbrev pub may_write : Option String → String → Bool
may_write none pin = is_create_intent_pin pin
may_write (some etag) pin = not (is_create_intent_pin pin) && etag == pin

-- Compare-and-swap: what an execution stands for.
abbrev pub swap : {S : Type 0} → Stored S → Write → S → Bool × S
swap c w s =
    if may_write (c.current s) w.pin then (true, c.replaced s w.verb w.wire_body) else (false, s)

abbrev pub representation : Option String → String → HttpResponse
representation none text = record { status = 404; ok = false; etag = none; text = text }
representation (some etag) text = record { status = 200; ok = true; etag = some etag; text = text }

abbrev pub read_init : FetchInit
read_init = record { method = "GET"; headers = []; redirect = "manual"; body = none }

abbrev pub write_init : String → List (String × String) → String → FetchInit
write_init verb headers body = record {
  method = verb;
  headers = headers;
  redirect = "manual";
  body = some body;
}

-- The value of a header.
abbrev pub header : String → List (String × String) → Option String
header k [] = none
header k ((j, v) ∷ hs) = let rest = header k hs in if j == k then some v else rest

abbrev pub has_tag : Option String → String → Bool
has_tag none pin = false
has_tag (some etag) pin = etag == pin

-- Whether the precondition of a request holds, by its If-Match and If-None-Match; `none` where they
-- are not of the two forms that the adapter sends.
abbrev pub precondition : Option String → (if_match if_none_match : Option String) → Option Bool
precondition current none none = some true
precondition current (some pin) none = some (has_tag current pin)
precondition current none (some v) = if v == "*" then some (not (is_some current)) else none
precondition current (some pin) (some v) = none

abbrev pub precondition_of : Option String → List (String × String) → Option Bool
precondition_of current headers =
    precondition current (header "if-match" headers) (header "if-none-match" headers)

-- What RFC 9110 says of an origin with strong tags: a GET changes nothing, and a write whose
-- precondition fails is answered with 412 and changes nothing.
pub record IsConforming (S : Type 0) (origin : Origin S) (url : String) (c : Stored S)
    : Type 0 where
  pub strong : (s : S) (etag : String) → c.current s ≡ some etag → is_strong_etag (some etag) ≡ true
  pub reads :
      (s : S) → origin.fetch s url read_init ≡ (some (representation (c.current s) (c.text s)), s)
  pub accepts : (s : S) → is_2xx (c.accepted s).status ≡ true
  pub fails : (s : S) → (c.failed s).status ≡ 412
  pub writes :
      (s : S) (verb body : String) (headers : List (String × String))
      → ((verb == "PUT") || (verb == "PATCH")) ≡ true
      → precondition_of (c.current s) headers ≡ some true
      → origin.fetch s url (write_init verb headers body)
        ≡ (some (c.accepted s), c.replaced s verb body)
  pub keeps :
      (s : S) (verb body : String) (headers : List (String × String))
      → ((verb == "PUT") || (verb == "PATCH")) ≡ true
      → precondition_of (c.current s) headers ≡ some false
      → origin.fetch s url (write_init verb headers body) ≡ (some (c.failed s), s)

-- The headers of a write state its pin.
headers_pinned :
    (current : Option String) (w : Write)
    → precondition_of current (write_headers w) ≡ some (may_write current w.pin)
headers_pinned none w = elim (Bool-cases (is_create_intent_pin w.pin)) [
  | inl e ↦ rw e refl
  | inr e ↦ rw e refl
]
headers_pinned (some etag) w = elim (Bool-cases (is_create_intent_pin w.pin)) [
  | inl e ↦ rw e refl
  | inr e ↦ rw e refl
]

landed_status : (status : ℕ) → is_2xx status ≡ true → eqb status 412 ≡ false
landed_status status h = ground arith

same_tag :
    (etag : Option String) (pin : String) → may_write etag pin ≡ true → differs etag pin ≡ false
same_tag none pin h = refl
same_tag (some etag) pin h = ground arith

neither : (a b : Bool) → (a || b) ≡ true → (not a && not b) ≡ false
neither true b h = refl
neither false true h = refl
neither false false h = cc

skip : {A : Type 0} (b : Bool) (x y : A) → b ≡ false → (if b then x else y) ≡ y
skip b x y h = rw h refl

module _ (node : Node) where
  accepted_written :
      (w : Write) (o : Observed) (r : HttpResponse)
      → is_2xx r.status ≡ true
      → differs o.etag w.pin ≡ false
      → w.crash_before_seal ≡ false
      → is_written (judge_write node w none o (some r)) ≡ true
  unfolding judge_write attest_write
  accepted_written w o r h same runs = rw (landed_status r.status h) (rw h (rw same (rw runs refl)))

  failed_unwritten :
      (w : Write) (o : Observed) (r : HttpResponse)
      → r.status ≡ 412
      → is_written (judge_write node w none o (some r)) ≡ false
  unfolding judge_write
  failed_unwritten w o r h = rw h refl

  module _ {S : Type 0} (origin : Origin S) (c : Stored S) where
    send_swap :
        (w : Write) (o : Observed) (s : S)
        → IsConforming S origin w.url c
        → o.etag ≡ c.current s
        → ((w.verb == "PUT") || (w.verb == "PATCH")) ≡ true
        → w.crash_before_seal ≡ false
        → seen (send_write node origin w none o s) ≡ swap c w s
    unfolding send_write http_request
    send_swap w o s law at_tag verb runs = elim (Bool-cases (may_write (c.current s) w.pin)) [
      | inl allowed ↦
          let same : differs o.etag w.pin ≡ false =
            ap (λ t. differs t w.pin) at_tag ∙ same_tag (c.current s) w.pin allowed in
          rw
            (law.writes s w.verb w.wire_body (write_headers w) verb
              (headers_pinned (c.current s) w ∙ ap some allowed))
            (rw allowed (
              ap (λ b. (b, c.replaced s w.verb w.wire_body))
                (accepted_written w o (c.accepted s) (law.accepts s) same runs)))
      | inr blocked ↦
          rw
            (law.keeps s w.verb w.wire_body (write_headers w) verb
              (headers_pinned (c.current s) w ∙ ap some blocked))
            (rw blocked (ap (λ b. (b, s)) (failed_unwritten w o (c.failed s) (law.fails s))))
    ]

    observed_swap :
        (w : Write) (s : S) (etag : Option String)
        → IsConforming S origin w.url c
        → c.current s ≡ etag
        → ((w.verb == "PUT") || (w.verb == "PATCH")) ≡ true
        → w.crash_before_seal ≡ false
        → seen (
            after_observation node origin w none
              (some (observation (representation etag (c.text s))), s))
          ≡ swap c w s
    unfolding after_observation
    observed_swap w s none law e verb runs = elim (Bool-cases (is_create_intent_pin w.pin)) [
      | inl creates ↦
          ap seen (
            skip (not (is_create_intent_pin w.pin) && _) _ _ (rw creates refl)
            ∙ skip (is_create_intent_pin w.pin && _) _ _ (rw creates refl))
          ∙ send_swap w (observation (representation none (c.text s))) s law (sym e) verb runs
      | inr updates ↦ rw updates (rw e (rw updates refl))
    ]
    observed_swap w s (some etag) law e verb runs = elim (Bool-cases (is_create_intent_pin w.pin)) [
      | inl creates ↦ rw creates (rw e (rw creates refl))
      | inr updates ↦
          ap seen (
            skip (not (is_create_intent_pin w.pin) && not (is_strong_etag (some etag))) _ _
              (rw (law.strong s etag e) (rw updates refl))
            ∙ skip (is_create_intent_pin w.pin && _) _ _ (rw updates refl))
          ∙ send_swap w (observation (representation (some etag) (c.text s))) s law (sym e) verb
              runs
    ]

    -- A request that passes every check gets as far as the canary.
    admitted_executes :
        (q : HttpRequest) (url : String) (s : S)
        → IsAdmitted node q (write_of node q url)
        → http_atomic_execute node origin s q
          ≡ choose_canary node origin q (write_of node q url) s q.canary
    unfolding http_atomic_execute at_resource
    admitted_executes q url s h =
        let w = write_of node q url in
        let matched : ((scalar node
                (elim q.payload [ none ↦ none | some p ↦ get "deployment_id" p ]))
              == text_or q.deployment_id)
            ≡ true =
          (eq_iff _ _).1 h.bound in
        skip
          (text_or q.deployment_id == ""
            || not (
                (scalar node (elim q.payload [ none ↦ none | some p ↦ get "deployment_id" p ]))
                == text_or q.deployment_id))
          _ _ (rw h.configured (rw matched refl))
        ∙ skip (w.jti == "") _ _ h.spends
        ∙ skip (w.pin == "") _ _ h.has_pin
        ∙ skip (not (is_create_intent_pin w.pin) && not (is_strong_etag (some w.pin))) _ _
            (neither (is_create_intent_pin w.pin) (is_strong_etag (some w.pin)) h.pinned)
        ∙ skip (not (w.verb == "PUT") && not (w.verb == "PATCH")) _ _
            (neither (w.verb == "PUT") (w.verb == "PATCH") h.verb)
        ∙ skip (field_has_delimiter (text_or q.resource_path ∷ w.jti ∷ w.configured ∷ w.pin ∷ [])) _
            _ h.delimited
        ∙ ap (at_resource node origin q s) h.place

    -- A request that passes every check and asks for no probe, against an origin that answers as
    -- RFC 9110 says: whether the execution answers with evidence, and the state it leaves behind,
    -- are those of a compare-and-swap of the resource from the pin to the body.
    pub http_atomic_execute-swap :
        (q : HttpRequest) (url : String) (s : S)
        → IsAdmitted node q (write_of node q url)
        → q.canary ≡ passive
        → q.crash_before_seal ≡ false
        → IsConforming S origin url c
        → seen (http_atomic_execute node origin s q) ≡ swap c (write_of node q url) s
    unfolding choose_canary after_gate canary_gate_refusal observe_etag http_request
    http_atomic_execute-swap q url s h no_probe runs law =
        let w = write_of node q url in
        ap seen (admitted_executes q url s h ∙ ap (choose_canary node origin q w s) no_probe)
        ∙ ap (λ r. seen (after_observation node origin w none (observed_by r))) (law.reads s)
        ∙ observed_swap w s (c.current s) law refl h.verb runs
