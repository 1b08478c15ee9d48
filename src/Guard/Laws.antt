-- ===== src/Guard/Laws.antt =====
-- What the guard lets through (packages/middleware/src/index.js).
use capability_demo.Prelude.{
  ◌≡◌, ◌≢◌, ◌⊎◌, inl, inr, refl, sym, ap, ◌∙◌, Bool, true, false, String, ◌==◌, eq_iff, Option,
  some, some-inj, arith, Bool-cases, Option-cases, if◌then◌else◌,
}
use capability_demo.Json.{Json, str, get}
use capability_demo.Runtime.{Node}
use capability_demo.Grant.Verdict.{Verdict, Status, Reason}
use capability_demo.Grant.Verdict.{conclude}
use capability_demo.Grant.V1.{signing_input}
use capability_demo.Grant.V2.{hash_of, signing_input_v2}
use capability_demo.Grant.V2.Parsing.{IsTokenV2}
use capability_demo.Grant.V1.Acceptance as V1
use capability_demo.Grant.V2.Acceptance as V2
use capability_demo.Grant.V1.Parsing.{IsToken}
use capability_demo.Grant.V1.Acceptance.{IsCurrent}
use capability_demo.Grant.V1.Binding.{Intends, scope_of_intent}
use capability_demo.Grant.V2.Acceptance.{IsCurrentV2}
use capability_demo.Grant.AnyVersion.{
  IsAccepted, peek_v1, peek_v2, verify_execution_grant_any_version, verify_any_version-valid_iff,
}
use capability_demo.Guard.Remedy.{DenyRemedy}
use capability_demo.Guard.Keys.{Keyring, PinnedKey}
use capability_demo.Guard.{
  body_text, pinned_key, intent_of, with_key, HttpRequest, GuardOptions, Answer, passed, denied,
  operation_of, verify_options, or_empty, execution_grant_guard, answer_of, deny_with, scope_of,
}

-- The request goes on to the handler.
abbrev pub has_passed : Answer → Bool
has_passed (passed p) = true
has_passed (denied _ _ _) = false

module _ (node : Node) (ring : Keyring) (config : GuardOptions) where
  -- What the guard runs on the header of a request.
  abbrev pub verdict_of : HttpRequest → Verdict
  verdict_of req =
      verify_execution_grant_any_version node
        (verify_options node ring config req (or_empty req.header)) (or_empty req.header)

  unless-passed :
      (b : Bool) (s : Status) (r : Option Reason) (m : Option DenyRemedy) (rest : Answer)
      (p : Option Json)
      → (if b then denied s r m else rest) ≡ passed p
      → (b ≡ false) × (rest ≡ passed p)
  unless-passed true s r m rest p h = cc
  unless-passed false s r m rest p h = (refl, h)

  answer_sound :
      (req : HttpRequest) (v : Verdict) (p : Option Json)
      → answer_of node ring config req v ≡ passed p
      → (v.valid ≡ true) × (v.payload ≡ p)
  unfolding answer_of deny_with
  answer_sound req v p h = elim (Bool-cases v.valid) [
    | inl good ↦ (good, passed-inj (rw good at h))
    | inr bad ↦ cc (rw bad at h)
  ]
    where
      passed-inj : {a b : Option Json} → passed a ≡ passed b → a ≡ b
      passed-inj e = cc

  guard_sound :
      (req : HttpRequest) (p : Option Json)
      → execution_grant_guard node ring config req ≡ passed p
      → (operation_of node ring config req ≢ "")
        × (or_empty req.header ≢ "")
        × ((verdict_of req).valid ≡ true)
        × ((verdict_of req).payload ≡ p)
  unfolding execution_grant_guard deny_with
  guard_sound req p h =
      let (o, h₁) = unless-passed (operation_of node ring config req == "") _ _ _ _ p h in
      let (t, h₂) = unless-passed (or_empty req.header == "") _ _ _ _ p h₁ in
      let (v, q) = answer_sound req (verdict_of req) p h₂ in
      (ne_of_test _ _ o, ne_of_test _ _ t, v, q)
    where
      ne_of_test : (s t : String) → (s == t) ≡ false → s ≢ t
      ne_of_test s t h e = ground (arith, eq_iff s t)

  answer_complete :
      (req : HttpRequest) (v : Verdict)
      → v.valid ≡ true
      → answer_of node ring config req v ≡ passed v.payload
  unfolding answer_of
  answer_complete req v h = rw h refl

  passed_form : (a : Answer) → has_passed a ≡ true → (p : Option Json) × (a ≡ passed p)
  passed_form (passed p) h = (p, refl)
  passed_form (denied _ _ _) h = cc

  test_of_ne : (s t : String) → s ≢ t → (s == t) ≡ false
  test_of_ne s t h = ground (arith, eq_iff s t)

  intended_of :
      (req : HttpRequest) (token : String)
      → (verify_options node ring config req token).intended ≡ intent_of node ring config req token
  unfolding verify_options with_key
  intended_of req token = elim (Option-cases (pinned_key node ring config token)) [
    | inl e ↦ rw e refl
    | inr (key, e) ↦ rw e refl
  ]

  -- The key that checked the signature is pinned, and is not retired.
  key_of :
      (req : HttpRequest) (token k : String)
      → (verify_options node ring config req token).public_key ≡ some k
      → (verify_options node ring config req token).key_status ≢ some "retired"
      → (key : PinnedKey) × (pinned_key node ring config token ≡ some key)
        × (key.public_key ≡ k)
        × (key.status ≢ "retired")
  unfolding verify_options with_key
  key_of req token k h n = elim (Option-cases (pinned_key node ring config token)) [
    | inl e ↦ cc (rw e at h)
    | inr (key, e) ↦ (key, e, some-inj (rw e at h), λ r. n (rw e (ap some r)))
  ]

  -- What a grant of either version says of a request that passed.
  pub IsBound : HttpRequest → Json → Type 0
  IsBound req payload =
      (get "operation" payload ≡ some (str (operation_of node ring config req)))
      × ((get "scope_hash" payload ≡ some (str (scope_of node ring config req)))
          ⊎ (get "after_payload_hash" payload
              ≡ some (str (hash_of node (body_text node ring config req.raw_body)))))

  IsBound-v1 :
      (req : HttpRequest) (token : String) (payload : Json) (sig : String)
      → operation_of node ring config req ≢ ""
      → IsToken node token payload sig
      → IsCurrent node (verify_options node ring config req token) payload sig
      → IsBound req payload
  unfolding IsBound scope_of intent_of
  IsBound-v1 req token payload sig o t c =
      let e = intended_of req token in
      let i : Intends (verify_options node ring config req token)
          (operation_of node ring config req) (config.target_id req)
          (body_text node ring config req.raw_body) =
        record {
          no_hash = rw e refl;
          operation = rw e refl;
          target =
              rw (e, intent_of)
                (rw (peek_v1 node (verify_options node ring config req token) token sig payload t)
                  refl);
          after = rw e refl;
        } in
      (
        c.operation (operation_of node ring config req) i.operation o,
        inl (
            scope_of_intent node (verify_options node ring config req token) payload sig _ _ _ i c),
      )

  IsBound-v2 :
      (req : HttpRequest) (token : String) (payload : Json) (sig : String)
      → operation_of node ring config req ≢ ""
      → IsCurrentV2 node (verify_options node ring config req token) payload sig
      → IsBound req payload
  unfolding IsBound intent_of
  IsBound-v2 req token payload sig o c =
      let e = intended_of req token in
      (
        c.operation (operation_of node ring config req) (rw e refl) o,
        inr (c.after (body_text node ring config req.raw_body) (rw e refl)),
      )

  -- The text that the signature of a token signs: of a v1 token the signing input of its fields, of
  -- a v2 token the prefix with its canonical body.
  pub Signs : String → Json → String → String → Type 0
  Signs token payload sig message =
      (IsToken node token payload sig × (message ≡ signing_input node payload))
      ⊎ (IsTokenV2 node token payload sig × (signing_input_v2 node payload ≡ some message))

  -- A request that passed, with the payload of its grant, the pinned key and what it checked.
  pub record IsAuthorized (req : HttpRequest) (payload : Json) : Type 0 where
    pub key : PinnedKey
    pub pinned : pinned_key node ring config (or_empty req.header) ≡ some key
    pub active : key.status ≢ "retired"
    pub sig : String
    pub message : String
    pub token : Signs (or_empty req.header) payload sig message
    pub signed : node.verify key.public_key message sig ≡ some true
    pub bound : IsBound req payload

  authorized :
      (req : HttpRequest) (payload : Json) (k message sig : String)
      → (verify_options node ring config req (or_empty req.header)).public_key ≡ some k
      → (verify_options node ring config req (or_empty req.header)).key_status ≢ some "retired"
      → Signs (or_empty req.header) payload sig message
      → node.verify k message sig ≡ some true
      → IsBound req payload
      → IsAuthorized req payload
  authorized req payload k message sig h n t v b =
      let (key, e, same, active) = key_of req (or_empty req.header) k h n in
      record {
        key = key;
        pinned = e;
        active = active;
        sig = sig;
        message = message;
        token = t;
        signed = rw same v;
        bound = b;
      }

  accepted-IsAuthorized :
      (req : HttpRequest)
      → operation_of node ring config req ≢ ""
      → IsAccepted node
          (verify_options node ring config req (or_empty req.header))
          (or_empty req.header)
      → (payload : Json) × ((verdict_of req).payload ≡ some payload) × IsAuthorized req payload
  unfolding verify_execution_grant_any_version conclude Signs
  accepted-IsAuthorized req o (inl (payload, sig, t, c)) = (
    payload,
    rw (peek_v1 node (verify_options node ring config req (or_empty req.header)) _ sig payload t)
        (ap (λ (v : Verdict). v.payload) (V1.permitted node _ _ payload sig t c)),
    authorized req payload c.signed.0 _ sig c.signed.1 c.active (inl (t, refl)) c.signed.2
        (IsBound-v1 req _ payload sig o t c),
  )
  accepted-IsAuthorized req o (inr (payload, sig, t, c)) = (
    payload,
    rw (peek_v2 node (verify_options node ring config req (or_empty req.header)) _ sig payload t)
        (ap (λ (v : Verdict). v.payload) (V2.permitted node _ _ payload sig t c)),
    authorized req payload c.signed.0 c.message sig c.signed.1 c.active (inr (t, c.canonical))
        c.signed.2 (IsBound-v2 req _ payload sig o c),
  )

  -- What the guard passes on is the payload of the token in the grant header, a token of either
  -- version whose signature a pinned key, which is not retired, verifies over the signing input of
  -- that payload. The payload is for the operation of the route and binds the request: a v1 grant
  -- the hash over operation, target and body, a v2 grant the hash of the body, where the body is
  -- the text that the bytes of the raw body decode to.
  pub execution_grant_guard-IsAuthorized :
      (req : HttpRequest)
      → has_passed (execution_grant_guard node ring config req) ≡ true
      → (payload : Json) × (execution_grant_guard node ring config req ≡ passed (some payload))
        × IsAuthorized req payload
  execution_grant_guard-IsAuthorized req h =
      let (p, e) = passed_form _ h in
      let (o, t, v, q) = guard_sound req p e in
      let (payload, same, a) =
        accepted-IsAuthorized req o ((verify_any_version-valid_iff node _ _).0 v) in
      (payload, e ∙ ap passed (sym q ∙ same), a)
