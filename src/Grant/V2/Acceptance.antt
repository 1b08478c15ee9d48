-- ===== src/Grant/V2/Acceptance.antt =====
-- When `verifyExecutionGrantV2` answers GRANT_CURRENT.
use capability_demo.Prelude.{
  ◌≡◌, ◌≢◌, ◌↔◌, refl, ap, ◌∙◌, true, some-inj, String, Option, none, some, All, arith,
}
use capability_demo.Json.{Json, str, get, is_text, is_text_iff}
use capability_demo.Runtime.{Node}
use capability_demo.Grant.Verdict.{
  Verdict, first_refusal-none_iff, conclude, conclude-valid_iff, Parsed, rejected, parsed,
}
use capability_demo.Grant.Options.{VerifyOptions}
use capability_demo.Grant.Options.Laws.{
  Meets, MeetsBy, IsSigned, IsInWindow, check_differs_iff, check_differs_by_iff, check_retired_iff,
  check_signature_sound, check_signature_complete, check_key_given_complete, check_kid_iff,
  check_time_sound, check_time_complete,
}
use capability_demo.Grant.V2.{
  hash_of, signing_input_v2, check_signature_v2, check_after, grant_gates_v2, verify_parsed_v2,
  verify_execution_grant_v2, parse_grant_token_v2,
}
use capability_demo.Grant.V2.Parsing.{IsTokenV2, parse_grant_token_v2-parsed_iff}

module _ (node : Node) (opts : VerifyOptions) where
  -- A payload and a signature that permit what the caller intends, now.
  pub record IsCurrentV2 (payload : Json) (sig : String) : Type 0 where
    pub kid : Meets opts.key_kid (get "kid" payload)
    pub active : opts.key_status ≢ some "retired"
    pub message : String
    pub canonical : signing_input_v2 node payload ≡ some message
    pub signed : IsSigned node opts message sig
    pub window : IsInWindow node opts "expires_at" "not_before" payload
    pub receipt : MeetsBy (hash_of node) opts.intended.receipt_token (get "receipt_hash" payload)
    pub operation : Meets opts.intended.operation (get "operation" payload)
    pub target : Meets opts.intended.target_uri (get "target_uri" payload)
    pub executor : Meets opts.intended.executor_id (get "executor_id" payload)
    pub adapter : Meets opts.intended.adapter_id (get "adapter_id" payload)
    pub audience : MeetsBy (hash_of node) opts.intended.audience (get "audience_hash" payload)
    pub after :
        (a : String)
        → opts.intended.after_payload ≡ some a
        → get "after_payload_hash" payload ≡ some (str (hash_of node a))

  after_sound :
      (want : Option String) (have : Option Json)
      → check_after node opts want have ≡ none
      → (a : String) → want ≡ some a
      → have ≡ some (str (hash_of node a))
  unfolding check_after
  after_sound none have h a e = cc
  after_sound (some w) have h a e =
      (is_text_iff have (hash_of node a)).0 (ground (arith, ap (hash_of node) (some-inj e)))

  after_complete :
      (want : Option String) (have : Option Json)
      → ((a : String) → want ≡ some a → have ≡ some (str (hash_of node a)))
      → check_after node opts want have ≡ none
  unfolding check_after
  after_complete none have m = refl
  after_complete (some w) have m =
      let same : is_text have (hash_of node w) ≡ true =
        (is_text_iff have (hash_of node w)).1 (m w refl) in
      rw same refl

  signature_sound :
      (input : Option String) (sig : String)
      → check_signature_v2 node opts input sig ≡ none
      → (message : String) × (input ≡ some message) × IsSigned node opts message sig
  unfolding check_signature_v2
  signature_sound none sig h = cc
  signature_sound (some m) sig h = (m, refl, check_signature_sound node opts m sig h)

  gates_sound :
      (payload : Json) (sig : String)
      → All (λ g. g ≡ none) (grant_gates_v2 node opts payload sig)
      → IsCurrentV2 payload sig
  unfolding grant_gates_v2
  gates_sound payload sig
        (
          key,
          (
            kid,
            (
              retired,
              (
                signature,
                (
                  time,
                  (receipt, (operation, (target, (executor, (adapter, (audience, (after, _))))))),
                ),
              ),
            ),
          ),
        ) =
      let (message, canonical, signed) =
        signature_sound (signing_input_v2 node payload) sig signature in
      record {
        kid = (check_kid_iff node opts payload).0 kid;
        active = (check_retired_iff node opts).0 retired;
        message = message;
        canonical = canonical;
        signed = signed;
        window = check_time_sound node opts _ "expires_at" "not_before" payload time;
        receipt = (check_differs_by_iff _ _ _ _ _).0 receipt;
        operation = (check_differs_iff _ _ _ _).0 operation;
        target = (check_differs_iff _ _ _ _).0 target;
        executor = (check_differs_iff _ _ _ _).0 executor;
        adapter = (check_differs_iff _ _ _ _).0 adapter;
        audience = (check_differs_by_iff _ _ _ _ _).0 audience;
        after = after_sound opts.intended.after_payload (get "after_payload_hash" payload) after;
      }

  gates_complete :
      (payload : Json) (sig : String)
      → IsCurrentV2 payload sig
      → All (λ g. g ≡ none) (grant_gates_v2 node opts payload sig)
  unfolding grant_gates_v2 check_signature_v2
  gates_complete payload sig c = (
    check_key_given_complete node opts c.signed.0 c.signed.1,
    (
      (check_kid_iff node opts payload).1 c.kid,
      (
        (check_retired_iff node opts).1 c.active,
        (
          rw c.canonical (check_signature_complete node opts c.message sig c.signed),
          (
            check_time_complete node opts _ "expires_at" "not_before" payload c.window,
            (
              (check_differs_by_iff _ _ _ _ _).1 c.receipt,
              (
                (check_differs_iff _ _ _ _).1 c.operation,
                (
                  (check_differs_iff _ _ _ _).1 c.target,
                  (
                    (check_differs_iff _ _ _ _).1 c.executor,
                    (
                      (check_differs_iff _ _ _ _).1 c.adapter,
                      (
                        (check_differs_by_iff _ _ _ _ _).1 c.audience,
                        (
                          after_complete opts.intended.after_payload
                              (get "after_payload_hash" payload) c.after,
                          tt,
                        ),
                      ),
                    ),
                  ),
                ),
              ),
            ),
          ),
        ),
      ),
    ),
  )

  parsed_sound :
      (p : Parsed)
      → (verify_parsed_v2 node opts p).valid ≡ true
      → (payload : Json) × (sig : String) × (p ≡ parsed payload sig) × IsCurrentV2 payload sig
  unfolding verify_parsed_v2
  parsed_sound (rejected r o) h = cc
  parsed_sound (parsed payload sig) h = (
    payload,
    sig,
    refl,
    gates_sound payload sig ((first_refusal-none_iff _).0 ((conclude-valid_iff payload _).0 h)),
  )

  accepted :
      (token : String)
      → (verify_execution_grant_v2 node opts token).valid ≡ true
      → (payload : Json) × (sig : String) × IsTokenV2 node token payload sig
        × IsCurrentV2 payload sig
  unfolding verify_execution_grant_v2
  accepted token h =
      let (payload, sig, e, c) = parsed_sound (parse_grant_token_v2 node token) h in
      (payload, sig, (parse_grant_token_v2-parsed_iff node token payload sig).0 e, c)

  pub permitted :
      (token : String) (payload : Json) (sig : String)
      → IsTokenV2 node token payload sig
      → IsCurrentV2 payload sig
      → verify_execution_grant_v2 node opts token ≡ conclude payload none
  unfolding verify_execution_grant_v2
  permitted token payload sig t c =
      ap (verify_parsed_v2 node opts) ((parse_grant_token_v2-parsed_iff node token payload sig).1 t)
      ∙ ap (conclude payload) (
          (first_refusal-none_iff (grant_gates_v2 node opts payload sig)).1
            (gates_complete payload sig c))

  -- The v2 verifier accepts a token exactly when the token is well formed and its payload and
  -- signature are current: the kid is the pinned one, the key is not retired and verifies the
  -- canonical body, the time lies in the validity with the leeway, the operation, the target, the
  -- executor and the adapter are those that the caller intends, and the receipt, the audience and
  -- the after-payload have the hashes signed, where the caller states them.
  pub verify_execution_grant_v2-valid_iff :
      (token : String)
      → ((verify_execution_grant_v2 node opts token).valid ≡ true) ↔ (
          (payload : Json) × (sig : String) × IsTokenV2 node token payload sig
          × IsCurrentV2 payload sig)
  verify_execution_grant_v2-valid_iff token = (
    accepted token,
    λ h.
        let (payload, sig, t, c) = h in
        ap (λ (v : Verdict). v.valid) (permitted token payload sig t c)
        ∙ (conclude-valid_iff payload none).1 refl,
  )
