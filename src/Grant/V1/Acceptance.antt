-- ===== src/Grant/V1/Acceptance.antt =====
-- When `verifyExecutionGrant` answers GRANT_CURRENT.
use text.Mathlib.Text.{starts_with}
use capability_demo.Prelude.{
  ◌≡◌, ◌≢◌, ◌↔◌, inl, inr, refl, ap, sym, ◌∙◌, Bool, true, false, or-eq-false_iff, some-inj, String,
  ◌==◌, eq_iff, List, [], ◌∷◌, Option, none, some, All, any, arith, Bool-cases, ◌++◌,
}
use capability_demo.Json.{Json, str, get, is_text, is_text_iff}
use capability_demo.Runtime.{Node, scalar}
use capability_demo.Grant.Verdict.{
  refuse_if-none_iff, first_refusal-none_iff, conclude, Verdict, conclude-valid_iff, Parsed,
  rejected, parsed,
}
use capability_demo.Grant.Options.{VerifyOptions}
use capability_demo.Grant.Options.Laws.{
  Meets, IsSigned, IsInWindow, check_differs_iff, check_retired_iff, check_signature_sound,
  check_signature_complete, check_key_given_complete, check_kid_iff, check_time_sound,
  check_time_complete,
}
use capability_demo.Grant.V1.{
  signed_fields, optional_signed_fields, has_delimiter, field_has_delimiter, receipt_digest,
  signing_input, compute_scope_hash, intended_or, scope_of_payload, check_receipt,
  check_receipt_token, expected_scope, scope_answer, check_scope, grant_gates, verify_parsed,
  verify_execution_grant, parse_grant_token,
}
use capability_demo.Grant.V1.Parsing.{IsToken, parse_grant_token-parsed_iff}

-- No signed field holds the separator of the signing input.
abbrev pub IsUndelimited : Json → Type 0
IsUndelimited payload =
    All (λ k. has_delimiter (get k payload) ≡ false) (signed_fields ++ optional_signed_fields)

any-false_iff :
    (p : String → Bool) (xs : List String) → (any p xs ≡ false) ↔ All (λ x. p x ≡ false) xs
any-false_iff p [] = (λ _. tt, λ _. refl)
any-false_iff p (x ∷ xs) = (
  λ h.
      let (here, later) = (or-eq-false_iff (p x) (any p xs)).0 h in
      (here, (any-false_iff p xs).0 later),
  λ h. (or-eq-false_iff (p x) (any p xs)).1 (h.0, (any-false_iff p xs).1 h.1),
)

IsUndelimited-iff : (payload : Json) → (field_has_delimiter payload ≡ false) ↔ IsUndelimited payload
unfolding field_has_delimiter
IsUndelimited-iff payload =
    any-false_iff (λ k. has_delimiter (get k payload)) (signed_fields ++ optional_signed_fields)

true-ne-false : {b : Bool} → b ≡ true → b ≡ false → ⊥
true-ne-false p q = cc

module _ (node : Node) (opts : VerifyOptions) where
  -- The hash of the operation, the target and the after-payload that the caller intends; the
  -- payload's own operation and target stand in for those that it leaves out.
  abbrev pub intended_scope : Json → String → String
  intended_scope payload after =
      compute_scope_hash node
        (intended_or node opts opts.intended.operation (get "operation" payload))
        (intended_or node opts opts.intended.target_id (get "target_id" payload)) (some (str after))

  -- A payload and a signature that permit what the caller intends, now.
  pub record IsCurrent (payload : Json) (sig : String) : Type 0 where
    pub undelimited : IsUndelimited payload
    pub kid : Meets opts.key_kid (get "kid" payload)
    pub active : opts.key_status ≢ some "retired"
    pub signed : IsSigned node opts (signing_input node payload) sig
    pub window : IsInWindow node opts "exp" "iat" payload
    pub bound : starts_with (scalar node (get "receipt_digest" payload)) "sha256:" ≡ true
    pub receipt :
        (t : String)
        → opts.intended.receipt_token ≡ some t
        → t ≢ ""
        → get "receipt_digest" payload ≡ some (str (receipt_digest node t))
    pub audience : Meets opts.intended.audience (get "audience" payload)
    pub operation : Meets opts.intended.operation (get "operation" payload)
    pub target : Meets opts.intended.target_id (get "target_id" payload)
    pub scope_given : Meets opts.intended.scope_hash (get "scope_hash" payload)
    pub scope_computed :
        ((h : String) → opts.intended.scope_hash ≡ some h → h ≡ "")
        → (after : String) → opts.intended.after_payload ≡ some after
        → get "scope_hash" payload ≡ some (str (intended_scope payload after))

  receipt_sound :
      (want : Option String) (payload : Json)
      → check_receipt_token node opts want payload ≡ none
      → (t : String) → want ≡ some t
      → t ≢ ""
      → get "receipt_digest" payload ≡ some (str (receipt_digest node t))
  unfolding check_receipt_token
  receipt_sound none payload h t e n = cc
  receipt_sound (some w) payload h t e n =
      (is_text_iff (get "receipt_digest" payload) (receipt_digest node t)).0
        (ground (arith, eq_iff w "", ap (receipt_digest node) (some-inj e)))

  receipt_complete :
      (want : Option String) (payload : Json)
      → ((t : String)
          → want ≡ some t
          → t ≢ ""
          → get "receipt_digest" payload ≡ some (str (receipt_digest node t)))
      → check_receipt_token node opts want payload ≡ none
  unfolding check_receipt_token
  receipt_complete none payload m = refl
  receipt_complete (some w) payload m = elim (Bool-cases (w == "")) [
    | inl empty ↦ rw empty refl
    | inr full ↦
        let same : is_text (get "receipt_digest" payload) (receipt_digest node w) ≡ true =
          (is_text_iff _ (receipt_digest node w)).1 (m w refl (λ e. ground (arith, eq_iff w ""))) in
        ground arith
  ]

  answer_iff :
      (h : String) (payload : Json)
      → (scope_answer node opts (some h) payload ≡ none) ↔ (get "scope_hash" payload ≡ some (str h))
  unfolding scope_answer
  answer_iff h payload = (
    λ e. (is_text_iff (get "scope_hash" payload) h).0 (ground arith),
    λ e. let same = (is_text_iff (get "scope_hash" payload) h).1 e in rw same refl,
  )

  computed_sound :
      (after? : Option String) (payload : Json)
      → scope_answer node opts (scope_of_payload node opts after? payload) payload ≡ none
      → (after : String) → after? ≡ some after
      → get "scope_hash" payload ≡ some (str (intended_scope payload after))
  unfolding scope_of_payload
  computed_sound none payload h after e = cc
  computed_sound (some a) payload h after e =
      rw (← some-inj e) ((answer_iff (intended_scope payload a) payload).0 h)

  computed_complete :
      (after? : Option String) (payload : Json)
      → ((after : String)
          → after? ≡ some after
          → get "scope_hash" payload ≡ some (str (intended_scope payload after)))
      → scope_answer node opts (scope_of_payload node opts after? payload) payload ≡ none
  unfolding scope_of_payload
  computed_complete none payload m = unfold scope_answer in refl
  computed_complete (some a) payload m =
      (answer_iff (intended_scope payload a) payload).1 (m a refl)

  scope_sound :
      (want : Option String) (payload : Json)
      → scope_answer node opts (expected_scope node opts want payload) payload ≡ none
      → Meets want (get "scope_hash" payload)
        × (((h : String) → want ≡ some h → h ≡ "")
            → (after : String) → opts.intended.after_payload ≡ some after
            → get "scope_hash" payload ≡ some (str (intended_scope payload after)))
  unfolding expected_scope
  scope_sound none payload h =
      (λ w e n. cc, λ _. computed_sound opts.intended.after_payload payload h)
  scope_sound (some g) payload h = elim (Bool-cases (g == "")) [
    | inl empty ↦ (
      λ w e n. absurd (n (rw (← some-inj e) ((eq_iff g "").0 empty))),
      λ _. computed_sound opts.intended.after_payload payload (rw (empty, expected_scope) at h),
    )
    | inr full ↦ (
      λ w e n. rw (← some-inj e) ((answer_iff g payload).0 (rw (full, expected_scope) at h)),
      λ m. absurd (true-ne-false ((eq_iff g "").1 (m g refl)) full),
    )
  ]

  scope_complete :
      (want : Option String) (payload : Json)
      → Meets want (get "scope_hash" payload)
      → (((h : String) → want ≡ some h → h ≡ "")
          → (after : String) → opts.intended.after_payload ≡ some after
          → get "scope_hash" payload ≡ some (str (intended_scope payload after)))
      → scope_answer node opts (expected_scope node opts want payload) payload ≡ none
  unfolding expected_scope
  scope_complete none payload m c =
      computed_complete opts.intended.after_payload payload (c (λ h e. cc))
  scope_complete (some g) payload m c = elim (Bool-cases (g == "")) [
    | inl empty ↦
        rw (empty, expected_scope)
          (computed_complete opts.intended.after_payload payload
            (c (λ h e. rw (← some-inj e) ((eq_iff g "").0 empty))))
    | inr full ↦
        rw (full, expected_scope)
          ((answer_iff g payload).1 (m g refl (λ e. true-ne-false ((eq_iff g "").1 e) full)))
  ]

  gates_sound :
      (payload : Json) (sig : String)
      → All (λ g. g ≡ none) (grant_gates node opts payload sig)
      → IsCurrent payload sig
  unfolding grant_gates check_receipt check_scope
  gates_sound payload sig
        (
          delimiter,
          (
            key,
            (
              kid,
              (
                retired,
                (
                  signature,
                  (time, (bound, (receipt, (audience, (operation, (target, (scope, _))))))),
                ),
              ),
            ),
          ),
        ) =
      let (given, computed) = scope_sound opts.intended.scope_hash payload scope in
      record {
        undelimited = (IsUndelimited-iff payload).0 ((refuse_if-none_iff _ _ _).0 delimiter);
        kid = (check_kid_iff node opts payload).0 kid;
        active = (check_retired_iff node opts).0 retired;
        signed = check_signature_sound node opts (signing_input node payload) sig signature;
        window = check_time_sound node opts _ "exp" "iat" payload time;
        bound = ground arith;
        receipt = receipt_sound opts.intended.receipt_token payload receipt;
        audience = (check_differs_iff _ _ _ _).0 audience;
        operation = (check_differs_iff _ _ _ _).0 operation;
        target = (check_differs_iff _ _ _ _).0 target;
        scope_given = given;
        scope_computed = computed;
      }

  gates_complete :
      (payload : Json) (sig : String)
      → IsCurrent payload sig
      → All (λ g. g ≡ none) (grant_gates node opts payload sig)
  unfolding grant_gates check_receipt check_scope
  gates_complete payload sig c = (
    (refuse_if-none_iff _ _ _).1 ((IsUndelimited-iff payload).1 c.undelimited),
    (
      check_key_given_complete node opts c.signed.0 c.signed.1,
      (
        (check_kid_iff node opts payload).1 c.kid,
        (
          (check_retired_iff node opts).1 c.active,
          (
            check_signature_complete node opts (signing_input node payload) sig c.signed,
            (
              check_time_complete node opts _ "exp" "iat" payload c.window,
              (
                rw c.bound refl,
                (
                  receipt_complete opts.intended.receipt_token payload c.receipt,
                  (
                    (check_differs_iff _ _ _ _).1 c.audience,
                    (
                      (check_differs_iff _ _ _ _).1 c.operation,
                      (
                        (check_differs_iff _ _ _ _).1 c.target,
                        (
                          scope_complete opts.intended.scope_hash payload c.scope_given
                              c.scope_computed,
                          tt,
                        ),
                      ),
                    ),
                  ),
                ),
              ),
            ),
          ),
        ),
      ),
    ),
  )

  parsed_valid_iff :
      (payload : Json) (sig : String)
      → ((verify_parsed node opts (parsed payload sig)).valid ≡ true) ↔ IsCurrent payload sig
  unfolding verify_parsed
  parsed_valid_iff payload sig = (
    λ h.
        gates_sound payload sig ((first_refusal-none_iff _).0 ((conclude-valid_iff payload _).0 h)),
    λ c. (conclude-valid_iff payload _).1 (
        (first_refusal-none_iff (grant_gates node opts payload sig)).1
          (gates_complete payload sig c)),
  )

  verify_sound :
      (p : Parsed)
      → (verify_parsed node opts p).valid ≡ true
      → (payload : Json) × (sig : String) × (p ≡ parsed payload sig) × IsCurrent payload sig
  unfolding verify_parsed
  verify_sound (rejected r o) h = cc
  verify_sound (parsed payload sig) h = (payload, sig, refl, (parsed_valid_iff payload sig).0 h)

  accepted :
      (token : String)
      → (verify_execution_grant node opts token).valid ≡ true
      → (payload : Json) × (sig : String) × IsToken node token payload sig × IsCurrent payload sig
  unfolding verify_execution_grant
  accepted token h =
      let (payload, sig, e, c) = verify_sound (parse_grant_token node token) h in
      (payload, sig, (parse_grant_token-parsed_iff node token payload sig).0 e, c)

  pub permitted :
      (token : String) (payload : Json) (sig : String)
      → IsToken node token payload sig
      → IsCurrent payload sig
      → verify_execution_grant node opts token ≡ conclude payload none
  unfolding verify_execution_grant
  permitted token payload sig t c =
      ap (verify_parsed node opts) ((parse_grant_token-parsed_iff node token payload sig).1 t)
      ∙ ap (conclude payload) (
          (first_refusal-none_iff (grant_gates node opts payload sig)).1
            (gates_complete payload sig c))

  pub valid_of_token :
      (token : String) (payload : Json) (sig : String)
      → IsToken node token payload sig
      → (verify_execution_grant node opts token).valid ≡ true
      → IsCurrent payload sig
  unfolding verify_execution_grant
  valid_of_token token payload sig t h =
      let e : parse_grant_token node token ≡ parsed payload sig =
        (parse_grant_token-parsed_iff node token payload sig).1 t in
      (parsed_valid_iff payload sig).0
        (sym (ap (λ (p : Parsed). (verify_parsed node opts p).valid) e) ∙ h)

  -- The v1 verifier accepts a token exactly when the token is well formed and its payload and
  -- signature are current: no signed field holds a bar, the kid is the pinned one, the key is not
  -- retired and verifies the signing input, the time lies in the validity with the leeway, the
  -- receipt digest is a sha256 and that of the intended receipt, and the audience, the operation,
  -- the target and the scope hash are those that the caller intends, where it states them.
  pub verify_execution_grant-valid_iff :
      (token : String)
      → ((verify_execution_grant node opts token).valid ≡ true) ↔ (
          (payload : Json) × (sig : String) × IsToken node token payload sig
          × IsCurrent payload sig)
  verify_execution_grant-valid_iff token = (
    accepted token,
    λ h.
        let (payload, sig, t, c) = h in
        ap (λ (v : Verdict). v.valid) (permitted token payload sig t c)
        ∙ (conclude-valid_iff payload none).1 refl,
  )
