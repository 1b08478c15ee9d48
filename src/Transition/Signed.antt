-- ===== src/Transition/Signed.antt =====
-- When the attestation of a move is accepted (demo/src/target-state-transition.js).
use capability_demo.Prelude.{
  ◌≡◌, ◌↔◌, refl, sym, ap, ◌∙◌, true, false, String, Option, none, some, Bool-cases, inl, inr,
}
use capability_demo.Json.{Json, str}
use capability_demo.Runtime.{Node}
use capability_demo.Transition.Attested.{
  Expected, Attestation, CoreVerifier, CoreVerdict, matches, field_of, other_jti, observed_digest,
  check_payload, check_core, check_token, full_token, verify_transition_attestation,
}
use capability_demo.Transition.Checks.{matches_iff}
use capability_demo.Transition.Grade.{is_attested}

-- What stands behind an attestation that is accepted: a token that verifies, for the grant that
-- authorized the move where the grader knows one, and for this move.
pub record IsSigned (node : Node) (core : CoreVerifier) (att : Option Attestation) (e : Expected)
    (seen : Json) : Type 0 where
  pub given : Attestation
  pub present : att ≡ some given
  pub token : String
  pub read : full_token given.token ≡ some token
  pub verdict : CoreVerdict
  pub ran : core token given.registry given.now ≡ some verdict
  pub valid : verdict.valid ≡ true
  pub grant : other_jti e.grant_id (field_of "grant_jti" verdict.payload) ≡ false
  pub move : field_of "result_digest" verdict.payload ≡ some (str (observed_digest node seen))

module _ (node : Node) (core : CoreVerifier) where
  payload_iff :
      (e : Expected) (seen : Json) (payload : Option Json)
      → (is_attested (check_payload node e seen payload) ≡ true) ↔ (
          (other_jti e.grant_id (field_of "grant_jti" payload) ≡ false)
          × (field_of "result_digest" payload ≡ some (str (observed_digest node seen))))
  unfolding check_payload
  payload_iff e seen payload =
      elim (Bool-cases (other_jti e.grant_id (field_of "grant_jti" payload))) [
        | inl o ↦ rw o (λ h. absurd (refused h), λ h. absurd (clash h.0))
        | inr o ↦
            rw o
              (elim (Bool-cases
                (matches (field_of "result_digest" payload) (some (observed_digest node seen)))) [
                  | inl m ↦ rw m (λ h. (refl, (matches_iff _ _).0 m), λ h. refl)
                  | inr m ↦ rw m (
                    λ h. absurd (refused h),
                    λ h. absurd (refused (sym m ∙ (matches_iff _ _).1 h.1)),
                  )
                ])
      ]
    where
      refused : false ≡ true → ⊥
      refused h = cc

      clash : true ≡ false → ⊥
      clash h = cc

  core_sound :
      (e : Expected) (seen : Json) (r : Option CoreVerdict)
      → is_attested (check_core node e seen r) ≡ true
      → (v : CoreVerdict) × (r ≡ some v)
        × (v.valid ≡ true)
        × (is_attested (check_payload node e seen v.payload) ≡ true)
  unfolding check_core
  core_sound e seen none h = absurd (refused h)
    where
      refused : false ≡ true → ⊥
      refused h = cc
  core_sound e seen (some v) h = elim (Bool-cases v.valid) [
    | inl f ↦ (v, refl, f, rw f at h)
    | inr f ↦ let shut : false ≡ true = rw f at h in cc
  ]

  token_sound :
      (a : Attestation) (e : Expected) (seen : Json) (t : Option String)
      → is_attested (check_token node core a e seen t) ≡ true
      → (token : String) × (t ≡ some token)
        × (is_attested (check_core node e seen (core token a.registry a.now)) ≡ true)
  unfolding check_token
  token_sound a e seen none h = absurd (refused h)
    where
      refused : false ≡ true → ⊥
      refused h = cc
  token_sound a e seen (some token) h = (token, refl, h)

  attested-IsSigned :
      (att : Option Attestation) (e : Expected) (seen : Json)
      → is_attested (verify_transition_attestation node core att e seen) ≡ true
      → IsSigned node core att e seen
  unfolding verify_transition_attestation
  attested-IsSigned none e seen h = absurd (refused h)
    where
      refused : false ≡ true → ⊥
      refused h = cc
  attested-IsSigned (some a) e seen h =
      let (token, read, h₁) = token_sound a e seen (full_token a.token) h in
      let (v, ran, valid, h₂) = core_sound e seen (core token a.registry a.now) h₁ in
      let (grant, move) = (payload_iff e seen v.payload).0 h₂ in
      record {
        given = a;
        present = refl;
        token = token;
        read = read;
        verdict = v;
        ran = ran;
        valid = valid;
        grant = grant;
        move = move;
      }

  IsSigned-attested :
      (att : Option Attestation) (e : Expected) (seen : Json)
      → IsSigned node core att e seen
      → is_attested (verify_transition_attestation node core att e seen) ≡ true
  unfolding verify_transition_attestation check_token check_core
  IsSigned-attested att e seen s =
      ap (λ x. is_attested (verify_transition_attestation node core x e seen)) s.present
      ∙ ap (λ x. is_attested (check_token node core s.given e seen x)) s.read
      ∙ ap (λ x. is_attested (check_core node e seen x)) s.ran
      ∙ valid_passes s.verdict s.valid
      ∙ (payload_iff e seen s.verdict.payload).1 (s.grant, s.move)
    where
      valid_passes :
          (v : CoreVerdict)
          → v.valid ≡ true
          → is_attested (check_core node e seen (some v))
            ≡ is_attested (check_payload node e seen v.payload)
      valid_passes v h = rw h refl

  -- The attestation of a move is accepted exactly when a text is given as the token, its verifier
  -- finds it valid, and its payload names the grant, where the grader knows one, and the digest of
  -- the move that was observed.
  pub verify_transition_attestation-IsSigned_iff :
      (att : Option Attestation) (e : Expected) (seen : Json)
      → (is_attested (verify_transition_attestation node core att e seen) ≡ true)
        ↔ IsSigned node core att e seen
  verify_transition_attestation-IsSigned_iff att e seen =
      (attested-IsSigned att e seen, IsSigned-attested att e seen)
