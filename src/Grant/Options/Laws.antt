-- ===== src/Grant/Options/Laws.antt =====
-- The meaning of the checks that both versions of a grant share.
use capability_demo.Prelude.{
  ℤ, ◌+ℤ◌, ◌≤ℤ◌, ltb_ℤ-eq-false_iff, ◌≡◌, ◌≢◌, ◌↔◌, inl, inr, refl, ap, Bool, true, false, String,
  ◌==◌, eq_iff, Option, none, some, arith, Bool-cases, some-inj, Option-cases,
}
use capability_demo.Json.{Json, str, get, is_text, is_text_iff}
use capability_demo.Runtime.{Node, scalar}
use capability_demo.Grant.Verdict.{Reason, refuse_if, refuse_if-none_iff, Status}
use capability_demo.Grant.Options.{
  VerifyOptions, clock_skew_leeway_ms, differs, differs_by, now_of, check_key_given, check_kid,
  check_retired, signature_answer, check_signature, time_window, check_time,
}

-- What the caller asks for, if it asks, is what the payload holds.
abbrev pub Meets : Option String → Option Json → Type 0
Meets want have = (w : String) → want ≡ some w → w ≢ "" → have ≡ some (str w)

differs_sound :
    (want : Option String) (have : Option Json) → differs want have ≡ false → Meets want have
differs_sound none have h w e n = cc
differs_sound (some v) have h w e n = elim (Bool-cases (is_text have w)) [
  | inl same ↦ (is_text_iff have w).0 same
  | inr other ↦ absurd (n ((eq_iff w "").0 (ground (arith, eq_iff w "", eq_iff v ""))))
]

differs_complete :
    (want : Option String) (have : Option Json) → Meets want have → differs want have ≡ false
differs_complete none have m = refl
differs_complete (some w) have m = elim (Bool-cases (w == "")) [
  | inl empty ↦ rw empty refl
  | inr full ↦
      let same : is_text have w ≡ true =
        (is_text_iff have w).1 (m w refl (λ e. absurd_bool full ((eq_iff w "").1 e))) in
      ground arith
]
  where
    absurd_bool : {b : Bool} → b ≡ false → b ≡ true → ⊥
    absurd_bool p q = cc

pub differs_iff :
    (want : Option String) (have : Option Json) → (differs want have ≡ false) ↔ Meets want have
differs_iff want have = (differs_sound want have, differs_complete want have)

pub check_differs_iff :
    (want : Option String) (have : Option Json) (s : Status) (r : Reason)
    → (refuse_if (differs want have) s r ≡ none) ↔ Meets want have
check_differs_iff want have s r = (
  λ h. (differs_iff want have).0 ((refuse_if-none_iff (differs want have) s r).0 h),
  λ m. (refuse_if-none_iff (differs want have) s r).1 ((differs_iff want have).1 m),
)

-- What the caller asks for, if it asks, has the digest that the payload holds.
abbrev pub MeetsBy : (String → String) → Option String → Option Json → Type 0
MeetsBy digest want have = (w : String) → want ≡ some w → w ≢ "" → have ≡ some (str (digest w))

module _ (digest : String → String) where
  differs_by_sound :
      (want : Option String) (have : Option Json)
      → differs_by digest want have ≡ false
      → MeetsBy digest want have
  differs_by_sound none have h w e n = cc
  differs_by_sound (some v) have h w e n =
      (is_text_iff have (digest w)).0 (ground (arith, eq_iff v "", ap digest (some-inj e)))

  differs_by_complete :
      (want : Option String) (have : Option Json)
      → MeetsBy digest want have
      → differs_by digest want have ≡ false
  differs_by_complete none have m = refl
  differs_by_complete (some w) have m = elim (Bool-cases (w == "")) [
    | inl empty ↦ rw empty refl
    | inr full ↦
        let same : is_text have (digest w) ≡ true =
          (is_text_iff have (digest w)).1 (m w refl (λ e. ground (arith, eq_iff w ""))) in
        ground arith
  ]

  pub check_differs_by_iff :
      (want : Option String) (have : Option Json) (s : Status) (r : Reason)
      → (refuse_if (differs_by digest want have) s r ≡ none) ↔ MeetsBy digest want have
  check_differs_by_iff want have s r = (
    λ h. differs_by_sound want have ((refuse_if-none_iff (differs_by digest want have) s r).0 h),
    λ m. (refuse_if-none_iff (differs_by digest want have) s r).1 (differs_by_complete want have m),
  )

module _ (node : Node) (opts : VerifyOptions) where
  -- A pinned key verifies the message.
  abbrev pub IsSigned : String → String → Type 0
  IsSigned message sig =
      (k : String) × (opts.public_key ≡ some k) × (node.verify k message sig ≡ some true)

  -- The validity, with the leeway on both ends.
  abbrev pub IsInWindow : String → String → Json → Type 0
  IsInWindow exp_field start_field payload =
      (exp : ℤ) × (start : ℤ) × (node.date_parse (scalar node (get exp_field payload)) ≡ some exp)
      × (node.date_parse (scalar node (get start_field payload)) ≡ some start)
      × (now_of node opts ≤ℤ exp +ℤ clock_skew_leeway_ms)
      × (start ≤ℤ now_of node opts +ℤ clock_skew_leeway_ms)

  pub check_retired_iff : (check_retired node opts ≡ none) ↔ (opts.key_status ≢ some "retired")
  unfolding check_retired
  check_retired_iff = elim (Option-cases opts.key_status) [
    | inl e ↦ rw e ((λ _ h. cc), (λ _. refl))
    | inr (s, e) ↦
        rw e (
          (λ h p. ground (arith, eq_iff s "retired")),
          (λ n. ground (arith, eq_iff s "retired", n)),
        )
  ]

  answer_iff : (a : Option Bool) → (signature_answer node opts a ≡ none) ↔ (a ≡ some true)
  unfolding signature_answer
  answer_iff none = (λ h. cc, λ h. cc)
  answer_iff (some false) = (λ h. cc, λ h. cc)
  answer_iff (some true) = (λ _. refl, λ _. refl)

  pub check_signature_sound :
      (message sig : String) → check_signature node opts message sig ≡ none → IsSigned message sig
  unfolding check_signature
  check_signature_sound message sig h = elim (Option-cases opts.public_key) [
    | inl e ↦ cc (rw e at h)
    | inr (k, e) ↦ (k, e, (answer_iff (node.verify k message sig)).0 (ground arith))
  ]

  pub check_signature_complete :
      (message sig : String) → IsSigned message sig → check_signature node opts message sig ≡ none
  unfolding check_signature
  check_signature_complete message sig (k, e, v) = rw e (rw v refl)

  pub check_key_given_complete :
      (k : String) → opts.public_key ≡ some k → check_key_given node opts ≡ none
  unfolding check_key_given
  check_key_given_complete k e = rw e refl

  pub check_kid_iff :
      (payload : Json)
      → (check_kid node opts payload ≡ none) ↔ Meets opts.key_kid (get "kid" payload)
  unfolding check_kid
  check_kid_iff payload = check_differs_iff opts.key_kid (get "kid" payload) _ _

  window_sound :
      (early : Reason) (end start : Option ℤ)
      → time_window node opts early end start ≡ none
      → (e : ℤ) × (s : ℤ) × (end ≡ some e)
        × (start ≡ some s)
        × (now_of node opts ≤ℤ e +ℤ clock_skew_leeway_ms)
        × (s ≤ℤ now_of node opts +ℤ clock_skew_leeway_ms)
  unfolding time_window
  window_sound early (some e) (some s) h = (
    e,
    s,
    refl,
    refl,
    ground (arith, ltb_ℤ-eq-false_iff (e +ℤ clock_skew_leeway_ms) (now_of node opts)),
    ground (arith, ltb_ℤ-eq-false_iff (now_of node opts +ℤ clock_skew_leeway_ms) s),
  )
  window_sound early none start h = cc
  window_sound early (some e) none h = cc

  pub check_time_sound :
      (early : Reason) (exp_field start_field : String) (payload : Json)
      → check_time node opts early exp_field start_field payload ≡ none
      → IsInWindow exp_field start_field payload
  unfolding check_time
  check_time_sound early exp_field start_field payload h = window_sound early _ _ h

  pub check_time_complete :
      (early : Reason) (exp_field start_field : String) (payload : Json)
      → IsInWindow exp_field start_field payload
      → check_time node opts early exp_field start_field payload ≡ none
  unfolding check_time
  check_time_complete early exp_field start_field payload (e, s, p, q, a, b) =
      rw (p, q) (ground arith)
