-- ===== src/Git/Laws/Reclaim.antt =====
-- Reclaiming a ledger ref never opens a replay (cleanupEligibleAt of demo/src/git-atomic.js, with
-- the verifiers of packages/middleware/src/verify-grant.js).
use capability_demo.Prelude.{
  ℤ, ltb_ℤ-eq-true_iff, ◌+ℤ◌, +ℤ_parts, ◌≤ℤ◌, ◌<ℤ◌, ◌≡◌, refl, sym, ◌∙◌, Bool, true, false, not,
  String, ◌==◌, Option, none, some, some-inj, if◌then◌else◌, arith, Bool-cases, inl, inr,
}
use capability_demo.Json.{Json, get}
use capability_demo.Runtime.{Node, scalar}
use capability_demo.Grant.Options.{VerifyOptions, now_of}
use capability_demo.Grant.Options.Laws.{IsInWindow}
use capability_demo.Grant.V1.{verify_execution_grant}
use capability_demo.Grant.V1.Parsing.{IsToken}
use capability_demo.Grant.V1.Acceptance.{valid_of_token}
use capability_demo.Git.Retention.{
  CleanupOptions, Eligibility, is_record, is_proven, signed_exp_ms, is_terminal_entry, leeway_of,
  cleanup_now, eligible_at_of, elapsed_answer, cleanup_eligible_at, clock_skew_leeway_ms,
  non_terminal,
}

unless-some :
    {A : Type 0} (b : Bool) (x : Option A) (v : A)
    → (if b then none else x) ≡ some v
    → (b ≡ false) × (x ≡ some v)
unless-some true x v h = cc
unless-some false x v h = (refl, h)

not-false : (b : Bool) → not b ≡ false → b ≡ true
not-false true h = refl
not-false false h = cc

never :
    (exp leeway now later : ℤ)
    → clock_skew_leeway_ms ≤ℤ leeway
    → exp +ℤ leeway <ℤ now
    → now ≤ℤ later
    → later ≤ℤ exp +ℤ clock_skew_leeway_ms
    → ⊥
never exp leeway now later a b c d =
    ground (arith, +ℤ_parts exp leeway, +ℤ_parts exp clock_skew_leeway_ms)

module _ (node : Node) (opts : CleanupOptions) where
  pub signed_exp_parsed :
      (grant : Json) (exp : ℤ)
      → signed_exp_ms node opts grant ≡ some exp
      → (is_proven node opts grant ≡ true)
        × (node.date_parse (scalar node (get "exp" grant)) ≡ some exp)
  unfolding signed_exp_ms
  signed_exp_parsed grant exp h =
      let (r, h₁) = unless-some (not (is_record grant)) _ exp h in
      let (p, h₂) = unless-some (not (is_proven node opts grant)) _ exp h₁ in
      let (e, h₃) = unless-some (scalar node (get "exp" grant) == "") _ exp h₂ in
      (not-false _ p, h₃)

  elapsed_answer_sound :
      (e : Option ℤ)
      → (elapsed_answer node opts (eligible_at_of node opts e)).eligible ≡ true
      → (exp : ℤ) × (e ≡ some exp)
        × (exp +ℤ leeway_of node opts opts.clock_skew_leeway <ℤ cleanup_now node opts opts.now)
  unfolding elapsed_answer
  elapsed_answer_sound none h = cc
  elapsed_answer_sound (some exp) h = (
    exp,
    refl,
    ground (
      arith,
      ltb_ℤ-eq-true_iff (exp +ℤ leeway_of node opts opts.clock_skew_leeway)
          (cleanup_now node opts opts.now),
    ),
  )

  eligible_sound :
      (grant : Json)
      → (cleanup_eligible_at node opts grant).eligible ≡ true
      → (is_terminal_entry node opts grant ≡ true)
        × ((exp : ℤ) × (signed_exp_ms node opts grant ≡ some exp)
            × (exp +ℤ leeway_of node opts opts.clock_skew_leeway <ℤ cleanup_now node opts opts.now))
  unfolding cleanup_eligible_at
  eligible_sound grant h =
      split (is_terminal_entry node opts grant) _ _
        (elapsed_answer_sound (signed_exp_ms node opts grant)) h
    where
      split :
          {P : Type 0} (t : Bool) (at : Option ℤ) (good : Eligibility)
          → (good.eligible ≡ true → P)
          → (if not t
              then record { eligible = false; eligible_at = at; reason = some non_terminal }
              else good).eligible
            ≡ true
          → (t ≡ true) × P
      split true at good k h = (refl, k h)
      split false at good k h = cc

  leeway-at_least : (asked : Option ℤ) → clock_skew_leeway_ms ≤ℤ leeway_of node opts asked
  leeway-at_least none = ground arith
  leeway-at_least (some asked) = ground arith

  eligible-outside_window :
      (grant : Json) (verifier : VerifyOptions) (start_field : String)
      → (cleanup_eligible_at node opts grant).eligible ≡ true
      → cleanup_now node opts opts.now ≤ℤ now_of node verifier
      → IsInWindow node verifier "exp" start_field grant
      → ⊥
  eligible-outside_window grant verifier start_field h later (exp, start, p, q, a, b) =
      let (t, (exp', e, l)) = eligible_sound grant h in
      let same : exp' ≡ exp = some-inj (sym (signed_exp_parsed grant exp' e).1 ∙ p) in
      never exp (leeway_of node opts opts.clock_skew_leeway) (cleanup_now node opts opts.now)
        (now_of node verifier) (leeway-at_least opts.clock_skew_leeway) (rw same at l) later a

  -- While a ledger entry may be reclaimed, no token of its grant is accepted by a v1 verifier whose
  -- clock is not behind the clock of the reclaim, whatever its other options and whatever leeway
  -- the reclaim asks for.
  pub eligible-refused :
      (verifier : VerifyOptions) (token : String) (grant : Json) (sig : String)
      → IsToken node token grant sig
      → (cleanup_eligible_at node opts grant).eligible ≡ true
      → cleanup_now node opts opts.now ≤ℤ now_of node verifier
      → (verify_execution_grant node verifier token).valid ≡ false
  eligible-refused verifier token grant sig t h later =
      elim (Bool-cases (verify_execution_grant node verifier token).valid) [
        | inl accepted ↦ absurd (
            eligible-outside_window grant verifier "iat" h later
              (valid_of_token node verifier token grant sig t accepted).window)
        | inr refused ↦ refused
      ]
