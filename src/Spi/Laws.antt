-- ===== src/Spi/Laws.antt =====
-- What an answer of `consumeOnce` means, per adapter.
use capability_demo.Prelude.{
  ℤ, ltb_ℤ-eq-false_iff, ◌≤ℤ◌, ◌≡◌, ◌≢◌, ◌↔◌, refl, sym, ap, ◌∙◌, Bool, true, false, not, ◌&&◌,
  String, ◌==◌, eq_iff, concat, concat-full, Option, none, some, any, if◌then◌else◌, arith,
  Bool-cases, inl, inr, some-inj,
}
use capability_demo.Json.{Json, is_text, null, bool, int, frac, str, arr, obj, get, text_or_empty}
use capability_demo.Runtime.{Node}
use capability_demo.Grant.Profile.{is_nullish}
use capability_demo.Git.Repo.{GitTool, absent_or, read_ref, is_sha}
use capability_demo.Spi.{
  Strength, ConsumeReason, ConsumeInput, ConsumeResult, atomic_transaction, exclusive_ref_cas,
  indeterminate, missing_jti, missing_target, expired, already_consumed, no_cross_resource_ledger,
  not_consumed, result_json, is_consume_once_result, is_missing, has_ended, date_of, check_input,
  strengths, strength_text,
}
use capability_demo.Spi.Adapters.{
  has_row, has_claim, postgres_consume_once, http_consume_once, git_consume_once, unless_bad,
  unclaimed,
}

known-strength :
    (s : Strength)
    → any (λ t. is_text (some (str (strength_text s))) (strength_text t)) strengths ≡ true
known-strength atomic_transaction = refl
known-strength exclusive_ref_cas = refl
known-strength indeterminate = refl

refusal-conforms :
    (c : ConsumeReason) (s : Strength)
    → is_consume_once_result (result_json (not_consumed c s)) ≡ true
unfolding is_consume_once_result get
refusal-conforms already_consumed s = known-strength s
refusal-conforms expired s = known-strength s
refusal-conforms no_cross_resource_ledger s = known-strength s
refusal-conforms missing_jti s = known-strength s
refusal-conforms missing_target s = known-strength s

unclaimed-conforms : (s : Strength) → is_consume_once_result (result_json (unclaimed s)) ≡ true
unfolding is_consume_once_result get
unclaimed-conforms s = known-strength s

-- What a chain of returns of refusals keeps.
record IsRefusal (r : ConsumeResult) : Type 0 where
  why : ConsumeReason
  strength : Strength
  same : r ≡ not_consumed why strength

RefusesOnly : Option ConsumeResult → Type 0
RefusesOnly none = Unit
RefusesOnly (some r) = IsRefusal r

refuse_or :
    (b : Bool) (c : ConsumeReason) (s : Strength) (rest : Option ConsumeResult)
    → RefusesOnly rest
    → RefusesOnly (if b then some (not_consumed c s) else rest)
unfolding RefusesOnly
refuse_or true c s rest h = record { why = c; strength = s; same = refl }
refuse_or false c s rest h = h

check_input-RefusesOnly :
    (node : Node) (input : ConsumeInput) (s : Strength) (now : ℤ)
    → RefusesOnly (check_input node input s now)
unfolding check_input RefusesOnly
check_input-RefusesOnly node input s now = refuse_or (is_missing input.jti) _ _ _ (
    refuse_or (is_missing input.target) _ _ _ (
      refuse_or
        (not (is_nullish input.expires_at) && has_ended node (date_of node input.expires_at) now) _
        _ none tt))

conforms_or :
    (b : Option ConsumeResult) (rest : ConsumeResult)
    → RefusesOnly b
    → is_consume_once_result (result_json rest) ≡ true
    → is_consume_once_result (result_json (unless_bad b rest)) ≡ true
unfolding RefusesOnly
conforms_or none rest r h = h
conforms_or (some bad) rest r h = rw r.same (refusal-conforms r.why r.strength)

consumed_or :
    (b : Option ConsumeResult) (rest : ConsumeResult)
    → RefusesOnly b
    → ((unless_bad b rest).consumed ≡ true) ↔ ((b ≡ none) × (rest.consumed ≡ true))
unfolding RefusesOnly
consumed_or none rest r = (λ h. (refl, h), λ h. h.1)
consumed_or (some bad) rest r = (λ h. cc (rw r.same at h), λ h. cc h.0)

if-conforms :
    (b : Bool) (s : Strength)
    → is_consume_once_result
        (result_json (if b then not_consumed already_consumed s else unclaimed s))
      ≡ true
if-conforms true s = refusal-conforms already_consumed s
if-conforms false s = unclaimed-conforms s

if-consumed :
    (b : Bool) (s : Strength)
    → ((if b then not_consumed already_consumed s else unclaimed s).consumed ≡ true) ↔ (b ≡ false)
if-consumed true s = (λ h. cc, λ h. cc)
if-consumed false s = (λ h. refl, λ h. refl)

-- The value is a text, and not the empty one.
abbrev pub IsFull : Option Json → Type 0
IsFull v = (s : String) × (v ≡ some (str s)) × (s ≢ "")

ne_test : (s t : String) → s ≢ t → (s == t) ≡ false
ne_test s t h = ground (arith, eq_iff s t)

not_missing_iff : (v : Option Json) → (is_missing v ≡ false) ↔ IsFull v
not_missing_iff none = (λ h. cc, λ h. cc h.1)
not_missing_iff (some (str s)) = (
  λ h. (s, refl, λ e. ground (arith, eq_iff s "")),
  λ h. let (t, e, n) = h in ne_test s "" (λ z. n (sym (ap text_or_empty e) ∙ z)),
)
not_missing_iff (some null) = (λ h. cc, λ h. cc h.1)
not_missing_iff (some (bool b)) = (λ h. cc, λ h. cc h.1)
not_missing_iff (some (int n)) = (λ h. cc, λ h. cc h.1)
not_missing_iff (some (frac n)) = (λ h. cc, λ h. cc h.1)
not_missing_iff (some (arr xs)) = (λ h. cc, λ h. cc h.1)
not_missing_iff (some (obj fs)) = (λ h. cc, λ h. cc h.1)

module _ (node : Node) where
  -- The input names a grant and a target, and its end, if it states one, is a date that is not
  -- before now.
  pub record IsComplete (input : ConsumeInput) (now : ℤ) : Type 0 where
    pub jti : IsFull input.jti
    pub target : IsFull input.target
    pub unexpired :
        is_nullish input.expires_at ≡ false
        → (exp : ℤ) × (date_of node input.expires_at ≡ some exp) × (now ≤ℤ exp)

  unless-none :
      {A : Type 0} (b : Bool) (x : A) (rest : Option A)
      → (if b then some x else rest) ≡ none
      → (b ≡ false) × (rest ≡ none)
  unless-none true x rest h = cc
  unless-none false x rest h = (refl, h)

  not_ended_iff :
      (d : Option ℤ) (now : ℤ)
      → (has_ended node d now ≡ false) ↔ ((exp : ℤ) × (d ≡ some exp) × (now ≤ℤ exp))
  not_ended_iff none now = (λ h. cc, λ h. cc h.1)
  not_ended_iff (some exp) now = (
    λ h. (exp, refl, (ltb_ℤ-eq-false_iff exp now).0 h),
    λ h. let (e, p, l) = h in (ltb_ℤ-eq-false_iff exp now).1 (rw (some-inj p) l),
  )

  end_sound :
      (n : Bool) (d : Option ℤ) (now : ℤ)
      → (not n && has_ended node d now) ≡ false
      → n ≡ false
      → (exp : ℤ) × (d ≡ some exp) × (now ≤ℤ exp)
  end_sound true d now h e = cc
  end_sound false d now h e = (not_ended_iff d now).0 h

  end_complete :
      (n : Bool) (d : Option ℤ) (now : ℤ)
      → (n ≡ false → (exp : ℤ) × (d ≡ some exp) × (now ≤ℤ exp))
      → (not n && has_ended node d now) ≡ false
  end_complete true d now h = refl
  end_complete false d now h = (not_ended_iff d now).1 (h refl)

  check_input_sound :
      (input : ConsumeInput) (s : Strength) (now : ℤ)
      → check_input node input s now ≡ none
      → IsComplete input now
  unfolding check_input
  check_input_sound input s now h =
      let (j, h₁) = unless-none (is_missing input.jti) _ _ h in
      let (t, h₂) = unless-none (is_missing input.target) _ _ h₁ in
      let (e, h₃) =
        unless-none
          (not (is_nullish input.expires_at) && has_ended node (date_of node input.expires_at) now)
          _ _ h₂ in
      record {
        jti = (not_missing_iff input.jti).0 j;
        target = (not_missing_iff input.target).0 t;
        unexpired = end_sound (is_nullish input.expires_at) (date_of node input.expires_at) now e;
      }

  check_input_complete :
      (input : ConsumeInput) (s : Strength) (now : ℤ)
      → IsComplete input now
      → check_input node input s now ≡ none
  unfolding check_input
  check_input_complete input s now c =
      rw
        (
          (not_missing_iff input.jti).1 c.jti,
          (not_missing_iff input.target).1 c.target,
          end_complete (is_nullish input.expires_at) (date_of node input.expires_at) now
              c.unexpired,
        )
        refl

  -- The checks let exactly the complete inputs pass.
  pub check_input-none_iff :
      (input : ConsumeInput) (s : Strength) (now : ℤ)
      → (check_input node input s now ≡ none) ↔ IsComplete input now
  check_input-none_iff input s now =
      (check_input_sound input s now, check_input_complete input s now)

  -- An answer that follows the checks.
  consumed-IsComplete :
      (input : ConsumeInput) (s : Strength) (now : ℤ) (rest : ConsumeResult) (P : Type 0)
      → ((rest.consumed ≡ true) ↔ P)
      → ((unless_bad (check_input node input s now) rest).consumed ≡ true)
        ↔ (IsComplete input now × P)
  consumed-IsComplete input s now rest P k =
      let both =
        consumed_or (check_input node input s now) rest
          (check_input-RefusesOnly node input s now) in
      (
        λ h. (check_input_sound input s now (both.0 h).0, k.0 (both.0 h).1),
        λ h. both.1 (check_input_complete input s now h.0, k.1 h.1),
      )

  -- The Postgres adapter reports a grant as consumable exactly for a complete input of which the
  -- ledger query returns no row; the HTTP adapter never does.
  pub postgres_and_http-consumed_iff :
      (query : Option (String → String → Bool)) (deployment_id : Option String)
      (input : ConsumeInput)
      → (((postgres_consume_once node query deployment_id input).consumed ≡ true)
          ↔ (IsComplete input node.date_now × (has_row node query deployment_id input ≡ false)))
        × ((http_consume_once node input).consumed ≡ false)
  unfolding postgres_consume_once http_consume_once RefusesOnly
  postgres_and_http-consumed_iff query deployment_id input = (
    consumed-IsComplete input _ _ _ _ (if-consumed (has_row node query deployment_id input) _),
    never (check_input node input indeterminate node.date_now)
        (check_input-RefusesOnly node input indeterminate node.date_now),
  )
    where
      never :
          (b : Option ConsumeResult)
          → RefusesOnly b
          → (unless_bad b (not_consumed no_cross_resource_ledger indeterminate)).consumed ≡ false
      never none r = refl
      never (some bad) r = rw r.same refl

  module _ {Repo : Type 0} (git : GitTool Repo) where
    absent_or-full : (ref : String) (o : Option String) → (absent_or git ref o == "") ≡ false
    unfolding is_sha
    absent_or-full ref none = ne_test (concat "absent:" ref) "" (λ e. concat-full _ _ ref e)
    absent_or-full ref (some sha) = elim (Bool-cases (is_sha sha)) [
      | inl good ↦ rw good (ne_test sha "" (λ e. no_sha (sym good ∙ ap is_sha e)))
      | inr bad ↦ rw bad (ne_test (concat "absent:" ref) "" (λ e. concat-full _ _ ref e))
    ]
      where
        no_sha : true ≡ is_sha "" → ⊥
        no_sha e = cc

    -- Given a repository, the git adapter reports no grant as consumable, whatever its ledger holds:
    -- what it reads of the ledger ref is never the empty text. Without one it reports every complete
    -- input so.
    pub git_consume_once-consumed_iff :
        (repo : Option Repo) (input : ConsumeInput)
        → ((git_consume_once node git repo input).consumed ≡ true)
          ↔ (IsComplete input node.date_now × (repo ≡ none))
    unfolding git_consume_once read_ref
    git_consume_once-consumed_iff repo input = consumed-IsComplete input _ _ _ _ (claim repo)
      where
        absurd_claim :
            {t : Bool} {r : Repo}
            → t ≡ false
            → (if not t
                then not_consumed already_consumed exclusive_ref_cas
                else unclaimed exclusive_ref_cas).consumed
              ≡ true
            → some r ≡ none
        absurd_claim e h = cc (rw e at h)

        claim :
            (repo : Option Repo)
            → ((if has_claim node git repo (text_or_empty input.jti)
                  then not_consumed already_consumed exclusive_ref_cas
                  else unclaimed exclusive_ref_cas).consumed
                ≡ true)
              ↔ (repo ≡ none)
        claim none = (λ _. refl, λ _. refl)
        claim (some repo) = (λ h. absurd_claim (absent_or-full _ _) h, λ h. cc)
