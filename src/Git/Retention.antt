-- ===== src/Git/Retention.antt =====
-- When a ledger ref may be reclaimed (signedExpMs, isTerminalEntry and cleanupEligibleAt of
-- demo/src/git-atomic.js). A grant is a value of `JSON.parse`.
use capability_demo.Prelude.{
  ℤ, pos, pos_part, neg_part, eqb, ◌+◌, ltb_ℤ, ◌+ℤ◌, Bool, true, false, not, ◌&&◌, ◌||◌, String,
  ◌==◌, Option, none, some, if◌then◌else◌,
}
use capability_demo.Json.{
  Json, Items, null, bool, int, str, arr, cons, nil, frac, obj, get, is_text,
}
use capability_demo.Runtime.{Node, scalar}

abbrev pub clock_skew_leeway_ms : ℤ
clock_skew_leeway_ms = pos 30000

-- The options of `cleanupEligibleAt`; `none` is an option that is not given or, for the numbers,
-- not finite.
pub record CleanupOptions : Type 0 where
  pub exp_signed : Option Bool
  pub terminal : Option Bool
  pub outcome : Option String
  pub status : Option String
  pub now : Option ℤ
  pub clock_skew_leeway : Option ℤ

pub data ReclaimReason : Type 0 where
  non_terminal exp_unsigned_or_missing exp_not_elapsed : ReclaimReason

pub record Eligibility : Type 0 where
  pub eligible : Bool
  pub eligible_at : Option ℤ
  pub reason : Option ReclaimReason

-- `v === b` for a Boolean `b`
abbrev pub is_bool : Option Json → Bool → Bool
is_bool (some (bool true)) b = b
is_bool (some (bool false)) b = not b
is_bool v b = false

-- `o === b` for an option
abbrev pub given : Option Bool → Bool → Bool
given none b = false
given (some true) b = b
given (some false) b = not b

has_item : String → Items → Bool
has_item t nil = false
has_item t (cons v vs) = is_text (some v) t || has_item t vs

-- `Array.isArray(v) && v.includes(t)`, and `Array.isArray(v) && !v.includes(t)`
pub lists : Option Json → String → Bool
unfolding has_item
lists (some (arr items)) t = has_item t items
lists v t = false

pub omits : Option Json → String → Bool
unfolding has_item
omits (some (arr items)) t = not (has_item t items)
omits v t = false

-- `grant && typeof grant === 'object'`
abbrev pub is_record : Json → Bool
is_record (obj fields) = true
is_record (arr items) = true
is_record v = false

-- The truth value of a value in JavaScript; a number that is not an integer is not zero.
abbrev pub is_truthy : Option Json → Bool
is_truthy none = false
is_truthy (some null) = false
is_truthy (some (bool b)) = b
is_truthy (some (int n)) = not (eqb (pos_part n + neg_part n) 0)
is_truthy (some (frac s)) = true
is_truthy (some (str s)) = not (s == "")
is_truthy (some (arr items)) = true
is_truthy (some (obj fields)) = true

-- `a || b`
abbrev pub or_else : Option Json → Option Json → Option Json
or_else a b = if is_truthy a then a else b

abbrev pub text_option : Option String → Option Json
text_option none = none
text_option (some s) = some (str s)

module _ (node : Node) (opts : CleanupOptions) where
  -- The grant says, or its caller says, that `exp` was signed, and neither says that it was not.
  unfoldable pub is_proven : Json → Bool
  unfolding lists omits
  is_proven grant =
      not (given opts.exp_signed false || is_bool (get "exp_signed" grant) false)
      && not (omits (get "signed_fields" grant) "exp")
      && (given opts.exp_signed true
          || is_bool (get "exp_signed" grant) true
          || lists (get "signed_fields" grant) "exp")

  -- `none` is `null`
  unfoldable pub signed_exp_ms : Json → Option ℤ
  signed_exp_ms grant =
      if not (is_record grant)
      then none
      else if not (is_proven grant)
      then none
      else if scalar node (get "exp" grant) == ""
      then none
      else node.date_parse (scalar node (get "exp" grant))

  unfoldable pub outcome_of : Json → Option Json
  outcome_of grant =
      or_else (text_option opts.outcome)
        (or_else (get "outcome" grant) (or_else (text_option opts.status) (get "status" grant)))

  unfoldable pub is_terminal_entry : Json → Bool
  is_terminal_entry grant =
      if given opts.terminal false || is_bool (get "terminal" grant) false
      then false
      else if is_text (outcome_of grant) "INDETERMINATE"
      then false
      else if given opts.terminal true || is_bool (get "terminal" grant) true
      then true
      else is_text (outcome_of grant) "RECONCILED"

  -- A leeway that is asked for counts where it is the larger one.
  abbrev pub leeway_of : Option ℤ → ℤ
  leeway_of none = clock_skew_leeway_ms
  leeway_of (some asked) = if ltb_ℤ clock_skew_leeway_ms asked then asked else clock_skew_leeway_ms

  abbrev pub cleanup_now : Option ℤ → ℤ
  cleanup_now none = node.date_now
  cleanup_now (some t) = t

  abbrev pub eligible_at_of : Option ℤ → Option ℤ
  eligible_at_of none = none
  eligible_at_of (some exp) = some (exp +ℤ leeway_of opts.clock_skew_leeway)

  unfoldable pub elapsed_answer : Option ℤ → Eligibility
  elapsed_answer none = record {
    eligible = false;
    eligible_at = none;
    reason = some exp_unsigned_or_missing;
  }
  elapsed_answer (some at) =
      if ltb_ℤ at (cleanup_now opts.now)
      then record { eligible = true; eligible_at = some at; reason = none }
      else record { eligible = false; eligible_at = some at; reason = some exp_not_elapsed }

  unfoldable pub cleanup_eligible_at : Json → Eligibility
  unfolding elapsed_answer ◌+ℤ◌ is_proven
  cleanup_eligible_at grant =
      let at = eligible_at_of (signed_exp_ms grant) in
      if not (is_terminal_entry grant)
      then record { eligible = false; eligible_at = at; reason = some non_terminal }
      else elapsed_answer at
