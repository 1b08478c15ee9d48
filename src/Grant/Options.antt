-- ===== src/Grant/Options.antt =====
-- What the caller of a verifier supplies, and the checks that both versions share.
-- (packages/middleware/src/verify-grant.js)
pub mod Laws
use capability_demo.Prelude.{
  ℤ, pos, ltb_ℤ, ◌+ℤ◌, Bool, true, false, not, ◌&&◌, String, ◌==◌, [], ◌∷◌, Option, none, some,
  if◌then◌else◌,
}
use capability_demo.Json.{Json, get, is_text}
use capability_demo.Runtime.{Node, scalar}
use capability_demo.Grant.Verdict.{
  Gate, refuse, refuse_if, malformed, unknown_key, grant_expired, unknown_kid, retired_kid,
  bad_timestamp, expired, Reason, invalid_signature, signature_error, signature_mismatch,
}

-- `opts.intended`; `none` is `null` or `undefined`
pub record Intended : Type 0 where
  pub receipt_token : Option String
  pub audience : Option String
  pub operation : Option String
  pub target_id : Option String
  pub target_uri : Option String
  pub executor_id : Option String
  pub adapter_id : Option String
  pub scope_hash : Option String
  pub after_payload : Option String

pub record VerifyOptions : Type 0 where
  pub public_key : Option String
  pub key_status : Option String
  pub key_kid : Option String
  pub intended : Intended
  pub now : Option ℤ

-- 30_000 ms
abbrev pub clock_skew_leeway_ms : ℤ
clock_skew_leeway_ms = pos 30000

-- `want != null && want !== '' && have !== String(want)`
abbrev pub differs : Option String → Option Json → Bool
differs none have = false
differs (some want) have = not (want == "") && not (is_text have want)

-- `want != null && String(want).length > 0 && have !== digest(want)`
abbrev pub differs_by : (String → String) → Option String → Option Json → Bool
differs_by digest none have = false
differs_by digest (some want) have = not (want == "") && not (is_text have (digest want))

-- `now` of the options, or Date.now()
unfoldable pub now_of : Node → VerifyOptions → ℤ
now_of node opts = elim opts.now [ none ↦ node.date_now | some t ↦ t ]

module _ (node : Node) (opts : VerifyOptions) where
  -- `if (!opts.publicKey)`
  unfoldable pub check_key_given : Gate
  check_key_given = elim opts.public_key [ none ↦ refuse unknown_key unknown_kid | some k ↦ none ]

  unfoldable pub check_kid : Json → Gate
  check_kid payload = refuse_if (differs opts.key_kid (get "kid" payload)) unknown_key unknown_kid

  is_retired : Option String → Bool
  is_retired none = false
  is_retired (some s) = s == "retired"

  unfoldable pub check_retired : Gate
  unfolding is_retired
  check_retired = refuse_if (is_retired opts.key_status) unknown_key retired_kid

  signature_answer : Option Bool → Gate
  signature_answer none = refuse invalid_signature signature_error
  signature_answer (some false) = refuse invalid_signature signature_mismatch
  signature_answer (some true) = none

  -- crypto.verify over the signing input; it throws without a key
  unfoldable pub check_signature : String → String → Gate
  unfolding signature_answer
  check_signature message sig = elim opts.public_key [
    | none ↦ refuse invalid_signature signature_error
    | some k ↦ signature_answer (node.verify k message sig)
  ]

  time_window : Reason → Option ℤ → Option ℤ → Gate
  time_window early (some exp) (some start) =
      if ltb_ℤ (exp +ℤ clock_skew_leeway_ms) (now_of node opts)
      then refuse grant_expired expired
      else refuse_if (ltb_ℤ (now_of node opts +ℤ clock_skew_leeway_ms) start) grant_expired early
  time_window early _ _ = refuse malformed bad_timestamp

  -- The end and the start of the validity, by the fields that hold them.
  unfoldable pub check_time : Reason → String → String → Json → Gate
  unfolding time_window now_of ◌+ℤ◌
  check_time early exp_field start_field payload =
      time_window early (node.date_parse (scalar node (get exp_field payload)))
        (node.date_parse (scalar node (get start_field payload)))
