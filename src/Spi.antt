-- ===== src/Spi.antt =====
-- The seam for the consumption of a nonce (demo/src/adapter-spi.js).
pub mod Adapters
pub mod Laws
mod Tests
use capability_demo.Prelude.{
  ℤ, ltb_ℤ, Bool, true, false, not, ◌&&◌, ◌||◌, String, ◌==◌, List, [], ◌∷◌, Option, none, some,
  any, if◌then◌else◌,
}
use capability_demo.Json.{
  Json, Fields, null, bool, str, obj, field, end, get, is_string, is_text, text_or_empty,
}
use capability_demo.Runtime.{Node, to_text}
use capability_demo.Grant.Profile.{is_nullish}

pub data Strength : Type 0 where
  atomic_transaction exclusive_ref_cas indeterminate : Strength

pub data ConsumeReason : Type 0 where
  already_consumed expired no_cross_resource_ledger missing_jti missing_target : ConsumeReason

abbrev pub strength_text : Strength → String
strength_text atomic_transaction = "ATOMIC_TRANSACTION"
strength_text exclusive_ref_cas = "EXCLUSIVE_REF_CAS"
strength_text indeterminate = "INDETERMINATE"

abbrev pub reason_text : ConsumeReason → String
reason_text already_consumed = "already_consumed"
reason_text expired = "expired"
reason_text no_cross_resource_ledger = "no_cross_resource_ledger"
reason_text missing_jti = "missing_jti"
reason_text missing_target = "missing_target"

-- The input that the adapters share; `none` is `undefined`.
pub record ConsumeInput : Type 0 where
  pub jti : Option Json
  pub target : Option Json
  pub expires_at : Option Json

-- { consumed, reason, strength }; the notes that an adapter adds are left out.
pub record ConsumeResult : Type 0 where
  pub consumed : Bool
  pub reason : Option ConsumeReason
  pub strength : Strength

abbrev pub not_consumed : ConsumeReason → Strength → ConsumeResult
not_consumed reason strength = record {
  consumed = false;
  reason = some reason;
  strength = strength;
}

abbrev reason_json : Option ConsumeReason → Json
reason_json none = null
reason_json (some r) = str (reason_text r)

-- The result as the object that is returned.
abbrev pub result_json : ConsumeResult → Json
result_json r = obj (
    field "consumed" (bool r.consumed) (
      field "reason" (reason_json r.reason)
        (field "strength" (str (strength_text r.strength)) end)))

-- `typeof v === 'boolean'`
abbrev is_boolean : Option Json → Bool
is_boolean (some (bool b)) = true
is_boolean v = false

-- `v === false`
abbrev is_false : Option Json → Bool
is_false (some (bool b)) = not b
is_false v = false

-- `typeof v !== 'string' || v.length === 0`
abbrev pub is_missing : Option Json → Bool
is_missing v = not (is_string v) || text_or_empty v == ""

abbrev pub strengths : List Strength
strengths = atomic_transaction ∷ exclusive_ref_cas ∷ indeterminate ∷ []

-- A value without fields has no `consumed`, so it is no result.
unfoldable pub is_consume_once_result : Json → Bool
is_consume_once_result r =
    if not (is_boolean (get "consumed" r))
    then false
    else if is_false (get "consumed" r) && is_missing (get "reason" r)
    then false
    else any (λ s. is_text (get "strength" r) (strength_text s)) strengths

module _ (node : Node) where
  -- Date.parse(String(v)) is not finite, or before now
  abbrev pub has_ended : Option ℤ → ℤ → Bool
  has_ended none now = true
  has_ended (some exp) now = ltb_ℤ exp now

  abbrev pub date_of : Option Json → Option ℤ
  date_of none = none
  date_of (some v) = node.date_parse (to_text node v)

  unfoldable pub check_input : ConsumeInput → Strength → ℤ → Option ConsumeResult
  check_input input strength now =
      if is_missing input.jti
      then some (not_consumed missing_jti strength)
      else if is_missing input.target
      then some (not_consumed missing_target strength)
      else if not (is_nullish input.expires_at) && has_ended (date_of input.expires_at) now
      then some (not_consumed expired strength)
      else none
