-- ===== src/Posture/Receipt.antt =====
-- Posture receipts: their encoding and their check (demo/src/posture.js).
use capability_demo.Prelude.{
  ℤ, Bool, true, false, not, ◌||◌, String, ◌==◌, join, split_on, any, trim, List, [], ◌∷◌, Option,
  none, some, if◌then◌else◌,
}
use capability_demo.Json.{Json, get, is_text, str, Fields, end, field}
use capability_demo.Runtime.{Node}
use capability_demo.Git.Retention.{is_truthy}
use capability_demo.Reconcile.Keyring.{
  Manifest, KeyEntry, KeyWindow, inside, non_finite_key_window, outside_key_window, is_the,
  resolve_key_manifest, check_key_window, text_of_any,
}

abbrev pub posture_v : String
posture_v = "cr.posture.receipt.v1"

abbrev pub reserved_body_fields : List String
reserved_body_fields =
    "executor_id" ∷ "adapter_id" ∷ "target_uri" ∷ "policy_hash" ∷ "expires_at" ∷ []

-- The reserved fields of the list that are texts and not empty.
unfoldable pub present_fields : List String → Json → Fields
present_fields [] source = end
present_fields (k ∷ ks) source =
    let rest = present_fields ks source in
    elim (get k source) [ some (str v) ↦ if v == "" then rest else field k (str v) rest | _ ↦ rest ]

unfoldable pub present_reserved_fields : Json → Fields
unfolding present_fields
present_reserved_fields source = present_fields reserved_body_fields source

-- What a signing key may be: without a manifest any, otherwise an active one.
pub data SigningKey : Type 0 where
  may_sign not_in_manifest retired_kid : SigningKey

unfoldable pub assert_signing_key_active : String → Option Manifest → SigningKey
unfolding resolve_key_manifest
assert_signing_key_active kid none = may_sign
assert_signing_key_active kid (some manifest) = elim (resolve_key_manifest manifest kid) [
  | none ↦ not_in_manifest
  | some entry ↦ if is_the entry.status "active" then may_sign else retired_kid
]

pub data PostureReason : Type 0 where
  malformed_structure unknown_kid signature_error signature_mismatch bad_json : PostureReason
  key_window : KeyWindow → PostureReason

pub data PostureVerdict : Type 0 where
  posture_pass posture_fail : (payload : Json) → PostureVerdict
  posture_refused : PostureReason → PostureVerdict
  -- a key of the manifest cannot be read
  posture_thrown : PostureVerdict

-- A key, or none, or the exception of createPublicKey.
pub data KeyRead : Type 0 where
  has_key : String → KeyRead
  lacks_key throws_key : KeyRead

abbrev pub key_or_throw : Option String → KeyRead
key_or_throw none = throws_key
key_or_throw (some key) = has_key key

abbrev pub key_given : Option String → KeyRead
key_given none = lacks_key
key_given (some key) = has_key key

-- The kid, the body and the signature of a token.
unfoldable pub posture_segments : List String → Option (String × String × String)
posture_segments (v ∷ kid ∷ body ∷ sig ∷ []) =
    if not (v == posture_v) || any (λ s. s == "") (v ∷ kid ∷ body ∷ sig ∷ [])
    then none
    else some (kid, body, sig)
posture_segments _ = none

module _ (node : Node) where
  unfoldable pub encode_posture_receipt : String → String → String → String
  encode_posture_receipt kid preimage signature =
      join "|" (posture_v ∷ kid ∷ node.to_base64url preimage ∷ signature ∷ [])

  abbrev pub pem_read : Option String → KeyRead
  pem_read none = lacks_key
  pem_read (some pem) =
      if trim pem == "" then lacks_key else key_or_throw (node.create_public_key pem)

  unfoldable pub public_key_from_entry : KeyEntry → KeyRead
  unfolding trim
  public_key_from_entry entry = elim entry.public_key [
    | some key ↦ has_key key
    | none ↦ pem_read entry.public_key_pem
  ]

  -- `payload && payload.measured_at`
  abbrev pub measured_at : Json → Option Json
  measured_at payload = if is_truthy (some payload) then get "measured_at" payload else some payload

  unfoldable pub graded_payload : Json → PostureVerdict
  graded_payload payload =
      if is_text (get "verdict" payload) "PASS" then posture_pass payload else posture_fail payload

  unfoldable pub windowed : Json → KeyWindow → PostureVerdict
  unfolding graded_payload
  windowed payload inside = graded_payload payload
  windowed payload non_finite_key_window = posture_refused (key_window non_finite_key_window)
  windowed payload outside_key_window = posture_refused (key_window outside_key_window)

  -- The window of the entry, where a manifest is given.
  unfoldable pub check_window : Option KeyEntry → Option ℤ → Json → PostureVerdict
  unfolding check_key_window graded_payload
  check_window none leeway payload = graded_payload payload
  check_window (some entry) leeway payload = windowed payload (
      check_key_window node (text_of_any node (measured_at payload)) entry.valid_from
        entry.valid_until leeway)

  unfoldable pub check_parsed : Option KeyEntry → Option ℤ → Option Json → PostureVerdict
  unfolding check_window
  check_parsed entry leeway none = posture_refused bad_json
  check_parsed entry leeway (some payload) = check_window entry leeway payload

  unfoldable pub check_signed : Option KeyEntry → Option ℤ → String → Option Bool → PostureVerdict
  unfolding check_parsed
  check_signed entry leeway preimage none = posture_refused signature_error
  check_signed entry leeway preimage (some false) = posture_refused signature_mismatch
  check_signed entry leeway preimage (some true) = check_parsed entry leeway (node.parse preimage)

  unfoldable pub check_key : Option KeyEntry → Option ℤ → String → String → KeyRead → PostureVerdict
  unfolding check_signed
  check_key entry leeway preimage sig throws_key = posture_thrown
  check_key entry leeway preimage sig lacks_key = posture_refused unknown_kid
  check_key entry leeway preimage sig (has_key key) =
      check_signed entry leeway preimage (node.verify key preimage sig)

  -- The entry of the manifest, which must exist.
  unfoldable pub check_resolved : Option KeyEntry → Option ℤ → String → String → PostureVerdict
  unfolding check_key public_key_from_entry
  check_resolved none leeway preimage sig = posture_refused unknown_kid
  check_resolved (some entry) leeway preimage sig =
      check_key (some entry) leeway preimage sig (public_key_from_entry entry)

  unfoldable pub check_segments :
      Option String
      → Option Manifest
      → Option ℤ
      → Option (String × String × String)
      → PostureVerdict
  unfolding check_resolved check_key resolve_key_manifest
  check_segments public_key manifest leeway none = posture_refused malformed_structure
  check_segments public_key none leeway (some (kid, body, sig)) =
      check_key none leeway (node.from_base64url body) sig (key_given public_key)
  check_segments public_key (some keys) leeway (some (kid, body, sig)) =
      check_resolved (resolve_key_manifest keys kid) leeway (node.from_base64url body) sig

  -- `Buffer.from(s, 'base64url')` never throws, so `bad_preimage` is not an answer.
  unfoldable pub verify_posture_receipt :
      String → Option String → Option Manifest → Option ℤ → PostureVerdict
  unfolding check_segments posture_segments
  verify_posture_receipt token public_key manifest leeway =
      if token == ""
      then posture_refused malformed_structure
      else check_segments public_key manifest leeway (posture_segments (split_on b'|' token))
