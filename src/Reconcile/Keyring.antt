-- ===== src/Reconcile/Keyring.antt =====
-- The keys that may stand behind an attestation: keyInForce and publicKeyOf of
-- demo/src/reconcile.js, with resolveKeyManifest and checkKeyWindow of demo/src/posture.js.
use capability_demo.Prelude.{
  ℤ, pos, ltb_ℤ, ◌+ℤ◌, ◌-ℤ◌, Bool, false, not, ◌||◌, String, ◌==◌, List, [], ◌∷◌, Option, none,
  some, if◌then◌else◌,
}
use capability_demo.Json.{Json}
use capability_demo.Runtime.{Node, to_text}
use capability_demo.Grant.Profile.{is_nullish}

abbrev pub posture_clock_skew_leeway_ms : ℤ
posture_clock_skew_leeway_ms = pos 30000

-- An entry of a key manifest. `public_key` is a key object, as its text; the status is `none` where
-- it is no text.
pub record KeyEntry : Type 0 where
  pub kid : Option String
  pub status : Option String
  pub valid_from : Option Json
  pub valid_until : Option Json
  pub retired_at : Option Json
  pub public_key : Option String
  pub public_key_pem : Option String

-- `keys` is `none` where it is no array. Elements that are no objects never match, and are left out.
pub record Manifest : Type 0 where
  pub keys : Option (List KeyEntry)

-- `o === s` for a text `s`
abbrev pub is_the : Option String → String → Bool
is_the none s = false
is_the (some t) s = t == s

-- `keys.filter((k) => k && k.kid === kid)[0]`
unfoldable pub first_match : List KeyEntry → String → Option KeyEntry
first_match [] kid = none
first_match (k ∷ ks) kid =
    let rest = first_match ks kid in if is_the k.kid kid then some k else rest

unfoldable pub resolve_key_manifest : Manifest → String → Option KeyEntry
unfolding first_match
resolve_key_manifest manifest kid = elim manifest.keys [
  | none ↦ none
  | some keys ↦ if kid == "" then none else first_match keys kid
]

abbrev pub finite_or : Option ℤ → ℤ → ℤ
finite_or none d = d
finite_or (some n) d = n

pub data KeyWindow : Type 0 where
  inside non_finite_key_window outside_key_window : KeyWindow

unfoldable pub window_of : ℤ → Option ℤ → Option ℤ → Option ℤ → KeyWindow
unfolding ◌+ℤ◌ ◌-ℤ◌
window_of leeway (some t) (some from) (some until) =
    if ltb_ℤ (t +ℤ leeway) from || ltb_ℤ until (t -ℤ leeway) then outside_key_window else inside
window_of leeway _ _ _ = non_finite_key_window

-- Whether a key may have signed at the time.
pub data Force : Type 0 where
  in_force : Force
  unknown_status : Force
  out_of_window : KeyWindow → Force

abbrev pub force_of : KeyWindow → Force
force_of inside = in_force
force_of w = out_of_window w

module _ (node : Node) where
  -- String(v), where `undefined` gives a text too
  abbrev pub text_of_any : Option Json → String
  text_of_any none = "undefined"
  text_of_any (some v) = to_text node v

  -- `leeway` is `none` where it is not given or not finite.
  unfoldable pub check_key_window : String → Option Json → Option Json → Option ℤ → KeyWindow
  unfolding ◌+ℤ◌ ◌-ℤ◌
  check_key_window measured_at valid_from valid_until leeway =
      window_of (finite_or leeway posture_clock_skew_leeway_ms) (node.date_parse measured_at)
        (node.date_parse (text_of_any valid_from)) (node.date_parse (text_of_any valid_until))

  unfoldable pub key_in_force : KeyEntry → String → Force
  unfolding check_key_window
  key_in_force entry as_of =
      if is_the entry.status "active"
      then in_force
      else if not (is_the entry.status "retired")
      then unknown_status
      else force_of (
          check_key_window as_of entry.valid_from
            (if is_nullish entry.valid_until then entry.retired_at else entry.valid_until) none)

  -- `entry.public_key_pem && createPublicKey(...)`
  abbrev pub pem_key : Option String → Option String
  pem_key none = none
  pem_key (some pem) = if pem == "" then none else node.create_public_key pem

  unfoldable pub public_key_of : KeyEntry → Option String
  public_key_of entry = elim entry.public_key [
    | some key ↦ some key
    | none ↦ pem_key entry.public_key_pem
  ]
