-- ===== src/Posture/Tests.antt =====
-- A receipt and a drift, and the theorems at them.
use capability_demo.Prelude.{
  ◌≡◌, ◌↔◌, refl, true, false, Bool, ◌==◌, ◌+ℤ◌, ◌-ℤ◌, split_on, [], ◌∷◌, none, some, if◌then◌else◌,
}
use capability_demo.Json.{Json, bool, str, obj, field, end, get, arr, cons, nil}
use capability_demo.Runtime.{Node}
use capability_demo.Git.Retention.{is_truthy}
use capability_demo.Grant.V2.Canonical.{utf16, units_lt}
use capability_demo.Samples.{toy}
use capability_demo.Reconcile.Keyring.{Manifest, window_of}
use capability_demo.Posture.Receipt.{verify_posture_receipt, windowed}
use capability_demo.Posture.Laws.Passed.{IsReceipt, verify_posture_receipt-IsReceipt}
use capability_demo.Posture.Drift.{object_diff, leaf_diff, diff_facts}
use capability_demo.Posture.Laws.Drifted.{Agrees, diff_facts-Agrees_iff}

abbrev payload : Json
payload = obj (field "measured_at" (str "0") (field "verdict" (str "PASS") end))

abbrev runtime : Node
runtime = record toy { parse = λ s. if s == "BODY" then some payload else none }

abbrev manifest : Manifest
manifest = record {
  keys = some (
      record {
        kid = some "e1";
        status = some "retired";
        valid_from = some (str "0");
        valid_until = some (str "60");
        retired_at = none;
        public_key = some "pem";
        public_key_pem = none;
      }
      ∷ []);
}

verify_posture_receipt-IsReceipt_example :
    IsReceipt runtime "cr.posture.receipt.v1|e1|BODY|good" none (some manifest) none payload
unfolding verify_posture_receipt split_on get ◌+ℤ◌ ◌-ℤ◌ windowed window_of
verify_posture_receipt-IsReceipt_example =
    verify_posture_receipt-IsReceipt runtime "cr.posture.receipt.v1|e1|BODY|good" none
      (some manifest) none payload refl

abbrev baseline : Json
baseline = obj (
    field "roles" (obj (field "can_login" (bool false) end))
      (field "tables" (obj (field "grants" (arr (cons (str "SELECT") nil)) end)) end))

abbrev live : Bool → Json
live login = obj (
    field "extra" (str "x") (
      field "tables" (obj (field "grants" (arr (cons (str "SELECT") nil)) end))
        (field "roles" (obj (field "can_login" (bool login) end)) end)))

drifts :
    (diff_facts runtime (live false) baseline ≡ [])
    × (diff_facts runtime (live true) baseline
        ≡ record { path = "roles.can_login"; expected = bool false; actual = some (bool true) }
          ∷ [])
unfolding diff_facts get object_diff units_lt utf16 leaf_diff
drifts = (refl, refl)

diff_facts-Agrees_iff_example : (diff_facts runtime (live false) baseline ≡ []) ↔ (
    (is_truthy (get "unreadable" (live false)) ≡ false)
    × Agrees runtime baseline (some (live false)))
diff_facts-Agrees_iff_example = diff_facts-Agrees_iff runtime (live false) baseline
