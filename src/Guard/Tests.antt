-- ===== src/Guard/Tests.antt =====
-- Runs of the guard, and its theorems at these inputs.
use Prim.Native.Nat.{ℕ, ◌≤◌}
use capability_demo.Prelude.{
  pos, ◌≡◌, ◌+ℤ◌, refl, true, String, List, [], ◌∷◌, ◌++◌, Option, none, some, arith, length,
  split_on,
}
use capability_demo.Json.{Json, str, obj, arr, nil, cons, field, end, get, keys}
use capability_demo.Runtime.{scalar}
use capability_demo.Samples.{toy}
use capability_demo.Grant.Verdict.{conclude}
use capability_demo.Grant.Profile.{peek_kid}
use capability_demo.Grant.Token.{peek_segment}
use capability_demo.Grant.V1.{
  verify_execution_grant, parse_grant_token, signing_input, signing_parts, compute_scope_hash,
}
use capability_demo.Grant.Options.{
  check_key_given, check_kid, check_retired, check_signature, check_time, now_of,
}
use capability_demo.Grant.AnyVersion.{peek_version_is_v2, verify_execution_grant_any_version}
use capability_demo.Guard.Keys.{
  PinnedKey, Keyring, load_keyring, entries_of, pin_entry, pin_all, pinned_for,
}
use capability_demo.Guard.Body.{end_event, error_event, next, handle_all, initial}
use capability_demo.Guard.Capture.{
  goes_on, data_events, handle_all-once, raw_body-within_limit, handle_all-collects,
}
use capability_demo.Guard.Laws.{has_passed, IsAuthorized, execution_grant_guard-IsAuthorized}
use capability_demo.Guard.{
  HttpRequest, GuardOptions, passed, default_target_id, execution_grant_guard, operation_of,
  verify_options, target_of, pinned_key, intent_of, answer_of,
}

abbrev create : String → Option String
create pem = some pem

abbrev keys_doc : Json
keys_doc = obj (
    field "keys"
      (arr (
        cons
          (obj (
            field "kid" (str "k0")
              (field "public_key_pem" (str "old") (field "status" (str "retired") end))))
          (cons (obj (field "kid" (str "k1") (field "public_key_pem" (str "pem") end))) nil)))
      end)

abbrev old_key : PinnedKey
old_key = record { public_key = "old"; kid = some "k0"; status = "retired" }

abbrev pinned : PinnedKey
pinned = record { public_key = "pem"; kid = some "k1"; status = "active" }

abbrev ring : Keyring
ring = record { by_kid = ("k0", old_key) ∷ ("k1", pinned) ∷ []; unnamed = none }

-- A file with two keys pins both, the retired one as retired; a kid selects one.
loads :
    (load_keyring toy create
        (record { public_key_pem = none; keys_file = some keys_doc; kid = none })
      ≡ some ring)
    × (load_keyring toy create
          (record { public_key_pem = none; keys_file = some keys_doc; kid = some "k1" })
        ≡ some (record { by_kid = ("k1", pinned) ∷ []; unnamed = none }))
    × (load_keyring toy create
          (record { public_key_pem = none; keys_file = some keys_doc; kid = some "k2" })
        ≡ none)
unfolding load_keyring pin_all pin_entry get entries_of
loads = (refl, refl, refl)

abbrev config : GuardOptions
config = record {
  audience = some "api";
  operation_map = ("POST /docs/:id", "publish") ∷ [];
  target_id = default_target_id;
  target_uri = λ req. none;
  now = some (pos 1000);
}

abbrev request : String → Option String → List ℕ → HttpRequest
request method header body = record {
  method = method;
  route_path = some "/docs/:id";
  path = "/docs/doc";
  header = header;
  raw_body = some body;
  id_param = some "doc";
}

abbrev good : HttpRequest
good = request "POST" (some "bound.good") (104 ∷ 101 ∷ 108 ∷ 108 ∷ 111 ∷ [])

passes : has_passed (execution_grant_guard toy ring config good) ≡ true
unfolding execution_grant_guard operation_of target_of verify_options pinned_key pinned_for
    intent_of answer_of verify_execution_grant_any_version verify_execution_grant parse_grant_token
    get keys split_on ◌+ℤ◌ scalar conclude check_key_given check_kid check_retired check_signature
    check_time compute_scope_hash peek_version_is_v2 peek_segment signing_input signing_parts
    peek_kid now_of
passes = refl

execution_grant_guard-IsAuthorized_example :
    (payload : Json) × (execution_grant_guard toy ring config good ≡ passed (some payload))
    × IsAuthorized toy ring config good payload
execution_grant_guard-IsAuthorized_example =
    execution_grant_guard-IsAuthorized toy ring config good passes

abbrev chunks : List (List ℕ)
chunks = (104 ∷ 105 ∷ []) ∷ (33 ∷ []) ∷ []

handle_all-collects_example :
    ((handle_all 3 (data_events chunks ++ end_event ∷ []) initial).0.raw_body
      ≡ some (104 ∷ 105 ∷ 33 ∷ []))
    × ((handle_all 3 (data_events chunks ++ end_event ∷ []) initial).1 ≡ next ∷ [])
handle_all-collects_example = handle_all-collects 3 chunks (ground arith)

handle_all-once_example :
    goes_on (handle_all 3 (end_event ∷ error_event ∷ end_event ∷ []) initial).1 ≤ 1
handle_all-once_example = handle_all-once 3 (end_event ∷ error_event ∷ end_event ∷ []) initial refl

abbrev sent : List ℕ
sent = 104 ∷ 105 ∷ 33 ∷ []

raw_body-within_limit_example : length sent ≤ 3
raw_body-within_limit_example =
    raw_body-within_limit 3 (data_events chunks ++ end_event ∷ []) sent
      handle_all-collects_example.0
