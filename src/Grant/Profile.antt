-- ===== src/Grant/Profile.antt =====
-- What the executor reads from a verified payload of either version: its profile, the facts that
-- both versions carry, and the kid that a token claims. (packages/middleware/src/verify-grant.js)
use capability_demo.Prelude.{
  Bool, true, false, not, ◌&&◌, String, ◌==◌, concat, Option, none, some, if◌then◌else◌,
}
use capability_demo.Json.{Json, null, str, get, is_text}
use capability_demo.Runtime.{Node, scalar}
use capability_demo.Grant.Token.{peek_segment}

abbrev pub grant_version_v2 : String
grant_version_v2 = "cr.exec.v2"

pub data Profile : Type 0 where
  atomic bearer : Profile

-- `v != null && String(v).length > 0`
abbrev pub is_filled : Node → Option Json → Bool
is_filled node v = not (scalar node v == "")

abbrev pub is_nullish : Option Json → Bool
is_nullish none = true
is_nullish (some null) = true
is_nullish (some v) = false

-- What v2 writes into a hash slot that the issuer had no value for.
unfoldable pub empty_sha256 : Node → String
empty_sha256 node = concat "sha256:" (node.sha256 "")

-- ATOMIC exactly if the grant is bound to a state nonce.
unfoldable pub grant_profile : Node → Json → Profile
unfolding empty_sha256
grant_profile node payload =
    if is_text (get "v" payload) grant_version_v2
    then (if not (is_nullish (get "nonce_hash" payload))
          && not (scalar node (get "nonce_hash" payload) == empty_sha256 node)
        then atomic
        else bearer)
    else if is_filled node (get "state_nonce" payload)
    then atomic
    else bearer

-- `none` in a field is JavaScript's `undefined`, or `null` where the version has no such fact.
pub record NormalizedGrant : Type 0 where
  pub version : String
  pub jti : Option Json
  pub scope_hash : Option Json
  pub deployment_id : String
  pub operation : Option Json
  pub state_nonce : Option Json
  pub nonce_hash : Option Json
  pub expected_state_token : Option Json

unfoldable pub normalize_grant : Node → Json → NormalizedGrant
normalize_grant node payload =
    if is_text (get "v" payload) grant_version_v2
    then record {
      version = grant_version_v2;
      jti = get "grant_id" payload;
      scope_hash = get "after_payload_hash" payload;
      deployment_id = scalar node (get "executor_id" payload);
      operation = get "operation" payload;
      state_nonce = none;
      nonce_hash = get "nonce_hash" payload;
      expected_state_token = get "expected_state_token" payload;
    }
    else record {
      version = "cr.exec.v1";
      jti = get "jti" payload;
      scope_hash = get "scope_hash" payload;
      deployment_id = scalar node (get "deployment_id" payload);
      operation = get "operation" payload;
      state_nonce = get "state_nonce" payload;
      nonce_hash = none;
      expected_state_token = some (str "");
    }

claimed_kid : Option Json → Option String
claimed_kid (some (str s)) = if s == "" then none else some s
claimed_kid _ = none

read_kid : Option Json → Option String
unfolding claimed_kid
read_kid none = none
read_kid (some body) = claimed_kid (get "kid" body)

-- The kid that a token claims, with nothing verified.
unfoldable pub peek_kid : Node → String → Option String
unfolding read_kid
peek_kid node token = elim (peek_segment token) [
  | none ↦ none
  | some head ↦ read_kid (node.decode head)
]
