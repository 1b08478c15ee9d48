-- ===== src/Grant/AnyVersion.antt =====
-- The entry point that accepts both versions (packages/middleware/src/verify-grant.js).
use capability_demo.Prelude.{
  ◌≡◌, ◌↔◌, ◌⊎◌, inl, inr, refl, ap, ◌∙◌, Bool, true, false, String, Option, none, some, Bool-cases,
  if◌then◌else◌,
}
use capability_demo.Json.{Json, get, is_text}
use capability_demo.Runtime.{Node}
use capability_demo.Grant.Verdict.{Verdict}
use capability_demo.Grant.Token.{peek_segment, IsSplit, peek_segment_complete}
use capability_demo.Grant.Profile.{grant_version_v2}
use capability_demo.Grant.Options.{VerifyOptions}
use capability_demo.Grant.V1.{verify_execution_grant}
use capability_demo.Grant.V1.Parsing.{IsToken}
use capability_demo.Grant.V1.Acceptance.{IsCurrent, verify_execution_grant-valid_iff}
use capability_demo.Grant.V2.{verify_execution_grant_v2}
use capability_demo.Grant.V2.Parsing.{IsTokenV2}
use capability_demo.Grant.V2.Acceptance.{IsCurrentV2, verify_execution_grant_v2-valid_iff}

is_v2_body : Option Json → Bool
is_v2_body none = false
is_v2_body (some body) = is_text (get "v" body) grant_version_v2

peeked : Node → Option String → Bool
unfolding is_v2_body
peeked node none = false
peeked node (some head) = is_v2_body (node.decode head)

-- The version that the token itself claims; a body that does not parse is left to v1.
unfoldable pub peek_version_is_v2 : Node → String → Bool
unfolding peeked
peek_version_is_v2 node token = peeked node (peek_segment token)

unfoldable pub verify_execution_grant_any_version : Node → VerifyOptions → String → Verdict
verify_execution_grant_any_version node opts token =
    if peek_version_is_v2 node token
    then verify_execution_grant_v2 node opts token
    else verify_execution_grant node opts token

module _ (node : Node) (opts : VerifyOptions) where
  -- What the dual-accept entry accepts: a current v1 grant or a current v2 grant.
  abbrev pub IsAccepted : String → Type 0
  IsAccepted token =
      ((payload : Json) × (sig : String) × IsToken node token payload sig
        × IsCurrent node opts payload sig)
      ⊎ ((payload : Json) × (sig : String) × IsTokenV2 node token payload sig
          × IsCurrentV2 node opts payload sig)

  peek_split :
      (token head sig : String) (body : Json)
      → IsSplit token head sig
      → node.decode head ≡ some body
      → peek_version_is_v2 node token ≡ is_text (get "v" body) grant_version_v2
  unfolding peek_version_is_v2
  peek_split token head sig body s d =
      rw (peek_segment_complete token head sig s, peeked) (rw d refl)

  pub peek_v1 :
      (token sig : String) (payload : Json)
      → IsToken node token payload sig
      → peek_version_is_v2 node token ≡ false
  peek_v1 token sig payload t =
      peek_split token t.head sig payload t.split t.decoded
      ∙ ap (λ v. is_text v grant_version_v2) t.body.version

  pub peek_v2 :
      (token sig : String) (payload : Json)
      → IsTokenV2 node token payload sig
      → peek_version_is_v2 node token ≡ true
  peek_v2 token sig payload t =
      peek_split token t.head sig payload t.split t.decoded
      ∙ ap (λ v. is_text v grant_version_v2) t.body.version

  any_sound :
      (token : String)
      → (verify_execution_grant_any_version node opts token).valid ≡ true
      → IsAccepted token
  unfolding verify_execution_grant_any_version
  any_sound token h = elim (Bool-cases (peek_version_is_v2 node token)) [
    | inl two ↦ inr ((verify_execution_grant_v2-valid_iff node opts token).0 (rw two at h))
    | inr one ↦ inl ((verify_execution_grant-valid_iff node opts token).0 (rw one at h))
  ]

  any_complete :
      (token : String)
      → IsAccepted token
      → (verify_execution_grant_any_version node opts token).valid ≡ true
  unfolding verify_execution_grant_any_version
  any_complete token (inl (payload, sig, t, c)) =
      rw (peek_v1 token sig payload t)
        ((verify_execution_grant-valid_iff node opts token).1 (payload, sig, t, c))
  any_complete token (inr (payload, sig, t, c)) =
      rw (peek_v2 token sig payload t)
        ((verify_execution_grant_v2-valid_iff node opts token).1 (payload, sig, t, c))

  -- The dual-accept entry accepts exactly the tokens of current v1 grants and of current v2 grants,
  -- each by the rules of its own version.
  pub verify_any_version-valid_iff :
      (token : String)
      → ((verify_execution_grant_any_version node opts token).valid ≡ true) ↔ IsAccepted token
  verify_any_version-valid_iff token = (any_sound token, any_complete token)
