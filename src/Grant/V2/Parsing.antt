-- ===== src/Grant/V2/Parsing.antt =====
-- Which tokens the v2 parser accepts, and with what payload.
use capability_demo.Prelude.{
  ◌≡◌, ◌↔◌, inl, inr, refl, ap, Bool, true, false, not, String, elem, Option, none, some, All, all,
  all_iff, Option-cases, if◌then◌else◌,
}
use capability_demo.Json.{Json, str, get, keys, is_object, is_text, is_text_iff}
use capability_demo.Runtime.{Node}
use capability_demo.Grant.Verdict.{
  Parsed, rejected, parsed, Reason, bad_json, unsupported_version, missing_field, unknown_field,
  bad_max_attempts, bad_target_uri, malformed_structure,
}
use capability_demo.Grant.Token.{
  IsSplit, token_segments, token_segments_sound, token_segments_complete,
}
use capability_demo.Grant.Profile.{grant_version_v2}
use capability_demo.Grant.V2.Fields.{
  IsFull, All-IsFull_iff, IsPositive, is_positive_iff, IsSchemed, target_uri_scheme_ok_iff,
}
use capability_demo.Grant.V2.{
  required_strings_v2, allowed_fields_v2, is_full_string, is_positive, target_uri_scheme_ok,
  parse_body_v2, parse_grant_token_v2,
}

-- The object that the first segment of a v2 token must hold.
pub record IsGrantBodyV2 (payload : Json) : Type 0 where
  pub object : is_object payload ≡ true
  pub version : get "v" payload ≡ some (str grant_version_v2)
  pub required : All (λ k. IsFull (get k payload)) required_strings_v2
  pub attempts : IsPositive (get "max_attempts" payload)
  pub known : All (λ k. elem k allowed_fields_v2 ≡ true) (keys payload)
  pub scheme : IsSchemed (get "target_uri" payload)

module _ (node : Node) where
  -- A well-formed v2 token: its two segments, and the payload that the first decodes to.
  pub record IsTokenV2 (token : String) (payload : Json) (sig : String) : Type 0 where
    pub head : String
    pub split : IsSplit token head sig
    pub decoded : node.decode head ≡ some payload
    pub body : IsGrantBodyV2 payload

  unless-parsed :
      (b : Bool) (o : Option Json) (r : Reason) (rest : Parsed) {p : Json} {sig : String}
      → (if not b then rejected r o else rest) ≡ parsed p sig
      → (b ≡ true) × (rest ≡ parsed p sig)
  unless-parsed true o r rest h = (refl, h)
  unless-parsed false o r rest h = cc

  parse_body_sound :
      (payload payload' : Json) (sig sig' : String)
      → parse_body_v2 node (some payload) sig ≡ parsed payload' sig'
      → (payload ≡ payload') × (sig ≡ sig') × IsGrantBodyV2 payload
  unfolding parse_body_v2
  parse_body_sound payload payload' sig sig' h =
      let (object, h₁) = unless-parsed (is_object payload) none bad_json _ h in
      let (version, h₂) =
        unless-parsed (is_text (get "v" payload) grant_version_v2) (some payload)
          unsupported_version _ h₁ in
      let (fields, h₃) =
        unless-parsed (all (λ k. is_full_string (get k payload)) required_strings_v2) (some payload)
          missing_field _ h₂ in
      let (attempts, h₄) =
        unless-parsed (is_positive (get "max_attempts" payload)) (some payload) bad_max_attempts _
          h₃ in
      let (known, h₅) =
        unless-parsed (all (λ k. elem k allowed_fields_v2) (keys payload)) (some payload)
          unknown_field _ h₄ in
      let (scheme, h₆) =
        unless-parsed (target_uri_scheme_ok (get "target_uri" payload)) (some payload)
          bad_target_uri _ h₅ in
      (
        cc,
        cc,
        record {
          object = object;
          version = (is_text_iff (get "v" payload) grant_version_v2).0 version;
          required =
              (All-IsFull_iff (λ k. get k payload) required_strings_v2).0
                ((all_iff (λ k. is_full_string (get k payload)) required_strings_v2).0 fields);
          attempts = (is_positive_iff _).0 attempts;
          known = (all_iff (λ k. elem k allowed_fields_v2) (keys payload)).0 known;
          scheme = (target_uri_scheme_ok_iff _).0 scheme;
        },
      )

  parse_body_complete :
      (payload : Json) (sig : String)
      → IsGrantBodyV2 payload
      → parse_body_v2 node (some payload) sig ≡ parsed payload sig
  unfolding parse_body_v2
  parse_body_complete payload sig b = rw (
    b.object,
    (is_text_iff (get "v" payload) grant_version_v2).1 b.version,
    (all_iff (λ k. is_full_string (get k payload)) required_strings_v2).1
        ((All-IsFull_iff (λ k. get k payload) required_strings_v2).1 b.required),
    (is_positive_iff _).1 b.attempts,
    (all_iff (λ k. elem k allowed_fields_v2) (keys payload)).1 b.known,
    (target_uri_scheme_ok_iff _).1 b.scheme,
  )

  body_sound :
      (body : Option Json) (sig sig' : String) (payload : Json)
      → parse_body_v2 node body sig ≡ parsed payload sig'
      → (body ≡ some payload) × (sig ≡ sig') × IsGrantBodyV2 payload
  unfolding parse_body_v2
  body_sound none sig sig' payload h = cc
  body_sound (some p) sig sig' payload h =
      let (same, sigs, good) = parse_body_sound p payload sig sig' h in
      (ap some same, sigs, rw (← same) good)

  parse_sound :
      (token : String) (payload : Json) (sig : String)
      → parse_grant_token_v2 node token ≡ parsed payload sig
      → IsTokenV2 token payload sig
  unfolding parse_grant_token_v2
  parse_sound token payload sig h = elim (Option-cases (token_segments token)) [
    | inl malformed ↦ absurd (not-parsed (rw (malformed, parse_grant_token_v2) at h))
    | inr ((head, tail), split) ↦
        let (decoded, same, good) =
          body_sound (node.decode head) tail sig payload (rw (split, parse_grant_token_v2) at h) in
        record {
          head = head;
          split = rw (← same) (token_segments_sound token head tail split);
          decoded = decoded;
          body = good;
        }
  ]
    where
      not-parsed : rejected malformed_structure none ≡ parsed payload sig → ⊥
      not-parsed q = cc

  parse_complete :
      (token : String) (payload : Json) (sig : String)
      → IsTokenV2 token payload sig
      → parse_grant_token_v2 node token ≡ parsed payload sig
  unfolding parse_grant_token_v2
  parse_complete token payload sig t =
      rw (token_segments_complete token t.head sig t.split, parse_grant_token_v2)
        (rw t.decoded (parse_body_complete payload sig t.body))

  -- The v2 parser accepts a token, with a payload and a signature, exactly when the token is two
  -- full texts without a dot joined by a dot, of which the second is the signature and the first
  -- decodes to the payload, and the payload is an object of version cr.exec.v2 with every required
  -- field a full text, a positive number of attempts, no unknown field, and a target whose text
  -- before the first `://` is, in lower case, one of the six schemes.
  pub parse_grant_token_v2-parsed_iff :
      (token : String) (payload : Json) (sig : String)
      → (parse_grant_token_v2 node token ≡ parsed payload sig) ↔ IsTokenV2 token payload sig
  parse_grant_token_v2-parsed_iff token payload sig =
      (parse_sound token payload sig, parse_complete token payload sig)
