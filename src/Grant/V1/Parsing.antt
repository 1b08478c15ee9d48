-- ===== src/Grant/V1/Parsing.antt =====
-- Which tokens the v1 parser accepts, and with what payload.
use capability_demo.Prelude.{
  ◌≡◌, ◌↔◌, inl, inr, refl, ap, Bool, true, false, not, String, elem, Option, none, some, All, all,
  all_iff, Option-cases, if◌then◌else◌,
}
use capability_demo.Json.{
  Json, str, get, keys, is_object, is_string, is_optional_string, is_text, is_text_iff,
}
use capability_demo.Runtime.{Node}
use capability_demo.Grant.Verdict.{
  Parsed, rejected, parsed, Reason, bad_json, unsupported_version, missing_field, bad_optional,
  unknown_field, malformed_structure,
}
use capability_demo.Grant.Token.{
  IsSplit, token_segments, token_segments_sound, token_segments_complete,
}
use capability_demo.Grant.V1.{
  grant_version, signed_fields, optional_signed_fields, allowed_fields, parse_body,
  parse_grant_token,
}

-- The object that the first segment of a v1 token must hold.
pub record IsGrantBody (payload : Json) : Type 0 where
  pub object : is_object payload ≡ true
  pub version : get "v" payload ≡ some (str grant_version)
  pub signed : All (λ k. is_string (get k payload) ≡ true) signed_fields
  pub optional : All (λ k. is_optional_string (get k payload) ≡ true) optional_signed_fields
  pub known : All (λ k. elem k allowed_fields ≡ true) (keys payload)

module _ (node : Node) where
  -- A well-formed token: its two segments, and the payload that the first decodes to.
  pub record IsToken (token : String) (payload : Json) (sig : String) : Type 0 where
    pub head : String
    pub split : IsSplit token head sig
    pub decoded : node.decode head ≡ some payload
    pub body : IsGrantBody payload

  -- The first parser check that fails is the answer, so an accepted body passed it.
  unless-parsed :
      (b : Bool) (o : Option Json) (r : Reason) (rest : Parsed) {p : Json} {sig : String}
      → (if not b then rejected r o else rest) ≡ parsed p sig
      → (b ≡ true) × (rest ≡ parsed p sig)
  unless-parsed true o r rest h = (refl, h)
  unless-parsed false o r rest h = cc

  parse_body_sound :
      (payload payload' : Json) (sig sig' : String)
      → parse_body node (some payload) sig ≡ parsed payload' sig'
      → (payload ≡ payload') × (sig ≡ sig') × IsGrantBody payload
  unfolding parse_body
  parse_body_sound payload payload' sig sig' h =
      let (object, h₁) = unless-parsed (is_object payload) none bad_json _ h in
      let (version, h₂) =
        unless-parsed (is_text (get "v" payload) grant_version) (some payload) unsupported_version _
          h₁ in
      let (fields, h₃) =
        unless-parsed (all (λ k. is_string (get k payload)) signed_fields) (some payload)
          missing_field _ h₂ in
      let (optional, h₄) =
        unless-parsed (all (λ k. is_optional_string (get k payload)) optional_signed_fields)
          (some payload) bad_optional _ h₃ in
      let (known, h₅) =
        unless-parsed (all (λ k. elem k allowed_fields) (keys payload)) (some payload) unknown_field
          _ h₄ in
      (
        cc,
        cc,
        record {
          object = object;
          version = (is_text_iff (get "v" payload) grant_version).0 version;
          signed = (all_iff (λ k. is_string (get k payload)) signed_fields).0 fields;
          optional =
              (all_iff (λ k. is_optional_string (get k payload)) optional_signed_fields).0 optional;
          known = (all_iff (λ k. elem k allowed_fields) (keys payload)).0 known;
        },
      )

  parse_body_complete :
      (payload : Json) (sig : String)
      → IsGrantBody payload
      → parse_body node (some payload) sig ≡ parsed payload sig
  unfolding parse_body
  parse_body_complete payload sig b = rw (
    b.object,
    (is_text_iff (get "v" payload) grant_version).1 b.version,
    (all_iff (λ k. is_string (get k payload)) signed_fields).1 b.signed,
    (all_iff (λ k. is_optional_string (get k payload)) optional_signed_fields).1 b.optional,
    (all_iff (λ k. elem k allowed_fields) (keys payload)).1 b.known,
  )

  body_sound :
      (body : Option Json) (sig sig' : String) (payload : Json)
      → parse_body node body sig ≡ parsed payload sig'
      → (body ≡ some payload) × (sig ≡ sig') × IsGrantBody payload
  unfolding parse_body
  body_sound none sig sig' payload h = cc
  body_sound (some p) sig sig' payload h =
      let (same, sigs, good) = parse_body_sound p payload sig sig' h in
      (ap some same, sigs, rw (← same) good)

  parse_sound :
      (token : String) (payload : Json) (sig : String)
      → parse_grant_token node token ≡ parsed payload sig
      → IsToken token payload sig
  unfolding parse_grant_token
  parse_sound token payload sig h = elim (Option-cases (token_segments token)) [
    | inl malformed ↦ absurd (not-parsed (rw (malformed, parse_grant_token) at h))
    | inr ((head, tail), split) ↦
        let (decoded, same, good) =
          body_sound (node.decode head) tail sig payload (rw (split, parse_grant_token) at h) in
        record {
          head = head;
          split = rw (← same) (token_segments_sound token head tail split);
          decoded = decoded;
          body = good;
        }
  ]
    where
      not-parsed : rejected malformed_structure none ≡ parsed payload sig → ⊥
      not-parsed q = cc

  parse_complete :
      (token : String) (payload : Json) (sig : String)
      → IsToken token payload sig
      → parse_grant_token node token ≡ parsed payload sig
  unfolding parse_grant_token
  parse_complete token payload sig t =
      rw (token_segments_complete token t.head sig t.split, parse_grant_token)
        (rw t.decoded (parse_body_complete payload sig t.body))

  -- The v1 parser accepts a token, with a payload and a signature, exactly when the token is two
  -- full texts without a dot joined by a dot, of which the second is the signature and the first
  -- decodes to the payload, and the payload is an object of version cr.exec.v1 with every signed
  -- field a text, every optional field a text or absent, and no other field.
  pub parse_grant_token-parsed_iff :
      (token : String) (payload : Json) (sig : String)
      → (parse_grant_token node token ≡ parsed payload sig) ↔ IsToken token payload sig
  parse_grant_token-parsed_iff token payload sig =
      (parse_sound token payload sig, parse_complete token payload sig)
