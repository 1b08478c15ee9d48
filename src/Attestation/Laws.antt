-- ===== src/Attestation/Laws.antt =====
-- What an attestation that verifies says, and that the encoding loses nothing
-- (demo/src/atomic.js).
use capability_demo.Prelude.{some-inj}
use capability_demo.Prelude.{
  ◌≡◌, ◌≢◌, refl, sym, ap, ◌∙◌, Bool, true, false, String, ◌==◌, eq_iff, includes, split_on,
  split_on-join, List, [], ◌∷◌, Option, none, some, arith, if◌then◌else◌,
}
use mathlib.Core.Path.{subst}
use capability_demo.Json.{Json}
use capability_demo.Attestation.{
  AttestReason, attest_refused, attest_malformed, malformed_structure,
}
use capability_demo.Runtime.{Node}
use capability_demo.Grant.Profile.{normalize_grant}
use capability_demo.Git.Retention.{is_truthy}
use capability_demo.Prelude.{not, ◌&&◌, ◌||◌, or-eq-false_iff}
use capability_demo.Git.Execute.{gate_preimage_v}
use capability_demo.Attestation.{jti_text, check_fields, preimage_fields}
use capability_demo.Git.Execute.{atomic_attest_v, encode_atomic_execution_attestation}
use capability_demo.Attestation.{
  AttestPayload, AttestVerdict, attest_valid, four_segments, check_bound, bound_answer,
  signed_answer, key_answer, segments_answer, verify_atomic_execution_attestation,
}

-- What a text must be to be a segment.
pub record IsSegment (s : String) : Type 0 where
  pub full : s ≢ ""
  pub plain : includes b'|' s ≡ false

module _ (node : Node) where
  unless-valid :
      (b : Bool) (rest : AttestVerdict) (p : AttestPayload) (r : AttestVerdict)
      → ((q : AttestPayload) → r ≡ attest_valid q → ⊥)
      → (if b then r else rest) ≡ attest_valid p
      → (b ≡ false) × (rest ≡ attest_valid p)
  unless-valid true rest p r n h = absurd (n p h)
  unless-valid false rest p r n h = (refl, h)

  pub test_of_ne : (s t : String) → s ≢ t → (s == t) ≡ false
  test_of_ne s t h = ground (arith, eq_iff s t)

  pub split_encoded :
      (kid preimage sig : String)
      → IsSegment kid
      → IsSegment (node.to_base64url preimage)
      → IsSegment sig
      → split_on b'|' (encode_atomic_execution_attestation node kid preimage sig)
        ≡ atomic_attest_v ∷ kid ∷ node.to_base64url preimage ∷ sig ∷ []
  unfolding encode_atomic_execution_attestation
  split_encoded kid preimage sig k p s =
      split_on-join b'|' _ atomic_attest_v (kid ∷ node.to_base64url preimage ∷ sig ∷ []) refl
        (refl, (k.plain, (p.plain, (s.plain, tt))))

  segments_encoded :
      (kid body sig : String)
      → IsSegment kid
      → IsSegment body
      → IsSegment sig
      → four_segments (atomic_attest_v ∷ kid ∷ body ∷ sig ∷ []) ≡ some (kid, body, sig)
  unfolding four_segments
  segments_encoded kid body sig k b s =
      rw (test_of_ne kid "" k.full, test_of_ne body "" b.full, test_of_ne sig "" s.full) refl

  pub not_empty :
      (kid preimage sig : String)
      → IsSegment kid
      → IsSegment (node.to_base64url preimage)
      → IsSegment sig
      → (encode_atomic_execution_attestation node kid preimage sig == "") ≡ false
  unfolding split_on
  not_empty kid preimage sig k p s =
      test_of_ne _ ""
        (λ e. clash (sym (split_encoded kid preimage sig k p s) ∙ ap (split_on b'|') e))
    where
      clash : {x y z u v : String} → ◌≡◌ {A = List String} (x ∷ y ∷ z ∷ u ∷ []) (v ∷ []) → ⊥
      clash q = cc

  answered :
      (key kid preimage read sig : String) (grant : Option Json)
      → read ≡ preimage
      → node.verify key preimage sig ≡ some true
      → check_bound node grant preimage ≡ none
      → key_answer node
          (some key)
          grant
          (record { executor_kid = kid; preimage = read; signature = sig })
        ≡ attest_valid (record { executor_kid = kid; preimage = preimage; signature = sig })
  unfolding key_answer signed_answer bound_answer
  answered key kid preimage read sig grant back v b = rw back (rw (v, signed_answer) (rw b refl))

  -- An attestation that was encoded for a preimage, with segments that are not empty and hold no
  -- bar, is read back and found valid under the key that verifies its signature, with exactly the
  -- kid, the preimage and the signature that went in, where the preimage is bound to the grant.
  pub verify-encode :
      (key kid preimage sig : String) (grant : Option Json)
      → node.from_base64url (node.to_base64url preimage) ≡ preimage
      → IsSegment kid
      → IsSegment (node.to_base64url preimage)
      → IsSegment sig
      → node.verify key preimage sig ≡ some true
      → check_bound node grant preimage ≡ none
      → verify_atomic_execution_attestation node
          (some key)
          grant
          (encode_atomic_execution_attestation node kid preimage sig)
        ≡ attest_valid (record { executor_kid = kid; preimage = preimage; signature = sig })
  unfolding verify_atomic_execution_attestation
  verify-encode key kid preimage sig grant back k p s v b =
      let token = encode_atomic_execution_attestation node kid preimage sig in
      let segments : four_segments (split_on b'|' token)
          ≡ some (kid, node.to_base64url preimage, sig) =
        ap four_segments (split_encoded kid preimage sig k p s)
        ∙ segments_encoded kid (node.to_base64url preimage) sig k p s in
      rw (not_empty kid preimage sig k p s, segments, segments_answer)
        (answered key kid preimage (node.from_base64url (node.to_base64url preimage)) sig grant back
          v b)

  -- The preimage begins with the version, the jti and the deployment of the intended grant, if one
  -- with a jti is intended.
  abbrev pub NamesGrant : Option Json → String → Type 0
  NamesGrant grant preimage =
      (g : Json)
      → grant ≡ some g
      → (is_truthy (some g) && is_truthy (normalize_grant node g).jti) ≡ true
      → (rest : List String) × (split_on b'|' preimage
          ≡ gate_preimage_v
            ∷ jti_text node (normalize_grant node g).jti
            ∷ (normalize_grant node g).deployment_id
            ∷ rest)

  unless-none :
      (b : Bool) (x : AttestReason) (rest : Option AttestReason)
      → (if b then some x else rest) ≡ none
      → (b ≡ false) × (rest ≡ none)
  unless-none true x rest h = cc
  unless-none false x rest h = (refl, h)

  same_text : (s t : String) → not (s == t) ≡ false → s ≡ t
  same_text s t h = (eq_iff s t).0 (ground arith)

  fields_sound :
      (jti did : String) (parts : List String)
      → check_fields node jti did (preimage_fields parts) ≡ none
      → (rest : List String) × (parts ≡ gate_preimage_v ∷ jti ∷ did ∷ rest)
  unfolding check_fields preimage_fields
  fields_sound jti did [] h = cc
  fields_sound jti did (a ∷ []) h = cc
  fields_sound jti did (a ∷ b ∷ []) h = cc
  fields_sound jti did (a ∷ b ∷ c ∷ rest) h =
      let (m, h₁) = unless-none (not (a == gate_preimage_v) || not (b == jti)) _ _ h in
      let (d, h₂) = unless-none (not (c == did)) _ _ h₁ in
      let (m₁, m₂) = (or-eq-false_iff (not (a == gate_preimage_v)) (not (b == jti))).0 m in
      (rest, begins (same_text a _ m₁) (same_text b _ m₂) (same_text c _ d))
    where
      begins :
          {x y z u v w : String}
          → x ≡ u
          → y ≡ v
          → z ≡ w
          → ◌≡◌ {A = List String} (x ∷ y ∷ z ∷ rest) (u ∷ v ∷ w ∷ rest)
      begins p q r = cc

  NamesGrant-check_bound :
      (grant : Option Json) (preimage : String)
      → check_bound node grant preimage ≡ none
      → NamesGrant grant preimage
  unfolding check_bound
  NamesGrant-check_bound none preimage h g e t = cc
  NamesGrant-check_bound (some g') preimage h g e t =
      let t' : (is_truthy (some g') && is_truthy (normalize_grant node g').jti) ≡ true =
        rw (some-inj e) t in
      rw⁻¹ (some-inj e) (
        fields_sound (jti_text node (normalize_grant node g').jti)
          (normalize_grant node g').deployment_id (split_on b'|' preimage) (rw t' at h))

  -- What stands behind a valid answer: the four segments of the token, and a signature over the
  -- preimage that the given key verifies.
  pub record IsAttested (key : Option String) (grant : Option Json) (token : String)
      (p : AttestPayload) : Type 0 where
    pub body : String
    pub segments :
        split_on b'|' token
        ≡ "cr.atomic.execution.attestation.v1" ∷ p.executor_kid ∷ body ∷ p.signature ∷ []
    pub full : (p.executor_kid ≢ "") × (body ≢ "") × (p.signature ≢ "")
    pub read : node.from_base64url body ≡ p.preimage
    pub pem : String
    pub given : key ≡ some pem
    pub signed : node.verify pem p.preimage p.signature ≡ some true
    pub bound : NamesGrant grant p.preimage

  abbrev pub checked_parts : (version v a b c : String) → Option (String × String × String)
  checked_parts version v a b c =
      if not (v == version) || ((v == "") || ((a == "") || ((b == "") || ((c == "") || false))))
      then none
      else some (a, b, c)

  -- Four parts that pass the checks of a token: the first is the version, and none is empty.
  pub parts_sound :
      (version v a b c kid body sig : String)
      → checked_parts version v a b c ≡ some (kid, body, sig)
      → (◌≡◌ {A = List String} (v ∷ a ∷ b ∷ c ∷ []) (version ∷ kid ∷ body ∷ sig ∷ []))
        × (kid ≢ "")
        × (body ≢ "")
        × (sig ≢ "")
  parts_sound version v a b c kid body sig h =
      let (bad, same) =
        unless-refused
          (not (v == version) || ((v == "") || ((a == "") || ((b == "") || ((c == "") || false)))))
          h in
      let (named, empty) = (or-eq-false_iff _ _).0 bad in
      let (_, e₁) = (or-eq-false_iff _ _).0 empty in
      let (a₁, e₂) = (or-eq-false_iff _ _).0 e₁ in
      let (b₁, e₃) = (or-eq-false_iff _ _).0 e₂ in
      let (c₁, _) = (or-eq-false_iff _ _).0 e₃ in
      let p : a ≡ kid = ap (λ (x : String × String × String). x.0) (some-inj same) in
      let q : b ≡ body = ap (λ (x : String × String × String). x.1) (some-inj same) in
      let r : c ≡ sig = ap (λ (x : String × String × String). x.2) (some-inj same) in
      (
        four (same_text v version named) p q r,
        full_as a kid p a₁,
        full_as b body q b₁,
        full_as c sig r c₁,
      )
    where
      unless-refused :
          (t : Bool) {x : Option (String × String × String)}
          → (if t then none else x) ≡ some (kid, body, sig)
          → (t ≡ false) × (x ≡ some (kid, body, sig))
      unless-refused true e = cc
      unless-refused false e = (refl, e)

      full_as : (s t : String) → s ≡ t → (s == "") ≡ false → t ≢ ""
      full_as s t e f g = let none_left : (s == "") ≡ true = (eq_iff s "").1 (e ∙ g) in cc

      four :
          {x y z w x' y' z' w' : String}
          → x ≡ x'
          → y ≡ y'
          → z ≡ z'
          → w ≡ w'
          → ◌≡◌ {A = List String} (x ∷ y ∷ z ∷ w ∷ []) (x' ∷ y' ∷ z' ∷ w' ∷ [])
      four e f g h = cc

  four_segments_sound :
      (parts : List String) (kid body sig : String)
      → four_segments parts ≡ some (kid, body, sig)
      → (parts ≡ "cr.atomic.execution.attestation.v1" ∷ kid ∷ body ∷ sig ∷ [])
        × (kid ≢ "")
        × (body ≢ "")
        × (sig ≢ "")
  unfolding four_segments
  four_segments_sound [] kid body sig h = cc
  four_segments_sound (v ∷ []) kid body sig h = cc
  four_segments_sound (v ∷ a ∷ []) kid body sig h = cc
  four_segments_sound (v ∷ a ∷ b ∷ []) kid body sig h = cc
  four_segments_sound (v ∷ a ∷ b ∷ c ∷ []) kid body sig h =
      parts_sound atomic_attest_v v a b c kid body sig h
  four_segments_sound (v ∷ a ∷ b ∷ c ∷ d ∷ rest) kid body sig h = cc

  bound_sound :
      (r : Option AttestReason) (p q : AttestPayload)
      → bound_answer node r p ≡ attest_valid q
      → (r ≡ none) × (p ≡ q)
  unfolding bound_answer
  bound_sound none p q h = (refl, valid-injective h)
    where
      valid-injective : attest_valid p ≡ attest_valid q → p ≡ q
      valid-injective e = cc
  bound_sound (some r) p q h = cc

  signed_sound :
      (v : Option Bool) (grant : Option Json) (p q : AttestPayload)
      → signed_answer node v grant p ≡ attest_valid q
      → (v ≡ some true) × (check_bound node grant p.preimage ≡ none) × (p ≡ q)
  unfolding signed_answer
  signed_sound none grant p q h = cc
  signed_sound (some false) grant p q h = cc
  signed_sound (some true) grant p q h =
      let (b, e) = bound_sound (check_bound node grant p.preimage) p q h in (refl, b, e)

  key_sound :
      (key : Option String) (grant : Option Json) (p q : AttestPayload)
      → key_answer node key grant p ≡ attest_valid q
      → (pem : String) × (key ≡ some pem)
        × (node.verify pem p.preimage p.signature ≡ some true)
        × (check_bound node grant p.preimage ≡ none)
        × (p ≡ q)
  unfolding key_answer
  key_sound none grant p q h = cc
  key_sound (some pem) grant p q h =
      let (v, b, e) = signed_sound (node.verify pem p.preimage p.signature) grant p q h in
      (pem, refl, v, b, e)

  segments_sound :
      (key : Option String) (grant : Option Json) (token : String)
      (o : Option (String × String × String)) (q : AttestPayload)
      → four_segments (split_on b'|' token) ≡ o
      → segments_answer node key grant o ≡ attest_valid q
      → IsAttested key grant token q
  unfolding segments_answer
  segments_sound key grant token none q e h = cc
  segments_sound key grant token (some (kid, body, sig)) q e h =
      let (pem, given, signed, bound, same) = key_sound key grant _ q h in
      let (parts, full_kid, full_body, full_sig) =
        four_segments_sound (split_on b'|' token) kid body sig e in
      subst (IsAttested key grant token) same (record {
        body = body;
        segments = parts;
        full = (full_kid, full_body, full_sig);
        read = refl;
        pem = pem;
        given = given;
        signed = signed;
        bound = NamesGrant-check_bound grant _ bound;
      })

  -- A valid answer is given only to a token of four segments that begins with the version, whose
  -- preimage the given key signed, and whose preimage names the intended grant and its deployment,
  -- where one with a jti is intended.
  pub verify-valid-IsAttested :
      (key : Option String) (grant : Option Json) (token : String) (p : AttestPayload)
      → verify_atomic_execution_attestation node key grant token ≡ attest_valid p
      → IsAttested key grant token p
  unfolding verify_atomic_execution_attestation
  verify-valid-IsAttested key grant token p h =
      let (n, h₁) =
        unless-valid (token == "") _ p (attest_refused attest_malformed malformed_structure)
          (λ q e. cc) h in
      segments_sound key grant token (four_segments (split_on b'|' token)) p refl h₁
