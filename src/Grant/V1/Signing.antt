-- ===== src/Grant/V1/Signing.antt =====
-- What the v1 signature covers.
use capability_demo.Prelude.{
  ◌≡◌, inl, inr, refl, ap, true, false, String, ◌==◌, eq_iff, ◌++◌, Option, none, some, All, arith,
  Bool-cases, includes, join, join-injective,
}
use capability_demo.Json.{Json, str, get, is_string, is_optional_string}
use capability_demo.Runtime.{Node, scalar}
use capability_demo.Grant.V1.{
  signed_fields, optional_signed_fields, has_delimiter, slot, signing_parts, signing_input,
}
use capability_demo.Grant.V1.Parsing.{IsGrantBody}
use capability_demo.Grant.V1.Acceptance.{IsUndelimited}

module _ (node : Node) where
  -- A field that is a text or absent, and without a bar, is signed as a part without a bar.
  scalar-plain :
      (v : Option Json)
      → is_optional_string v ≡ true
      → has_delimiter v ≡ false
      → includes b'|' (scalar node v) ≡ false
  unfolding scalar
  scalar-plain none h k = refl
  scalar-plain (some (str s)) h k = ground arith
  scalar-plain (some Json.null) h k = cc
  scalar-plain (some (Json.bool b)) h k = cc
  scalar-plain (some (Json.int n)) h k = cc
  scalar-plain (some (Json.frac s)) h k = cc
  scalar-plain (some (Json.arr xs)) h k = cc
  scalar-plain (some (Json.obj fs)) h k = cc

  slots-plain :
      (s t : String)
      → includes b'|' s ≡ false
      → includes b'|' t ≡ false
      → All (λ x. includes b'|' x ≡ false) (slot s ++ slot t)
  slots-plain s t h k = elim (Bool-cases (s == "")) [
    | inl e ↦ elim (Bool-cases (t == "")) [ inl f ↦ rw (e, f) tt | inr f ↦ rw (e, f) (k, tt) ]
    | inr e ↦ elim (Bool-cases (t == "")) [
      | inl f ↦ rw (e, f) (h, tt)
      | inr f ↦ rw (e, f) (h, (k, tt))
    ]
  ]

  optional_of_string : (v : Option Json) → is_string v ≡ true → is_optional_string v ≡ true
  optional_of_string none h = refl
  optional_of_string (some v) h = h

  parts-plain :
      (body : Json)
      → IsGrantBody body
      → IsUndelimited body
      → All (λ x. includes b'|' x ≡ false) (signing_parts node body)
  unfolding signing_parts
  parts-plain body b u =
      let (s₁, (s₂, (s₃, (s₄, (s₅, (s₆, (s₇, (s₈, (s₉, _))))))))) = b.signed in
      let (u₁, (u₂, (u₃, (u₄, (u₅, (u₆, (u₇, (u₈, (u₉, (u₁₀, (u₁₁, _))))))))))) = u in
      let part =
        λ (k : String) (h : is_string (get k body) ≡ true) (n : has_delimiter (get k body) ≡ false).
          scalar-plain (get k body) (optional_of_string (get k body) h) n in
      (
        refl,
        (
          part "kid" s₁ u₁,
          (
            part "receipt_digest" s₂ u₂,
            (
              part "scope_hash" s₃ u₃,
              (
                part "audience" s₄ u₄,
                (
                  part "operation" s₅ u₅,
                  (
                    part "target_id" s₆ u₆,
                    (
                      part "jti" s₇ u₇,
                      (
                        part "iat" s₈ u₈,
                        (
                          part "exp" s₉ u₉,
                          slots-plain (scalar node (get "state_nonce" body))
                              (scalar node (get "deployment_id" body))
                              (scalar-plain (get "state_nonce" body) b.optional.0 u₁₀)
                              (scalar-plain (get "deployment_id" body) b.optional.1.0 u₁₁),
                        ),
                      ),
                    ),
                  ),
                ),
              ),
            ),
          ),
        ),
      )

  parts-injective :
      (p q : Json)
      → IsGrantBody p
      → IsUndelimited p
      → IsGrantBody q
      → IsUndelimited q
      → signing_input node p ≡ signing_input node q
      → signing_parts node p ≡ signing_parts node q
  unfolding signing_input signing_parts
  parts-injective p q bp up bq uq e =
      join-injective b'|' "|" _ _ _ _ refl (parts-plain p bp up) (parts-plain q bq uq) e

  -- Two texts fill a slot alike.
  abbrev pub SameSlot : Option Json → Option Json → Type 0
  SameSlot v w = (scalar node v == "") ≡ (scalar node w == "")

  slots-injective :
      (s t s' t' : String)
      → (s == "") ≡ (s' == "")
      → (t == "") ≡ (t' == "")
      → slot s ++ slot t ≡ slot s' ++ slot t'
      → (s ≡ s') × (t ≡ t')
  slots-injective s t s' t' p q e =
      ground (arith, eq_iff s "", eq_iff t "", eq_iff s' "", eq_iff t' "")

  -- Between payloads with the same optional slots filled, the signing input determines every
  -- signed field: equal inputs, equal fields.
  pub signing_input-injective :
      (p q : Json)
      → IsGrantBody p
      → IsUndelimited p
      → IsGrantBody q
      → IsUndelimited q
      → SameSlot (get "state_nonce" p) (get "state_nonce" q)
      → SameSlot (get "deployment_id" p) (get "deployment_id" q)
      → signing_input node p ≡ signing_input node q
      → All
          (λ k. scalar node (get k p) ≡ scalar node (get k q))
          (signed_fields ++ optional_signed_fields)
  unfolding signing_parts
  signing_input-injective p q bp up bq uq n d e =
      let same = parts-injective p q bp up bq uq e in
      let (nonces, deployments) =
        slots-injective (scalar node (get "state_nonce" p)) (scalar node (get "deployment_id" p))
          (scalar node (get "state_nonce" q)) (scalar node (get "deployment_id" q)) n d (cc) in
      (cc, (cc, (cc, (cc, (cc, (cc, (cc, (cc, (cc, (nonces, (deployments, tt)))))))))))

  moved_slots :
      (p q : Json) (d : String)
      → get "state_nonce" p ≡ none
      → get "deployment_id" p ≡ some (str d)
      → get "state_nonce" q ≡ some (str d)
      → get "deployment_id" q ≡ none
      → slot (scalar node (get "state_nonce" p)) ++ slot (scalar node (get "deployment_id" p))
        ≡ slot (scalar node (get "state_nonce" q)) ++ slot (scalar node (get "deployment_id" q))
  unfolding scalar
  moved_slots p q d np dp nq dq = rw (np, dp, nq, dq) (ground arith)

  -- The signature does not cover which of the two optional slots is filled.
  pub moved_slot :
      (p q : Json) (d : String)
      → All (λ k. get k p ≡ get k q) signed_fields
      → get "state_nonce" p ≡ none
      → get "deployment_id" p ≡ some (str d)
      → get "state_nonce" q ≡ some (str d)
      → get "deployment_id" q ≡ none
      → signing_input node p ≡ signing_input node q
  unfolding signing_input signing_parts
  moved_slot p q d (e₁, (e₂, (e₃, (e₄, (e₅, (e₆, (e₇, (e₈, (e₉, _))))))))) np dp nq dq =
      let tails = moved_slots p q d np dp nq dq in
      ap (join "|") {x = signing_parts node p} {y = signing_parts node q} (cc)
