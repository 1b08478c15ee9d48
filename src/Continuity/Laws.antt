-- ===== src/Continuity/Laws.antt =====
-- When a transcript counts as one authorization (demo/src/authorization-continuity.js).
use capability_demo.Prelude.{
  ◌≡◌, ◌≢◌, ◌↔◌, refl, ap, Bool, true, false, not, ◌&&◌, String, ◌==◌, eq_iff, eq_refl, Option,
  none, some, some-inj, arith, Bool-cases, inl, inr, if◌then◌else◌,
}
use capability_demo.Continuity.{
  Break, Transcript, Identities, identities_of, breaks, scopes_differ, checked, conclude,
  assess_continuity,
}

-- One grant: the issued jti is what was consumed and what the attestation binds, and where both
-- the correlation and the issuance state a scope hash, it is the same.
pub record IsOneGrant (t : Transcript) : Type 0 where
  pub jti : String
  pub named : jti ≢ ""
  pub issued : (identities_of t).issued_jti ≡ some jti
  pub consumed : t.consumed_jti ≡ some jti
  pub attested : t.attestation_jti ≡ some jti
  pub scoped :
      (c i : String)
      → (identities_of t).correlation_scope_hash ≡ some c
      → (identities_of t).issued_scope_hash ≡ some i
      → i ≢ ""
      → c ≡ i

breaks_iff : (got : Option String) (want : String) → (breaks got want ≡ false) ↔ (got ≡ some want)
breaks_iff none want = (λ h. cc, λ h. cc)
breaks_iff (some got) want = (
  λ h. ap some ((eq_iff got want).0 (ground arith)),
  λ h. rw (some-inj h) (rw (eq_refl want) refl),
)

differ_sound :
    (c i : Option String)
    → scopes_differ c i ≡ false
    → (a b : String) → c ≡ some a
    → i ≡ some b
    → b ≢ ""
    → a ≡ b
differ_sound none i h a b p q n = cc
differ_sound (some x) none h a b p q n = cc
differ_sound (some x) (some y) h a b p q n = go x y h (some-inj p) (some-inj q)
  where
    go : (x y : String) → (not (y == "") && not (x == y)) ≡ false → x ≡ a → y ≡ b → a ≡ b
    go x y h p q = ground (arith, eq_iff x y, eq_iff y "")

differ_complete :
    (c i : Option String)
    → ((a b : String) → c ≡ some a → i ≡ some b → b ≢ "" → a ≡ b)
    → scopes_differ c i ≡ false
differ_complete none i h = refl
differ_complete (some x) none h = refl
differ_complete (some x) (some y) h = elim (Bool-cases (y == "")) [
  | inl empty ↦ rw empty refl
  | inr full ↦
      let same : x ≡ y = h x y refl refl (λ e. ground (arith, eq_iff y "")) in
      rw (same, eq_refl y) (ground arith)
]

unless :
    (b : Bool) (x : Break) (rest : Option Break)
    → (if b then some x else rest) ≡ none
    → (b ≡ false) × (rest ≡ none)
unless true x rest h = cc
unless false x rest h = (refl, h)

conclude_iff :
    (ids : Identities) (b : Option Break) → ((conclude ids b).continuous ≡ true) ↔ (b ≡ none)
unfolding conclude
conclude_iff ids none = (λ h. refl, λ h. refl)
conclude_iff ids (some b) = (λ h. cc, λ h. cc)

checked_sound :
    (t : Transcript) (issued : Option String)
    → (identities_of t).issued_jti ≡ issued
    → checked t (identities_of t) issued ≡ none
    → IsOneGrant t
unfolding checked
checked_sound t none e h = cc
checked_sound t (some jti) e h =
    let (n, h₁) = unless (jti == "") _ _ h in
    let (c, h₂) = unless (breaks t.consumed_jti jti) _ _ h₁ in
    let (a, h₃) = unless (breaks t.attestation_jti jti) _ _ h₂ in
    let (s, h₄) =
      unless
        (scopes_differ (identities_of t).correlation_scope_hash (identities_of t).issued_scope_hash)
        _ _ h₃ in
    record {
      jti = jti;
      named = λ z. ground (arith, eq_iff jti "");
      issued = e;
      consumed = (breaks_iff t.consumed_jti jti).0 c;
      attested = (breaks_iff t.attestation_jti jti).0 a;
      scoped =
          differ_sound (identities_of t).correlation_scope_hash (identities_of t).issued_scope_hash
            s;
    }

checked_complete :
    (t : Transcript)
    → IsOneGrant t
    → checked t (identities_of t) (identities_of t).issued_jti ≡ none
unfolding checked
checked_complete t g =
    let named : (g.jti == "") ≡ false = test_of_ne g.jti "" g.named in
    rw (g.issued, checked)
      (rw
        (
          named,
          (breaks_iff t.consumed_jti g.jti).1 g.consumed,
          (breaks_iff t.attestation_jti g.jti).1 g.attested,
          differ_complete (identities_of t).correlation_scope_hash
              (identities_of t).issued_scope_hash g.scoped,
        )
        refl)
  where
    test_of_ne : (s t : String) → s ≢ t → (s == t) ≡ false
    test_of_ne s t h = ground (arith, eq_iff s t)

-- A transcript is continuous exactly if it is of one grant.
pub assess_continuity-continuous_iff :
    (t : Transcript) → ((assess_continuity t).continuous ≡ true) ↔ IsOneGrant t
unfolding assess_continuity
assess_continuity-continuous_iff t = (
  λ h. checked_sound t (identities_of t).issued_jti refl ((conclude_iff (identities_of t) _).0 h),
  λ g. (conclude_iff (identities_of t) _).1 (checked_complete t g),
)
