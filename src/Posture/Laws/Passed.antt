-- ===== src/Posture/Laws/Passed.antt =====
-- What stands behind a receipt that passes (demo/src/posture.js).
use mathlib.Core.Path.{subst}
use capability_demo.Prelude.{
  ℤ, ◌≡◌, refl, sym, ap, ◌∙◌, Bool, true, false, String, ◌==◌, split_on, Option, none, some,
  Bool-cases, inl, inr,
}
use capability_demo.Json.{Json, get, is_text, str, is_text_iff}
use capability_demo.Runtime.{Node}
use capability_demo.Reconcile.Keyring.{
  Manifest, KeyEntry, KeyWindow, inside, non_finite_key_window, outside_key_window,
  check_key_window, text_of_any,
}
use capability_demo.Prelude.{◌⊎◌, ◌≢◌, List, [], ◌∷◌, trim, Option-cases}
use capability_demo.Attestation.Laws.{parts_sound}
use capability_demo.Reconcile.Laws.Keys.{IsEntryFor, resolve_key_manifest_sound}
use capability_demo.Posture.Receipt.{
  posture_v, key_or_throw, pem_read, posture_pass, posture_fail, posture_refused, posture_thrown,
  PostureReason, malformed_structure, KeyRead, has_key, lacks_key, throws_key, key_given,
  posture_segments, public_key_from_entry, measured_at, graded_payload, windowed, check_window,
  check_parsed, check_signed, check_key, check_resolved, check_segments, verify_posture_receipt,
}

refused : (r : PostureReason) (p : Json) → posture_refused r ≡ posture_pass p → ⊥
refused r p h = cc

thrown : (p : Json) → posture_thrown ≡ posture_pass p → ⊥
thrown p h = cc

module _ (node : Node) where
  -- The window of the key that a manifest names contains the time of the measurement.
  abbrev pub IsInWindow : Option KeyEntry → Option ℤ → Json → Type 0
  IsInWindow none leeway payload = Unit
  IsInWindow (some entry) leeway payload =
      check_key_window node (text_of_any node (measured_at node payload)) entry.valid_from
        entry.valid_until leeway
      ≡ inside

  -- The key of an entry: its key object, or the key that its PEM text holds.
  abbrev pub IsKeyOf : KeyEntry → String → Type 0
  IsKeyOf e key =
      (e.public_key ≡ some key)
      ⊎ ((pem : String) × (e.public_key ≡ none)
          × (e.public_key_pem ≡ some pem)
          × (node.create_public_key pem ≡ some key))

  -- The key: that of the manifest's entry for the kid, or the one that is given.
  abbrev pub IsKey : Option String → Option Manifest → String → Option KeyEntry → String → Type 0
  IsKey public_key none kid entry key = (entry ≡ none) × (public_key ≡ some key)
  IsKey public_key (some keys) kid entry key =
      (e : KeyEntry) × (entry ≡ some e) × IsEntryFor keys kid e × IsKeyOf e key

  pub record IsReceipt (token : String) (public_key : Option String) (manifest : Option Manifest)
      (leeway : Option ℤ) (payload : Json) : Type 0 where
    pub kid : String
    pub body : String
    pub sig : String
    pub segments : split_on b'|' token ≡ "cr.posture.receipt.v1" ∷ kid ∷ body ∷ sig ∷ []
    pub full : (kid ≢ "") × (body ≢ "") × (sig ≢ "")
    pub entry : Option KeyEntry
    pub key : String
    pub keyed : IsKey public_key manifest kid entry key
    pub signed : node.verify key (node.from_base64url body) sig ≡ some true
    pub parsed : node.parse (node.from_base64url body) ≡ some payload
    pub measured : IsInWindow entry leeway payload
    pub verdict : get "verdict" payload ≡ some (str "PASS")

  graded_sound :
      (payload p : Json)
      → graded_payload node payload ≡ posture_pass p
      → (payload ≡ p) × (is_text (get "verdict" payload) "PASS" ≡ true)
  unfolding graded_payload
  graded_sound payload p h = elim (Bool-cases (is_text (get "verdict" payload) "PASS")) [
    | inl e ↦ (injective (rw e at h), e)
    | inr e ↦ absurd (failed (rw e at h))
  ]
    where
      injective : posture_pass payload ≡ posture_pass p → payload ≡ p
      injective h = cc

      failed : posture_fail payload ≡ posture_pass p → ⊥
      failed h = cc

  windowed_sound :
      (payload p : Json) (w : KeyWindow)
      → windowed node payload w ≡ posture_pass p
      → (w ≡ inside) × (graded_payload node payload ≡ posture_pass p)
  unfolding graded_payload windowed
  windowed_sound payload p inside h = (refl, h)
  windowed_sound payload p non_finite_key_window h = absurd (refused _ p h)
  windowed_sound payload p outside_key_window h = absurd (refused _ p h)

  window_sound :
      (entry : Option KeyEntry) (leeway : Option ℤ) (payload p : Json)
      → check_window node entry leeway payload ≡ posture_pass p
      → IsInWindow entry leeway payload × (graded_payload node payload ≡ posture_pass p)
  unfolding check_window
  window_sound none leeway payload p h = (tt, h)
  window_sound (some entry) leeway payload p h = windowed_sound payload p _ h

  parsed_sound :
      (entry : Option KeyEntry) (leeway : Option ℤ) (o : Option Json) (p : Json)
      → check_parsed node entry leeway o ≡ posture_pass p
      → (o ≡ some p) × IsInWindow entry leeway p × (get "verdict" p ≡ some (str "PASS"))
  unfolding check_parsed
  parsed_sound entry leeway none p h = absurd (refused _ p h)
  parsed_sound entry leeway (some payload) p h =
      let (within, graded) = window_sound entry leeway payload p h in
      let (same, passed) = graded_sound payload p graded in
      (
        ap some same,
        subst (IsInWindow entry leeway) same within,
        sym (ap (get "verdict") same) ∙ (is_text_iff _ "PASS").0 passed,
      )

  signed_sound :
      (entry : Option KeyEntry) (leeway : Option ℤ) (preimage : String) (o : Option Bool) (p : Json)
      → check_signed node entry leeway preimage o ≡ posture_pass p
      → (o ≡ some true) × (check_parsed node entry leeway (node.parse preimage) ≡ posture_pass p)
  unfolding check_signed
  signed_sound entry leeway preimage none p h = absurd (refused _ p h)
  signed_sound entry leeway preimage (some false) p h = absurd (refused _ p h)
  signed_sound entry leeway preimage (some true) p h = (refl, h)

  key_sound :
      (entry : Option KeyEntry) (leeway : Option ℤ) (preimage sig : String) (k : KeyRead) (p : Json)
      → check_key node entry leeway preimage sig k ≡ posture_pass p
      → (key : String) × (k ≡ has_key key)
        × (node.verify key preimage sig ≡ some true)
        × (node.parse preimage ≡ some p)
        × IsInWindow entry leeway p
        × (get "verdict" p ≡ some (str "PASS"))
  unfolding check_key
  key_sound entry leeway preimage sig throws_key p h = absurd (thrown p h)
  key_sound entry leeway preimage sig lacks_key p h = absurd (refused _ p h)
  key_sound entry leeway preimage sig (has_key key) p h =
      let (signed, h₁) = signed_sound entry leeway preimage _ p h in
      let (parsed, within, verdict) = parsed_sound entry leeway _ p h₁ in
      (key, refl, signed, parsed, within, verdict)

  resolved_sound :
      (o : Option KeyEntry) (leeway : Option ℤ) (preimage sig : String) (p : Json)
      → check_resolved node o leeway preimage sig ≡ posture_pass p
      → (e : KeyEntry) × (o ≡ some e)
        × (check_key node (some e) leeway preimage sig (public_key_from_entry node e)
            ≡ posture_pass p)
  unfolding check_resolved
  resolved_sound none leeway preimage sig p h = absurd (refused _ p h)
  resolved_sound (some e) leeway preimage sig p h = (e, refl, h)

  given_sound : (o : Option String) (key : String) → key_given o ≡ has_key key → o ≡ some key
  given_sound none key h = cc
  given_sound (some k) key h = cc

  posture_segments_sound :
      (parts : List String) (kid body sig : String)
      → posture_segments parts ≡ some (kid, body, sig)
      → (parts ≡ "cr.posture.receipt.v1" ∷ kid ∷ body ∷ sig ∷ [])
        × (kid ≢ "")
        × (body ≢ "")
        × (sig ≢ "")
  unfolding posture_segments
  posture_segments_sound [] kid body sig h = cc
  posture_segments_sound (v ∷ []) kid body sig h = cc
  posture_segments_sound (v ∷ a ∷ []) kid body sig h = cc
  posture_segments_sound (v ∷ a ∷ b ∷ []) kid body sig h = cc
  posture_segments_sound (v ∷ a ∷ b ∷ c ∷ []) kid body sig h =
      parts_sound node posture_v v a b c kid body sig h
  posture_segments_sound (v ∷ a ∷ b ∷ c ∷ d ∷ rest) kid body sig h = cc

  created : (o : Option String) (key : String) → key_or_throw o ≡ has_key key → o ≡ some key
  created none key h = cc
  created (some k) key h = cc

  pem_key_sound :
      (o : Option String) (key : String)
      → pem_read node o ≡ has_key key
      → (pem : String) × (o ≡ some pem) × (node.create_public_key pem ≡ some key)
  pem_key_sound none key h = cc
  pem_key_sound (some pem) key h = elim (Bool-cases (trim pem == "")) [
    | inl e ↦ absurd (lacks (rw e at h))
    | inr e ↦ (pem, refl, created (node.create_public_key pem) key (rw e at h))
  ]
    where
      lacks : lacks_key ≡ has_key key → ⊥
      lacks e = cc

  entry_key :
      (e : KeyEntry) (key : String) → public_key_from_entry node e ≡ has_key key → IsKeyOf e key
  unfolding public_key_from_entry
  entry_key e key h = elim (Option-cases e.public_key) [
    | inr (k, f) ↦ inl (f ∙ same (rw (f, public_key_from_entry) at h))
    | inl f ↦
        let (pem, g, c) = pem_key_sound e.public_key_pem key (rw (f, public_key_from_entry) at h) in
        inr (pem, f, g, c)
  ]
    where
      same : {k : String} → has_key k ≡ has_key key → some k ≡ some key
      same q = cc

  segments_sound :
      (token : String) (public_key : Option String) (manifest : Option Manifest) (leeway : Option ℤ)
      (o : Option (String × String × String)) (p : Json)
      → posture_segments (split_on b'|' token) ≡ o
      → check_segments node public_key manifest leeway o ≡ posture_pass p
      → IsReceipt token public_key manifest leeway p
  unfolding check_segments
  segments_sound token public_key manifest leeway none p e h = absurd (refused _ p h)
  segments_sound token public_key none leeway (some (kid, body, sig)) p e h =
      let (key, read, signed, parsed, within, verdict) = key_sound none leeway _ sig _ p h in
      record {
        kid = kid;
        body = body;
        sig = sig;
        segments = (posture_segments_sound (split_on b'|' token) kid body sig e).0;
        full =
            let (_, k, b, s) = posture_segments_sound (split_on b'|' token) kid body sig e in
            (k, b, s);
        entry = none;
        key = key;
        keyed = (refl, given_sound public_key key read);
        signed = signed;
        parsed = parsed;
        measured = within;
        verdict = verdict;
      }
  segments_sound token public_key (some keys) leeway (some (kid, body, sig)) p e h =
      let (entry, found, h₁) = resolved_sound _ leeway _ sig p h in
      let (key, read, signed, parsed, within, verdict) =
        key_sound (some entry) leeway _ sig _ p h₁ in
      record {
        kid = kid;
        body = body;
        sig = sig;
        segments = (posture_segments_sound (split_on b'|' token) kid body sig e).0;
        full =
            let (_, k, b, s) = posture_segments_sound (split_on b'|' token) kid body sig e in
            (k, b, s);
        entry = some entry;
        key = key;
        keyed = (
          entry,
          refl,
          resolve_key_manifest_sound keys kid entry found,
          entry_key entry key read,
        );
        signed = signed;
        parsed = parsed;
        measured = within;
        verdict = verdict;
      }

  -- A receipt passes only if it has four full segments that begin with the version, the key signed
  -- its body (the key of the manifest's first entry for its kid, where a manifest is given, and
  -- otherwise the given key), the body is JSON with the verdict PASS, and the window of the entry contains the
  -- time of the measurement that was signed.
  pub verify_posture_receipt-IsReceipt :
      (token : String) (public_key : Option String) (manifest : Option Manifest) (leeway : Option ℤ)
      (payload : Json)
      → verify_posture_receipt node token public_key manifest leeway ≡ posture_pass payload
      → IsReceipt token public_key manifest leeway payload
  unfolding verify_posture_receipt
  verify_posture_receipt-IsReceipt token public_key manifest leeway payload h =
      elim (Bool-cases (token == "")) [
        | inl e ↦ absurd (refused malformed_structure payload (rw e at h))
        | inr e ↦
            segments_sound token public_key manifest leeway (posture_segments (split_on b'|' token))
              payload refl (rw e at h)
      ]
