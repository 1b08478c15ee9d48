-- ===== src/Reconcile/Laws/Proven.antt =====
-- What stands behind an attestation that is accepted (demo/src/reconcile.js).
use capability_demo.Prelude.{
  ◌≡◌, refl, Bool, true, false, String, ◌==◌, split_on, Option, none, some, Bool-cases, inl, inr,
}
use capability_demo.Prelude.{sym, ap, ◌∙◌, [], ◌∷◌, eq_iff, some-inj, Option-cases}
use capability_demo.Json.{Json, null, bool, int, frac, str, arr, obj}
use capability_demo.Runtime.{Node}
use capability_demo.Attestation.{
  AttestVerdict, AttestPayload, attest_valid, attest_refused, verify_atomic_execution_attestation,
}
use capability_demo.Attestation.Laws.{IsAttested, verify-valid-IsAttested}
use capability_demo.Reconcile.Keyring.{
  Manifest, KeyEntry, Force, in_force, unknown_status, out_of_window, resolve_key_manifest,
  key_in_force, public_key_of,
}
use capability_demo.Reconcile.Laws.Keys.{
  IsEntryFor, resolve_key_manifest_sound, IsInForce, key_in_force_sound,
}
use capability_demo.Reconcile.Stored.{
  Expected, exact, git_ref, git_ref_of_target, same_field, second_of_four, expected_value,
  matches_target, check_signed, compare_target, fifth, StoredCheck, StoredQuery, proven, doubtful,
  kid_of, intended_grant, judge_target, judge_verdict, as_of_or_now, check_with_key, check_in_force,
  check_entry, check_kid, verify_stored_attestation,
}

-- The target that was signed is the one that the caller knows, or the git target of its ref.
abbrev pub Names : Expected → String → Type 0
Names (exact v) signed = signed ≡ v
Names (git_ref v) signed = git_ref_of_target signed ≡ some v

same_field_sound : (a : Option String) (v : String) → same_field a (some v) ≡ true → a ≡ some v
same_field_sound none v h = cc
same_field_sound (some s) v h = ap some ((eq_iff s v).0 h)

matches_target_sound :
    (e : Expected) (signed : String) → matches_target e signed ≡ true → Names e signed
unfolding matches_target
matches_target_sound (exact v) signed h = (eq_iff signed v).0 h
matches_target_sound (git_ref v) signed h = same_field_sound (git_ref_of_target signed) v h

-- The preimage names the target that the caller knows.
unfoldable pub IsForTarget : Option Expected → String → Type 0
unfolding split_on
IsForTarget none preimage = Unit
IsForTarget (some e) preimage =
    (expected_value e == "") ≡ false
    → (signed : String) × (fifth (split_on b'|' preimage) ≡ some signed) × Names e signed

abbrev pub accepts : StoredCheck → Bool
accepts (proven _ _ _) = true
accepts (doubtful _) = false

no_accept : false ≡ true → ⊥
no_accept h = cc

module _ (node : Node) where
  -- The token is a text whose kid names a key of the manifest, which was in force; with it the
  -- token is an attestation of the grant that is asked about, for the target that is asked about.
  pub record IsProven (keys : Option Manifest) (q : StoredQuery) : Type 0 where
    pub manifest : Manifest
    pub has_keys : keys ≡ some manifest
    pub token : String
    pub kid : String
    pub read : q.token ≡ some (str token)
    pub entry : KeyEntry
    pub found : IsEntryFor manifest kid entry
    pub force : IsInForce node entry (as_of_or_now node q.as_of)
    pub key : String
    pub usable : public_key_of node entry ≡ some key
    pub payload : AttestPayload
    pub attested :
        IsAttested node (some key) (some (intended_grant q.jti q.deployment_id)) token payload
    pub named : payload.executor_kid ≡ kid
    pub target : IsForTarget q.expected payload.preimage

  signed_target :
      (kid preimage : String) (e : Expected) (o : Option String)
      → accepts (judge_target kid preimage (check_signed e o)) ≡ true
      → (signed : String) × (o ≡ some signed) × Names e signed
  unfolding check_signed
  signed_target kid preimage e none h = absurd (no_accept h)
  signed_target kid preimage e (some signed) h = elim (Bool-cases (signed == "")) [
    | inl b ↦ let shut : false ≡ true = rw b at h in cc
    | inr b ↦ elim (Bool-cases (matches_target e signed)) [
      | inl m ↦ (signed, refl, matches_target_sound e signed m)
      | inr m ↦ let shut : false ≡ true = rw (b, m) at h in cc
    ]
  ]

  judge_target-IsForTarget :
      (kid preimage : String) (expected : Option Expected)
      → accepts (judge_target kid preimage (compare_target preimage expected)) ≡ true
      → IsForTarget expected preimage
  unfolding compare_target IsForTarget
  judge_target-IsForTarget kid preimage none h = tt
  judge_target-IsForTarget kid preimage (some e) h =
      λ full. signed_target kid preimage e (fifth (split_on b'|' preimage)) (rw full at h)

  verdict_sound :
      (kid : String) (expected : Option Expected) (v : AttestVerdict)
      → accepts (judge_verdict kid expected v) ≡ true
      → (p : AttestPayload) × (v ≡ attest_valid p) × IsForTarget expected p.preimage
  unfolding judge_verdict
  verdict_sound kid expected (attest_valid p) h =
      (p, refl, judge_target-IsForTarget kid p.preimage expected h)
  verdict_sound kid expected (attest_refused status reason) h = absurd (no_accept h)

  key_sound :
      (q : StoredQuery) (token kid : String) (r : Option String)
      → accepts (check_with_key node q token kid r) ≡ true
      → (key : String) × (p : AttestPayload) × (r ≡ some key)
        × (verify_atomic_execution_attestation node
              (some key)
              (some (intended_grant q.jti q.deployment_id))
              token
            ≡ attest_valid p)
        × IsForTarget q.expected p.preimage
  unfolding check_with_key
  key_sound q token kid none h = absurd (no_accept h)
  key_sound q token kid (some key) h =
      let (p, valid, target) = verdict_sound kid q.expected _ h in (key, p, refl, valid, target)

  force_sound :
      (q : StoredQuery) (token kid : String) (entry : KeyEntry) (f : Force)
      → accepts (check_in_force node q token kid entry f) ≡ true
      → (f ≡ in_force)
        × (accepts (check_with_key node q token kid (public_key_of node entry)) ≡ true)
  unfolding check_in_force
  force_sound q token kid entry in_force h = (refl, h)
  force_sound q token kid entry unknown_status h = absurd (no_accept h)
  force_sound q token kid entry (out_of_window w) h = absurd (no_accept h)

  entry_sound :
      (q : StoredQuery) (token kid : String) (o : Option KeyEntry)
      → accepts (check_entry node q token kid o) ≡ true
      → (entry : KeyEntry) × (o ≡ some entry)
        × (accepts (
              check_in_force node q token kid entry
                (key_in_force node entry (as_of_or_now node q.as_of)))
            ≡ true)
  unfolding check_entry
  entry_sound q token kid none h = absurd (no_accept h)
  entry_sound q token kid (some entry) h = (entry, refl, h)

  kid_sound :
      (q : StoredQuery) (keys : Manifest) (o : Option (String × String))
      → accepts (check_kid node q keys o) ≡ true
      → (token : String) × (kid : String) × (o ≡ some (token, kid))
        × (accepts (check_entry node q token kid (resolve_key_manifest keys kid)) ≡ true)
  unfolding check_kid
  kid_sound q keys none h = absurd (no_accept h)
  kid_sound q keys (some (token, kid)) h = (token, kid, refl, h)

  kid_read :
      (o : Option Json) (token kid : String)
      → kid_of o ≡ some (token, kid)
      → (o ≡ some (str token)) × (second_of_four (split_on b'|' token) ≡ some kid)
  unfolding kid_of
  kid_read none token kid h = cc
  kid_read (some null) token kid h = cc
  kid_read (some (bool b)) token kid h = cc
  kid_read (some (int n)) token kid h = cc
  kid_read (some (frac s)) token kid h = cc
  kid_read (some (arr xs)) token kid h = cc
  kid_read (some (obj fs)) token kid h = cc
  kid_read (some (str s)) token kid h = elim (Option-cases (second_of_four (split_on b'|' s))) [
    | inl e ↦ absurd (nothing (rw (e, kid_of) at h))
    | inr (k, e) ↦
        let same : some (s, k) ≡ some (token, kid) = rw (e, kid_of) at h in
        let text : s ≡ token = ap (λ (p : String × String). p.0) (some-inj same) in
        let name : k ≡ kid = ap (λ (p : String × String). p.1) (some-inj same) in
        (
          ap (λ t. some (str t)) text,
          ap (λ t. second_of_four (split_on b'|' t)) (sym text) ∙ e ∙ ap some name,
        )
  ]
    where
      nothing : ◌≡◌ {A = Option (String × String)} none (some (token, kid)) → ⊥
      nothing e = cc

  kid_same : (v k b s kid : String) → second_of_four (v ∷ k ∷ b ∷ s ∷ []) ≡ some kid → k ≡ kid
  kid_same v k b s kid h = elim (Bool-cases (k == "")) [
    | inl e ↦ let shut : none ≡ some kid = rw e at h in cc
    | inr e ↦ some-inj (rw e at h)
  ]

  -- A stored attestation is accepted only if its token names a key of the manifest, the first entry
  -- with its kid, which was active or else retired with the time in its window, that key signed it,
  -- it names the grant and the deployment that are asked about where a jti is given, and the fifth
  -- field of its preimage is the target that the caller knows, or a git target of the ref that it
  -- knows, where the caller gives one that is not empty.
  pub verify_stored_attestation-IsProven :
      (keys : Option Manifest) (q : StoredQuery)
      → accepts (verify_stored_attestation node keys q) ≡ true
      → IsProven keys q
  unfolding verify_stored_attestation
  verify_stored_attestation-IsProven none q h = absurd (no_accept h)
  verify_stored_attestation-IsProven (some manifest) q h =
      let (token, kid, read, h₁) = kid_sound q manifest (kid_of q.token) h in
      let (entry, found, h₂) = entry_sound q token kid (resolve_key_manifest manifest kid) h₁ in
      let (force, h₃) = force_sound q token kid entry _ h₂ in
      let (key, payload, usable, valid, target) =
        key_sound q token kid (public_key_of node entry) h₃ in
      let attested = verify-valid-IsAttested node (some key) _ token payload valid in
      record {
        manifest = manifest;
        has_keys = refl;
        token = token;
        kid = kid;
        read = (kid_read q.token token kid read).0;
        entry = entry;
        found = resolve_key_manifest_sound manifest kid entry found;
        force = key_in_force_sound node entry _ force;
        key = key;
        usable = usable;
        payload = payload;
        attested = attested;
        named =
            kid_same "cr.atomic.execution.attestation.v1" payload.executor_kid attested.body
              payload.signature kid
              (ap second_of_four (sym attested.segments) ∙ (kid_read q.token token kid read).1);
        target = target;
      }
