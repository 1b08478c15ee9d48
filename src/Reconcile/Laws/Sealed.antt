-- ===== src/Reconcile/Laws/Sealed.antt =====
-- Evidence that an adapter has sealed, reconciled with the key of its executor
-- (demo/src/http-atomic.js, demo/src/reconcile.js).
use capability_demo.Prelude.{
  ◌≡◌, refl, ap, ◌∙◌, true, false, String, ◌==◌, eq_iff, concat, join, includes, split_on,
  split_on-join, List, [], ◌∷◌, none, some, Bool-cases, inl, inr,
}
use capability_demo.Json.{str, get}
use capability_demo.Runtime.{Node, scalar}
use capability_demo.Git.Execute.{Attested, gate_preimage_v}
use capability_demo.Attestation.{
  attest_valid, check_bound, check_fields, preimage_fields, verify_atomic_execution_attestation,
}
use capability_demo.Attestation.Laws.{IsSegment, test_of_ne, split_encoded, verify-encode}
use capability_demo.Grant.Profile.{normalize_grant}
use capability_demo.Http.Execute.{HttpRequest, HttpRow}
use capability_demo.Http.Laws.Evidence.{IsSealed}
use capability_demo.Reconcile.Keyring.{
  Manifest, KeyEntry, in_force, resolve_key_manifest, key_in_force, public_key_of,
}
use capability_demo.Reconcile.Stored.{
  TargetCheck, not_compared, compared, exact, compare_target, check_signed, matches_target, fifth,
  kid_of, intended_grant, judge_target, judge_verdict, proven, as_of_or_now, check_with_key,
  check_in_force, check_entry, check_kid, verify_stored_attestation,
}
use capability_demo.Reconcile.Readers.{Context, query_of}

module _ (node : Node) where
  -- The manifest of the context has an active key for the kid, and this key verifies what the
  -- private key signs.
  pub record IsRegistered (c : Context) (kid private_key : String) : Type 0 where
    pub manifest : Manifest
    pub has_keys : c.executor_keys ≡ some manifest
    pub entry : KeyEntry
    pub found : resolve_key_manifest manifest kid ≡ some entry
    pub active : entry.status ≡ some "active"
    pub key : String
    pub usable : public_key_of node entry ≡ some key
    pub pair :
        (message : String) → node.verify key message (node.sign private_key message) ≡ some true

  -- What base64url and the hash promise of the texts of the evidence: the preimage is read back,
  -- kid, body and signature are full and hold no bar, and neither does a hash.
  pub record IsPlain (a : Attested) : Type 0 where
    pub back : node.from_base64url (node.to_base64url a.preimage) ≡ a.preimage
    pub kid : IsSegment a.executor_kid
    pub body : IsSegment (node.to_base64url a.preimage)
    pub signature : IsSegment a.signature
    pub hash : (s : String) → includes b'|' (concat "sha256:" (node.sha256 s)) ≡ false

  pub same_test : (s t : String) → s ≡ t → (s == t) ≡ true
  same_test s t h = (eq_iff s t).1 h

  bound_intended :
      (jti did preimage : String) (rest : List String)
      → (jti == "") ≡ false
      → split_on b'|' preimage ≡ gate_preimage_v ∷ jti ∷ did ∷ rest
      → check_bound node (some (intended_grant jti did)) preimage ≡ none
  unfolding check_bound check_fields preimage_fields normalize_grant get scalar
  bound_intended jti did preimage rest full h =
      rw (full, h, same_test jti jti refl, same_test did did refl) refl

  for_path :
      (kid preimage path : String)
      → fifth (split_on b'|' preimage) ≡ some path
      → (check : TargetCheck) × (judge_target kid preimage
            (compare_target preimage (some (exact path)))
          ≡ proven kid preimage check)
  unfolding compare_target check_signed matches_target
  for_path kid preimage path h = elim (Bool-cases (path == "")) [
    | inl e ↦ (not_compared, rw e refl)
    | inr e ↦ (compared true path, rw (e, h, e, same_test path path refl) refl)
  ]

  fields_split :
      (jti did digest path : String)
      → includes b'|' jti ≡ false
      → includes b'|' did ≡ false
      → includes b'|' digest ≡ false
      → includes b'|' path ≡ false
      → split_on b'|' (join "|" (gate_preimage_v ∷ jti ∷ did ∷ digest ∷ path ∷ []))
        ≡ gate_preimage_v ∷ jti ∷ did ∷ digest ∷ path ∷ []
  fields_split jti did digest path h k l m =
      split_on-join b'|' _ gate_preimage_v (jti ∷ did ∷ digest ∷ path ∷ []) refl
        (refl, (h, (k, (l, (m, tt)))))

  kid_split :
      (token a kid body sig : String)
      → (kid == "") ≡ false
      → split_on b'|' token ≡ a ∷ kid ∷ body ∷ sig ∷ []
      → kid_of (some (str token)) ≡ some (token, kid)
  unfolding kid_of
  kid_split token a kid body sig full h = rw (h, kid_of) (rw full refl)

  in_force-active :
      (entry : KeyEntry) (as_of : String)
      → entry.status ≡ some "active"
      → key_in_force node entry as_of ≡ in_force
  unfolding key_in_force
  in_force-active entry as_of h = rw h refl

  -- The kid, the preimage and the signature of the evidence are read back from the token.
  token_split :
      (q : HttpRequest) (row : HttpRow) (token : String) (a : Attested)
      → IsSealed node q row token a
      → IsPlain a
      → kid_of (some (str token)) ≡ some (token, a.executor_kid)
  token_split q row token a h p =
      kid_split token _ a.executor_kid (node.to_base64url a.preimage) a.signature
        (test_of_ne node a.executor_kid "" p.kid.full)
        (ap (split_on b'|') h.encoded
          ∙ split_encoded node a.executor_kid a.preimage a.signature p.kid p.body p.signature)

  preimage_split :
      (q : HttpRequest) (row : HttpRow) (token : String) (a : Attested)
      (h : IsSealed node q row token a)
      → IsPlain a
      → split_on b'|' a.preimage
        ≡ gate_preimage_v
          ∷ a.jti
          ∷ a.deployment_id
          ∷ concat "sha256:" (node.sha256 h.mutation)
          ∷ row.resource_path
          ∷ []
  preimage_split q row token a h p =
      ap (split_on b'|') h.fields
      ∙ fields_split a.jti a.deployment_id _ row.resource_path h.plain_jti h.plain_deployment
          (p.hash h.mutation) h.plain_path

  verified :
      (q : HttpRequest) (row : HttpRow) (token : String) (a : Attested) (key : String)
      → IsSealed node q row token a
      → IsPlain a
      → ((m : String) → node.verify key m (node.sign q.executor.private_key m) ≡ some true)
      → verify_atomic_execution_attestation node
          (some key)
          (some (intended_grant a.jti a.deployment_id))
          token
        ≡ attest_valid (record {
          executor_kid = a.executor_kid;
          preimage = a.preimage;
          signature = a.signature;
        })
  verified q row token a key h p pair =
      ap
        (verify_atomic_execution_attestation node (some key)
          (some (intended_grant a.jti a.deployment_id)))
        h.encoded
      ∙ verify-encode node key a.executor_kid a.preimage a.signature _ p.back p.kid p.body
          p.signature (ap (node.verify key a.preimage) h.signed ∙ pair a.preimage)
          (bound_intended a.jti a.deployment_id a.preimage _ h.spends
            (preimage_split q row token a h p))

  -- The stored attestation of a sealed write is accepted, under a registered key.
  pub stored-Sealed :
      (q : HttpRequest) (row : HttpRow) (token : String) (a : Attested) (c : Context)
      → IsSealed node q row token a
      → IsPlain a
      → IsRegistered c q.executor.kid q.executor.private_key
      → c.deployment_id ≡ a.deployment_id
      → (check : TargetCheck) × (verify_stored_attestation node c.executor_keys
            (query_of c (some (str token)) a.jti (some (exact row.resource_path)))
          ≡ proven a.executor_kid a.preimage check)
  unfolding verify_stored_attestation check_kid check_entry check_in_force check_with_key
      judge_verdict
  stored-Sealed q row token a c h p r same =
      let sq = query_of c (some (str token)) a.jti (some (exact row.resource_path)) in
      let kid = a.executor_kid in
      let (check, found) =
        for_path kid a.preimage row.resource_path (ap fifth (preimage_split q row token a h p)) in
      let grants : intended_grant a.jti c.deployment_id ≡ intended_grant a.jti a.deployment_id =
        ap (intended_grant a.jti) same in
      (
        check,
        ap (λ k. verify_stored_attestation node k sq) r.has_keys
            ∙ ap (check_kid node sq r.manifest) (token_split q row token a h p)
            ∙ ap (check_entry node sq token kid)
                (ap (resolve_key_manifest r.manifest) h.executor ∙ r.found)
            ∙ ap (check_in_force node sq token kid r.entry)
                (in_force-active r.entry (as_of_or_now node c.as_of) r.active)
            ∙ ap (check_with_key node sq token kid) r.usable
            ∙ ap
                (λ g.
                  judge_verdict kid sq.expected
                    (verify_atomic_execution_attestation node (some r.key) (some g) token))
                grants
            ∙ ap (judge_verdict kid sq.expected) (verified q row token a r.key h p r.pair)
            ∙ found,
      )
