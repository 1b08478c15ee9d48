-- ===== src/Postgres/Laws.antt =====
-- The Postgres executor commits everything or nothing (demo/src/atomic.js).
use capability_demo.Prelude.{
  ◌≡◌, refl, sym, ap, ◌∙◌, Bool, true, false, not, ◌||◌, String, ◌==◌, concat, Option, none, some,
  Option-cases, Bool-cases, inl, inr, if◌then◌else◌,
}
use mathlib.Core.Path.{subst}
use capability_demo.Json.{Json, str}
use capability_demo.Runtime.{Node, scalar}
use capability_demo.Grant.Profile.{NormalizedGrant, normalize_grant}
use capability_demo.Git.Retention.{is_truthy}
use capability_demo.Git.Execute.{text_or}
use capability_demo.Postgres.{
  Database, GateCall, AtomicRequest, AtomicOutcome, Evidence, GateRow, done, refused, thrown,
  row_of, caught, evidence_of, call_of, rolled_back, commit_or, persist, after_seal, seal,
  refuse_by, after_gate, begun, in_transaction, with_nonce, mismatch, atomic_execute,
}

-- The execution answered with evidence.
abbrev pub is_done : AtomicOutcome → Bool
is_done (done _ _) = true
is_done (refused _) = false
is_done thrown = false

-- What a transaction does: `durable` is what outlives the session. Only COMMIT changes it; one that
-- throws may have changed it all the same.
pub record IsTransactional {Db : Type 0} (db : Database Db) (D : Type 0) (durable : Db → D)
    : Type 0 where
  pub begins : (d : Db) → durable (db.begin_transaction d).1 ≡ durable d
  pub gates : (d : Db) (c : GateCall) → durable (db.cr_execute_grant d c).1 ≡ durable d
  pub seals :
      (d : Db) (did : String) (jti : Option Json) (hash sig : String)
      → durable (db.cap_seal d did jti hash sig).1 ≡ durable d
  pub persists :
      (d : Db) (did : String) (jti : Option Json) (attestation : String)
      → durable (db.cap_persist_attestation d did jti attestation).1 ≡ durable d
  pub rolls_back : (d : Db) → durable (db.rollback d).1 ≡ durable d

module _ (node : Node) {Db : Type 0} (db : Database Db) where
  -- The nonce that the gate is given: that of the grant, or the presented one where the grant binds
  -- a nonce by its hash.
  abbrev pub nonce_of : AtomicRequest → NormalizedGrant → Option Json
  nonce_of q grant =
      if is_truthy grant.nonce_hash then some (str (text_or q.state_nonce)) else grant.state_nonce

  -- Every statement before COMMIT has succeeded, one on the state that the other left: BEGIN, the
  -- gate with the row `ok`, the seal of the signature over the row's preimage, and the attestation
  -- that encodes it. `d` is the state that COMMIT works on.
  pub record IsSealed (before : Db) (q : AtomicRequest) (d : Db) (g : GateRow) : Type 0 where
    pub payload : Json
    pub given : q.payload ≡ some payload
    pub opened : Db
    pub begins : db.begin_transaction before ≡ (true, opened)
    pub gated : Db
    pub gate :
        db.cr_execute_grant opened (
          call_of node db q
            (normalize_grant node payload)
            (text_or q.deployment_id)
            (nonce_of q (normalize_grant node payload)))
        ≡ (some (some g), gated)
    pub allowed : g.ok ≡ true
    pub sealed : Db
    pub evidence : Evidence
    pub built :
        evidence ≡ evidence_of node db q (normalize_grant node payload) (text_or q.deployment_id) g
    pub seals :
        db.cap_seal gated
          (text_or q.deployment_id)
          (normalize_grant node payload).jti
          evidence.preimage_hash
          evidence.signature
        ≡ (true, sealed)
    pub persists :
        db.cap_persist_attestation sealed evidence.deployment_id evidence.jti evidence.attestation
        ≡ (true, d)

  -- A COMMIT of all of it, whose answer holds the evidence that was stored.
  pub record IsCommitted (before : Db) (q : AtomicRequest) (o : AtomicOutcome × Db) : Type 0 where
    pub row : GateRow
    pub stored : Db
    pub sealed : IsSealed before q stored row
    pub answer : o.0 ≡ done (row_of q row) sealed.evidence
    pub commits : db.commit stored ≡ (true, o.1)

  -- COMMIT itself threw, after all of it.
  pub record IsUncertain (before : Db) (q : AtomicRequest) : Type 0 where
    pub row : GateRow
    pub stored : Db
    pub sealed : IsSealed before q stored row
    pub fails : (db.commit stored).0 ≡ false

  module _ {D : Type 0} (durable : Db → D) where
    pub data IsAllOrNothing (before : Db) (q : AtomicRequest) (o : AtomicOutcome × Db)
        : Type 0 where
      all : is_done o.0 ≡ true → IsCommitted before q o → IsAllOrNothing before q o
      nothing : is_done o.0 ≡ false → durable o.1 ≡ durable before → IsAllOrNothing before q o
      uncertain : is_done o.0 ≡ false → IsUncertain before q → IsAllOrNothing before q o

    if-IsAllOrNothing :
        (before : Db) (q : AtomicRequest) (b : Bool) (x y : AtomicOutcome × Db)
        → (b ≡ true → IsAllOrNothing before q x)
        → (b ≡ false → IsAllOrNothing before q y)
        → IsAllOrNothing before q (if b then x else y)
    if-IsAllOrNothing before q true x y p r = p refl
    if-IsAllOrNothing before q false x y p r = r refl

    caught_undone : (q : AtomicRequest) → is_done (caught q) ≡ false
    caught_undone q = elim (Bool-cases q.crash_before_seal) [
      | inl e ↦ rw e refl
      | inr e ↦ rw e refl
    ]

    module _ (laws : IsTransactional db D durable) where
      rolled_back-nothing :
          (before : Db) (q : AtomicRequest) (d : Db)
          → durable d ≡ durable before
          → IsAllOrNothing before q (rolled_back node db q d)
      unfolding rolled_back
      rolled_back-nothing before q d h = nothing (caught_undone q) (laws.rolls_back d ∙ h)

      refuse_by-nothing :
          (before : Db) (q : AtomicRequest) (g : Option GateRow) (r : Bool × Db)
          → durable r.1 ≡ durable before
          → IsAllOrNothing before q (refuse_by node db q g r)
      unfolding refuse_by
      refuse_by-nothing before q none (true, d) h = nothing refl h
      refuse_by-nothing before q (some g) (true, d) h = nothing refl h
      refuse_by-nothing before q g (false, d) h = rolled_back-nothing before q d h

      commit_or-IsAllOrNothing :
          (before : Db) (q : AtomicRequest) (g : GateRow) (stored : Db)
          (s : IsSealed before q stored g) (r : Bool × Db)
          → db.commit stored ≡ r
          → IsAllOrNothing before q (commit_or node db q (done (row_of q g) s.evidence) r)
      unfolding commit_or rolled_back
      commit_or-IsAllOrNothing before q g stored s (true, d) h =
          all refl (record { row = g; stored = stored; sealed = s; answer = refl; commits = h })
      commit_or-IsAllOrNothing before q g stored s (false, d) h =
          uncertain (caught_undone q)
            (record { row = g; stored = stored; sealed = s; fails = ap (λ (x : Bool × Db). x.0) h })

      persist-IsAllOrNothing :
          (before : Db) (q : AtomicRequest) (g : GateRow) (payload : Json)
          (opened gated sealed : Db) (r : Bool × Db)
          → q.payload ≡ some payload
          → db.begin_transaction before ≡ (true, opened)
          → db.cr_execute_grant opened (
              call_of node db q
                (normalize_grant node payload)
                (text_or q.deployment_id)
                (nonce_of q (normalize_grant node payload)))
            ≡ (some (some g), gated)
          → g.ok ≡ true
          → (e : Evidence)
          → e ≡ evidence_of node db q (normalize_grant node payload) (text_or q.deployment_id) g
          → db.cap_seal gated
              (text_or q.deployment_id)
              (normalize_grant node payload).jti
              e.preimage_hash
              e.signature
            ≡ (true, sealed)
          → db.cap_persist_attestation sealed e.deployment_id e.jti e.attestation ≡ r
          → durable r.1 ≡ durable before
          → IsAllOrNothing before q (persist node db q (done (row_of q g) e) r)
      unfolding persist
      persist-IsAllOrNothing before q g payload opened gated sealed (true, d) p b c a e built s r
            h =
          commit_or-IsAllOrNothing before q g d
            (record {
              payload = payload;
              given = p;
              opened = opened;
              begins = b;
              gated = gated;
              gate = c;
              allowed = a;
              sealed = sealed;
              evidence = e;
              built = built;
              seals = s;
              persists = r;
            })
            (db.commit d) refl
      persist-IsAllOrNothing before q g payload opened gated sealed (false, d) p b c a e built s r
            h =
          rolled_back-nothing before q d h

      seal-IsAllOrNothing :
          (before : Db) (q : AtomicRequest) (g : GateRow) (payload : Json) (opened gated : Db)
          → q.payload ≡ some payload
          → db.begin_transaction before ≡ (true, opened)
          → db.cr_execute_grant opened (
              call_of node db q
                (normalize_grant node payload)
                (text_or q.deployment_id)
                (nonce_of q (normalize_grant node payload)))
            ≡ (some (some g), gated)
          → g.ok ≡ true
          → durable gated ≡ durable before
          → IsAllOrNothing before q
              (seal node db q (normalize_grant node payload) (text_or q.deployment_id) g gated)
      unfolding seal after_seal
      seal-IsAllOrNothing before q g payload opened gated p b c a h =
          sealed (db.cap_seal gated did grant.jti e.preimage_hash e.signature) refl
            (laws.seals gated did grant.jti e.preimage_hash e.signature ∙ h)
        where
          grant : NormalizedGrant
          grant = normalize_grant node payload

          did : String
          did = text_or q.deployment_id

          e : Evidence
          e = evidence_of node db q grant did g

          sealed :
              (r : Bool × Db)
              → db.cap_seal gated did grant.jti e.preimage_hash e.signature ≡ r
              → durable r.1 ≡ durable before
              → IsAllOrNothing before q (after_seal node db q (done (row_of q g) e) e r)
          sealed (true, d) s k =
              persist-IsAllOrNothing before q g payload opened gated d _ p b c a e refl s refl
                (laws.persists d e.deployment_id e.jti e.attestation ∙ k)
          sealed (false, d) s k = rolled_back-nothing before q d k

      gate-IsAllOrNothing :
          (before : Db) (q : AtomicRequest) (payload : Json) (opened : Db)
          (r : Option (Option GateRow) × Db)
          → q.payload ≡ some payload
          → db.begin_transaction before ≡ (true, opened)
          → db.cr_execute_grant opened (
              call_of node db q
                (normalize_grant node payload)
                (text_or q.deployment_id)
                (nonce_of q (normalize_grant node payload)))
            ≡ r
          → durable r.1 ≡ durable before
          → IsAllOrNothing before q
              (after_gate node db q (normalize_grant node payload) (text_or q.deployment_id) r)
      unfolding after_gate
      gate-IsAllOrNothing before q payload opened (none, d) p b c h =
          rolled_back-nothing before q d h
      gate-IsAllOrNothing before q payload opened (some none, d) p b c h =
          refuse_by-nothing before q none (db.rollback d) (laws.rolls_back d ∙ h)
      gate-IsAllOrNothing before q payload opened (some (some g), d) p b c h =
          if-IsAllOrNothing before q (not g.ok) _ _
            (λ _. refuse_by-nothing before q (some g) (db.rollback d) (laws.rolls_back d ∙ h))
            (λ a.
              if-IsAllOrNothing before q q.crash_before_seal _ _
                (λ _. rolled_back-nothing before q d h)
                (λ _. seal-IsAllOrNothing before q g payload opened d p b c (not_false g.ok a) h))
        where
          not_false : (b : Bool) → not b ≡ false → b ≡ true
          not_false true e = refl
          not_false false e = cc

      transaction-IsAllOrNothing :
          (before : Db) (q : AtomicRequest) (payload : Json) (presented : Option Json)
          → q.payload ≡ some payload
          → presented ≡ nonce_of q (normalize_grant node payload)
          → IsAllOrNothing before q (
              in_transaction node db before q
                (normalize_grant node payload)
                (text_or q.deployment_id)
                presented)
      unfolding in_transaction begun
      transaction-IsAllOrNothing before q payload presented p n =
          opens (db.begin_transaction before) refl (laws.begins before)
        where
          opens :
              (r : Bool × Db)
              → db.begin_transaction before ≡ r
              → durable r.1 ≡ durable before
              → IsAllOrNothing before q (
                  begun node db q
                    (normalize_grant node payload)
                    (text_or q.deployment_id)
                    presented
                    r)
          opens (false, d) b h = nothing (caught_undone q) h
          opens (true, d) b h =
              gate-IsAllOrNothing before q payload d _ p b
                (ap
                  (λ x.
                    db.cr_execute_grant d (
                      call_of node db q (normalize_grant node payload) (text_or q.deployment_id) x))
                  (sym n))
                (laws.gates d _ ∙ h)

      nonce-IsAllOrNothing :
          (before : Db) (q : AtomicRequest) (payload : Json)
          → q.payload ≡ some payload
          → IsAllOrNothing before q
              (with_nonce node db before q (normalize_grant node payload) (text_or q.deployment_id))
      unfolding with_nonce
      nonce-IsAllOrNothing before q payload p =
          let grant = normalize_grant node payload in
          elim (Bool-cases (is_truthy grant.nonce_hash)) [
            | inr e ↦
                rw e (transaction-IsAllOrNothing before q payload grant.state_nonce p (rw e refl))
            | inl e ↦ rw e (
                if-IsAllOrNothing before q (text_or q.state_nonce == "") _ _
                  (λ _. nothing refl refl)
                  (λ _.
                    if-IsAllOrNothing before q
                      (not (
                        concat "sha256:" (node.sha256 (text_or q.state_nonce))
                        == scalar node grant.nonce_hash))
                      _ _ (λ _. nothing refl refl)
                      (λ _. transaction-IsAllOrNothing before q payload _ p (rw e refl))))
          ]

      -- Whichever statement throws, ROLLBACK too: an execution that answers with evidence has run
      -- BEGIN, the gate with the row `ok`, the seal of the signature over the preimage of that row,
      -- and the store of the attestation in the answer, one after the other, and has committed
      -- them. One that does not leaves what is durable as it was, unless all of these succeeded and
      -- COMMIT itself threw, after which the transaction may or may not have been committed. Only
      -- COMMIT is assumed to change what is durable.
      pub atomic_execute-IsAllOrNothing :
          (before : Db) (q : AtomicRequest)
          → IsAllOrNothing before q (atomic_execute node db before q)
      unfolding atomic_execute mismatch
      atomic_execute-IsAllOrNothing before q = elim (Option-cases q.payload) [
        | inl e ↦ rw e (nothing refl refl)
        | inr (payload, e) ↦
            subst
              (λ (o : Option Json). IsAllOrNothing before q (elim o [
                | none ↦ (mismatch node db, before)
                | some p ↦
                    if text_or q.deployment_id == ""
                      || not ((normalize_grant node p).deployment_id == text_or q.deployment_id)
                    then (mismatch node db, before)
                    else with_nonce node db before q (normalize_grant node p)
                        (text_or q.deployment_id)
              ]))
              (sym e)
              (if-IsAllOrNothing before q
                (text_or q.deployment_id == ""
                  || not ((normalize_grant node payload).deployment_id == text_or q.deployment_id))
                _ _ (λ _. nothing refl refl) (λ _. nonce-IsAllOrNothing before q payload e))
      ]
