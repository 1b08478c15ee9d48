-- ===== src/Postgres.antt =====
-- The Postgres executor (`atomicExecute` of demo/src/atomic.js). The statements of a session are a
-- parameter, functions on a state that covers the database and the session.
pub mod Laws
mod Tests
use Prim.Native.Nat.{ℕ}
use capability_demo.Prelude.{
  Bool, true, false, not, ◌&&◌, ◌||◌, String, ◌==◌, eqb, concat, Option, none, some, if◌then◌else◌,
}
use capability_demo.Json.{Json, str}
use capability_demo.Runtime.{Node, scalar, to_text}
use capability_demo.Grant.Profile.{NormalizedGrant, normalize_grant}
use capability_demo.Git.Retention.{is_truthy, or_else}
use capability_demo.Git.Execute.{Executor, text_or, encode_atomic_execution_attestation}

-- The arguments of cr_execute_grant.
pub record GateCall : Type 0 where
  pub jti : Option Json
  pub scope_hash : Option Json
  pub nonce : Option Json
  pub target_id : String
  pub operation : String
  pub title : String
  pub body : String
  pub deployment_id : String
  pub expected_state_token : String

-- The row that it returns; `ok` is whether its field is `true`.
pub record GateRow : Type 0 where
  pub ok : Bool
  pub status : Option String
  pub reason : Option String
  pub http : Option ℕ
  pub article_id : Option String
  pub article_title : Option String
  pub article_body : Option String
  pub preimage : String
  pub challenged : Option String
  pub current : Option String

-- The statements of a session. Each gives the state after it, also where it throws: its answer is
-- then `false`, or `none`.
pub record Database (Db : Type 0) : Type 0 where
  pub begin_transaction : Db → Bool × Db
  pub cr_execute_grant : Db → GateCall → Option (Option GateRow) × Db
  pub cap_seal : Db → String → Option Json → String → String → Bool × Db
  pub cap_persist_attestation : Db → String → Option Json → String → Bool × Db
  pub commit : Db → Bool × Db
  pub rollback : Db → Bool × Db

pub record AtomicRequest : Type 0 where
  pub payload : Option Json
  pub target_id : Option String
  pub operation : String
  pub title : Option String
  pub body : Option String
  pub executor : Executor
  pub deployment_id : Option String
  pub crash_before_seal : Bool
  pub state_nonce : Option String

pub data AtomicRow : Type 0 where
  deleted_row : Option String → AtomicRow
  article_row : (id : String) (title body : Option String) → AtomicRow

pub record Evidence : Type 0 where
  pub attestation : String
  pub executor_kid : String
  pub jti : Option Json
  pub deployment_id : String
  pub preimage : String
  pub preimage_hash : String
  pub signature : String

pub record Refused : Type 0 where
  pub status : String
  pub reason : String
  pub http : ℕ
  pub drift : Option (Option String × Option String)

pub data AtomicOutcome : Type 0 where
  done : AtomicRow → Evidence → AtomicOutcome
  refused : Refused → AtomicOutcome
  -- the test hook throws
  thrown : AtomicOutcome

abbrev pub refuse : String → String → ℕ → AtomicOutcome
refuse status reason http =
    refused (record { status = status; reason = reason; http = http; drift = none })

-- The reason of a statement that throws is the text of its error, left out.
abbrev pub seal_failed : AtomicOutcome
seal_failed = refuse "SEAL_FAILED" "seal_failed" 500

-- `(g && g.status) || fallback`
abbrev pub full_or : Option String → String → String
full_or none d = d
full_or (some s) d = if s == "" then d else s

abbrev pub http_or : Option ℕ → ℕ
http_or none = 403
http_or (some n) = if eqb n 0 then 403 else n

abbrev pub gate_refusal : Option GateRow → AtomicOutcome
gate_refusal none = refuse "STATE_CHALLENGE_UNKNOWN" "gate_failed" 403
gate_refusal (some g) = refused (record {
  status = full_or g.status "STATE_CHALLENGE_UNKNOWN";
  reason = full_or g.reason "gate_failed";
  http = http_or g.http;
  drift = if full_or g.status "" == "STATE_DRIFT" then some (g.challenged, g.current) else none;
})

abbrev pub row_of : AtomicRequest → GateRow → AtomicRow
row_of q g = elim g.article_id [
  | none ↦ deleted_row q.target_id
  | some id ↦ article_row id g.article_title g.article_body
]

-- What a catch answers: the test hook makes it throw again.
abbrev pub caught : AtomicRequest → AtomicOutcome
caught q = if q.crash_before_seal then thrown else seal_failed

module _ (node : Node) {Db : Type 0} (db : Database Db) where
  unfoldable pub evidence_of : AtomicRequest → NormalizedGrant → String → GateRow → Evidence
  evidence_of q grant configured g =
      let signature = node.sign q.executor.private_key g.preimage in
      record {
        attestation = encode_atomic_execution_attestation node q.executor.kid g.preimage signature;
        executor_kid = q.executor.kid;
        jti = grant.jti;
        deployment_id = configured;
        preimage = g.preimage;
        preimage_hash = concat "sha256:" (node.sha256 g.preimage);
        signature = signature;
      }

  -- The arguments of the gate.
  unfoldable pub call_of : AtomicRequest → NormalizedGrant → String → Option Json → GateCall
  call_of q grant configured presented = record {
    jti = grant.jti;
    scope_hash = grant.scope_hash;
    nonce = presented;
    target_id = text_or q.target_id;
    operation = q.operation;
    title = text_or q.title;
    body = text_or q.body;
    deployment_id = configured;
    expected_state_token =
        if is_truthy grant.expected_state_token then scalar node grant.expected_state_token else "";
  }

  -- The catch of a transaction that has begun: ROLLBACK, whose own error is ignored.
  unfoldable pub rolled_back : AtomicRequest → Db → AtomicOutcome × Db
  rolled_back q d = (caught q, (db.rollback d).1)

  -- COMMIT; one that throws is followed by ROLLBACK.
  unfoldable pub commit_or : AtomicRequest → AtomicOutcome → Bool × Db → AtomicOutcome × Db
  unfolding rolled_back
  commit_or q out (true, d) = (out, d)
  commit_or q out (false, d) = rolled_back q d

  unfoldable pub persist : AtomicRequest → AtomicOutcome → Bool × Db → AtomicOutcome × Db
  unfolding commit_or rolled_back
  persist q out (true, d) = commit_or q out (db.commit d)
  persist q out (false, d) = rolled_back q d

  unfoldable pub after_seal :
      AtomicRequest → AtomicOutcome → Evidence → Bool × Db → AtomicOutcome × Db
  unfolding persist rolled_back
  after_seal q out e (true, d) =
      persist q out (db.cap_persist_attestation d e.deployment_id e.jti e.attestation)
  after_seal q out e (false, d) = rolled_back q d

  unfoldable pub seal : AtomicRequest → NormalizedGrant → String → GateRow → Db → AtomicOutcome × Db
  unfolding after_seal evidence_of
  seal q grant configured g gated =
      let e = evidence_of q grant configured g in
      after_seal q (done (row_of q g) e) e
        (db.cap_seal gated configured grant.jti e.preimage_hash e.signature)

  -- The gate refused: ROLLBACK, and where that throws the catch with its own ROLLBACK.
  unfoldable pub refuse_by : AtomicRequest → Option GateRow → Bool × Db → AtomicOutcome × Db
  unfolding rolled_back
  refuse_by q g (true, d) = (gate_refusal g, d)
  refuse_by q g (false, d) = rolled_back q d

  -- What follows the gate.
  unfoldable pub after_gate :
      AtomicRequest → NormalizedGrant → String → Option (Option GateRow) × Db → AtomicOutcome × Db
  unfolding seal refuse_by rolled_back
  after_gate q grant configured (none, d) = rolled_back q d
  after_gate q grant configured (some none, d) = refuse_by q none (db.rollback d)
  after_gate q grant configured (some (some g), d) =
      if not g.ok
      then refuse_by q (some g) (db.rollback d)
      else if q.crash_before_seal
      then rolled_back q d
      else seal q grant configured g d

  -- A BEGIN that throws is not followed by ROLLBACK.
  unfoldable pub begun :
      AtomicRequest → NormalizedGrant → String → Option Json → Bool × Db → AtomicOutcome × Db
  unfolding after_gate call_of
  begun q grant configured presented (false, d) = (caught q, d)
  begun q grant configured presented (true, d) =
      after_gate q grant configured (db.cr_execute_grant d (call_of q grant configured presented))

  unfoldable pub in_transaction :
      Db → AtomicRequest → NormalizedGrant → String → Option Json → AtomicOutcome × Db
  unfolding begun
  in_transaction before q grant configured presented =
      begun q grant configured presented (db.begin_transaction before)

  -- The nonce that a v2 grant binds by its hash must be presented.
  unfoldable pub with_nonce : Db → AtomicRequest → NormalizedGrant → String → AtomicOutcome × Db
  unfolding in_transaction
  with_nonce before q grant configured =
      if not (is_truthy grant.nonce_hash)
      then in_transaction before q grant configured grant.state_nonce
      else if text_or q.state_nonce == ""
      then (refuse "STATE_NONCE_REQUIRED" "nonce_preimage_absent" 403, before)
      else if not
          (concat "sha256:" (node.sha256 (text_or q.state_nonce)) == scalar node grant.nonce_hash)
      then (refuse "STATE_NONCE_UNBOUND" "nonce_preimage_mismatch" 403, before)
      else in_transaction before q grant configured (some (str (text_or q.state_nonce)))

  unfoldable pub mismatch : AtomicOutcome
  mismatch = refuse "DEPLOYMENT_MISMATCH" "deployment_id_mismatch" 403

  unfoldable pub atomic_execute : Db → AtomicRequest → AtomicOutcome × Db
  unfolding with_nonce mismatch normalize_grant
  atomic_execute before q = elim q.payload [
    | none ↦ (mismatch, before)
    | some payload ↦
        let grant = normalize_grant node payload in
        let configured = text_or q.deployment_id in
        if configured == "" || not (grant.deployment_id == configured)
        then (mismatch, before)
        else with_nonce before q grant configured
  ]
