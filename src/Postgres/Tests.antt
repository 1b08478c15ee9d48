-- ===== src/Postgres/Tests.antt =====
-- An execution on a small database, and the theorem at it.
use Prim.Native.Nat.{ℕ, ◌+◌}
use capability_demo.Prelude.{◌≡◌, refl, Bool, true, false, none, some}
use capability_demo.Json.{get}
use capability_demo.Runtime.{scalar}
use capability_demo.Samples.{toy, bound_body}
use capability_demo.Postgres.{Database, AtomicRequest, GateRow, atomic_execute}
use capability_demo.Postgres.Laws.{
  IsTransactional, IsAllOrNothing, is_done, atomic_execute-IsAllOrNothing,
}

abbrev gate_row : GateRow
gate_row = record {
  ok = true;
  status = none;
  reason = none;
  http = none;
  article_id = some "a1";
  article_title = some "title";
  article_body = some "hello";
  preimage = "cr.gate.preimage.v1|j1|d1|sha256:x|a1";
  challenged = none;
  current = none;
}

-- The state is what is durable, and the statements of the session.
abbrev Session : Type 0
Session = ℕ × ℕ

abbrev counting : Database Session
counting = record {
  begin_transaction = λ d. (true, (d.0, 0));
  cr_execute_grant = λ d call. (some (some gate_row), (d.0, d.1 + 1));
  cap_seal = λ d deployment jti hash sig. (true, (d.0, d.1 + 1));
  cap_persist_attestation = λ d deployment jti attestation. (true, (d.0, d.1 + 1));
  commit = λ d. (true, (d.0 + d.1, 0));
  rollback = λ d. (true, (d.0, 0));
}

abbrev durable : Session → ℕ
durable d = d.0

counting-IsTransactional : IsTransactional counting ℕ durable
counting-IsTransactional = record {
  begins = λ d. refl;
  gates = λ d c. refl;
  seals = λ d did jti hash sig. refl;
  persists = λ d did jti attestation. refl;
  rolls_back = λ d. refl;
}

abbrev request : Bool → AtomicRequest
request crash = record {
  payload = some bound_body;
  target_id = some "a1";
  operation = "publish";
  title = some "title";
  body = some "hello";
  executor = record { private_key = "key"; kid = "e1" };
  deployment_id = some "d1";
  crash_before_seal = crash;
  state_nonce = none;
}

executions :
    ((atomic_execute toy counting (0, 0) (request false)).1 ≡ (3, 0))
    × (is_done (atomic_execute toy counting (0, 0) (request false)).0 ≡ true)
    × ((atomic_execute toy counting (0, 0) (request true)).1 ≡ (0, 0))
unfolding atomic_execute scalar get
executions = (refl, refl, refl)

atomic_execute-IsAllOrNothing_example :
    IsAllOrNothing toy counting durable
      (0, 0)
      (request false)
      (atomic_execute toy counting (0, 0) (request false))
atomic_execute-IsAllOrNothing_example =
    atomic_execute-IsAllOrNothing toy counting durable counting-IsTransactional (0, 0)
      (request false)
