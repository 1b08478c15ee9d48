-- ===== src/Reconcile/Samples.antt =====
-- A runtime, an executor key and an attestation under it.
use capability_demo.Prelude.{String, ◌==◌, [], ◌∷◌, none, some, if◌then◌else◌}
use capability_demo.Runtime.{Node}
use capability_demo.Samples.{toy}
use capability_demo.Reconcile.Keyring.{KeyEntry}
use capability_demo.Reconcile.Readers.{Context}

abbrev pub preimage : String
preimage = "cr.gate.preimage.v1|j1|d1|sha256:x|/doc"

-- A preimage that ends after the mutation.
abbrev pub short_preimage : String
short_preimage = "cr.gate.preimage.v1|j1|d1|sha256:x"

abbrev pub encoded : String → String
encoded s = if s == preimage then "AAAA" else if s == short_preimage then "BBBB" else s

abbrev pub read_back : String → String
read_back s = if s == "AAAA" then preimage else if s == "BBBB" then short_preimage else s

abbrev pub runtime : Node
runtime = record toy { to_base64url = encoded; from_base64url = read_back }

abbrev pub key : KeyEntry
key = record {
  kid = some "e1";
  status = some "active";
  valid_from = none;
  valid_until = none;
  retired_at = none;
  public_key = some "pem";
  public_key_pem = none;
}

abbrev pub context : Context
context = record {
  executor_keys = some (record { keys = some (key ∷ []) });
  deployment_id = "d1";
  as_of = some "0";
}

abbrev pub token : String
token = "cr.atomic.execution.attestation.v1|e1|AAAA|good"
