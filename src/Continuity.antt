-- ===== src/Continuity.antt =====
-- Is it one grant from the authorization to the correlation?
-- (demo/src/authorization-continuity.js)
pub mod Laws
mod Tests
use capability_demo.Prelude.{
  Bool, true, false, not, ◌&&◌, String, ◌==◌, Option, none, some, if◌then◌else◌,
}
use capability_demo.Json.{Json, null, bool, int, frac, str, arr, obj, get}

pub data Break : Type 0 where
  no_issuance consume_jti attestation_jti correlation_scope : Break

-- The parts of a transcript, `none` where it has none. The scope hash of a correlation is a text.
pub record Transcript : Type 0 where
  pub issuance : Option Json
  pub consumed_jti : Option String
  pub attestation_jti : Option String
  pub correlation_scope_hash : Option String

pub record Identities : Type 0 where
  pub issued_jti : Option String
  pub consumed_jti : Option String
  pub attestation_jti : Option String
  pub issued_scope_hash : Option String
  pub correlation_scope_hash : Option String

-- The answer; its code and its detail, which are texts for a reader, are left out.
pub record Assessment : Type 0 where
  pub continuous : Bool
  pub reason : Option Break
  pub identities : Identities

-- `typeof v === 'string' ? v : null`
abbrev pub string_or_null : Option Json → Option String
string_or_null (some (str s)) = some s
string_or_null v = none

-- `s || null`
abbrev pub full_or_null : Option String → Option String
full_or_null none = none
full_or_null (some s) = if s == "" then none else some s

abbrev pub field_of : String → Option Json → Option Json
field_of k none = none
field_of k (some v) = get k v

unfoldable pub identities_of : Transcript → Identities
identities_of t = record {
  issued_jti = string_or_null (field_of "jti" t.issuance);
  consumed_jti = full_or_null t.consumed_jti;
  attestation_jti = full_or_null t.attestation_jti;
  issued_scope_hash = string_or_null (field_of "scope_hash" (field_of "grant" t.issuance));
  correlation_scope_hash = full_or_null t.correlation_scope_hash;
}

-- `got == null || got !== want`
abbrev pub breaks : Option String → String → Bool
breaks none want = true
breaks (some got) want = not (got == want)

-- Both sides are there, and differ.
abbrev pub scopes_differ : Option String → Option String → Bool
scopes_differ (some c) (some i) = not (i == "") && not (c == i)
scopes_differ c i = false

checked : Transcript → Identities → Option String → Option Break
checked t ids none = some no_issuance
checked t ids (some issued) =
    if issued == ""
    then some no_issuance
    else if breaks t.consumed_jti issued
    then some consume_jti
    else if breaks t.attestation_jti issued
    then some attestation_jti
    else if scopes_differ ids.correlation_scope_hash ids.issued_scope_hash
    then some correlation_scope
    else none

conclude : Identities → Option Break → Assessment
conclude ids none = record { continuous = true; reason = none; identities = ids }
conclude ids (some b) = record { continuous = false; reason = some b; identities = ids }

unfoldable pub assess_continuity : Transcript → Assessment
unfolding conclude checked identities_of
assess_continuity t = let ids = identities_of t in conclude ids (checked t ids ids.issued_jti)
