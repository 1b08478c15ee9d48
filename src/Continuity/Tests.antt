-- ===== src/Continuity/Tests.antt =====
-- Transcripts, and the theorem at one of them.
use capability_demo.Prelude.{◌≡◌, ◌↔◌, refl, true, none, some}
use capability_demo.Json.{str, obj, field, end, get}
use capability_demo.Continuity.{
  Transcript, assess_continuity, consume_jti, no_issuance, correlation_scope,
}
use capability_demo.Continuity.Laws.{IsOneGrant, assess_continuity-continuous_iff}

abbrev one_grant : Transcript
one_grant = record {
  issuance = some (
      obj (
        field "jti" (str "j1")
          (field "grant" (obj (field "scope_hash" (str "sha256:s") end)) end)));
  consumed_jti = some "j1";
  attestation_jti = some "j1";
  correlation_scope_hash = some "sha256:s";
}

assessments :
    ((assess_continuity one_grant).continuous ≡ true)
    × ((assess_continuity (record one_grant { consumed_jti = some "j2" })).reason
        ≡ some consume_jti)
    × ((assess_continuity (record one_grant { issuance = none })).reason ≡ some no_issuance)
    × ((assess_continuity (record one_grant { correlation_scope_hash = some "sha256:t" })).reason
        ≡ some correlation_scope)
unfolding assess_continuity get
assessments = (refl, refl, refl, refl)

assess_continuity-continuous_iff_example :
    ((assess_continuity one_grant).continuous ≡ true) ↔ IsOneGrant one_grant
assess_continuity-continuous_iff_example = assess_continuity-continuous_iff one_grant
