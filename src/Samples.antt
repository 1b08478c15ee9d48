-- ===== src/Samples.antt =====
-- A small runtime, grants and options that the runs of the development share.
use capability_demo.Prelude.{ℤ, pos, String, ◌==◌, Option, none, some, if◌then◌else◌}
use capability_demo.Json.{Json, int, str, obj, Fields, end, field}
use capability_demo.Runtime.{Node}
use capability_demo.Grant.Options.{Intended, VerifyOptions}

-- A v1 body with the given optional fields.
abbrev pub body_v1 : Fields → Json
body_v1 rest = obj (
    field "v" (str "cr.exec.v1") (
      field "kid" (str "k1") (
        field "receipt_digest" (str "sha256:r") (
          field "scope_hash" (str "sha256:publish\u{1f}doc\u{1f}hello") (
            field "audience" (str "api") (
              field "operation" (str "publish") (
                field "target_id" (str "doc") (
                  field "jti" (str "j1")
                    (field "iat" (str "0") (field "exp" (str "60") rest))))))))))

abbrev pub bound_body : Json
bound_body = body_v1 (field "deployment_id" (str "d1") end)

abbrev pub moved_body : Json
moved_body = body_v1 (field "state_nonce" (str "d1") end)

abbrev pub body_v2 : Json
body_v2 = obj (
    field "v" (str "cr.exec.v2") (
      field "kid" (str "k1") (
        field "grant_id" (str "g1") (
          field "receipt_hash" (str "sha256:r") (
            field "tenant_id" (str "t") (
              field "executor_id" (str "e") (
                field "adapter_id" (str "a") (
                  field "operation" (str "publish") (
                    field "target_uri" (str "Git://repo") (
                      field "expected_state_token" (str "s") (
                        field "after_payload_hash" (str "sha256:hello") (
                          field "nonce_hash" (str "sha256:n") (
                            field "policy_hash" (str "sha256:p") (
                              field "audience_hash" (str "sha256:api") (
                                field "not_before" (str "0") (
                                  field "expires_at" (str "60")
                                    (field "max_attempts" (int (pos 1)) end)))))))))))))))))

abbrev pub decoded : String → Option Json
decoded s =
    if s == "bound"
    then some bound_body
    else if s == "moved"
    then some moved_body
    else if s == "two"
    then some body_v2
    else none

abbrev pub date : String → Option ℤ
date s = if s == "0" then some (pos 0) else if s == "60" then some (pos 60000) else none

-- A hash without collisions, one signature, and two dates.
abbrev pub toy : Node
toy = record {
  sha256 = λ s. s;
  decode = decoded;
  verify = λ key message sig. if key == "pem" then some (sig == "good") else none;
  sign = λ key message. "good";
  to_base64url = λ s. s;
  from_base64url = λ s. s;
  date_parse = date;
  date_now = pos 1000;
  show = λ v. "1";
  now_iso = "0";
  create_public_key = λ s. some s;
  quote = λ s. s;
  parse = λ s. none;
  utf8 = λ bytes. "hello";
  to_upper_case = λ s. s;
  stringify = λ v. "{}";
}

abbrev pub no_intent : Intended
no_intent = record {
  receipt_token = none;
  audience = none;
  operation = none;
  target_id = none;
  target_uri = none;
  executor_id = none;
  adapter_id = none;
  scope_hash = none;
  after_payload = none;
}

abbrev pub publish : String → Intended
publish after = record no_intent {
  operation = some "publish";
  target_id = some "doc";
  after_payload = some after;
}

abbrev pub at : ℤ → Intended → VerifyOptions
at now intended = record {
  public_key = some "pem";
  key_status = some "active";
  key_kid = some "k1";
  intended = intended;
  now = some now;
}

abbrev pub now_publish : VerifyOptions
now_publish = at (pos 1000) (publish "hello")
