-- ===== src/Grant/V1/Slots.antt =====
-- The two optional slots of the v1 signing input: moving a text from one to the other.
-- (packages/middleware/src/verify-grant.js)
use capability_demo.Prelude.{
  ◌≡◌, ◌≢◌, refl, ap, sym, ◌∙◌, true, String, eq_iff, none, some, All, arith,
}
use capability_demo.Json.{Json, str, get}
use capability_demo.Runtime.{Node, scalar}
use capability_demo.Grant.Options.{VerifyOptions}
use capability_demo.Grant.Profile.{grant_profile, atomic, bearer}
use capability_demo.Grant.V1.{signed_fields, has_delimiter, verify_execution_grant}
use capability_demo.Grant.V1.Parsing.{IsToken}
use capability_demo.Grant.V1.Signing.{moved_slot}
use capability_demo.Grant.V1.Acceptance.{
  IsUndelimited, IsCurrent, valid_of_token, verify_execution_grant-valid_iff,
}

-- `q` holds in its nonce slot the text that `p` holds in its deployment slot, and is otherwise `p`.
pub record IsMoved (p q : Json) (d : String) : Type 0 where
  pub same : All (λ k. get k p ≡ get k q) signed_fields
  pub no_nonce : get "state_nonce" p ≡ none
  pub deployment : get "deployment_id" p ≡ some (str d)
  pub nonce : get "state_nonce" q ≡ some (str d)
  pub no_deployment : get "deployment_id" q ≡ none

module _ (node : Node) where
  IsUndelimited-moved :
      (p q : Json) (d : String) → IsMoved p q d → IsUndelimited p → IsUndelimited q
  IsUndelimited-moved p q d m
        (u₁, (u₂, (u₃, (u₄, (u₅, (u₆, (u₇, (u₈, (u₉, (u₁₀, (u₁₁, _))))))))))) =
      let (e₁, (e₂, (e₃, (e₄, (e₅, (e₆, (e₇, (e₈, (e₉, _))))))))) = m.same in
      (
        rw (← e₁) u₁,
        (
          rw (← e₂) u₂,
          (
            rw (← e₃) u₃,
            (
              rw (← e₄) u₄,
              (
                rw (← e₅) u₅,
                (
                  rw (← e₆) u₆,
                  (
                    rw (← e₇) u₇,
                    (
                      rw (← e₈) u₈,
                      (
                        rw (← e₉) u₉,
                        (
                          ap has_delimiter m.nonce ∙ sym (ap has_delimiter m.deployment) ∙ u₁₁,
                          (rw m.no_deployment refl, tt),
                        ),
                      ),
                    ),
                  ),
                ),
              ),
            ),
          ),
        ),
      )

  IsCurrent-moved :
      (opts : VerifyOptions) (p q : Json) (d sig : String)
      → IsMoved p q d
      → IsCurrent node opts p sig
      → IsCurrent node opts q sig
  IsCurrent-moved opts p q d sig m c =
      let (e₁, (e₂, (e₃, (e₄, (e₅, (e₆, (e₇, (e₈, (e₉, _))))))))) = m.same in
      let input = moved_slot node p q d m.same m.no_nonce m.deployment m.nonce m.no_deployment in
      record {
        undelimited = IsUndelimited-moved p q d m c.undelimited;
        kid = rw (← e₁) c.kid;
        active = c.active;
        signed = rw (← input) c.signed;
        window = rw (← e₈, ← e₉) c.window;
        bound = rw (← e₂) c.bound;
        receipt = rw (← e₂) c.receipt;
        audience = rw (← e₄) c.audience;
        operation = rw (← e₅) c.operation;
        target = rw (← e₆) c.target;
        scope_given = rw (← e₃) c.scope_given;
        scope_computed = rw (← e₃, ← e₅, ← e₆) c.scope_computed;
      }

  -- If a token is accepted whose payload has a deployment and no nonce, then the token with the
  -- same signature, whose payload holds the deployment's text in the nonce slot and no deployment,
  -- is accepted as well; the first grant is BEARER, and the second is ATOMIC.
  pub moved_slot-valid :
      (opts : VerifyOptions) (t t' : String) (p q : Json) (sig d : String)
      → IsToken node t p sig
      → IsToken node t' q sig
      → IsMoved p q d
      → d ≢ ""
      → (verify_execution_grant node opts t).valid ≡ true
      → ((verify_execution_grant node opts t').valid ≡ true)
        × (grant_profile node p ≡ bearer)
        × (grant_profile node q ≡ atomic)
  unfolding grant_profile scalar
  moved_slot-valid opts t t' p q sig d tp tq m n h = (
    (verify_execution_grant-valid_iff node opts t').1
        (q, sig, tq, IsCurrent-moved opts p q d sig m (valid_of_token node opts t p sig tp h)),
    rw (tp.body.version, m.no_nonce) refl,
    rw (tq.body.version, m.nonce) (ground (arith, eq_iff d "")),
  )
