-- ===== src/Grant/V1/Binding.antt =====
-- One v1 grant permits one payload. (packages/middleware/src/verify-grant.js)
use capability_demo.Prelude.{◌≡◌, sym, ◌∙◌, String, none, some}
use capability_demo.Json.{Json, str, get}
use capability_demo.Runtime.{Node}
use capability_demo.Grant.Options.{VerifyOptions}
use capability_demo.Grant.V1.{compute_scope_hash, intended_or}
use capability_demo.Grant.V1.Acceptance.{IsCurrent}

-- The caller states the operation, the target and the after-payload, and no scope hash of its own.
pub record Intends (opts : VerifyOptions) (o t a : String) : Type 0 where
  pub no_hash : opts.intended.scope_hash ≡ none
  pub operation : opts.intended.operation ≡ some o
  pub target : opts.intended.target_id ≡ some t
  pub after : opts.intended.after_payload ≡ some a

module _ (node : Node) where
  pub scope_of_intent :
      (opts : VerifyOptions) (payload : Json) (sig o t a : String)
      → Intends opts o t a
      → IsCurrent node opts payload sig
      → get "scope_hash" payload
        ≡ some (str (compute_scope_hash node (some (str o)) (some (str t)) (some (str a))))
  unfolding intended_or
  scope_of_intent opts payload sig o t a i c =
      let bound = c.scope_computed (λ h e. absurd (none-ne-some (sym i.no_hash ∙ e))) a i.after in
      rw (i.operation, i.target) at bound
    where
      none-ne-some : {s : String} → none ≡ some s → ⊥
      none-ne-some q = cc
