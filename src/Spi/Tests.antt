-- ===== src/Spi/Tests.antt =====
-- Answers of the adapters, and the theorems of the seam at these inputs.
use capability_demo.Prelude.{pos, ◌≡◌, ◌↔◌, refl, Bool, true, String, ◌==◌, Option, none, some}
use capability_demo.Json.{str}
use capability_demo.Samples.{toy}
use capability_demo.Git.Repo.{GitTool}
use capability_demo.Git.Execute.{ledger_ref_for}
use capability_demo.Spi.{ConsumeInput, already_consumed, expired, missing_target}
use capability_demo.Spi.Adapters.{postgres_consume_once, http_consume_once, git_consume_once}
use capability_demo.Spi.Laws.{IsComplete, git_consume_once-consumed_iff}

-- A repository without refs.
abbrev no_refs : GitTool Unit
no_refs = record {
  rev_parse = λ repo ref. none;
  reflog = λ repo ref. none;
  update_refs = λ repo message updates. some repo;
  for_each_ref = λ repo prefix. none;
}

abbrev input : ConsumeInput
input = record { jti = some (str "j1"); target = some (str "doc"); expires_at = some (str "60") }

abbrev spent : Option (String → String → Bool)
spent = some (λ deployment jti. jti == "j2")

answers :
    ((postgres_consume_once toy spent none input).consumed ≡ true)
    × ((postgres_consume_once toy spent none (record input { jti = some (str "j2") })).reason
        ≡ some already_consumed)
    × ((http_consume_once toy (record input { target = none })).reason ≡ some missing_target)
    × ((http_consume_once toy (record input { expires_at = some (str "never") })).reason
        ≡ some expired)
    × ((git_consume_once toy no_refs (some tt) input).reason ≡ some already_consumed)
    × ((git_consume_once toy no_refs none input).consumed ≡ true)
unfolding postgres_consume_once http_consume_once git_consume_once ledger_ref_for
answers = (refl, refl, refl, refl, refl, refl)

git_consume_once-consumed_iff_example :
    ((git_consume_once toy no_refs (some tt) input).consumed ≡ true)
    ↔ (IsComplete toy input (pos 1000) × (◌≡◌ {A = Option (Unit {0})} (some tt) none))
git_consume_once-consumed_iff_example = git_consume_once-consumed_iff toy no_refs (some tt) input
