-- ===== src/Spi/Adapters.antt =====
-- `consumeOnce` of the three adapters (demo/src/atomic.js, demo/src/git-atomic.js,
-- demo/src/http-atomic.js).
use capability_demo.Prelude.{
  Bool, true, false, not, String, ◌==◌, Option, none, some, if◌then◌else◌,
}
use capability_demo.Json.{text_or_empty}
use capability_demo.Runtime.{Node}
use capability_demo.Spi.{
  Strength, atomic_transaction, exclusive_ref_cas, indeterminate, ConsumeInput, ConsumeResult,
  not_consumed, already_consumed, no_cross_resource_ledger, check_input,
}
use capability_demo.Git.Repo.{GitTool, read_ref}
use capability_demo.Git.Execute.{ledger_ref_for, text_or}

abbrev pub unclaimed : Strength → ConsumeResult
unclaimed strength = record { consumed = true; reason = none; strength = strength }

-- `const bad = checkInput(...); if (bad) return bad;`
abbrev pub unless_bad : Option ConsumeResult → ConsumeResult → ConsumeResult
unless_bad (some bad) rest = bad
unless_bad none rest = rest

module _ (node : Node) where
  -- The rows of the ledger query, `query` of the input; `none` where it is no function.
  abbrev pub has_row : Option (String → String → Bool) → Option String → ConsumeInput → Bool
  has_row none deployment_id input = false
  has_row (some query) deployment_id input = query (text_or deployment_id) (text_or_empty input.jti)

  unfoldable pub postgres_consume_once :
      Option (String → String → Bool) → Option String → ConsumeInput → ConsumeResult
  unfolding check_input
  postgres_consume_once query deployment_id input =
      unless_bad (check_input node input atomic_transaction node.date_now) (
        if has_row query deployment_id input
        then not_consumed already_consumed atomic_transaction
        else unclaimed atomic_transaction)

  unfoldable pub http_consume_once : ConsumeInput → ConsumeResult
  unfolding check_input
  http_consume_once input =
      unless_bad (check_input node input indeterminate node.date_now)
        (not_consumed no_cross_resource_ledger indeterminate)

  module _ {Repo : Type 0} (git : GitTool Repo) where
    -- `repoDir && await readRef(repoDir, ref)`: the truth value of the text that it returns
    abbrev pub has_claim : Option Repo → String → Bool
    has_claim none jti = false
    has_claim (some repo) jti = not (read_ref git repo (ledger_ref_for node jti) == "")

    unfoldable pub git_consume_once : Option Repo → ConsumeInput → ConsumeResult
    unfolding check_input read_ref
    git_consume_once repo input =
        unless_bad (check_input node input exclusive_ref_cas node.date_now) (
          if has_claim repo (text_or_empty input.jti)
          then not_consumed already_consumed exclusive_ref_cas
          else unclaimed exclusive_ref_cas)
