-- ===== src/Git/Hook.antt =====
-- The pre-receive hook that guards the ledger (the shell text of demo/src/ledger-hook.js).
use text.Mathlib.Text.{starts_with}
use capability_demo.Prelude.{Bool, false, not, ◌||◌, String, ◌==◌, concat, any, List, if◌then◌else◌}
use capability_demo.Git.Repo.{must_not_exist}
use capability_demo.Git.Execute.{ledger_prefix}

-- One line `old new ref` that a push announces.
pub record PushedRef : Type 0 where
  pub old : String
  pub new_sha : String
  pub ref : String

-- The `case` of the loop: whether it sets `status=1`.
unfoldable pub is_refused : PushedRef → Bool
is_refused u =
    if starts_with u.ref (concat ledger_prefix "/")
    then u.new_sha == must_not_exist || not (u.old == must_not_exist)
    else false

-- `exit "$status"`: the push is accepted.
unfoldable pub pre_receive : List PushedRef → Bool
unfolding is_refused
pre_receive updates = not (any is_refused updates)
