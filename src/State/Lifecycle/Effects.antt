-- ===== src/State/Lifecycle/Effects.antt =====
-- What one call of `MarkFailure` does to a transaction, on every branch.
use tunwarden.Prelude.{◌≡◌, String, Bool, true, false, not, ◌&&◌, ◌==◌, arith, if◌then◌else◌}
use tunwarden.Result.{ok, err}
use tunwarden.Text.{trim_space}
use tunwarden.State.Status.{
  TransactionState, rolled_back, failed, other, valid_transition, same_state,
}
use tunwarden.State.Transaction.{Time, Transaction}
use tunwarden.State.Lifecycle.{invalid_transition, mark_failure, or_wall}

-- the states in which `MarkFailure` is refused
abbrev pub refuses_failure : TransactionState → Bool
refuses_failure rolled_back = true
refuses_failure (other s) = true
refuses_failure _ = false

-- `MarkFailure` is refused on a rolled back transaction (and in an unknown state), which it leaves
-- alone. On any other it succeeds: the state is `failed`, a reason that is not blank is recorded
-- trimmed and a blank one keeps the old reason, the flag tells whether the state or the reason was
-- written, the update time is the new one exactly when it is set, and the rest is as it was.
pub mark_failure_cases :
    (tx : Transaction) (reason : String) (now wall : Time)
    → mark_failure tx reason now wall ≡ (
        if refuses_failure tx.state
        then (err (invalid_transition tx.state failed), tx)
        else (let blank = trim_space reason == "" in
            let idle = same_state tx.state failed && blank in
            (
              ok (not idle),
              record tx {
                state = failed;
                failure_reason = if blank then tx.failure_reason else trim_space reason;
                updated_at = if idle then tx.updated_at else or_wall now wall;
              },
            )))
unfolding mark_failure valid_transition
mark_failure_cases tx reason now wall = ground arith
