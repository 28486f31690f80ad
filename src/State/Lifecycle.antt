-- ===== src/State/Lifecycle.antt =====
-- internal/state/transaction.go: `Transition`, `MarkFailure` and what is read off a transaction.
-- A `*Transaction` is the transaction that comes back beside the result; it is never nil here. Where
-- the code reads the system clock, the reading is the argument `wall`.
pub mod Effects
pub mod History
use tunwarden.Prelude.{
  String, Bool, true, false, not, ◌||◌, List, [], ◌∷◌, is_empty, if◌then◌else◌, ◌==◌,
}
use tunwarden.Result.{Result, ok, err}
use tunwarden.Text.{trim_space}
use tunwarden.State.Status.{
  TransactionState, planned, applying, applied, verifying, committed, rolling_back, rolled_back,
  failed, other, state_text, same_state, valid_transition, state_requires_cleanup,
}
use tunwarden.State.Transaction.{
  Time, is_zero_time, Transaction, TransactionSummary, RollbackMetadata, empty_snapshot, empty_plan,
  empty_rollback, empty_health,
}

abbrev pub transaction_schema_version : String
transaction_schema_version = "podlaz.transaction.v1"

abbrev pub transaction_owner : String
transaction_owner = "podlaz"

-- `if now.IsZero() { now = time.Now() }`
abbrev pub or_wall : Time → Time → Time
or_wall now wall = if is_zero_time now then wall else now

unfoldable pub new_transaction : String → String → String → Time → Time → Transaction
new_transaction id profile_id mode now wall = record {
  schema_version = transaction_schema_version;
  owner = transaction_owner;
  id = id;
  profile_id = profile_id;
  mode = mode;
  state = planned;
  created_at = or_wall now wall;
  updated_at = or_wall now wall;
  before_snapshot = empty_snapshot;
  desired_plan = empty_plan;
  applied_steps = [];
  rollback = empty_rollback;
  health = empty_health;
  failure_reason = "";
  labels = [];
}

pub data TransitionError : Type 0 where
  invalid_transition : TransactionState → TransactionState → TransitionError

unfoldable pub transition :
    Transaction → TransactionState → Time → Time → Result TransitionError Bool × Transaction
transition tx next now wall =
    if not (valid_transition tx.state next)
    then (err (invalid_transition tx.state next), tx)
    else if same_state tx.state next
    then (ok false, tx)
    else (ok true, record tx { state = next; updated_at = or_wall now wall })

record_reason :
    String
    → Time
    → Time
    → Result TransitionError Bool × Transaction
    → Result TransitionError Bool × Transaction
record_reason reason now wall (err e, tx) = (err e, tx)
record_reason reason now wall (ok changed, tx) =
    if trim_space reason == "" then (ok changed, tx) else (
      ok true,
      record tx {
        failure_reason = trim_space reason;
        updated_at = if changed then tx.updated_at else or_wall now wall;
      },
    )

unfoldable pub mark_failure :
    Transaction → String → Time → Time → Result TransitionError Bool × Transaction
unfolding record_reason transition
mark_failure tx reason now wall = record_reason reason now wall (transition tx failed now wall)

unfoldable pub requires_cleanup : Transaction → Bool
unfolding state_requires_cleanup
requires_cleanup tx = state_requires_cleanup tx.state

unfoldable pub available : RollbackMetadata → Bool
available m =
    not (is_empty m.tun)
    || not (is_empty m.routes)
    || not (is_empty m.policy_rules)
    || not (is_empty m.dns)
    || not (is_empty m.nftables)
    || not (is_empty m.generated_configs)
    || not (is_empty m.child_processes)

unfoldable pub summary : Transaction → String → TransactionSummary
unfolding available requires_cleanup
summary tx path = record {
  id = tx.id;
  state = tx.state;
  path = path;
  rollback_available = available tx.rollback;
  requires_cleanup = requires_cleanup tx;
}

line_of : TransactionState → Bool → String
unfolding state_text
line_of planned cleanup = "pending plan"
line_of applying cleanup = "pending apply"
line_of applied cleanup = "pending verification"
line_of verifying cleanup = "pending verification"
line_of committed cleanup = "committed"
line_of rolling_back cleanup = "requires cleanup (rolling back)"
line_of rolled_back cleanup = "rolled back"
line_of failed cleanup = if cleanup then "failed (requires cleanup)" else "failed"
line_of (other s) cleanup = s

unfoldable pub status_line : TransactionSummary → String
unfolding line_of
status_line s = line_of s.state s.requires_cleanup

unfoldable pub rollback_line : TransactionSummary → String
rollback_line s = if s.rollback_available then "yes" else "no"
