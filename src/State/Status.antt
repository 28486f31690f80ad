-- ===== src/State/Status.antt =====
-- internal/state/transaction.go: the lifecycle states and the transitions between them.
pub mod Edges
use tunwarden.Prelude.{String, Bool, true, false, ◌||◌, ◌==◌, if◌then◌else◌}

-- A Go `TransactionState` is any string; `other` holds the ones that no constant names.
pub data TransactionState : Type 0 where
  planned applying applied verifying committed rolling_back rolled_back failed : TransactionState
  other : String → TransactionState

unfoldable pub state_text : TransactionState → String
state_text planned = "planned"
state_text applying = "applying"
state_text applied = "applied"
state_text verifying = "verifying"
state_text committed = "committed"
state_text rolling_back = "rolling_back"
state_text rolled_back = "rolled_back"
state_text failed = "failed"
state_text (other s) = s

-- `==` on states
abbrev pub same_state : TransactionState → TransactionState → Bool
same_state planned planned = true
same_state applying applying = true
same_state applied applied = true
same_state verifying verifying = true
same_state committed committed = true
same_state rolling_back rolling_back = true
same_state rolled_back rolled_back = true
same_state failed failed = true
same_state (other s) (other t) = s == t
same_state _ _ = false

unfoldable pub valid_transaction_state : TransactionState → Bool
valid_transaction_state (other s) = false
valid_transaction_state _ = true

-- the `switch from` of `validTransition`
valid_step : TransactionState → TransactionState → Bool
valid_step planned to = same_state to applying || same_state to failed || same_state to rolling_back
valid_step applying to = same_state to applied || same_state to rolling_back || same_state to failed
valid_step applied to =
    same_state to verifying || same_state to rolling_back || same_state to failed
valid_step verifying to =
    same_state to committed || same_state to rolling_back || same_state to failed
valid_step committed to = same_state to rolling_back || same_state to failed
valid_step rolling_back to = same_state to rolled_back || same_state to failed
valid_step failed to = same_state to rolling_back
valid_step rolled_back to = false
valid_step (other s) to = false

unfoldable pub valid_transition : TransactionState → TransactionState → Bool
unfolding valid_transaction_state valid_step
valid_transition from to =
    if same_state from to then valid_transaction_state from else valid_step from to

unfoldable pub state_requires_cleanup : TransactionState → Bool
state_requires_cleanup planned = true
state_requires_cleanup applying = true
state_requires_cleanup applied = true
state_requires_cleanup verifying = true
state_requires_cleanup rolling_back = true
state_requires_cleanup failed = true
state_requires_cleanup _ = false
