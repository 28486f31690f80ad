-- ===== src/Recovery/Host.antt =====
-- What recovery does to the host, as a log of actions, and what the host answers. The host is an
-- `Env`: each answer may depend on all that was done before.
use tunwarden.Prelude.{String, ℤ, Option, List, [], ◌∷◌, ◌++◌}
use tunwarden.Result.{Result}
use tunwarden.State.Transaction.{Transaction}

-- `CommandResult` of internal/recovery/recovery.go
pub record CommandResult : Type 0 where
  pub stdout : String
  pub stderr : String
  pub exit_code : ℤ

pub data OsError : Type 0 where
  not_exist : OsError
  other_error : String → OsError

pub data Action : Type 0 where
  looked_up : String → Action
  ran : String → List String → Action
  removed_all removed loaded : String → Action
  signalled : ℤ → Action

pub record Env : Type 0 where
  -- exec.LookPath
  pub look_path : List Action → String → Option String
  -- the command's result, and the text of its error
  pub run : List Action → String → List String → CommandResult × Option String
  -- os.RemoveAll and os.Remove
  pub remove_all : List Action → String → Option OsError
  pub remove : List Action → String → Option OsError
  -- LoadTransactionFile, with the text of its error
  pub load : List Action → String → Result String Transaction

-- A step of recovery: it appends its actions to the log and returns a value.
abbrev pub M : Type 0 → Type 0
M A = List Action → A × List Action

infixl 5 ◌>>=◌
unfoldable pub ◌>>=◌ : {A B : Type 0} → M A → (A → M B) → M B
◌>>=◌ m f log = let (a, log') = m log in f a log'

unfoldable pub pure : {A : Type 0} → A → M A
pure a log = (a, log)

abbrev log_action : Action → List Action → List Action
log_action a log = log ++ a ∷ []

module _ (env : Env) where
  unfoldable pub look_path : String → M (Option String)
  look_path command log = (env.look_path log command, log_action (looked_up command) log)

  unfoldable pub run_command : String → List String → M (CommandResult × Option String)
  run_command path args log = (env.run log path args, log_action (ran path args) log)

  unfoldable pub remove_all : String → M (Option OsError)
  remove_all path log = (env.remove_all log path, log_action (removed_all path) log)

  unfoldable pub remove : String → M (Option OsError)
  remove path log = (env.remove log path, log_action (removed path) log)

  unfoldable pub load_transaction : String → M (Result String Transaction)
  load_transaction path log = (env.load log path, log_action (loaded path) log)
