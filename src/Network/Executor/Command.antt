-- ===== src/Network/Executor/Command.antt =====
-- internal/network/executor/command.go: running a command, and the text of its error.
use tunwarden.Prelude.{
  String, Bool, not, int_eq, Option, none, some, List, [], ◌∷◌, ◌++◌, any, if◌then◌else◌, ◌==◌,
}
use tunwarden.Text.{◌<>◌, trim_space, join, to_lower, contains, int_text}
use tunwarden.Recovery.Host.{CommandResult, Env, M, ◌>>=◌, pure, run_command}
use tunwarden.Recovery.Command.{command_succeeded}

-- `Step`
pub record Step : Type 0 where
  pub kind : String
  pub target : String
  pub description : String
  pub owner : String

runner_part : String → Option String → List String
runner_part stderr none = []
runner_part stderr (some e) = if trim_space stderr == "" then e ∷ [] else []

-- `commandError.Error`
unfoldable pub command_error_text : String → List String → CommandResult → Option String → String
unfolding runner_part
command_error_text name args result e = join ": " (
    (name <> " " <> join " " args) ∷ []
    ++ (if not (int_eq result.exit_code 0)
        then ("exit code " <> int_text result.exit_code) ∷ []
        else [])
    ++ (if not (trim_space result.stderr == "")
        then ("stderr: " <> trim_space result.stderr) ∷ []
        else [])
    ++ runner_part result.stderr e)

-- the words that `resourceMissing` looks for
abbrev missing_needles : List String
missing_needles =
    "does not exist" ∷ "cannot find device" ∷ "no such process" ∷ "no such file or directory"
    ∷ "no such table" ∷ "no such file" ∷ []

-- `resourceMissing`, on the text of an error
unfoldable pub error_is_missing : String → Bool
error_is_missing e = any (contains (to_lower e)) missing_needles

-- an error counts unless the resource was gone already
unfoldable pub failure_of : Option String → Option String
failure_of none = none
failure_of (some e) = if error_is_missing e then none else some e

abbrev pub wrapped : String → Option String → Option String
wrapped doing none = none
wrapped doing (some e) = some (doing <> ": " <> e)

-- errors.Join of two errors that are there or not, `first` among them
abbrev pub joined : String → Option String → String
joined first none = first
joined first (some e) = first <> "\n" <> e

module _ (env : Env) where
  unfoldable pub observe_command : String → List String → M (CommandResult × Option String)
  observe_command name args = run_command env name args >>= λ (result, e). pure (
    result,
    if command_succeeded result e then none else some (command_error_text name args result e),
  )

  -- `runCommand`: the text of the error, if there is one
  unfoldable pub run_ip : List String → M (Option String)
  run_ip args = observe_command "ip" args >>= λ (result, e). pure e

  unfoldable pub flush_ipv4_route_cache : M (Option String)
  flush_ipv4_route_cache = run_ip ("-4" ∷ "route" ∷ "flush" ∷ "cache" ∷ [])

  -- a deletion, and then a flush of the cache
  unfoldable pub delete_and_flush : List String → String → String → M (Option String)
  unfolding failure_of
  delete_and_flush args deleting flushing = run_ip args >>= λ e. elim (failure_of e) [
    | some m ↦ pure (some (deleting <> ": " <> m))
    | none ↦ flush_ipv4_route_cache >>= λ f. pure (wrapped flushing f)
  ]

  -- `runCommand` of another program
  unfoldable pub run_tool : String → List String → M (Option String)
  run_tool name args = observe_command name args >>= λ (result, e). pure e
