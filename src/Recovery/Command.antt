-- ===== src/Recovery/Command.antt =====
-- internal/recovery/recovery.go: running a command and reading its failure.
use tunwarden.Prelude.{
  String, Bool, true, false, not, ℤ, pos, negsuc, int_eq, Option, none, some, List, [], ◌∷◌, ◌++◌,
  any, is_empty, if◌then◌else◌, ◌==◌,
}
use tunwarden.Text.{◌<>◌, join, fields, to_lower, contains, int_text}
use tunwarden.Recovery.Host.{CommandResult, Env, M, ◌>>=◌, pure, look_path, run_command}

unfoldable pub command_succeeded : CommandResult → Option String → Bool
command_succeeded result none = int_eq result.exit_code 0
command_succeeded result (some e) = false

unfoldable pub command_failed_unexpectedly : CommandResult → Option String → Bool
command_failed_unexpectedly result none = not (int_eq result.exit_code 0)
command_failed_unexpectedly result (some e) = true

abbrev missing_markers : List String
missing_markers =
    "does not exist" ∷ "cannot find device" ∷ "no such file or directory" ∷ "no such table" ∷ []

unfoldable pub resource_missing : CommandResult → Bool
unfolding to_lower contains
resource_missing result =
    if int_eq result.exit_code 0
    then false
    else any (contains (to_lower (result.stdout <> " " <> result.stderr))) missing_markers

single_line : String → String
unfolding join fields
single_line s = join " " (fields s)

exit_part : ℤ → List String
exit_part (pos n) = ("exit code " <> int_text (pos n)) ∷ []
exit_part (negsuc n) = []

error_part : String → Option String → List String
error_part stderr none = []
error_part stderr (some e) = if stderr == "" then e ∷ [] else []

unfoldable pub command_failure_message : CommandResult → Option String → String
unfolding single_line exit_part error_part int_text
command_failure_message result error =
    let parts =
      exit_part result.exit_code
      ++ (if result.stderr == "" then [] else ("stderr: " <> single_line result.stderr) ∷ [])
      ++ error_part result.stderr error in
    if is_empty parts then "command failed" else join ", " parts

error_string_contains : String → List String → Bool
unfolding to_lower contains
error_string_contains error needles = any (contains (to_lower error)) needles

-- of an error that is there
unfoldable pub command_error_is_missing : String → Bool
unfolding error_string_contains
command_error_is_missing error = error_string_contains error (
    "does not exist" ∷ "cannot find device" ∷ "no such process" ∷ "no such file or directory"
    ∷ "no such table" ∷ "no such file" ∷ [])

module _ (env : Env) where
  unfoldable pub run_found : String → List String → Option String → M (Option String)
  unfolding command_succeeded command_failure_message
  run_found command args none = pure (some (command <> " command is unavailable"))
  run_found command args (some path) = do
    (result, error) ← run_command env path args
    pure (
        if command_succeeded result error
        then none
        else some (command <> " " <> join " " args <> ": " <> command_failure_message result error))

  -- `run`: the text of the error, if there is one
  unfoldable pub run : String → List String → M (Option String)
  unfolding run_found
  run command args = do path ← look_path env command; run_found command args path

-- `err != nil && !commandErrorIsMissing(err)`, with the error wrapped by `prefix`
unfoldable pub unless_missing : String → Option String → Option String
unfolding command_error_is_missing
unless_missing wrapped none = none
unless_missing wrapped (some e) =
    if command_error_is_missing e then none else some (wrapped <> ": " <> e)
