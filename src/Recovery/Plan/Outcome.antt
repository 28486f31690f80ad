-- ===== src/Recovery/Plan/Outcome.antt =====
-- What a whole run of the cleanup does, and what its report says.
use tunwarden.Prelude.{
  String, ◌≡◌, Bool, true, false, not, ◌&&◌, Option, none, some, List, [], ◌∷◌, ◌++◌, All,
}
use tunwarden.Result.{Result, ok}
use tunwarden.FilePath.{clean}
use tunwarden.State.Lifecycle.{requires_cleanup}
use tunwarden.State.Transaction.{Transaction}
use tunwarden.Recovery.Host.{OsError, not_exist, other_error, Action, removed, Env, remove}
use tunwarden.Recovery.Results.{Candidate, TransactionCandidate, CleanupResult}
use tunwarden.Recovery.Os.{with_defaults}
use tunwarden.Recovery.Daemon.{cleanup_many}
use tunwarden.Recovery.Daemon.Safety.{cleanup_many-Safely}
use tunwarden.Recovery.Allowed.{Allowed, Safely, Safely-bind, Safely-then, safely_rules}
use tunwarden.Recovery.Plan.{
  ScanResult, ExecuteResult, has_failures, has_incomplete_cleanup, Executor, multi, run_one,
  run_all, execute,
}

module _ (env : Env) (runtime_dir : String) where
  -- `DaemonCleanupExecutor` as the executor of a run
  abbrev pub daemon_executor : Executor
  daemon_executor = multi (cleanup_many env runtime_dir)

  run_all-Safely :
      (cs : List Candidate)
      → Safely (Allowed (with_defaults runtime_dir)) (run_all daemon_executor cs)
  unfolding run_all run_one
  run_all-Safely [] = search safely_rules
  run_all-Safely (c ∷ cs) =
      Safely-bind _ (run_one daemon_executor c) _ (cleanup_many-Safely env runtime_dir c)
        (λ rs. Safely-then _ (run_all daemon_executor cs) (λ qs. rs ++ qs) (run_all-Safely cs))

  execute-Safely :
      (scan : ScanResult)
      → Safely (Allowed (with_defaults runtime_dir)) (execute daemon_executor scan)
  unfolding execute
  execute-Safely scan = search (safely_rules, run_all-Safely)

-- Whatever a scan reports, whatever the transaction files hold and whatever the host answers, each action of
-- the privileged run is on the allow list: it looks up `ip`, `nft` or `resolvectl`, runs one of the allowed
-- deletions of the program's own resources, loads or removes a file of the transactions directory, or
-- removes a path in the generated directory. In particular it never signals a process.
pub execute-Allowed :
    (env : Env) (runtime_dir : String) (scan : ScanResult) (log : List Action)
    → (actions : List Action) × ((execute (daemon_executor env runtime_dir) scan log).1
        ≡ log ++ actions)
      × All (Allowed (with_defaults runtime_dir)) actions
execute-Allowed env runtime_dir scan log =
    let k = execute-Safely env runtime_dir scan in (k.new log, k.appends log, k.holds log)

-- what makes the report of a run bad, on the results of one candidate
unfoldable pub report_of : List CleanupResult → ExecuteResult
report_of results = record { results = results; warnings = [] }

unfoldable pub is_clean : List CleanupResult → Bool
is_clean results =
    not (has_failures (report_of results)) && not (has_incomplete_cleanup (report_of results))

-- os.Remove removed the file, or found it gone
abbrev pub is_gone : Option OsError → Bool
is_gone none = true
is_gone (some not_exist) = true
is_gone (some (other_error m)) = false

-- the last action of the log removed the file of the path, or found it gone
abbrev pub Gone : Env → String → List Action → Type 0
Gone env path log =
    (before : List Action) × (log ≡ before ++ removed path ∷ [])
    × (is_gone (env.remove before path) ≡ true)

pub NeedsNoCleanup : Result String Transaction → Type 0
NeedsNoCleanup r = (tx : Transaction) × (r ≡ ok tx) × (requires_cleanup tx ≡ false)

-- the file that the candidate names holds a transaction that needs no cleanup
pub NothingDue : Env → Candidate → Type 0
unfolding NeedsNoCleanup
NothingDue env c =
    (t : TransactionCandidate) × (c.transaction ≡ some t)
    × NeedsNoCleanup (env.load [] (clean t.path))

-- the last action removed the file that the candidate names, or found it gone
abbrev pub CandidateGone : Env → Candidate → List Action → Type 0
CandidateGone env c log =
    (t : TransactionCandidate) × (c.transaction ≡ some t) × Gone env (clean t.path) log
