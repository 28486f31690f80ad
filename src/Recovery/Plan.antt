-- ===== src/Recovery/Plan.antt =====
-- internal/recovery/recovery.go: the scan of a host for candidates, their order, and the run over them.
pub mod Order
pub mod Outcome
use tunwarden.Prelude.{
  ℕ, ltb, String, Bool, true, false, not, ◌&&◌, ◌||◌, Option, none, some, List, [], ◌∷◌, ◌++◌, any,
  map, if◌then◌else◌, ◌==◌,
}
use tunwarden.Text.{◌<>◌, contains, trim_space}
use tunwarden.FilePath.{clean}
use tunwarden.State.Status.{state_text}
use tunwarden.State.Transaction.{TransactionSummary}
use tunwarden.State.Lifecycle.{status_line}
use tunwarden.Recovery.Host.{CommandResult, Env, M, ◌>>=◌, pure, look_path, run_command}
use tunwarden.Recovery.Command.{
  command_succeeded, command_failed_unexpectedly, resource_missing, command_failure_message,
}
use tunwarden.Recovery.Os.{with_defaults, generated_dir}
use tunwarden.Recovery.Results.{
  Candidate, TransactionCandidate, CleanupResult, failed, resource, is_broken, is_passed_over,
  default_runtime_dir, managed_interface, managed_nft_family, managed_nft_table_name,
  managed_nft_table,
}

pub record Warning : Type 0 where
  pub target : String
  pub message : String

-- `ScanResult`, and `PlanResult` with the same fields
pub record ScanResult : Type 0 where
  pub candidates : List Candidate
  pub warnings : List Warning

pub record ExecuteResult : Type 0 where
  pub results : List CleanupResult
  pub warnings : List Warning

unfoldable pub has_failures : ExecuteResult → Bool
has_failures r = any (λ result. is_broken result.status) r.results

abbrev pub is_incomplete : CleanupResult → Bool
is_incomplete result =
    is_passed_over result.status
    && (result.candidate.kind == "transaction-state"
        || contains result.message "transaction state was preserved")

unfoldable pub has_incomplete_cleanup : ExecuteResult → Bool
has_incomplete_cleanup r = any is_incomplete r.results

-- `runtimeDir`
unfoldable pub scan_runtime_dir : String → String
scan_runtime_dir dir = if trim_space dir == "" then default_runtime_dir else clean dir

-- os.Stat of the generated directory
pub data Stat : Type 0 where
  directory no_directory absent : Stat
  stat_failed : String → Stat

pub record CommandCandidateScan : Type 0 where
  pub command : String
  pub command_unavailable : String
  pub args : List String
  pub candidate : Candidate
  pub warning_target : String

abbrev pub add_candidate : Candidate → ScanResult → ScanResult
add_candidate c r = record r { candidates = r.candidates ++ c ∷ [] }

abbrev pub add_warning : String → String → ScanResult → ScanResult
add_warning target message r = record r {
  warnings = r.warnings ++ record { target = target; message = message } ∷ [];
}

-- the switch of `scanCommandCandidate`
judge : CommandCandidateScan → CommandResult → Option String → ScanResult → ScanResult
judge scan result e r =
    if command_succeeded result e
    then add_candidate scan.candidate r
    else if resource_missing result
    then r
    else if command_failed_unexpectedly result e
    then add_warning scan.warning_target (command_failure_message result e) r
    else r

abbrev pub interface_scan : CommandCandidateScan
interface_scan = record {
  command = "ip";
  command_unavailable = "ip command is unavailable";
  args = "link" ∷ "show" ∷ "dev" ∷ managed_interface ∷ [];
  candidate = resource "tun-interface" "TUN interface" managed_interface;
  warning_target = "TUN interface " <> managed_interface;
}

abbrev pub nft_table_scan : CommandCandidateScan
nft_table_scan = record {
  command = "nft";
  command_unavailable = "nft command is unavailable";
  args = "list" ∷ "table" ∷ managed_nft_family ∷ managed_nft_table_name ∷ [];
  candidate = resource "nftables-table" "nftables table" managed_nft_table;
  warning_target = "nftables table " <> managed_nft_table;
}

abbrev pub transaction_candidate : TransactionSummary → Candidate
transaction_candidate s = record {
  kind = "transaction-state";
  description = "transaction rollback state";
  target = s.path;
  transaction = some (record {
    id = s.id;
    state = state_text s.state;
    status = status_line s;
    rollback_available = s.rollback_available;
    requires_cleanup = s.requires_cleanup;
    path = s.path;
  });
}

pub add_transactions : List TransactionSummary → ScanResult → ScanResult
add_transactions [] r = r
add_transactions (s ∷ ss) r =
    add_transactions ss
      (if not s.requires_cleanup then r else add_candidate (transaction_candidate s) r)

pub add_transaction_warnings : List String → ScanResult → ScanResult
add_transaction_warnings [] r = r
add_transaction_warnings (w ∷ ws) r =
    add_transaction_warnings ws (add_warning "transaction state" w r)

-- from what `ScanTransactions` gives
unfoldable pub scan_transaction_state :
    List TransactionSummary × List String → ScanResult → ScanResult
unfolding add_transactions add_transaction_warnings
scan_transaction_state (summaries, warnings) r =
    add_transaction_warnings warnings (add_transactions summaries r)

unfoldable pub scan_generated_runtime_configs : String → Stat → ScanResult → ScanResult
scan_generated_runtime_configs dir directory r =
    add_candidate (resource "generated-runtime-configs" "generated runtime configs" dir) r
scan_generated_runtime_configs dir no_directory r =
    add_candidate (resource "generated-runtime-configs" "generated runtime config path" dir) r
scan_generated_runtime_configs dir absent r = r
scan_generated_runtime_configs dir (stat_failed e) r =
    add_warning ("generated runtime configs " <> dir) e r

unfoldable pub weight : String → ℕ
weight kind =
    if kind == "transaction-state"
    then 10
    else if kind == "nftables-table"
    then 20
    else if kind == "tun-interface"
    then 30
    else if kind == "generated-runtime-configs"
    then 40
    else if kind == "runtime-directory"
    then 50
    else 100

-- The inner loop: `candidate` moves to the front over the part that is ordered already. That part is kept
-- from its end to its start.
pub sift : Candidate → List Candidate → List Candidate
sift candidate [] = candidate ∷ []
sift candidate (before ∷ rest) =
    let moved = before ∷ sift candidate rest in
    if ltb (weight candidate.kind) (weight before.kind) then moved else candidate ∷ before ∷ rest

-- the outer loop
pub sift_all : List Candidate → List Candidate → List Candidate
sift_all ordered [] = ordered
sift_all ordered (c ∷ cs) = sift_all (sift c ordered) cs

-- from the end to the start, to the order of the slice
pub turned : List Candidate → List Candidate → List Candidate
turned acc [] = acc
turned acc (c ∷ cs) = turned (c ∷ acc) cs

unfoldable pub order_cleanup_candidates : List Candidate → List Candidate
unfolding sift sift_all turned
order_cleanup_candidates candidates = turned [] (sift_all [] candidates)

-- `Options.Executor`: nil, a plain executor, or one that gives many results
pub data Executor : Type 0 where
  no_executor : Executor
  single : (Candidate → M CleanupResult) → Executor
  multi : (Candidate → M (List CleanupResult)) → Executor

abbrev pub missing_executor : String
missing_executor = "missing daemon-owned recovery cleanup executor"

unfoldable pub run_one : Executor → Candidate → M (List CleanupResult)
run_one no_executor c = pure (failed c missing_executor ∷ [])
run_one (single run) c = run c >>= λ r. pure (r ∷ [])
run_one (multi run) c = run c

pub run_all : Executor → List Candidate → M (List CleanupResult)
run_all e [] = pure []
run_all e (c ∷ cs) = run_one e c >>= λ rs. run_all e cs >>= λ qs. pure (rs ++ qs)

-- `ExecuteWithOptions`, from the result of the scan
unfoldable pub execute : Executor → ScanResult → M ExecuteResult
unfolding run_all
execute e scan = run_all e (order_cleanup_candidates scan.candidates) >>= λ results.
    pure (record { results = results; warnings = scan.warnings })

module _ (env : Env) where
  unfoldable pub scan_command_candidate : CommandCandidateScan → ScanResult → M ScanResult
  unfolding judge
  scan_command_candidate scan r = look_path env scan.command >>= λ found. elim found [
    | none ↦ pure (add_warning scan.warning_target scan.command_unavailable r)
    | some path ↦ run_command env path scan.args >>= λ (result, e). pure (judge scan result e r)
  ]

  -- `OSScanner.Scan`, given what is in the directories
  unfoldable pub scan : String → List TransactionSummary × List String → Stat → M ScanResult
  scan runtime_dir transactions stat =
      scan_command_candidate interface_scan (record { candidates = []; warnings = [] })
      >>= scan_command_candidate nft_table_scan
      >>= λ r. pure (
          scan_generated_runtime_configs (generated_dir (scan_runtime_dir runtime_dir)) stat
            (scan_transaction_state transactions r))
