-- ===== src/Recovery/Results.antt =====
-- internal/recovery/recovery.go: candidates, the results of their cleanup, and their checks.
use tunwarden.Prelude.{
  String, Bool, true, false, not, ◌&&◌, ◌||◌, Option, none, some, List, [], ◌∷◌, if◌then◌else◌,
  ◌==◌,
}
use tunwarden.Text.{trim_space, fields, has_prefix, has_suffix}
use tunwarden.FilePath.{clean, join_path, rel_below}

abbrev pub default_runtime_dir : String
default_runtime_dir = "/run/podlaz"

abbrev pub generated_dir_name : String
generated_dir_name = "generated"

abbrev pub managed_interface : String
managed_interface = "podlaz0"

abbrev pub managed_nft_family : String
managed_nft_family = "inet"

abbrev pub managed_nft_table_name : String
managed_nft_table_name = "podlaz"

abbrev pub managed_nft_table : String
managed_nft_table = "inet podlaz"

abbrev pub managed_route_table : String
managed_route_table = "podlaz"

abbrev pub managed_route_table_id : String
managed_route_table_id = "51820"

pub record TransactionCandidate : Type 0 where
  pub id : String
  pub state : String
  pub status : String
  pub rollback_available : Bool
  pub requires_cleanup : Bool
  pub path : String

pub record Candidate : Type 0 where
  pub kind : String
  pub description : String
  pub target : String
  pub transaction : Option TransactionCandidate

-- the strings "recovered", "skipped" and "failed"
pub data CleanupStatus : Type 0 where
  done passed_over broken : CleanupStatus

pub record CleanupResult : Type 0 where
  pub candidate : Candidate
  pub status : CleanupStatus
  pub message : String

unfoldable pub recovered : Candidate → CleanupResult
recovered candidate = record { candidate = candidate; status = done; message = "" }

unfoldable pub skipped : Candidate → String → CleanupResult
skipped candidate message = record {
  candidate = candidate;
  status = passed_over;
  message = message;
}

unfoldable pub failed : Candidate → String → CleanupResult
failed candidate error = record { candidate = candidate; status = broken; message = error }

abbrev pub is_broken : CleanupStatus → Bool
is_broken broken = true
is_broken _ = false

abbrev pub is_passed_over : CleanupStatus → Bool
is_passed_over passed_over = true
is_passed_over _ = false

-- a candidate that is no transaction
abbrev pub resource : String → String → String → Candidate
resource kind description target = record {
  kind = kind;
  description = description;
  target = target;
  transaction = none;
}

two_fields : List String → Option (String × String)
two_fields (family ∷ table ∷ []) = some (family, table)
two_fields _ = none

unfoldable pub parse_nft_target : String → Option (String × String)
unfolding two_fields fields
parse_nft_target target = two_fields (fields target)

unfoldable pub is_managed_nft_target : String → String → Bool
is_managed_nft_target family table =
    trim_space family == managed_nft_family && trim_space table == managed_nft_table_name

unfoldable pub managed_table_token : String → Option String
managed_table_token table =
    if trim_space table == managed_route_table || trim_space table == managed_route_table_id
    then some managed_route_table_id
    else none

-- the test of `rel` in `isUnderDir`
is_inner : Option String → Bool
unfolding has_prefix
is_inner none = false
is_inner (some rel) = not (rel == ".") && not (has_prefix rel "..") && not (has_prefix rel "/")

unfoldable pub is_under_dir : String → String → Bool
unfolding is_inner
is_under_dir dir path =
    if clean path == clean dir then true else is_inner (rel_below (clean dir) (clean path))

unfoldable pub is_transaction_path : String → String → Bool
unfolding has_suffix
is_transaction_path runtime_dir path =
    is_under_dir (join_path (runtime_dir ∷ "transactions" ∷ [])) path && has_suffix path ".json"

unfoldable pub same_clean_path : String → String → Bool
same_clean_path a b = clean a == clean b
