-- ===== src/Subscription/Workflow.antt =====
-- internal/sub/source_workflow.go: `runSourceWorkflow`, from the fetched and parsed subscription on. The
-- two stores stand on one disk, which the caller's hook may change too.
pub mod Restore
pub mod Steps
pub mod Undone
use tunwarden.Prelude.{
  String, Bool, true, false, List, [], ◌∷◌, Option, none, some, map, if◌then◌else◌, ◌==◌,
}
use tunwarden.Result.{Result, ok, err}
use tunwarden.State.Transaction.{Time}
use tunwarden.State.Disk.{Disk, lookup, put}
use tunwarden.StoreJson.{calling}
use tunwarden.Profile.Model.{Profile}
use tunwarden.Profile.Provider.{Library}
use tunwarden.Profile.Contents.{StoreError, SubscriptionUpdateDiff}
use tunwarden.Profile.Store.{Codec, store_replace_subscription_profiles}
use tunwarden.Subscription.Source.{Source, Url}
use tunwarden.Subscription.Sources.{SourceError, SourceCodec, add_source, update_source}

-- what the fetch and the parse have given
pub record PreparedSource : Type 0 where
  pub source : Source
  pub format : String
  pub profiles : List Profile

pub record SourceWorkflowRequest (B : Type 0) : Type 0 where
  pub prepared : PreparedSource
  pub previous_profile_ids : List String
  pub adds_source : Bool
  -- the hook, with the text of its error
  pub after_profile_apply : Option (Disk B → Option String × Disk B)
  pub now : Time

pub data Cause : Type 0 where
  snapshot_failed : String → Cause
  source_cause : SourceError → Cause
  profile_cause : StoreError → Cause
  hook_failed : String → Cause

pub data RestoreError : Type 0 where
  remove_failed make_dir_failed rewrite_failed : String → RestoreError

-- the error of the workflow, and those of the restoring
pub data WorkflowError : Type 0 where
  workflow_failed : Cause → List RestoreError → WorkflowError

-- a path, and the content of its file, if there is one
abbrev pub FileSnapshot : Type 0 → Type 0
FileSnapshot C = String × Option (Option C)

with_restore_error : Option RestoreError → List RestoreError → List RestoreError
with_restore_error none es = es
with_restore_error (some e) es = e ∷ es

abbrev pub WorkflowOutcome : Type 0 → Type 0
WorkflowOutcome C = Result WorkflowError (Source × SubscriptionUpdateDiff) × Disk C

module _ {B : Type 0} where
  unfoldable pub remove_file : String → List (String × Option B) → List (String × Option B)
  remove_file path [] = []
  remove_file path ((name, content) ∷ rest) =
      let kept = remove_file path rest in if name == path then kept else (name, content) ∷ kept

  abbrev pub set_file : String → Option B → Disk B → Disk B
  set_file path content d = record d { files = put path content d.files }

  -- `restoreSourceWorkflowFile`: os.WriteFile empties the file before it writes
  unfoldable pub restore_file : FileSnapshot B → Disk B → Option RestoreError × Disk B
  unfolding calling remove_file put
  restore_file (path, none) =
      calling (λ d. record d { files = remove_file path d.files })
        (λ d. (some (remove_failed path), d)) (λ d. (none, d))
  restore_file (path, some content) =
      calling (λ d. d) (λ d. (some (make_dir_failed path), d))
        (calling (set_file path none) (λ d. (some (rewrite_failed path), d))
          (calling (set_file path content) (λ d. (some (rewrite_failed path), d)) (λ d. (none, d))))

  unfoldable pub restore_files : List (FileSnapshot B) → Disk B → List RestoreError × Disk B
  unfolding restore_file with_restore_error
  restore_files [] d = ([], d)
  restore_files (s ∷ ss) d =
      let (e, d1) = restore_file s d in
      let (es, d2) = restore_files ss d1 in (with_restore_error e es, d2)

  unfoldable pub plain_failure : Cause → Disk B → WorkflowOutcome B
  plain_failure c d = (err (workflow_failed c []), d)

  -- `rollbackSourceWorkflowState`
  unfoldable pub rollback_source_workflow_state :
      Cause → List (FileSnapshot B) → Disk B → WorkflowOutcome B
  unfolding restore_files
  rollback_source_workflow_state c ss d =
      let (es, d') = restore_files ss d in (err (workflow_failed c es), d')

  -- `snapshotSourceWorkflowFile`, with what follows either way
  unfoldable pub snapshot_file {ℓ} :
      {R : Type ℓ} → String → (Cause → Disk B → R) → (FileSnapshot B → Disk B → R) → Disk B → R
  unfolding calling lookup
  snapshot_file path failed taken =
      calling (λ d. d) (failed (snapshot_failed path)) (λ d. taken (path, lookup path d.files) d)

module _ (l : Library) (parse_url : String → Option Url) {B : Type 0} (codec : Codec B)
    (source_codec : SourceCodec B) (profiles_path sources_path : String)
    (r : SourceWorkflowRequest B) where
  -- the source as it is stored at the end
  pub linked_source : Source
  linked_source = record r.prepared.source {
    format = r.prepared.format;
    profile_ids = map (λ (p : Profile). p.id) r.prepared.profiles;
    last_updated_at = r.now;
  }

  after_update :
      List (FileSnapshot B)
      → SubscriptionUpdateDiff
      → Result SourceError (Unit {0}) × Disk B
      → WorkflowOutcome B
  unfolding rollback_source_workflow_state linked_source
  after_update ss diff (ok u, d) = (ok (linked_source, diff), d)
  after_update ss diff (err e, d) = rollback_source_workflow_state (source_cause e) ss d

  updated : List (FileSnapshot B) → SubscriptionUpdateDiff → Disk B → WorkflowOutcome B
  unfolding after_update update_source linked_source
  updated ss diff d =
      after_update ss diff (update_source parse_url source_codec sources_path linked_source d)

  after_hook :
      List (FileSnapshot B) → SubscriptionUpdateDiff → Option String × Disk B → WorkflowOutcome B
  unfolding updated rollback_source_workflow_state
  after_hook ss diff (some m, d) = rollback_source_workflow_state (hook_failed m) ss d
  after_hook ss diff (none, d) = updated ss diff d

  hooked :
      List (FileSnapshot B)
      → SubscriptionUpdateDiff
      → Option (Disk B → Option String × Disk B)
      → Disk B
      → WorkflowOutcome B
  unfolding updated after_hook
  hooked ss diff none d = updated ss diff d
  hooked ss diff (some hook) d = after_hook ss diff (hook d)

  after_replace :
      FileSnapshot B
      → FileSnapshot B
      → SubscriptionUpdateDiff × (Result StoreError (Unit {0}) × Disk B)
      → WorkflowOutcome B
  unfolding hooked rollback_source_workflow_state
  after_replace subs profs (diff, (ok u, d)) =
      hooked (profs ∷ subs ∷ []) diff r.after_profile_apply d
  after_replace subs profs (diff, (err e, d)) =
      rollback_source_workflow_state (profile_cause e)
        (if r.adds_source then profs ∷ subs ∷ [] else profs ∷ []) d

  replace_profiles : FileSnapshot B → FileSnapshot B → Disk B → WorkflowOutcome B
  unfolding after_replace store_replace_subscription_profiles
  replace_profiles subs profs d = after_replace subs profs (
      store_replace_subscription_profiles l codec profiles_path r.previous_profile_ids
        r.prepared.profiles d)

  no_profile_snapshot : FileSnapshot B → Cause → Disk B → WorkflowOutcome B
  unfolding plain_failure rollback_source_workflow_state
  no_profile_snapshot subs c d =
      if r.adds_source then rollback_source_workflow_state c (subs ∷ []) d else plain_failure c d

  profile_part : FileSnapshot B → Disk B → WorkflowOutcome B
  unfolding snapshot_file no_profile_snapshot replace_profiles
  profile_part subs = snapshot_file profiles_path (no_profile_snapshot subs) (replace_profiles subs)

  after_add : FileSnapshot B → Result SourceError (Unit {0}) × Disk B → WorkflowOutcome B
  unfolding profile_part plain_failure
  after_add subs (ok u, d) = profile_part subs d
  after_add subs (err e, d) = plain_failure (source_cause e) d

  add_part : FileSnapshot B → Disk B → WorkflowOutcome B
  unfolding after_add profile_part add_source
  add_part subs d =
      if r.adds_source
      then after_add subs (add_source parse_url source_codec sources_path r.prepared.source d)
      else profile_part subs d

  unfoldable pub run_source_workflow : Disk B → WorkflowOutcome B
  unfolding snapshot_file add_part plain_failure
  run_source_workflow = snapshot_file sources_path plain_failure add_part
