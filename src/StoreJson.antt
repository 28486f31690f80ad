-- ===== src/StoreJson.antt =====
-- internal/storejson/write.go: the writer that replaces the file of a store. The calls of `os` work on
-- the disk of State/Disk; what the codec makes of the value is an argument.
pub mod Atomic
use tunwarden.Prelude.{String, Bool, true, false, Option, none, some, if◌then◌else◌}
use tunwarden.Result.{Result, ok, err}
use tunwarden.State.Disk.{
  Disk, faulty, next_call, remove_temp, perform_create, perform_write, perform_rename,
}

pub data Operation : Type 0 where
  encode_json create_directory create_temp_file set_temp_permissions write_temp_file : Operation
  sync_temp_file close_temp_file rename_temp_file sync_parent_directory : Operation

abbrev pub Outcome : Type 0 → Type 0
Outcome B = Result Operation (Unit {0}) × Disk B

module _ {B : Type 0} where
  -- a call that does `effect` unless it fails, with what follows either way
  unfoldable pub calling {ℓ} :
      {R : Type ℓ} → (Disk B → Disk B) → (Disk B → R) → (Disk B → R) → Disk B → R
  unfolding faulty next_call
  calling effect failed succeeded d =
      if faulty d then failed (next_call d) else succeeded (effect (next_call d))

  abbrev stopped : Operation → Disk B → Outcome B
  stopped op d = (err op, d)

  -- the deferred os.Remove of the temporary file, which still stands
  unfoldable discarded : Operation → Disk B → Outcome B
  unfolding remove_temp
  discarded op d = (err op, remove_temp d)

  -- the same behind `closeTmp`, whose error is dropped
  unfoldable closed : Operation → Disk B → Outcome B
  unfolding discarded next_call
  closed op d = discarded op (next_call d)

  -- the deferred os.Remove behind the rename: the name is gone
  unfoldable renamed : Result Operation (Unit {0}) → Disk B → Outcome B
  unfolding next_call
  renamed r d = (r, next_call d)

  unfoldable close_dir : Disk B → Outcome B
  unfolding calling renamed
  close_dir = calling (λ d. d) (renamed (err sync_parent_directory)) (renamed (ok tt))

  -- where the sync fails the directory is closed all the same
  unfoldable sync_open_dir : Disk B → Outcome B
  unfolding calling renamed next_call close_dir
  sync_open_dir =
      calling (λ d. d) (λ d. renamed (err sync_parent_directory) (next_call d)) close_dir

  -- `SyncDir`
  unfoldable sync_dir : Disk B → Outcome B
  unfolding calling renamed sync_open_dir
  sync_dir = calling (λ d. d) (renamed (err sync_parent_directory)) sync_open_dir

  module _ (path : String) where
    unfoldable rename_temp : Disk B → Outcome B
    unfolding calling discarded sync_dir perform_rename
    rename_temp = calling (perform_rename path) (discarded rename_temp_file) sync_dir

    unfoldable close_temp : Disk B → Outcome B
    unfolding calling discarded rename_temp
    close_temp = calling (λ d. d) (discarded close_temp_file) rename_temp

    unfoldable sync_temp : Disk B → Outcome B
    unfolding calling closed close_temp
    sync_temp = calling (λ d. d) (closed sync_temp_file) close_temp

    unfoldable write_temp : B → Disk B → Outcome B
    unfolding calling closed sync_temp perform_write
    write_temp content = calling (perform_write content) (closed write_temp_file) sync_temp

    unfoldable replaced_file : B → Disk B → Outcome B
    unfolding calling closed write_temp
    replaced_file content = calling (λ d. d) (closed set_temp_permissions) (write_temp content)

  encoded_file : Option B → String → Disk B → Outcome B
  unfolding calling replaced_file perform_create
  encoded_file none path d = (err encode_json, d)
  encoded_file (some content) path d =
      calling (λ d. d) (stopped create_directory)
        (calling perform_create (stopped create_temp_file) (replaced_file path content)) d

  unfoldable pub write_file : Option B → String → Disk B → Outcome B
  unfolding encoded_file
  write_file content path d = encoded_file content path d
