-- ===== src/StoreJson/Atomic.antt =====
-- The writer replaces a file as a whole or leaves it alone.
use tunwarden.Prelude.{
  String, ◌≡◌, refl, ◌⊎◌, inl, inr, Option, none, some, List, ◌∷◌, ap, ◌∙◌, Bool-cases,
}
use tunwarden.Result.{ok, err}
use tunwarden.State.Disk.{Disk, faulty, next_call, perform_create, perform_write, perform_rename}
use tunwarden.State.Store.Effects.{
  Pending, Holding, Holding-next, Holding→Pending, Untouched, Untouched-remove_temp, Holding-write,
  Replaced, Replaced-rename, files-next_call, temps-next_call,
}
use tunwarden.StoreJson.{
  Operation, create_directory, create_temp_file, set_temp_permissions, write_temp_file,
  sync_temp_file, close_temp_file, rename_temp_file, sync_parent_directory, Outcome, calling,
  stopped, discarded, closed, renamed, close_dir, sync_open_dir, sync_dir, rename_temp, close_temp,
  sync_temp, write_temp, replaced_file, encoded_file, write_file,
}

pub calling-ends {ℓ} :
    {B : Type 0} {R : Type ℓ} (P : R → Type 0) (effect : Disk B → Disk B) (f s : Disk B → R)
    (d : Disk B)
    → P (f (next_call d))
    → P (s (effect (next_call d)))
    → P (calling effect f s d)
unfolding calling
calling-ends P effect f s d h k = elim (Bool-cases (faulty d)) [ inl e ↦ rw e h | inr e ↦ rw e k ]

module _ {B : Type 0} (files : List (String × Option B)) (temps : List (Option B))
    (path : String) where
  -- How the writing of `content` may end. Behind a result the content stands at the path; behind an error
  -- nothing has changed, or the replacement is complete and the directory has not been synced.
  abbrev pub Written : Option B → Outcome B → Type 0
  Written content (ok _, d) = (b : B) × (content ≡ some b) × Replaced files temps path b d
  Written content (err op, d) =
      Untouched files temps d
      ⊎ ((op ≡ sync_parent_directory)
          × (b : B) × (content ≡ some b)
          × Replaced files temps path b d)

  abbrev Same : Disk B → Type 0
  Same d = (d.files ≡ files) × (d.temps ≡ temps)

  Same-next : (d : Disk B) → Same d → Same (next_call d)
  Same-next d (f, t) = (files-next_call d ∙ f, temps-next_call d ∙ t)

  module _ (b : B) where
    Replaced-next :
        (d : Disk B) → Replaced files temps path b d → Replaced files temps path b (next_call d)
    Replaced-next d (f, t) = (files-next_call d ∙ f, temps-next_call d ∙ t)

    discarded-Written :
        (op : Operation) (d : Disk B) → Pending files temps d → Written (some b) (discarded op d)
    unfolding discarded
    discarded-Written op d h = inl (Untouched-remove_temp files temps d h)

    closed-Written :
        (op : Operation) (t : Option B) (d : Disk B)
        → Holding files temps t d
        → Written (some b) (closed op d)
    unfolding closed
    closed-Written op t d h = discarded-Written op (next_call d) (Holding→Pending files temps t d h)

    unsynced-Written :
        (d : Disk B)
        → Replaced files temps path b d
        → Written (some b) (renamed (err sync_parent_directory) d)
    unfolding renamed
    unsynced-Written d h = inr (refl, b, refl, Replaced-next d h)

    close_dir-Written :
        (d : Disk B) → Replaced files temps path b d → Written (some b) (close_dir d)
    unfolding close_dir renamed
    close_dir-Written d h =
        let k = Replaced-next d h in
        calling-ends (Written (some b)) (λ d. d) (renamed (err sync_parent_directory))
          (renamed (ok tt)) d (unsynced-Written (next_call d) k)
          (b, refl, Replaced-next (next_call d) k)

    sync_open_dir-Written :
        (d : Disk B) → Replaced files temps path b d → Written (some b) (sync_open_dir d)
    unfolding sync_open_dir
    sync_open_dir-Written d h =
        let k = Replaced-next d h in
        calling-ends (Written (some b)) (λ d. d)
          (λ d. renamed (err sync_parent_directory) (next_call d)) close_dir d
          (unsynced-Written (next_call (next_call d)) (Replaced-next (next_call d) k))
          (close_dir-Written (next_call d) k)

    sync_dir-Written : (d : Disk B) → Replaced files temps path b d → Written (some b) (sync_dir d)
    unfolding sync_dir
    sync_dir-Written d h =
        let k = Replaced-next d h in
        calling-ends (Written (some b)) (λ d. d) (renamed (err sync_parent_directory)) sync_open_dir
          d (unsynced-Written (next_call d) k) (sync_open_dir-Written (next_call d) k)

    rename_temp-Written :
        (d : Disk B) → Holding files temps (some b) d → Written (some b) (rename_temp path d)
    unfolding rename_temp
    rename_temp-Written d h =
        calling-ends (Written (some b)) (perform_rename path) (discarded rename_temp_file) sync_dir
          d
          (discarded-Written rename_temp_file (next_call d)
            (Holding→Pending files temps (some b) d h))
          (sync_dir-Written (perform_rename path (next_call d))
            (Replaced-rename files temps path b d h))

    close_temp-Written :
        (d : Disk B) → Holding files temps (some b) d → Written (some b) (close_temp path d)
    unfolding close_temp
    close_temp-Written d h =
        calling-ends (Written (some b)) (λ d. d) (discarded close_temp_file) (rename_temp path) d
          (discarded-Written close_temp_file (next_call d)
            (Holding→Pending files temps (some b) d h))
          (rename_temp-Written (next_call d) (Holding-next files temps (some b) d h))

    sync_temp-Written :
        (d : Disk B) → Holding files temps (some b) d → Written (some b) (sync_temp path d)
    unfolding sync_temp
    sync_temp-Written d h =
        calling-ends (Written (some b)) (λ d. d) (closed sync_temp_file) (close_temp path) d
          (closed-Written sync_temp_file (some b) (next_call d)
            (Holding-next files temps (some b) d h))
          (close_temp-Written (next_call d) (Holding-next files temps (some b) d h))

    write_temp-Written :
        (d : Disk B) → Holding files temps none d → Written (some b) (write_temp path b d)
    unfolding write_temp
    write_temp-Written d h =
        calling-ends (Written (some b)) (perform_write b) (closed write_temp_file) (sync_temp path)
          d (closed-Written write_temp_file none (next_call d) (Holding-next files temps none d h))
          (sync_temp-Written (perform_write b (next_call d)) (Holding-write files temps b none d h))

    replaced_file-Written :
        (d : Disk B) → Holding files temps none d → Written (some b) (replaced_file path b d)
    unfolding replaced_file
    replaced_file-Written d h =
        calling-ends (Written (some b)) (λ d. d) (closed set_temp_permissions) (write_temp path b) d
          (closed-Written set_temp_permissions none (next_call d)
            (Holding-next files temps none d h))
          (write_temp-Written (next_call d) (Holding-next files temps none d h))

  encoded_file-Written :
      (content : Option B) (d : Disk B) → Same d → Written content (encoded_file content path d)
  unfolding encoded_file perform_create
  encoded_file-Written none d (f, t) = inl (f, inl t)
  encoded_file-Written (some b) d h0 =
      let h1 = Same-next d h0 in
      let h2 = Same-next (next_call d) h1 in
      calling-ends (Written (some b)) (λ d. d) (stopped create_directory)
        (calling perform_create (stopped create_temp_file) (replaced_file path b)) d
        (inl (h1.0, inl h1.1))
        (calling-ends (Written (some b)) perform_create (stopped create_temp_file)
          (replaced_file path b) (next_call d) (inl (h2.0, inl h2.1))
          (replaced_file-Written b (perform_create (next_call (next_call d)))
            (h2.0, ap (◌∷◌ none) h2.1)))

-- `WriteFile` is atomic, whichever of its calls fail: behind a result the encoded value stands at the
-- path, no other file has changed and no temporary file is left; behind an error no file has changed
-- and at most one temporary file is left, or the replacement is complete and only the sync of the
-- directory has failed.
pub write_file_is_atomic :
    {B : Type 0} (content : Option B) (path : String) (d : Disk B)
    → Written d.files d.temps path content (write_file content path d)
unfolding write_file
write_file_is_atomic content path d =
    encoded_file-Written d.files d.temps path content d (refl, refl)
