-- ===== src/Subscription/Workflow/Restore.antt =====
-- What the two stores and the restoring of a file do to the other files of the disk.
use tunwarden.Prelude.{
  ◌≡◌, refl, inl, inr, String, Bool, false, ◌||◌, List, [], ◌∷◌, Option, none, some, any,
  Bool-cases, ap, ◌∙◌, sym, ◌==◌, eq_iff, arith, if◌then◌else◌,
}
use tunwarden.Result.{ok, err}
use tunwarden.State.Disk.{Disk, lookup, put, next_call}
use tunwarden.State.Store.Effects.{lookup-put, files-next_call}
use tunwarden.StoreJson.{Outcome, calling}
use tunwarden.StoreJson.Atomic.{calling-ends, Written}
use tunwarden.Subscription.Workflow.{
  FileSnapshot, RestoreError, remove_failed, make_dir_failed, rewrite_failed, remove_file, set_file,
  restore_file, restore_files, with_restore_error,
}

not_either : (a b : Bool) → (a || b) ≡ false → a ≡ false
not_either a b h = ground arith

module _ {B : Type 0} (files : List (String × Option B)) where
  -- every file is as in `files`, except those of these paths
  abbrev pub Off : List String → Disk B → Type 0
  Off paths d = (j : String) → any (λ p. p == j) paths ≡ false → lookup j d.files ≡ lookup j files

  pub Off-same : (paths : List String) (d : Disk B) → d.files ≡ files → Off paths d
  Off-same paths d e j h = ap (lookup j) e

  pub Off-next : (paths : List String) (d : Disk B) → Off paths d → Off paths (next_call d)
  Off-next paths d o j h = ap (lookup j) (files-next_call d) ∙ o j h

  pub Off-put :
      (path : String) (paths : List String) (c : Option B) (d : Disk B)
      → Off (path ∷ paths) d
      → Off (path ∷ paths) (set_file path c d)
  Off-put path paths c d o j h =
      let k = not_either (path == j) (any (λ p. p == j) paths) h in
      lookup-put path j c d.files ∙ rw k (o j h)

lookup-remove :
    {B : Type 0} (path j : String) (files : List (String × Option B))
    → lookup j (remove_file path files) ≡ (if path == j then none else lookup j files)
unfolding lookup remove_file
lookup-remove path j [] = ground arith
lookup-remove path j ((name, c) ∷ rest) =
    ground (arith, eq_iff name path, eq_iff path j, eq_iff name j, lookup-remove path j rest)

module _ {B : Type 0} (files : List (String × Option B)) (path : String) (paths : List String) where
  -- a restoring that reports nothing has put the file back
  abbrev Back : Option RestoreError × Disk B → Type 0
  Back (e, d) = e ≡ none → Off files paths d

  back_of_lookup :
      (o : Option (Option B)) (d d' : Disk B)
      → lookup path files ≡ o
      → Off files (path ∷ paths) d
      → ((j : String) → lookup j d'.files ≡ (if path == j then o else lookup j d.files))
      → Off files paths d'
  back_of_lookup o d d' e off k j h = elim (Bool-cases (path == j)) [
    | inl q ↦ k j ∙ rw q (sym e ∙ ap (λ i. lookup i files) ((eq_iff path j).0 q))
    | inr q ↦ k j ∙ rw q (off j (rw q h))
  ]

  restore_file-Back :
      (o : Option (Option B)) (d : Disk B)
      → lookup path files ≡ o
      → Off files (path ∷ paths) d
      → Back (restore_file (path, o) d)
  unfolding restore_file
  restore_file-Back none d e off =
      let d1 = next_call d in
      calling-ends Back (λ d. record d { files = remove_file path d.files })
        (λ d. (some (remove_failed path), d)) (λ d. (none, d)) d (λ h. absurd cc)
        (λ h.
          back_of_lookup none d1 (record d1 { files = remove_file path d1.files }) e
            (Off-next files (path ∷ paths) d off) (λ j. lookup-remove path j d1.files))
  restore_file-Back (some c) d e off =
      let all = path ∷ paths in
      let d1 = next_call d in
      let d2 = set_file path none (next_call d1) in
      let off1 = Off-next files all d off in
      let off2 = Off-put files path paths none (next_call d1) (Off-next files all d1 off1) in
      let off3 = Off-next files all d2 off2 in
      let filling : Disk B → Option RestoreError × Disk B =
        calling (set_file path c) (λ d. (some (rewrite_failed path), d)) (λ d. (none, d)) in
      let emptying : Disk B → Option RestoreError × Disk B =
        calling (set_file path none) (λ d. (some (rewrite_failed path), d)) filling in
      calling-ends Back (λ d. d) (λ d. (some (make_dir_failed path), d)) emptying d (λ h. absurd cc)
        (calling-ends Back (set_file path none) (λ d. (some (rewrite_failed path), d)) filling d1
          (λ h. absurd cc)
          (calling-ends Back (set_file path c) (λ d. (some (rewrite_failed path), d))
            (λ d. (none, d)) d2 (λ h. absurd cc)
            (λ h.
              back_of_lookup (some c) (next_call d2) (set_file path c (next_call d2)) e off3
                (λ j. lookup-put path j c (next_call d2).files))))

module _ {B : Type 0} (files : List (String × Option B)) where
  -- the contents of these paths
  abbrev pub snapshots : List String → List (FileSnapshot B)
  snapshots [] = []
  snapshots (p ∷ ps) = (p, lookup p files) ∷ snapshots ps

  restored_rest :
      (ps : List String) (r : Option RestoreError × Disk B)
      → (r.0 ≡ none → Off files ps r.1)
      → ((d : Disk B)
          → Off files ps d
          → (restore_files (snapshots ps) d).0 ≡ []
          → Off files [] (restore_files (snapshots ps) d).1)
      → with_restore_error r.0 (restore_files (snapshots ps) r.1).0 ≡ []
      → Off files [] (restore_files (snapshots ps) r.1).1
  unfolding with_restore_error
  restored_rest ps (none, d) f k h = k d (f refl) h
  restored_rest ps (some e, d) f k h = absurd cc

  pub restore_files-Off :
      (ps : List String) (d : Disk B)
      → Off files ps d
      → (restore_files (snapshots ps) d).0 ≡ []
      → Off files [] (restore_files (snapshots ps) d).1
  unfolding restore_files
  restore_files-Off [] d off h = off
  restore_files-Off (p ∷ ps) d off h =
      restored_rest ps (restore_file (p, lookup p files) d)
        (restore_file-Back files p ps (lookup p files) d refl off) (restore_files-Off ps) h

  own :
      (path : String) (b : B) (d : Disk B)
      → d.files ≡ put path (some b) files
      → Off files (path ∷ []) d
  own path b d f j h =
      ap (lookup j) f ∙ lookup-put path j (some b) files ∙ rw (not_either (path == j) false h) refl

  -- a store writes to its own path alone
  pub Written-Off :
      (temps : List (Option B)) (path : String) (content : Option B) (o : Outcome B)
      → Written files temps path content o
      → Off files (path ∷ []) o.1
  Written-Off temps path content (ok u, d) (b, e, (f, t)) = own path b d f
  Written-Off temps path content (err op, d) (inl (f, t)) = Off-same files (path ∷ []) d f
  Written-Off temps path content (err op, d) (inr (q, b, e, (f, t))) = own path b d f
