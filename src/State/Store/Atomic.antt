-- ===== src/State/Store/Atomic.antt =====
-- `Save` as a whole: atomic on every path, and what `Load` finds behind it.
use tunwarden.Prelude.{
  String, ◌≡◌, refl, ◌⊎◌, inl, inr, Option, some, List, false, eq_refl, ap, ◌∙◌,
}
use tunwarden.Result.{Result, ok, err}
use tunwarden.State.Transaction.{Transaction}
use tunwarden.State.Validate.{Invalid, validate_transaction}
use tunwarden.State.Disk.{Disk, sync_dir, lookup, put, faulty, next_call}
use tunwarden.State.Store.{
  Platform, StoreError, failed_call, store_path, stamped, filled, save, write_file, as_store, lift,
  ◌>>=◌, load, load_transaction_file, parsed, decoded, accepted,
}
use tunwarden.State.Store.Effects.{Untouched, Replaced, lookup-put, files-next_call}
use tunwarden.State.Store.Outcomes.{Ends}
use tunwarden.State.Store.Saving.{Saved, NotSaved, write_file-Ends}

module _ (p : Platform) (runtime_dir : String) (tx : Transaction)
    (files : List (String × Option p.Bytes)) (temps : List (Option p.Bytes)) where
  -- The transaction is valid and stands, encoded, at the path of its id.
  abbrev pub Stored : String → Disk p.Bytes → Type 0
  Stored path d =
      (validate_transaction p.matches_secret p.format_time tx ≡ ok tt)
      × (store_path runtime_dir tx.id ≡ ok path)
      × (b : p.Bytes) × (p.encode tx ≡ some b)
      × Replaced files temps path b d

  -- Nothing has changed, or only the sync of the directory failed, behind a complete replacement.
  abbrev pub NotStored : StoreError → Disk p.Bytes → Type 0
  NotStored e d =
      Untouched files temps d ⊎ ((e ≡ failed_call sync_dir) × (path : String) × Stored path d)

  NotStored-NotSaved :
      (path : String)
      → validate_transaction p.matches_secret p.format_time tx ≡ ok tt
      → store_path runtime_dir tx.id ≡ ok path
      → (e : StoreError) (d : Disk p.Bytes) → NotSaved p files temps tx path e d
      → NotStored e d
  NotStored-NotSaved path v r e d (inl u) = inl u
  NotStored-NotSaved path v r e d (inr (s, b, q, k)) = inr (s, path, (v, r, b, q, k))

  Saved-Ends :
      (path : String)
      → validate_transaction p.matches_secret p.format_time tx ≡ ok tt
      → store_path runtime_dir tx.id ≡ ok path
      → (r : Result StoreError String × Disk p.Bytes)
      → Ends (Saved p files temps tx path) (NotSaved p files temps tx path) r
      → Ends Stored NotStored r
  Saved-Ends path v s (ok at, d) (e, b, q, k) = (v, rw e s, b, q, rw e k)
  Saved-Ends path v s (err e, d) h = NotStored-NotSaved path v s e d h

  stamped-Ends :
      (v : Result Invalid (Unit {0})) (r : Result StoreError String) (d : Disk p.Bytes)
      → validate_transaction p.matches_secret p.format_time tx ≡ v
      → store_path runtime_dir tx.id ≡ r
      → d.files ≡ files
      → d.temps ≡ temps
      → Ends Stored NotStored (
          ◌>>=◌ p
            (lift p (as_store p v))
            (λ _. ◌>>=◌ p (lift p r) (λ path. write_file p path tx))
            d)
  unfolding lift as_store ◌>>=◌
  stamped-Ends (err e) r d v s f t = inl (f, inl t)
  stamped-Ends (ok u) (err e) d v s f t = inl (f, inl t)
  stamped-Ends (ok u) (ok path) d v s f t =
      Saved-Ends path v s (write_file p path tx d) (write_file-Ends p files temps tx path d (f, t))

-- `Save` is atomic, whichever of its calls fail. If it returns a path, the stamped transaction was
-- valid, the path is that of its id, the encoded transaction stands there, no other file has changed
-- and no temporary file is left. If it fails, no file has changed and at most one temporary file is
-- left behind; or the failure is the sync of the directory, and the replacement is complete.
pub save_is_atomic :
    (p : Platform) (runtime_dir : String) (tx : Transaction) (d : Disk p.Bytes)
    → let tx' = stamped p tx d.reads in
      Ends
        (Stored p runtime_dir tx' d.files d.temps)
        (NotStored p runtime_dir tx' d.files d.temps)
        (save p runtime_dir tx d)
unfolding save
save_is_atomic p runtime_dir tx d =
    let tx' = stamped p tx d.reads in
    stamped-Ends p runtime_dir tx' d.files d.temps
      (validate_transaction p.matches_secret p.format_time tx') (store_path runtime_dir tx'.id)
      (filled p tx d).1 refl refl refl refl

-- json.Unmarshal reads back what json.MarshalIndent has written.
abbrev pub IsFaithful : Platform → Type 0
IsFaithful p = (tx : Transaction) (b : p.Bytes) → p.encode tx ≡ some b → p.decode b ≡ some tx

module _ (p : Platform) (tx : Transaction) (path : String) (b : p.Bytes)
    (files : List (String × Option p.Bytes)) where
  parsed-put :
      validate_transaction p.matches_secret p.format_time tx ≡ ok tt
      → p.decode b ≡ some tx
      → parsed p (lookup path (put path (some b) files)) ≡ ok tx
  unfolding parsed
  parsed-put v q =
      rw (lookup-put path path (some b) files, eq_refl path) (rw (q, decoded) (rw (v, accepted)))

  load_transaction_file-put :
      (d : Disk p.Bytes)
      → validate_transaction p.matches_secret p.format_time tx ≡ ok tt
      → p.decode b ≡ some tx
      → faulty d ≡ false
      → d.files ≡ put path (some b) files
      → load_transaction_file p path d ≡ (ok tx, next_call d)
  unfolding load_transaction_file ◌>>=◌
  load_transaction_file-put d v q ok_read f = rw ok_read (
      ap (λ r. (r, next_call d))
        (ap (λ stored. parsed p (lookup path stored)) (files-next_call d ∙ f) ∙ parsed-put v q))

load_of_stored :
    (p : Platform) (runtime_dir : String) (tx : Transaction) (path : String) (d : Disk p.Bytes)
    → store_path runtime_dir tx.id ≡ ok path
    → load_transaction_file p path d ≡ (ok tx, next_call d)
    → (load p runtime_dir tx.id d).0 ≡ ok (tx, path)
unfolding load ◌>>=◌
load_of_stored p runtime_dir tx path d s l = rw s (rw l)

-- What `Save` has stored, `Load` reads back, for a JSON codec whose decoder reads back what its encoder
-- wrote (`IsFaithful`; this includes the struct tags of the program's records): if `Save` returned a path,
-- and reading the file then does not fail, `Load` of the id returns the stamped transaction and the same
-- path.
pub load-save :
    (p : Platform) (runtime_dir : String) (tx : Transaction) (d d' : Disk p.Bytes) (path : String)
    → IsFaithful p
    → save p runtime_dir tx d ≡ (ok path, d')
    → faulty d' ≡ false
    → (load p runtime_dir tx.id d').0 ≡ ok (stamped p tx d.reads, path)
unfolding stamped
load-save p runtime_dir tx d d' path faithful saved readable =
    let (v, s, b, e, replaced) = rw saved at (save_is_atomic p runtime_dir tx d) in
    load_of_stored p runtime_dir (stamped p tx d.reads) path d' s (
      load_transaction_file-put p (stamped p tx d.reads) path b d.files d' v (faithful _ b e)
        readable replaced.0)
