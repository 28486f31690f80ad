-- ===== src/Profile/Store/Updates.antt =====
-- The updates of the profile store over the disk: stored as a whole or not at all.
use tunwarden.Prelude.{
  ◌≡◌, refl, ◌⊎◌, inl, inr, String, Bool, true, not, List, [], Option, none, some, eq_refl, ap, ◌∙◌,
  sym, ◌==◌,
}
use tunwarden.Result.{Result, ok, err, ◌>>=◌, reject}
use tunwarden.State.Disk.{Disk, lookup, put, next_call}
use tunwarden.State.Store.Effects.{lookup-put, files-next_call}
use tunwarden.StoreJson.{Outcome, sync_parent_directory}
use tunwarden.StoreJson.Atomic.{calling-ends, Written, write_file_is_atomic}
use tunwarden.Profile.Model.{Profile}
use tunwarden.Profile.Provider.{Library}
use tunwarden.Profile.Contents.{
  StoreError, trailing_json, write_failed, unreadable, find_profile, check_stored,
}
use tunwarden.Profile.Contents.Checks.{ok_of}
use tunwarden.Profile.Contents.Requests.{
  Request, add, add_batch, delete, replace, delete_owned, specified, both, ok_inj,
}
use tunwarden.Profile.Store.{
  Codec, StoreFile, schema_v1, decoded, parsed, load, as_store_error, save, save_update, update,
  store_add, store_add_profiles, store_delete, store_replace_subscription_profiles,
  store_delete_subscription_profiles,
}

-- json.Decoder reads back what json.MarshalIndent has written, up to its end.
abbrev pub IsFaithful : (B : Type 0) → Codec B → Type 0
IsFaithful B codec =
    (f : StoreFile) (b : B) → codec.encode f ≡ some b → codec.decode b ≡ some (f, true)

-- the operation of the store for a request, without the counts that it returns
abbrev pub store_request :
    {B : Type 0}
    → Library
    → Codec B
    → String
    → Request
    → Disk B
    → Result StoreError (Unit {0}) × Disk B
store_request l codec path (add p) d = store_add l codec path p d
store_request l codec path (add_batch next) d = store_add_profiles l codec path next d
store_request l codec path (delete id) d = store_delete l codec path id d
store_request l codec path (replace previous next) d =
    (store_replace_subscription_profiles l codec path previous next d).1
store_request l codec path (delete_owned ids) d =
    (store_delete_subscription_profiles l codec path ids d).1

module _ (l : Library) {B : Type 0} (codec : Codec B) (path : String) where
  -- the profiles that the file holds
  abbrev pub Holds : List (String × Option B) → List Profile → Type 0
  Holds files ps = parsed l codec path (lookup path files) ≡ ok ps

  checked_of_decoded :
      (o : Option (StoreFile × Bool)) (ps : List Profile)
      → decoded l codec path o ≡ ok ps
      → check_stored l [] ps ≡ ok tt
  unfolding decoded
  checked_of_decoded none ps h = absurd cc
  checked_of_decoded (some (file, at_end)) ps h =
      let (a, h1) = both (reject (not at_end) trailing_json) _ ps h in
      let (b, h2) = both (reject (not (file.schema_version == schema_v1)) _) _ ps h1 in
      let (c, h3) = both (check_stored l [] file.profiles) _ ps h2 in
      ap (check_stored l []) (sym (ok_inj h3)) ∙ ok_of _ c

  pub checked_of_parsed :
      (o : Option (Option B)) (ps : List Profile)
      → parsed l codec path o ≡ ok ps
      → check_stored l [] ps ≡ ok tt
  unfolding parsed check_stored
  checked_of_parsed none ps h = ap (check_stored l []) (sym (ok_inj h))
  checked_of_parsed (some none) ps h = absurd cc
  checked_of_parsed (some (some b)) ps h = checked_of_decoded (codec.decode b) ps h

  module _ (faithful : IsFaithful B codec) (ps : List Profile)
      (checked : check_stored l [] ps ≡ ok tt) where
    Holds-put :
        (files : List (String × Option B)) (b : B)
        → codec.encode (record { schema_version = schema_v1; profiles = ps }) ≡ some b
        → Holds (put path (some b) files) ps
    unfolding parsed decoded
    Holds-put files b e =
        rw (lookup-put path path (some b) files, eq_refl path)
          (ap (decoded l codec path) (faithful _ b e) ∙ rw checked refl)

    -- how the saving of the profiles may end, on a disk with these files
    abbrev pub Saved : List (String × Option B) → Result StoreError (Unit {0}) × Disk B → Type 0
    Saved files (ok _, d) = Holds d.files ps
    Saved files (err e, d) =
        (d.files ≡ files) ⊎ ((e ≡ write_failed sync_parent_directory) × Holds d.files ps)

    Saved-Written :
        (files : List (String × Option B)) (temps : List (Option B)) (o : Outcome B)
        → Written files temps path
            (codec.encode (record { schema_version = schema_v1; profiles = ps }))
            o
        → Saved files (as_store_error l codec path o)
    unfolding as_store_error
    Saved-Written files temps (ok u, d) (b, e, (f, t)) = rw f (Holds-put files b e)
    Saved-Written files temps (err op, d) (inl (f, t)) = inl f
    Saved-Written files temps (err op, d) (inr (q, b, e, (f, t))) =
        inr (ap write_failed q, rw f (Holds-put files b e))

    save-Saved :
        (files : List (String × Option B)) (d : Disk B)
        → d.files ≡ files
        → Saved files (save l codec path ps d)
    unfolding save
    save-Saved files d f = rw (sym f) (
        Saved-Written d.files d.temps _ (
          write_file_is_atomic (codec.encode (record { schema_version = schema_v1; profiles = ps }))
            path d))

  -- what a request does to the map from ids to profiles is done
  abbrev pub Done : Request → List Profile → List Profile → Type 0
  Done r current after =
      (j : String) → find_profile j after ≡ specified r (λ i. find_profile i current) j

  -- How a request may end, for a file of `current`: it is done and stored, or no file has changed, or
  -- it is stored and only the sync of the directory has failed.
  abbrev pub Ends :
      Request
      → List Profile
      → List (String × Option B)
      → Result StoreError (Unit {0}) × Disk B
      → Type 0
  Ends r current files (ok _, d) =
      (after : List Profile) × Holds d.files after × Done r current after
  Ends r current files (err e, d) =
      (d.files ≡ files)
      ⊎ ((e ≡ write_failed sync_parent_directory)
          × (after : List Profile) × Holds d.files after
          × Done r current after)

  module _ (faithful : IsFaithful B codec) (r : Request) (current : List Profile) where
    Saved-Ends :
        (files : List (String × Option B)) (after : List Profile)
        → (c : check_stored l [] after ≡ ok tt) → Done r current after
        → (o : Result StoreError (Unit {0}) × Disk B) → Saved faithful after c files o
        → Ends r current files o
    Saved-Ends files after c done (ok u, d) h = (after, h, done)
    Saved-Ends files after c done (err e, d) (inl f) = inl f
    Saved-Ends files after c done (err e, d) (inr (q, h)) = inr (q, after, h, done)

    -- what a change of the loaded profiles has to meet
    abbrev Meets : (List Profile → Result StoreError (List Profile)) → Type 0
    Meets change =
        (after : List Profile)
        → change current ≡ ok after
        → (check_stored l [] after ≡ ok tt) × Done r current after

    pub save_update-Ends :
        (files : List (String × Option B)) (c : Result StoreError (List Profile)) (d : Disk B)
        → ((after : List Profile)
            → c ≡ ok after
            → (check_stored l [] after ≡ ok tt) × Done r current after)
        → d.files ≡ files
        → Ends r current files (save_update l codec path (c, d))
    unfolding save_update
    save_update-Ends files (err e) d h f = inl f
    save_update-Ends files (ok after) d h f =
        let (c, done) = h after refl in
        Saved-Ends files after c done _ (save-Saved faithful after c files d f)

    pub loaded-Ends :
        (d : Disk B)
        → Holds d.files current
        → (P : Result StoreError (List Profile) × Disk B → Type 0) → P (err unreadable, next_call d)
        → P (ok current, next_call d)
        → P (load l codec path d)
    unfolding load
    loaded-Ends d h P f s =
        calling-ends P (λ d. d) (λ d. (err unreadable, d))
          (λ d. (parsed l codec path (lookup path d.files), d)) d f (rw (files-next_call d, h) s)

    pub update-Ends :
        (change : List Profile → Result StoreError (List Profile)) (d : Disk B)
        → Holds d.files current
        → Meets change
        → Ends r current d.files (update l codec path change d)
    unfolding update save_update
    update-Ends change d h m =
        loaded-Ends d h
          (λ x. Ends r current d.files (save_update l codec path (x.0 >>= change, x.1)))
          (inl (files-next_call d))
          (save_update-Ends d.files (change current) (next_call d) m (files-next_call d))
