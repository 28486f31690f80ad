-- ===== src/Subscription/Workflow/Steps.antt =====
-- What one operation of either store does to the files of the disk.
use tunwarden.Prelude.{◌≡◌, refl, ◌⊎◌, inl, inr, String, List, [], ◌∷◌, Option, ap, sym}
use tunwarden.Result.{Result, ok, err, ◌>>=◌}
use tunwarden.State.Disk.{Disk, lookup, next_call}
use tunwarden.State.Store.Effects.{files-next_call}
use tunwarden.StoreJson.{Outcome, sync_parent_directory, write_file}
use tunwarden.StoreJson.Atomic.{calling-ends, Written, write_file_is_atomic}
use tunwarden.Profile.Model.{Profile}
use tunwarden.Profile.Provider.{Library}
use tunwarden.Profile.Contents.{
  StoreError, SubscriptionUpdateDiff, unreadable, replace_subscription_profiles,
}
use tunwarden.Profile.Store.{
  Codec, parsed, schema_v1, load, save, as_store_error, save_replaced,
  store_replace_subscription_profiles,
}
use tunwarden.Subscription.Source.{Source, Url}
use tunwarden.Subscription.Sources.{
  SourceError, SourceCodec, source_write_failed, sources_unreadable, parsed_sources, load_sources,
  as_source_error, save_sources, save_changed, change_sources, valid_first, add_source,
  update_source,
}
use tunwarden.Subscription.Workflow.Restore.{Off, Off-same, Written-Off}

module _ (parse_url : String → Option Url) {B : Type 0} (codec : SourceCodec B)
    (path : String) where
  -- How an operation on the subscriptions may end: it has written its own file; or nothing has changed;
  -- or the error is the sync of the directory, behind a complete replacement.
  abbrev pub SourceStep : List (String × Option B) → Result SourceError (Unit {0}) × Disk B → Type 0
  SourceStep files (ok _, d) = Off files (path ∷ []) d
  SourceStep files (err e, d) =
      Off files [] d ⊎ ((e ≡ source_write_failed sync_parent_directory) × Off files (path ∷ []) d)

  Written-Step :
      (files : List (String × Option B)) (temps : List (Option B)) (content : Option B)
      (o : Outcome B)
      → Written files temps path content o
      → SourceStep files (as_source_error parse_url codec path o)
  unfolding as_source_error
  Written-Step files temps content (ok u, d) h = Written-Off files temps path content (ok u, d) h
  Written-Step files temps content (err op, d) (inl (f, t)) = inl (Off-same files [] d f)
  Written-Step files temps content (err op, d) (inr (q, b, e, w)) = inr (
    ap source_write_failed q,
    Written-Off files temps path content (err op, d) (inr (q, b, e, w)),
  )

  save_changed-Step :
      (files : List (String × Option B)) (c : Result SourceError (List Source)) (d : Disk B)
      → d.files ≡ files
      → SourceStep files (save_changed parse_url codec path (c, d))
  unfolding save_changed save_sources
  save_changed-Step files (err e) d f = inl (Off-same files [] d f)
  save_changed-Step files (ok ss) d f =
      rw (sym f) (Written-Step d.files d.temps _ _ (write_file_is_atomic _ path d))

  change_sources-Step :
      (change : List Source → Result SourceError (List Source)) (d : Disk B)
      → SourceStep d.files (change_sources parse_url codec path change d)
  unfolding change_sources load_sources
  change_sources-Step change d =
      calling-ends
        (λ (x : Result SourceError (List Source) × Disk B).
          SourceStep d.files (save_changed parse_url codec path (x.0 >>= change, x.1)))
        (λ d. d) (λ d. (err sources_unreadable, d))
        (λ d. (parsed_sources parse_url codec path (lookup path d.files), d)) d
        (save_changed-Step d.files (err sources_unreadable) (next_call d) (files-next_call d))
        (save_changed-Step d.files
          (parsed_sources parse_url codec path (lookup path (next_call d).files) >>= change)
          (next_call d) (files-next_call d))

  valid_first-Step :
      (c : Result SourceError (Unit {0})) (change : List Source → Result SourceError (List Source))
      (d : Disk B)
      → SourceStep d.files
          (valid_first parse_url codec path c (change_sources parse_url codec path change) d)
  unfolding valid_first
  valid_first-Step (err e) change d = inl (Off-same d.files [] d refl)
  valid_first-Step (ok u) change d = change_sources-Step change d

  pub add_source-Step :
      (s : Source) (d : Disk B) → SourceStep d.files (add_source parse_url codec path s d)
  unfolding add_source
  add_source-Step s d = valid_first-Step _ _ d

  pub update_source-Step :
      (s : Source) (d : Disk B) → SourceStep d.files (update_source parse_url codec path s d)
  unfolding update_source
  update_source-Step s d = valid_first-Step _ _ d

  pub Step→Off :
      (files : List (String × Option B)) (x : Result SourceError (Unit {0}) × Disk B)
      → SourceStep files x
      → Off files (path ∷ []) x.1
  Step→Off files (ok u, d) h = h
  Step→Off files (err e, d) (inl h) = λ j k. h j refl
  Step→Off files (err e, d) (inr (q, h)) = h

module _ (l : Library) {B : Type 0} (codec : Codec B) (path : String) where
  saved-Off :
      (files : List (String × Option B)) (o : Outcome B)
      → Off files (path ∷ []) o.1
      → Off files (path ∷ []) (as_store_error l codec path o).1
  unfolding as_store_error
  saved-Off files (ok u, d) h = h
  saved-Off files (err e, d) h = h

  write-Off :
      (content : Option B) (d : Disk B) → Off d.files (path ∷ []) (write_file content path d).1
  write-Off content d =
      Written-Off d.files d.temps path content (write_file content path d)
        (write_file_is_atomic content path d)

  save_replaced-Off :
      (files : List (String × Option B))
      (c : Result StoreError (SubscriptionUpdateDiff × List Profile)) (d : Disk B)
      → d.files ≡ files
      → Off files (path ∷ []) (save_replaced l codec path c d).1.1
  unfolding save_replaced save
  save_replaced-Off files (err e) d f = Off-same files (path ∷ []) d f
  save_replaced-Off files (ok (diff, kept)) d f = rw (sym f) (
      saved-Off d.files
        (write_file (codec.encode (record { schema_version = schema_v1; profiles = kept })) path d)
        (write-Off (codec.encode (record { schema_version = schema_v1; profiles = kept })) d))

  pub replace-Off :
      (previous : List String) (next : List Profile) (d : Disk B)
      → Off d.files
          (path ∷ [])
          (store_replace_subscription_profiles l codec path previous next d).1.1
  unfolding store_replace_subscription_profiles load
  replace-Off previous next d =
      calling-ends
        (λ (x : Result StoreError (List Profile) × Disk B).
          Off d.files (path ∷ [])
            (save_replaced l codec path (x.0 >>= replace_subscription_profiles l previous next)
              x.1).1.1)
        (λ d. d) (λ d. (err unreadable, d)) (λ d. (parsed l codec path (lookup path d.files), d)) d
        (save_replaced-Off d.files (err unreadable) (next_call d) (files-next_call d))
        (save_replaced-Off d.files
          (parsed l codec path (lookup path (next_call d).files)
            >>= replace_subscription_profiles l previous next)
          (next_call d) (files-next_call d))
