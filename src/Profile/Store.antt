-- ===== src/Profile/Store.antt =====
-- internal/profile/store.go and subscription_delete.go: `Store` over the disk. The JSON codec of the
-- store file is a `Codec`. An error of the writer keeps its operation, which is all that
-- `profileStoreWriteError` looks at.
pub mod Updates
pub mod Requests
use tunwarden.Prelude.{
  ℕ, String, Bool, true, false, not, ◌&&◌, List, [], ◌∷◌, Option, none, some, is_empty, any, length,
  nat_eq, if◌then◌else◌, ◌==◌,
}
use tunwarden.Result.{Result, ok, err, ◌>>=◌, ◌>>◌, reject}
use tunwarden.State.Disk.{Disk, lookup}
use tunwarden.StoreJson.{calling, write_file, Operation}
use tunwarden.Profile.Model.{Profile, source_subscription}
use tunwarden.Profile.Provider.{Library}
use tunwarden.Profile.Contents.{
  StoreError, unreadable, invalid_json, trailing_json, unsupported_schema, not_found, write_failed,
  SubscriptionUpdateDiff, find_profile, one_of, sort_stable, kept_profiles, accept, check_stored,
  add_profile, add_profiles, delete_profile, replace_subscription_profiles,
  delete_subscription_profiles, subscription_server_match_key, owned_by,
}

pub record StoreFile : Type 0 where
  pub schema_version : String
  pub profiles : List Profile

-- what the first `Decode` of the file gives, and whether the file ends behind it
pub record Codec (B : Type 0) : Type 0 where
  pub encode : StoreFile → Option B
  pub decode : B → Option (StoreFile × Bool)

abbrev pub schema_v1 : String
schema_v1 = "v1"

abbrev pub no_diff : SubscriptionUpdateDiff
no_diff = record { imported = 0; updated = 0; unchanged = 0; removed = 0 }

module _ (l : Library) {B : Type 0} (codec : Codec B) (path : String) where
  pub decoded : Option (StoreFile × Bool) → Result StoreError (List Profile)
  unfolding check_stored
  decoded none = err invalid_json
  decoded (some (file, at_end)) = do
    reject (not at_end) trailing_json
    reject (not (file.schema_version == schema_v1)) (unsupported_schema file.schema_version)
    check_stored l [] file.profiles
    ok file.profiles

  -- the profiles of the file, where it can be opened
  unfoldable pub parsed : Option (Option B) → Result StoreError (List Profile)
  unfolding decoded
  parsed none = ok []
  parsed (some none) = err invalid_json
  parsed (some (some b)) = decoded (codec.decode b)

  unfoldable pub load : Disk B → Result StoreError (List Profile) × Disk B
  unfolding calling lookup parsed
  load = calling (λ d. d) (λ d. (err unreadable, d)) (λ d. (parsed (lookup path d.files), d))

  unfoldable pub as_store_error :
      Result Operation (Unit {0}) × Disk B → Result StoreError (Unit {0}) × Disk B
  as_store_error (ok u, d) = (ok u, d)
  as_store_error (err op, d) = (err (write_failed op), d)

  unfoldable pub save : List Profile → Disk B → Result StoreError (Unit {0}) × Disk B
  unfolding write_file as_store_error
  save profiles d = as_store_error (
      write_file (codec.encode (record { schema_version = schema_v1; profiles = profiles })) path d)

  unfoldable pub save_update :
      Result StoreError (List Profile) × Disk B → Result StoreError (Unit {0}) × Disk B
  unfolding save
  save_update (ok profiles, d) = save profiles d
  save_update (err e, d) = (err e, d)

  -- what an operation makes of the loaded profiles, saved
  unfoldable pub update :
      (List Profile → Result StoreError (List Profile))
      → Disk B
      → Result StoreError (Unit {0}) × Disk B
  unfolding load save_update
  update change d = let (r, d') = load d in save_update (r >>= change, d')

  checked_first :
      Result StoreError (Unit {0})
      → (Disk B → Result StoreError (Unit {0}) × Disk B)
      → Disk B
      → Result StoreError (Unit {0}) × Disk B
  checked_first (ok u) op d = op d
  checked_first (err e) op d = (err e, d)

  unfoldable pub store_add : Profile → Disk B → Result StoreError (Unit {0}) × Disk B
  unfolding checked_first update add_profile
  store_add p d = checked_first (accept l p) (update (add_profile p)) d

  unfoldable pub store_add_profiles : List Profile → Disk B → Result StoreError (Unit {0}) × Disk B
  unfolding update add_profiles
  store_add_profiles next d = update (add_profiles l next) d

  unfoldable pub store_delete : String → Disk B → Result StoreError (Unit {0}) × Disk B
  unfolding update delete_profile
  store_delete id d = update (delete_profile id) d

  store_list_of :
      Result StoreError (List Profile) × Disk B → Result StoreError (List Profile) × Disk B
  store_list_of (ok ps, d) = (ok (sort_stable ps), d)
  store_list_of (err e, d) = (err e, d)

  unfoldable pub store_list : Disk B → Result StoreError (List Profile) × Disk B
  unfolding load store_list_of
  store_list d = store_list_of (load d)

  got : String → Option Profile → Result StoreError Profile
  got id none = err (not_found id)
  got id (some p) = ok p

  unfoldable pub store_get : String → Disk B → Result StoreError Profile × Disk B
  unfolding load got
  store_get id d = let (r, d') = load d in (r >>= (λ ps. got id (find_profile id ps)), d')

  -- a value that comes back with the error of `save`
  unfoldable pub save_replaced :
      Result StoreError (SubscriptionUpdateDiff × List Profile)
      → Disk B
      → SubscriptionUpdateDiff × (Result StoreError (Unit {0}) × Disk B)
  save_replaced (ok (diff, kept)) d = (diff, save kept d)
  save_replaced (err e) d = (no_diff, (err e, d))

  unfoldable pub store_replace_subscription_profiles :
      List String
      → List Profile
      → Disk B
      → SubscriptionUpdateDiff × (Result StoreError (Unit {0}) × Disk B)
  unfolding load save_replaced replace_subscription_profiles
  store_replace_subscription_profiles previous next d =
      let (r, d') = load d in save_replaced (r >>= replace_subscription_profiles l previous next) d'

  save_removed : ℕ × List Profile → Disk B → ℕ × (Result StoreError (Unit {0}) × Disk B)
  save_removed (n, kept) d = if nat_eq n 0 then (0, (ok tt, d)) else (n, save kept d)

  deleted_of :
      List String
      → Result StoreError (List Profile) × Disk B
      → ℕ × (Result StoreError (Unit {0}) × Disk B)
  unfolding save_removed
  deleted_of ids (ok ps, d) = save_removed (delete_subscription_profiles ids ps) d
  deleted_of ids (err e, d) = (0, (err e, d))

  unfoldable pub store_delete_subscription_profiles :
      List String → Disk B → ℕ × (Result StoreError (Unit {0}) × Disk B)
  unfolding load deleted_of delete_subscription_profiles
  store_delete_subscription_profiles ids d =
      if is_empty ids then (0, (ok tt, d)) else deleted_of ids (load d)

  -- the keys of the servers of the subscription's profiles
  owned_servers : List String → List Profile → List String
  owned_servers ids [] = []
  owned_servers ids (p ∷ ps) =
      let rest = owned_servers ids ps in
      let key = subscription_server_match_key p in
      if owned_by ids p && not (key == "") then key ∷ rest else rest

  unfoldable pub unlinked_matches : List String → List String → List Profile → ℕ
  unfolding owned_servers kept_profiles subscription_server_match_key
  unlinked_matches owned linked ps =
      let servers = owned_servers owned ps in
      length (
        kept_profiles
          (λ p.
            not (one_of p.id owned)
            && not (one_of p.id linked)
            && one_of (subscription_server_match_key p) servers)
          ps)

  count_of :
      List String
      → List String
      → Result StoreError (List Profile) × Disk B
      → Result StoreError ℕ × Disk B
  unfolding unlinked_matches
  count_of owned linked (ok ps, d) = (ok (unlinked_matches owned linked ps), d)
  count_of owned linked (err e, d) = (err e, d)

  unfoldable pub count_unlinked_profiles_matching_subscription_servers :
      List String → List String → Disk B → Result StoreError ℕ × Disk B
  unfolding load count_of
  count_unlinked_profiles_matching_subscription_servers owned linked d =
      if is_empty owned then (ok 0, d) else count_of owned linked (load d)
