-- ===== src/Profile/Store/Requests.antt =====
-- The updates of the profile store keep their promise on the disk.
use tunwarden.Prelude.{
  ◌≡◌, refl, inl, inr, String, Bool, not, List, [], ◌∷◌, Bool-cases, nat_eq, arith, length,
}
use tunwarden.Result.{Result, ok, err, ◌>>=◌}
use tunwarden.State.Disk.{Disk, lookup, next_call}
use tunwarden.State.Store.Effects.{files-next_call}
use tunwarden.Profile.Model.{Profile}
use tunwarden.Profile.Provider.{Library}
use tunwarden.Profile.Contents.{
  StoreError, find_profile, check_stored, accept, add_profile, add_profiles, delete_profile,
  replace_subscription_profiles, delete_subscription_profiles, SubscriptionUpdateDiff, owned_by,
  kept_profiles,
}
use tunwarden.Profile.Contents.Ids.{if_kept}
use tunwarden.Profile.Contents.Requests.{
  Request, add, add_batch, delete, replace, delete_owned, serve, specified,
}
use tunwarden.Profile.Contents.Refine.{served_update_refines_map}
use tunwarden.Profile.Store.{
  Codec, save_update, update, checked_first, store_add, store_add_profiles, store_delete,
  save_replaced, store_replace_subscription_profiles, save_removed, deleted_of,
  store_delete_subscription_profiles,
}
use tunwarden.Profile.Store.Updates.{
  IsFaithful, store_request, Holds, Done, Ends, checked_of_parsed, save_update-Ends, loaded-Ends,
  update-Ends,
}

-- nothing is removed, so nothing changes
unowned_stays :
    (keep : Profile → Bool) (ps : List Profile) (j : String)
    → length (kept_profiles keep ps) ≡ 0
    → find_profile j ps ≡ if_kept (λ p. not (keep p)) (find_profile j ps)
unfolding kept_profiles find_profile
unowned_stays keep [] j h = refl
unowned_stays keep (p ∷ ps) j h = elim (Bool-cases (keep p)) [
  | inl e ↦ absurd (let k = rw e at h in ground arith)
  | inr e ↦ ground (arith, unowned_stays keep ps j (rw e at h))
]

none_owned : (ps : List Profile) → length (kept_profiles (owned_by []) ps) ≡ 0
unfolding kept_profiles
none_owned [] = refl
none_owned (p ∷ ps) = none_owned ps

module _ (l : Library) {B : Type 0} (codec : Codec B) (path : String)
    (faithful : IsFaithful B codec) (current : List Profile) (d : Disk B)
    (holds : Holds l codec path d.files current) where
  served :
      (r : Request) (after : List Profile)
      → serve l r current ≡ ok after
      → (check_stored l [] after ≡ ok tt) × Done l codec path r current after
  served r after s =
      let h = checked_of_parsed l codec path (lookup path d.files) current holds in
      (
        (served_update_refines_map l r current after "" h s).0.0,
        λ j. (served_update_refines_map l r current after j h s).1,
      )

  add-Ends :
      (p : Profile) (a : Result StoreError (Unit {0}))
      → accept l p ≡ a
      → Ends l codec path
          (add p)
          current
          d.files
          (checked_first l codec path a (update l codec path (add_profile p)) d)
  unfolding checked_first serve
  add-Ends p (err e) q = inl refl
  add-Ends p (ok u) q =
      update-Ends l codec path faithful (add p) current (add_profile p) d holds
        (λ after s. served (add p) after (rw q s))

  replaced-Ends :
      (previous : List String) (next : List Profile)
      (x : Result StoreError (SubscriptionUpdateDiff × List Profile))
      → replace_subscription_profiles l previous next current ≡ x
      → Ends l codec path
          (replace previous next)
          current
          d.files
          ((save_replaced l codec path x (next_call d)).1)
  unfolding save_replaced save_update serve
  replaced-Ends previous next (err e) q = inl (files-next_call d)
  replaced-Ends previous next (ok (diff, after)) q =
      save_update-Ends l codec path faithful (replace previous next) current d.files (ok after)
        (next_call d) (λ after' s. served (replace previous next) after' (rw q s))
        (files-next_call d)

  removed-Ends :
      (ids : List String)
      → Ends l codec path
          (delete_owned ids)
          current
          d.files
          ((save_removed l codec path (delete_subscription_profiles ids current) (next_call d)).1)
  unfolding save_removed delete_subscription_profiles serve specified save_update
  removed-Ends ids = elim (Bool-cases (nat_eq (length (kept_profiles (owned_by ids) current)) 0)) [
    | inl e ↦
        rw (e, files-next_call d)
          (current, holds, λ j. unowned_stays (owned_by ids) current j (ground arith))
    | inr e ↦ rw e (
        save_update-Ends l codec path faithful (delete_owned ids) current d.files
          (ok (delete_subscription_profiles ids current).1) (next_call d)
          (served (delete_owned ids)) (files-next_call d))
  ]

  deleted-Ends :
      (ids : List String)
      → Ends l codec path
          (delete_owned ids)
          current
          d.files
          (store_request l codec path (delete_owned ids) d)
  unfolding store_delete_subscription_profiles specified
  deleted-Ends [] =
      (current, holds, λ j. unowned_stays (owned_by []) current j (none_owned current))
  deleted-Ends (id ∷ ids) =
      loaded-Ends l codec path faithful (delete_owned (id ∷ ids)) current d holds
        (λ x.
          Ends l codec path (delete_owned (id ∷ ids)) current d.files
            ((deleted_of l codec path (id ∷ ids) x).1))
        (inl (files-next_call d)) (removed-Ends (id ∷ ids))

  replace-Ends :
      (previous : List String) (next : List Profile)
      → Ends l codec path
          (replace previous next)
          current
          d.files
          (store_request l codec path (replace previous next) d)
  unfolding store_replace_subscription_profiles
  replace-Ends previous next =
      loaded-Ends l codec path faithful (replace previous next) current d holds
        (λ x. Ends l codec path (replace previous next) current d.files (
          (save_replaced l codec path (x.0 >>= replace_subscription_profiles l previous next)
            x.1).1))
        (inl (files-next_call d)) (replaced-Ends previous next _ refl)

-- On a store file that `load` accepts, each of the five updates is done and stored, or an error comes
-- back. Behind an error no file has changed, or the update is done and stored and the error is that of
-- the sync of the directory. A stored update is one that `load` accepts, and it has done to the map from
-- ids to profiles what the request asks for. The codec has to read back what it writes.
pub profile_update_is_stored :
    (l : Library) {B : Type 0} (codec : Codec B) (path : String) (r : Request)
    (current : List Profile) (d : Disk B)
    → IsFaithful B codec
    → Holds l codec path d.files current
    → Ends l codec path r current d.files (store_request l codec path r d)
unfolding store_add store_add_profiles store_delete serve
profile_update_is_stored l codec path (add p) current d f h =
    add-Ends l codec path f current d h p (accept l p) refl
profile_update_is_stored l codec path (add_batch next) current d f h =
    update-Ends l codec path f (add_batch next) current (add_profiles l next) d h
      (served l codec path f current d h (add_batch next))
profile_update_is_stored l codec path (delete id) current d f h =
    update-Ends l codec path f (delete id) current (delete_profile id) d h
      (served l codec path f current d h (delete id))
profile_update_is_stored l codec path (replace previous next) current d f h =
    replace-Ends l codec path f current d h previous next
profile_update_is_stored l codec path (delete_owned ids) current d f h =
    deleted-Ends l codec path f current d h ids
