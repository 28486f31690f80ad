-- ===== src/Profile/Contents.antt =====
-- internal/profile/store.go and subscription_delete.go: what each operation of the store makes of the
-- profiles that it has loaded. A set of Go is the list of its elements; the ids of loaded profiles are
-- distinct, so a map from them is the list itself.
pub mod Ids
pub mod Checks
pub mod Sorted
pub mod Requests
pub mod Refine
pub mod Diff
use tunwarden.Prelude.{
  ℕ, suc, String, Bool, true, false, not, ◌&&◌, ◌||◌, List, [], ◌∷◌, ◌++◌, Option, none, some, any,
  length, if◌then◌else◌, ◌==◌, nat_eq,
}
use tunwarden.Result.{Result, ok, err, ◌>>=◌, ◌>>◌, reject}
use tunwarden.Text.{text_ltb, trim_space, to_lower}
use tunwarden.StoreJson.{Operation}
use tunwarden.Profile.Model.{Profile, source_subscription}
use tunwarden.Profile.Provider.{Library}
use tunwarden.Profile.Validate.{Message, validate}

pub data StoreError : Type 0 where
  invalid : List Message → StoreError
  unreadable invalid_json trailing_json : StoreError
  unsupported_schema : String → StoreError
  stored_invalid : String → List Message → StoreError
  stored_duplicate not_found already_exists batch_duplicate : String → StoreError
  not_from_subscription subscription_duplicate collision : String → StoreError
  write_failed : Operation → StoreError

unfoldable pub find_profile : String → List Profile → Option Profile
find_profile id [] = none
find_profile id (p ∷ ps) = let rest = find_profile id ps in if p.id == id then some p else rest

abbrev pub has_id : String → List Profile → Bool
has_id id ps = any (λ (p : Profile). p.id == id) ps

abbrev pub one_of : String → List String → Bool
one_of id ids = any (λ i. i == id) ids

-- `SortStable`, which by distinct ids leaves no choice to sort.Slice
unfoldable pub insert_profile : Profile → List Profile → List Profile
unfolding text_ltb
insert_profile p [] = p ∷ []
insert_profile p (q ∷ qs) =
    let rest = insert_profile p qs in if text_ltb q.id p.id then q ∷ rest else p ∷ q ∷ qs

unfoldable pub sort_stable : List Profile → List Profile
unfolding insert_profile
sort_stable [] = []
sort_stable (p ∷ ps) = insert_profile p (sort_stable ps)

-- the profiles that pass the test
unfoldable pub kept_profiles : (Profile → Bool) → List Profile → List Profile
kept_profiles keep [] = []
kept_profiles keep (p ∷ ps) = let rest = kept_profiles keep ps in if keep p then p ∷ rest else rest

pub record SubscriptionUpdateDiff : Type 0 where
  pub imported : ℕ
  pub updated : ℕ
  pub unchanged : ℕ
  pub removed : ℕ

-- reflect.DeepEqual
unfoldable pub profile_eq : Profile → Profile → Bool
profile_eq p q =
    p.id == q.id
    && p.name == q.name
    && p.source == q.source
    && p.engine == q.engine
    && p.server == q.server
    && nat_eq p.port q.port
    && p.protocol == q.protocol
    && p.user_identity == q.user_identity
    && p.transport == q.transport
    && p.security == q.security
    && p.encryption == q.encryption
    && p.flow == q.flow
    && p.server_name == q.server_name
    && p.alpn == q.alpn
    && p.fingerprint == q.fingerprint
    && p.path == q.path
    && p.host_header == q.host_header
    && p.service_name == q.service_name
    && p.reality_public_key == q.reality_public_key
    && p.reality_short_id == q.reality_short_id
    && p.reality_spider_x == q.reality_spider_x

-- the diff of one of the latest profiles, by the stored profile of its id
abbrev counted : Profile → Option Profile → SubscriptionUpdateDiff → SubscriptionUpdateDiff
counted p none d = record d { imported = suc d.imported }
counted p (some q) d =
    if profile_eq q p
    then record d { unchanged = suc d.unchanged }
    else record d { updated = suc d.updated }

unfoldable pub count_next :
    List Profile → List Profile → SubscriptionUpdateDiff → SubscriptionUpdateDiff
unfolding profile_eq find_profile
count_next current [] d = d
count_next current (p ∷ next) d = count_next current next (counted p (find_profile p.id current) d)

-- the profiles of the subscription that are gone from the latest ones
unfoldable pub count_removed : List String → List Profile → List Profile → ℕ
count_removed previous next [] = 0
count_removed previous next (p ∷ current) =
    let rest = count_removed previous next current in
    if one_of p.id previous && not (has_id p.id next) then suc rest else rest

unfoldable pub subscription_server_match_key : Profile → String
unfolding trim_space to_lower
subscription_server_match_key p = to_lower (trim_space p.server)

unfoldable pub add_profile : Profile → List Profile → Result StoreError (List Profile)
unfolding sort_stable
add_profile p current = do
  reject (has_id p.id current) (already_exists p.id)
  ok (sort_stable (current ++ p ∷ []))

unfoldable pub delete_profile : String → List Profile → Result StoreError (List Profile)
unfolding kept_profiles sort_stable
delete_profile id current = do
  reject (not (has_id id current)) (not_found id)
  ok (sort_stable (kept_profiles (λ (p : Profile). not (p.id == id)) current))

module _ (l : Library) where
  as_invalid : Result (List Message) (Unit {0}) → Result StoreError (Unit {0})
  as_invalid (ok u) = ok u
  as_invalid (err ms) = err (invalid ms)

  pub accept : Profile → Result StoreError (Unit {0})
  unfolding as_invalid
  accept p = as_invalid (validate l p)

  as_stored : String → Result (List Message) (Unit {0}) → Result StoreError (Unit {0})
  as_stored id (ok u) = ok u
  as_stored id (err ms) = err (stored_invalid id ms)

  -- the loop of `load`
  unfoldable pub check_stored : List String → List Profile → Result StoreError (Unit {0})
  unfolding as_stored
  check_stored seen [] = ok tt
  check_stored seen (p ∷ ps) = do
    as_stored p.id (validate l p)
    reject (one_of p.id seen) (stored_duplicate p.id)
    check_stored (p.id ∷ seen) ps

  -- the loop of `AddProfiles`
  unfoldable pub check_batch :
      List Profile → List String → List Profile → Result StoreError (Unit {0})
  unfolding accept
  check_batch current seen [] = ok tt
  check_batch current seen (p ∷ next) = do
    accept p
    reject (one_of p.id seen) (batch_duplicate p.id)
    reject (has_id p.id current) (already_exists p.id)
    check_batch current (p.id ∷ seen) next

  -- the loop of `ReplaceSubscriptionProfiles`
  unfoldable pub check_update :
      List String → List Profile → List String → List Profile → Result StoreError (Unit {0})
  unfolding accept
  check_update previous current seen [] = ok tt
  check_update previous current seen (p ∷ next) = do
    accept p
    reject (not (p.source == source_subscription)) (not_from_subscription p.id)
    reject (one_of p.id seen) (subscription_duplicate p.id)
    reject (has_id p.id current && not (one_of p.id previous)) (collision p.id)
    check_update previous current (p.id ∷ seen) next

  unfoldable pub add_profiles : List Profile → List Profile → Result StoreError (List Profile)
  unfolding check_batch sort_stable
  add_profiles next current = do check_batch current [] next; ok (sort_stable (current ++ next))

  unfoldable pub replace_subscription_profiles :
      List String
      → List Profile
      → List Profile
      → Result StoreError (SubscriptionUpdateDiff × List Profile)
  unfolding check_update kept_profiles sort_stable count_next count_removed
  replace_subscription_profiles previous next current = do
    check_update previous current [] next
    ok (
      count_next current next (record {
        imported = 0;
        updated = 0;
        unchanged = 0;
        removed = count_removed previous next current;
      }),
      sort_stable (kept_profiles (λ (p : Profile). not (one_of p.id previous)) current ++ next),
    )

-- the profile is one of the subscription with these ids
abbrev pub owned_by : List String → Profile → Bool
owned_by ids p = one_of p.id ids && p.source == source_subscription

-- `DeleteSubscriptionProfiles`: the number of profiles that go, and those that stay
unfoldable pub delete_subscription_profiles : List String → List Profile → ℕ × List Profile
unfolding kept_profiles sort_stable
delete_subscription_profiles ids current = (
  length (kept_profiles (owned_by ids) current),
  sort_stable (kept_profiles (λ p. not (owned_by ids p)) current),
)
