-- ===== src/Profile/Contents/Requests.antt =====
-- The five updates of the profile store as requests, what each promises about the map from ids to
-- profiles, and what one that is served has checked.
use tunwarden.Prelude.{
  ◌≡◌, refl, String, Bool, true, false, not, ◌&&◌, List, [], ◌∷◌, ◌++◌, Option, none, some, arith,
  if◌then◌else◌, ◌==◌, ◌∙◌, sym,
}
use tunwarden.Result.{Result, ok, err, ◌>>◌, reject}
use tunwarden.Profile.Model.{Profile}
use tunwarden.Profile.Provider.{Library}
use tunwarden.Profile.Contents.{
  StoreError, SubscriptionUpdateDiff, find_profile, has_id, one_of, sort_stable, kept_profiles,
  accept, check_batch, check_update, add_profile, add_profiles, delete_profile,
  replace_subscription_profiles, delete_subscription_profiles, owned_by, already_exists, not_found,
}
use tunwarden.Profile.Contents.Ids.{
  none_of-same, distinct, distinct-append, distinct-kept, has_id-kept, or_else, if_kept,
}
use tunwarden.Profile.Contents.Checks.{
  is_ok, all_valid, check_batch-accepts, check_update-accepts, accept-is_ok,
}

pub data Request : Type 0 where
  add : Profile → Request
  add_batch : List Profile → Request
  delete : String → Request
  replace : List String → List Profile → Request
  delete_owned : List String → Request

abbrev pub without_diff :
    Result StoreError (SubscriptionUpdateDiff × List Profile) → Result StoreError (List Profile)
without_diff (ok (diff, after)) = ok after
without_diff (err e) = err e

-- the profiles that an update of the loaded ones writes
unfoldable pub serve : Library → Request → List Profile → Result StoreError (List Profile)
unfolding add_profile add_profiles delete_profile replace_subscription_profiles
    delete_subscription_profiles
serve l (add p) current = accept l p >> add_profile p current
serve l (add_batch next) current = add_profiles l next current
serve l (delete id) current = delete_profile id current
serve l (replace previous next) current =
    without_diff (replace_subscription_profiles l previous next current)
serve l (delete_owned ids) current = ok (delete_subscription_profiles ids current).1

-- what a request does to the map from ids to profiles
unfoldable pub specified : Request → (String → Option Profile) → String → Option Profile
specified (add p) m j = or_else (m j) (if p.id == j then some p else none)
specified (add_batch next) m j = or_else (m j) (find_profile j next)
specified (delete id) m j = if id == j then none else m j
specified (replace previous next) m j =
    or_else (if one_of j previous then none else m j) (find_profile j next)
specified (delete_owned ids) m j = if_kept (λ p. not (owned_by ids p)) (m j)

-- the loaded list that a request leaves, before it is sorted
abbrev pub unsorted : Request → List Profile → List Profile
unsorted (add p) current = current ++ p ∷ []
unsorted (add_batch next) current = current ++ next
unsorted (delete id) current = kept_profiles (λ p. not (p.id == id)) current
unsorted (replace previous next) current =
    kept_profiles (λ p. not (one_of p.id previous)) current ++ next
unsorted (delete_owned ids) current = kept_profiles (λ p. not (owned_by ids p)) current

pub both :
    {E B : Type 0} (r : Result E (Unit {0})) (s : Result E B) (b : B)
    → (r >> s) ≡ ok b
    → (is_ok r ≡ true) × (s ≡ ok b)
both (ok u) s b h = (refl, h)
both (err e) s b h = absurd cc

pub ok_inj : {E B : Type 0} {a b : B} → Path (Result E B) (ok a) (ok b) → a ≡ b
ok_inj h = cc

both_of_diff :
    (r : Result StoreError (Unit {0})) (diff : SubscriptionUpdateDiff) (qs after : List Profile)
    → without_diff (r >> ok (diff, qs)) ≡ ok after
    → (is_ok r ≡ true) × (qs ≡ after)
both_of_diff (ok u) diff qs after h = (refl, ok_inj h)
both_of_diff (err e) diff qs after h = absurd cc

pub not_rejected : {E : Type 0} (b : Bool) (e : E) → is_ok (reject b e) ≡ true → b ≡ false
not_rejected true e h = absurd cc
not_rejected false e h = refl

module _ (l : Library) where
  all_valid-append :
      (xs ys : List Profile) → all_valid l (xs ++ ys) ≡ (all_valid l xs && all_valid l ys)
  all_valid-append [] ys = refl
  all_valid-append (p ∷ xs) ys = ground (arith, all_valid-append xs ys)

  all_valid-kept :
      (keep : Profile → Bool) (ps : List Profile)
      → all_valid l ps ≡ true
      → all_valid l (kept_profiles keep ps) ≡ true
  unfolding kept_profiles
  all_valid-kept keep [] h = refl
  all_valid-kept keep (p ∷ ps) h = ground (arith, all_valid-kept keep ps (ground arith))

  -- what a request that is served leaves, and what it has checked
  pub record Served (r : Request) (current after : List Profile) : Type 0 where
    pub result : after ≡ sort_stable (unsorted r current)
    pub valid : all_valid l (unsorted r current) ≡ true
    pub ids : distinct (unsorted r current) ≡ true

  pub serve-Served :
      (r : Request) (current after : List Profile)
      → all_valid l current ≡ true
      → distinct current ≡ true
      → serve l r current ≡ ok after
      → Served r current after
  unfolding serve
  serve-Served (add p) current after v d h =
      let (a, h1) = both (accept l p) _ after h in
      let (b, h2) = both (reject (has_id p.id current) (already_exists p.id)) _ after h1 in
      let absent = not_rejected (has_id p.id current) (already_exists p.id) b in
      let e = accept-is_ok l p in
      record {
        result = sym (ok_inj h2);
        valid = all_valid-append current (p ∷ []) ∙ ground arith;
        ids = distinct-append current (p ∷ []) ∙ ground arith;
      }
  serve-Served (add_batch next) current after v d h =
      let (a, h1) = both (check_batch l current [] next) _ after h in
      let e = check_batch-accepts l current [] next in
      record {
        result = sym (ok_inj h1);
        valid = all_valid-append current next ∙ ground arith;
        ids = distinct-append current next ∙ ground arith;
      }
  serve-Served (delete id) current after v d h =
      let (a, h1) = both (reject (not (has_id id current)) (not_found id)) _ after h in
      record {
        result = sym (ok_inj h1);
        valid = all_valid-kept _ current v;
        ids = distinct-kept _ current d;
      }
  serve-Served (replace previous next) current after v d h =
      let (a, k) = both_of_diff (check_update l previous current [] next) _ _ after h in
      let e = check_update-accepts l previous current [] next a in
      let kept = kept_profiles (λ (p : Profile). not (one_of p.id previous)) current in
      let fresh =
        none_of-same (λ j. has_id j kept) (λ j. has_id j current && not (one_of j previous))
          (λ j. has_id-kept (λ j. not (one_of j previous)) j current) next in
      let v' = all_valid-kept (λ p. not (one_of p.id previous)) current v in
      let d' = distinct-kept (λ p. not (one_of p.id previous)) current d in
      record {
        result = sym k;
        valid = all_valid-append kept next ∙ ground arith;
        ids = distinct-append kept next ∙ ground arith;
      }
  serve-Served (delete_owned ids) current after v d h = record {
    result = sym (ok_inj h);
    valid = all_valid-kept _ current v;
    ids = distinct-kept _ current d;
  }
