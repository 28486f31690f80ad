-- ===== src/Profile/Contents/Checks.antt =====
-- What the loops over the profiles of a file, an import and an update accept.
use tunwarden.Prelude.{◌≡◌, refl, String, Bool, true, false, not, ◌&&◌, List, [], ◌∷◌, arith, ◌==◌}
use tunwarden.Result.{Result, ok, err, reject, ◌>>◌}
use tunwarden.Profile.Model.{Profile, source_subscription}
use tunwarden.Profile.Provider.{Library}
use tunwarden.Profile.Validate.{Message, validate}
use tunwarden.Profile.Contents.{
  stored_duplicate, batch_duplicate, already_exists, not_from_subscription, subscription_duplicate,
  collision, has_id, one_of, accept, as_invalid, as_stored, check_stored, check_batch, check_update,
}
use tunwarden.Profile.Contents.Ids.{none_of, none_of-cons, distinct}

abbrev pub is_ok : {E A : Type 0} → Result E A → Bool
is_ok (ok a) = true
is_ok (err e) = false

pub ok_of : {E : Type 0} (r : Result E (Unit {0})) → is_ok r ≡ true → r ≡ ok tt
ok_of (ok u) h = refl
ok_of (err e) h = absurd cc

module _ (l : Library) where
  -- every profile passes `Validate`
  abbrev pub all_valid : List Profile → Bool
  all_valid [] = true
  all_valid (p ∷ ps) = is_ok (validate l p) && all_valid ps

  as_stored-is_ok :
      (id : String) (r : Result (List Message) (Unit {0})) → is_ok (as_stored l id r) ≡ is_ok r
  unfolding as_stored
  as_stored-is_ok id (ok u) = refl
  as_stored-is_ok id (err ms) = refl

  as_invalid-is_ok : (r : Result (List Message) (Unit {0})) → is_ok (as_invalid l r) ≡ is_ok r
  unfolding as_invalid
  as_invalid-is_ok (ok u) = refl
  as_invalid-is_ok (err ms) = refl

  pub accept-is_ok : (p : Profile) → is_ok (accept l p) ≡ is_ok (validate l p)
  unfolding accept
  accept-is_ok p = as_invalid-is_ok (validate l p)

is_ok-then :
    {E B : Type 0} (r : Result E (Unit {0})) (s : Result E B)
    → is_ok (r >> s) ≡ (is_ok r && is_ok s)
is_ok-then (ok u) s = refl
is_ok-then (err e) s = refl

is_ok-reject :
    {E B : Type 0} (b : Bool) (e : E) (s : Result E B)
    → is_ok (reject b e >> s) ≡ (not b && is_ok s)
is_ok-reject true e s = refl
is_ok-reject false e s = refl

module _ (l : Library) where
  pub check_stored-accepts :
      (seen : List String) (ps : List Profile)
      → is_ok (check_stored l seen ps)
        ≡ (all_valid l ps && distinct ps && none_of (λ j. one_of j seen) ps)
  unfolding check_stored
  check_stored-accepts seen [] = refl
  check_stored-accepts seen (p ∷ ps) =
      rw
        (
          is_ok-then (as_stored l p.id (validate l p)) _,
          as_stored-is_ok l p.id (validate l p),
          is_ok-reject (one_of p.id seen) (stored_duplicate p.id) _,
        )
        (ground
          (arith, check_stored-accepts (p.id ∷ seen) ps, none_of-cons p.id (λ j. one_of j seen) ps))

  pub check_batch-accepts :
      (current : List Profile) (seen : List String) (ps : List Profile)
      → is_ok (check_batch l current seen ps) ≡ (
          all_valid l ps
          && distinct ps
          && none_of (λ j. one_of j seen) ps
          && none_of (λ j. has_id j current) ps)
  unfolding check_batch
  check_batch-accepts current seen [] = refl
  check_batch-accepts current seen (p ∷ ps) =
      rw
        (
          is_ok-then (accept l p) _,
          accept-is_ok l p,
          is_ok-reject (one_of p.id seen) (batch_duplicate p.id) _,
          is_ok-reject (has_id p.id current) (already_exists p.id) _,
        )
        (ground (
          arith,
          check_batch-accepts current (p.id ∷ seen) ps,
          none_of-cons p.id (λ j. one_of j seen) ps,
        ))

  pub check_update-accepts :
      (previous : List String) (current : List Profile) (seen : List String) (ps : List Profile)
      → is_ok (check_update l previous current seen ps) ≡ true
      → (all_valid l ps
          && distinct ps
          && none_of (λ j. one_of j seen) ps
          && none_of (λ j. has_id j current && not (one_of j previous)) ps)
        ≡ true
  unfolding check_update
  check_update-accepts previous current seen [] h = refl
  check_update-accepts previous current seen (p ∷ ps) h =
      let k =
        rw
          (
            is_ok-then (accept l p) _,
            accept-is_ok l p,
            is_ok-reject (not (p.source == source_subscription)) (not_from_subscription p.id) _,
            is_ok-reject (one_of p.id seen) (subscription_duplicate p.id) _,
            is_ok-reject (has_id p.id current && not (one_of p.id previous)) (collision p.id) _,
          )
          at h in
      ground (
        arith,
        check_update-accepts previous current (p.id ∷ seen) ps (ground arith),
        none_of-cons p.id (λ j. one_of j seen) ps,
      )
