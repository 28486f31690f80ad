-- ===== src/Profile/Contents/Refine.antt =====
-- An update keeps what `load` checks and the order of the ids, and it does to the map from ids to
-- profiles what it promises.
use tunwarden.Prelude.{
  ◌≡◌, refl, String, Bool, true, false, not, ◌&&◌, List, [], ◌∷◌, none, arith, if◌then◌else◌, ◌==◌,
  ap, ◌∙◌,
}
use tunwarden.Result.{ok}
use tunwarden.Profile.Model.{Profile}
use tunwarden.Profile.Provider.{Library}
use tunwarden.Profile.Validate.{validate}
use tunwarden.Profile.Contents.{find_profile, one_of, sort_stable, insert_profile, check_stored}
use tunwarden.Profile.Contents.Ids.{
  none_of-any, distinct, distinct-sort, find-sort, find-append, find-kept, find-if_kept, or_else,
  eq_sym,
}
use tunwarden.Profile.Contents.Checks.{is_ok, ok_of, all_valid, check_stored-accepts}
use tunwarden.Profile.Contents.Sorted.{sorted, sort-sorted}
use tunwarden.Profile.Contents.Requests.{
  Request, add, add_batch, delete, replace, delete_owned, serve, specified, unsorted, serve-Served,
}

module _ (l : Library) where
  all_valid-insert :
      (p : Profile) (ps : List Profile)
      → all_valid l (insert_profile p ps) ≡ (is_ok (validate l p) && all_valid l ps)
  unfolding insert_profile
  all_valid-insert p [] = refl
  all_valid-insert p (q ∷ ps) = ground (arith, all_valid-insert p ps)

  all_valid-sort : (ps : List Profile) → all_valid l (sort_stable ps) ≡ all_valid l ps
  unfolding sort_stable
  all_valid-sort [] = refl
  all_valid-sort (p ∷ ps) = ground (arith, all_valid-insert p (sort_stable ps), all_valid-sort ps)

  -- `load` accepts the profiles, and their ids are in order
  abbrev pub IsStore : List Profile → Type 0
  IsStore ps = (check_stored l [] ps ≡ ok tt) × (sorted ps ≡ true)

  pub checked :
      (ps : List Profile) → check_stored l [] ps ≡ ok tt → (all_valid l ps && distinct ps) ≡ true
  checked ps h = let e = check_stored-accepts l [] ps in let a = ap is_ok h in ground arith

  sort-IsStore :
      (ps : List Profile) → all_valid l ps ≡ true → distinct ps ≡ true → IsStore (sort_stable ps)
  sort-IsStore ps v d =
      let a = all_valid-sort ps in
      let b = distinct-sort ps in
      let c = none_of-any (sort_stable ps) in
      (ok_of _ (check_stored-accepts l [] (sort_stable ps) ∙ ground arith), sort-sorted ps)

  if_not : {A : Type 0} (b : Bool) (x y : A) → (if not b then y else x) ≡ (if b then x else y)
  if_not true x y = refl
  if_not false x y = refl

  specified-unsorted :
      (r : Request) (current : List Profile) (j : String)
      → distinct current ≡ true
      → find_profile j (unsorted r current) ≡ specified r (λ i. find_profile i current) j
  unfolding specified find_profile
  specified-unsorted (add p) current j d = find-append j current (p ∷ [])
  specified-unsorted (add_batch next) current j d = find-append j current next
  specified-unsorted (delete id) current j d =
      find-kept (λ i. not (i == id)) j current ∙ ground (arith, eq_sym id j)
  specified-unsorted (replace previous next) current j d =
      find-append j _ next
      ∙ ap (λ o. or_else o (find_profile j next))
          (find-kept (λ i. not (one_of i previous)) j current
            ∙ if_not (one_of j previous) none (find_profile j current))
  specified-unsorted (delete_owned ids) current j d = find-if_kept _ j current d

-- An update that is served, of profiles that `load` accepts, leaves profiles that `load` accepts, with
-- their ids in order, and the new map from ids to profiles is the old one with the request done: the
-- latest profiles are there, the removed ones are not, and no other id has changed.
pub served_update_refines_map :
    (l : Library) (r : Request) (current after : List Profile) (j : String)
    → check_stored l [] current ≡ ok tt
    → serve l r current ≡ ok after
    → IsStore l after × (find_profile j after ≡ specified r (λ i. find_profile i current) j)
served_update_refines_map l r current after j h s =
    let k = checked l current h in
    let d : distinct current ≡ true = ground arith in
    let served = serve-Served l r current after (ground arith) d s in
    rw served.result (
      sort-IsStore l (unsorted r current) served.valid served.ids,
      find-sort j (unsorted r current) served.ids ∙ specified-unsorted l r current j d,
    )
