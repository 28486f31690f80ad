-- ===== src/Profile/Contents/Diff.antt =====
-- The counts that `ReplaceSubscriptionProfiles` reports agree with what it writes.
use tunwarden.Prelude.{
  ℕ, suc, ◌+◌, ◌≡◌, refl, String, Bool, true, false, not, ◌&&◌, ◌||◌, List, [], ◌∷◌, ◌++◌, Option,
  none, some, arith, Bool-cases, inl, inr, if◌then◌else◌, ◌==◌, eq_iff, ap, ◌∙◌, sym, length,
  is_none,
}
use tunwarden.Result.{ok}
use tunwarden.Profile.Model.{Profile}
use tunwarden.Profile.Provider.{Library}
use tunwarden.Profile.Contents.{
  SubscriptionUpdateDiff, find_profile, has_id, one_of, insert_profile, sort_stable, kept_profiles,
  profile_eq, counted, count_next, count_removed, check_update, check_stored,
  replace_subscription_profiles,
}
use tunwarden.Profile.Contents.Ids.{none_of, distinct, eq_sym}
use tunwarden.Profile.Contents.Checks.{all_valid, check_update-accepts}
use tunwarden.Profile.Contents.Requests.{both, ok_inj}
use tunwarden.Profile.Contents.Refine.{checked}

abbrev count : (Profile → Bool) → List Profile → ℕ
count f [] = 0
count f (p ∷ ps) = let rest = count f ps in if f p then suc rest else rest

length-insert : (p : Profile) (ps : List Profile) → length (insert_profile p ps) ≡ suc (length ps)
unfolding insert_profile
length-insert p [] = refl
length-insert p (q ∷ ps) = ground (arith, length-insert p ps)

length-sort : (ps : List Profile) → length (sort_stable ps) ≡ length ps
unfolding sort_stable
length-sort [] = refl
length-sort (p ∷ ps) = ground (arith, length-insert p (sort_stable ps), length-sort ps)

length-append : (xs ys : List Profile) → length (xs ++ ys) ≡ length xs + length ys
length-append [] ys = ground arith
length-append (p ∷ xs) ys = ground (arith, length-append xs ys)

length-kept :
    (f : Profile → Bool) (ps : List Profile)
    → length (kept_profiles (λ p. not (f p)) ps) + count f ps ≡ length ps
unfolding kept_profiles
length-kept f [] = refl
length-kept f (p ∷ ps) = ground (arith, length-kept f ps)

count-same :
    (f g : Profile → Bool)
    → ((p : Profile) → f p ≡ g p)
    → (ps : List Profile) → count f ps ≡ count g ps
count-same f g e [] = refl
count-same f g e (p ∷ ps) = rw (e p, count-same f g e ps) refl

find_is_none : (j : String) (ps : List Profile) → is_none (find_profile j ps) ≡ not (has_id j ps)
unfolding find_profile
find_is_none j [] = refl
find_is_none j (p ∷ ps) = ground (arith, find_is_none j ps)

abbrev seen : SubscriptionUpdateDiff → ℕ
seen d = d.imported + d.updated + d.unchanged

-- one of the latest profiles is imported, updated or unchanged
counted-adds :
    (p : Profile) (o : Option Profile) (d : SubscriptionUpdateDiff)
    → ((counted p o d).imported ≡ (if is_none o then suc d.imported else d.imported))
      × ((counted p o d).removed ≡ d.removed)
      × (seen (counted p o d) ≡ suc (seen d))
counted-adds p none d = (refl, refl, ground arith)
counted-adds p (some q) d = elim (Bool-cases (profile_eq q p)) [
  | inl e ↦ rw e (refl, refl, ground arith)
  | inr e ↦ rw e (refl, refl, ground arith)
]

count_next-adds :
    (current next : List Profile) (d : SubscriptionUpdateDiff)
    → ((count_next current next d).imported
        ≡ d.imported + count (λ p. not (has_id p.id current)) next)
      × ((count_next current next d).removed ≡ d.removed)
      × (seen (count_next current next d) ≡ seen d + length next)
unfolding count_next
count_next-adds current [] d = (ground arith, refl, ground arith)
count_next-adds current (p ∷ next) d =
    let o = find_profile p.id current in
    let (i, r, t) = counted-adds p o d in
    let (i', r', t') = count_next-adds current next (counted p o d) in
    let n = find_is_none p.id current in (i' ∙ ground arith, r' ∙ r, t' ∙ ground arith)

count_removed-count :
    (previous : List String) (next current : List Profile)
    → count_removed previous next current
      ≡ count (λ p. one_of p.id previous && not (has_id p.id next)) current
unfolding count_removed
count_removed-count previous next [] = refl
count_removed-count previous next (p ∷ current) =
    rw (count_removed-count previous next current) refl

-- the profiles of both lists, counted in either
module _ (g : String → Bool) where
  count-none : (ps : List Profile) → 0 ≡ count (λ q. g q.id && false) ps
  count-none [] = refl
  count-none (q ∷ ps) = ground (arith, count-none ps)

  count-one :
      (id : String) (ps : List Profile)
      → distinct ps ≡ true
      → count (λ q. g q.id && id == q.id) ps ≡ (if g id && has_id id ps then 1 else 0)
  count-one id [] h = ground arith
  count-one id (q ∷ ps) h = elim (Bool-cases (id == q.id)) [
    | inl e ↦
        let same = (eq_iff id q.id).0 e in
        let k = ap g same in
        let m = ap (λ j. has_id j ps) same in
        ground (arith, count-one id ps (ground arith), eq_sym id q.id)
    | inr e ↦ ground (arith, count-one id ps (ground arith), eq_sym id q.id)
  ]

  count-split :
      (id : String) (cs ps : List Profile)
      → has_id id cs ≡ false
      → count (λ q. g q.id && (id == q.id || has_id q.id cs)) ps
        ≡ count (λ q. g q.id && id == q.id) ps + count (λ q. g q.id && has_id q.id cs) ps
  count-split id cs [] h = refl
  count-split id cs (q ∷ ps) h = elim (Bool-cases (id == q.id)) [
    | inl e ↦
        let k = ap (λ j. has_id j cs) ((eq_iff id q.id).0 e) in
        ground (arith, count-split id cs ps h)
    | inr e ↦ ground (arith, count-split id cs ps h)
  ]

  count-swap :
      (cs ps : List Profile)
      → distinct cs ≡ true
      → distinct ps ≡ true
      → count (λ p. g p.id && has_id p.id ps) cs ≡ count (λ q. g q.id && has_id q.id cs) ps
  count-swap [] ps h k = count-none ps
  count-swap (p ∷ cs) ps h k =
      let a = count-split p.id cs ps (ground arith) in
      let b = count-one p.id ps k in let c = count-swap cs ps (ground arith) k in ground arith

-- what no profile of the second list breaks
count-none_of :
    (cs ps : List Profile) (g : String → Bool)
    → none_of (λ j. has_id j cs && not (g j)) ps ≡ true
    → count (λ q. g q.id && has_id q.id cs) ps ≡ count (λ q. has_id q.id cs) ps
count-none_of cs [] g h = refl
count-none_of cs (q ∷ ps) g h = ground (arith, count-none_of cs ps g (ground arith))

count-not :
    (f : Profile → Bool) (ps : List Profile) → count f ps + count (λ p. not (f p)) ps ≡ length ps
count-not f [] = refl
count-not f (p ∷ ps) = ground (arith, count-not f ps)

-- a test, split by a second one
count-and :
    (f g : Profile → Bool) (ps : List Profile)
    → count (λ p. f p && g p) ps + count (λ p. f p && not (g p)) ps ≡ count f ps
count-and f g [] = refl
count-and f g (p ∷ ps) = ground (arith, count-and f g ps)

module _ (l : Library) (previous : List String) (next current : List Profile)
    (d : distinct current ≡ true) where
  balance :
      (u : (all_valid l next
          && distinct next
          && none_of (λ j. one_of j []) next
          && none_of (λ j. has_id j current && not (one_of j previous)) next)
        ≡ true)
      → count (λ p. one_of p.id previous) current + count (λ q. not (has_id q.id current)) next
        ≡ count_removed previous next current + length next
  balance u =
      let owned = λ (j : String). one_of j previous in
      let a = count-and (λ p. one_of p.id previous) (λ p. has_id p.id next) current in
      let b = count-swap owned current next d (ground arith) in
      let c = count-none_of current next owned (ground arith) in
      let e = count-not (λ q. has_id q.id current) next in
      let f = count_removed-count previous next current in ground (arith, a, b, c, e, f)

  sums :
      (diff : SubscriptionUpdateDiff) (after : List Profile)
      → replace_subscription_profiles l previous next current ≡ ok (diff, after)
      → (diff.imported + diff.updated + diff.unchanged ≡ length next)
        × (length after + diff.removed ≡ length current + diff.imported)
  unfolding replace_subscription_profiles
  sums diff after h =
      let (a, k) = both (check_update l previous current [] next) _ (diff, after) h in
      let u = check_update-accepts l previous current [] next a in
      let gone = count_removed previous next current in
      let start : SubscriptionUpdateDiff = record {
        imported = 0;
        updated = 0;
        unchanged = 0;
        removed = gone;
      } in
      let kept = kept_profiles (λ (p : Profile). not (one_of p.id previous)) current in
      let (i, r, t) = count_next-adds current next start in
      let same = ok_inj k in
      let e = balance u in
      let n = length-kept (λ p. one_of p.id previous) current in
      let m = length-sort (kept ++ next) in
      let o = length-append kept next in
      rw (sym (ap (λ x. x.0) same), sym (ap (λ x. x.1) same))
        (t ∙ ground arith, ground (arith, i, r, e, n, m, o))

-- The counts of an update agree with what it writes: each of the latest profiles is counted once, as
-- imported, updated or unchanged, and the number of profiles grows by those imported and falls by those
-- removed. The loaded profiles are ones that `load` accepts.
pub update_diff_adds_up :
    (l : Library) (previous : List String) (next current after : List Profile)
    (diff : SubscriptionUpdateDiff)
    → check_stored l [] current ≡ ok tt
    → replace_subscription_profiles l previous next current ≡ ok (diff, after)
    → (diff.imported + diff.updated + diff.unchanged ≡ length next)
      × (length after + diff.removed ≡ length current + diff.imported)
update_diff_adds_up l previous next current after diff h =
    let k = checked l current h in sums l previous next current (ground arith) diff after
