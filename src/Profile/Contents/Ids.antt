-- ===== src/Profile/Contents/Ids.antt =====
-- The ids of the profiles of a store: how sorting, appending and removing treat them.
use tunwarden.Prelude.{
  ◌≡◌, refl, String, Bool, true, false, not, ◌&&◌, ◌||◌, List, [], ◌∷◌, ◌++◌, Option, none, some,
  if◌then◌else◌, ◌==◌, arith, eq_iff, any-append, ◌∙◌, ap, sym, Bool-cases, inl, inr,
}
use tunwarden.Profile.Model.{Profile}
use tunwarden.Profile.Contents.{find_profile, has_id, insert_profile, sort_stable, kept_profiles}

-- no profile of the list has an id that passes the test
abbrev pub none_of : (String → Bool) → List Profile → Bool
none_of f [] = true
none_of f (p ∷ ps) = not (f p.id) && none_of f ps

abbrev pub distinct : List Profile → Bool
distinct [] = true
distinct (p ∷ ps) = not (has_id p.id ps) && distinct ps

abbrev pub or_else {ℓ} : {A : Type ℓ} → Option A → Option A → Option A
or_else none o = o
or_else (some a) o = some a

pub eq_sym : (s t : String) → (s == t) ≡ (t == s)
eq_sym s t = ground (arith, eq_iff s t, eq_iff t s)

none_of-or :
    (f g : String → Bool) (ps : List Profile)
    → none_of (λ j. f j || g j) ps ≡ (none_of f ps && none_of g ps)
none_of-or f g [] = refl
none_of-or f g (p ∷ ps) = ground (arith, none_of-or f g ps)

pub none_of-same :
    (f g : String → Bool)
    → ((j : String) → f j ≡ g j)
    → (ps : List Profile) → none_of f ps ≡ none_of g ps
none_of-same f g e [] = refl
none_of-same f g e (p ∷ ps) = rw (e p.id, none_of-same f g e ps) refl

pub none_of-any : (ps : List Profile) → none_of (λ j. false) ps ≡ true
none_of-any [] = refl
none_of-any (p ∷ ps) = none_of-any ps

none_of-eq : (id : String) (ps : List Profile) → none_of (λ j. id == j) ps ≡ not (has_id id ps)
none_of-eq id [] = refl
none_of-eq id (p ∷ ps) = rw (eq_sym id p.id) (ground (arith, none_of-eq id ps))

-- one more id to avoid
pub none_of-cons :
    (id : String) (f : String → Bool) (ps : List Profile)
    → none_of (λ j. id == j || f j) ps ≡ (not (has_id id ps) && none_of f ps)
none_of-cons id f ps =
    none_of-or (λ j. id == j) f ps ∙ ap (λ b. b && none_of f ps) (none_of-eq id ps)

pub distinct-append :
    (xs ys : List Profile)
    → distinct (xs ++ ys) ≡ (distinct xs && distinct ys && none_of (λ j. has_id j xs) ys)
distinct-append [] ys = ground (arith, none_of-any ys)
distinct-append (p ∷ xs) ys =
    rw (any-append (λ (q : Profile). q.id == p.id) xs ys, none_of-cons p.id (λ j. has_id j xs) ys)
      (ground (arith, distinct-append xs ys))

has_id-insert :
    (j : String) (p : Profile) (ps : List Profile)
    → has_id j (insert_profile p ps) ≡ (p.id == j || has_id j ps)
unfolding insert_profile
has_id-insert j p [] = refl
has_id-insert j p (q ∷ ps) = ground (arith, has_id-insert j p ps)

pub has_id-sort : (j : String) (ps : List Profile) → has_id j (sort_stable ps) ≡ has_id j ps
unfolding sort_stable
has_id-sort j [] = refl
has_id-sort j (p ∷ ps) = ground (arith, has_id-insert j p (sort_stable ps), has_id-sort j ps)

distinct-insert :
    (p : Profile) (ps : List Profile)
    → distinct (insert_profile p ps) ≡ (not (has_id p.id ps) && distinct ps)
unfolding insert_profile
distinct-insert p [] = refl
distinct-insert p (q ∷ ps) =
    ground (arith, distinct-insert p ps, has_id-insert q.id p ps, eq_sym p.id q.id)

pub distinct-sort : (ps : List Profile) → distinct (sort_stable ps) ≡ distinct ps
unfolding sort_stable
distinct-sort [] = refl
distinct-sort (p ∷ ps) =
    ground (arith, distinct-insert p (sort_stable ps), has_id-sort p.id ps, distinct-sort ps)

find-insert :
    (j : String) (p : Profile) (ps : List Profile)
    → has_id p.id ps ≡ false
    → find_profile j (insert_profile p ps) ≡ (if p.id == j then some p else find_profile j ps)
unfolding insert_profile find_profile
find-insert j p [] h = refl
find-insert j p (q ∷ ps) h =
    let k = find-insert j p ps (ground arith) in
    ground (arith, k, eq_iff p.id j, eq_iff q.id j, eq_iff q.id p.id)

pub find-sort :
    (j : String) (ps : List Profile)
    → distinct ps ≡ true
    → find_profile j (sort_stable ps) ≡ find_profile j ps
unfolding sort_stable find_profile
find-sort j [] h = refl
find-sort j (p ∷ ps) h =
    find-insert j p (sort_stable ps) (has_id-sort p.id ps ∙ ground arith)
    ∙ ap (λ o. if p.id == j then some p else o) (find-sort j ps (ground arith))

pub find-append :
    (j : String) (xs ys : List Profile)
    → find_profile j (xs ++ ys) ≡ or_else (find_profile j xs) (find_profile j ys)
unfolding find_profile
find-append j [] ys = refl
find-append j (p ∷ xs) ys = ground (arith, find-append j xs ys)

pub find_of_absent :
    (j : String) (ps : List Profile) → has_id j ps ≡ false → find_profile j ps ≡ none
unfolding find_profile
find_of_absent j [] h = refl
find_of_absent j (p ∷ ps) h = ground (arith, find_of_absent j ps (ground arith))

-- a removal that looks at ids alone
module _ (keep : String → Bool) where
  pub has_id-kept :
      (j : String) (ps : List Profile)
      → has_id j (kept_profiles (λ p. keep p.id) ps) ≡ (has_id j ps && keep j)
  unfolding kept_profiles
  has_id-kept j [] = refl
  has_id-kept j (p ∷ ps) = elim (Bool-cases (p.id == j)) [
    | inl e ↦ let k = ap keep ((eq_iff p.id j).0 e) in ground (arith, has_id-kept j ps)
    | inr e ↦ ground (arith, has_id-kept j ps)
  ]

  pub find-kept :
      (j : String) (ps : List Profile)
      → find_profile j (kept_profiles (λ p. keep p.id) ps)
        ≡ (if keep j then find_profile j ps else none)
  unfolding kept_profiles find_profile
  find-kept j [] = ground arith
  find-kept j (p ∷ ps) = elim (Bool-cases (p.id == j)) [
    | inl e ↦ let k = ap keep ((eq_iff p.id j).0 e) in ground (arith, find-kept j ps)
    | inr e ↦ ground (arith, find-kept j ps)
  ]

abbrev pub if_kept : (Profile → Bool) → Option Profile → Option Profile
if_kept keep none = none
if_kept keep (some p) = if keep p then some p else none

module _ (keep : Profile → Bool) where
  absent-kept :
      (j : String) (ps : List Profile)
      → has_id j ps ≡ false
      → has_id j (kept_profiles keep ps) ≡ false
  unfolding kept_profiles
  absent-kept j [] h = refl
  absent-kept j (p ∷ ps) h = ground (arith, absent-kept j ps (ground arith))

  pub distinct-kept :
      (ps : List Profile) → distinct ps ≡ true → distinct (kept_profiles keep ps) ≡ true
  unfolding kept_profiles
  distinct-kept [] h = refl
  distinct-kept (p ∷ ps) h =
      let k = absent-kept p.id ps (ground arith) in ground (arith, distinct-kept ps (ground arith))

  pub find-if_kept :
      (j : String) (ps : List Profile)
      → distinct ps ≡ true
      → find_profile j (kept_profiles keep ps) ≡ if_kept keep (find_profile j ps)
  unfolding kept_profiles find_profile
  find-if_kept j [] h = refl
  find-if_kept j (p ∷ ps) h = elim (Bool-cases (p.id == j)) [
    | inl e ↦ elim (Bool-cases (keep p)) [
      | inl q ↦ rw (q, e, q) refl
      | inr q ↦
          let same = ap (λ i. has_id i ps) ((eq_iff p.id j).0 e) in
          rw (q, e, q) (find_of_absent j _ (absent-kept j ps (sym same ∙ ground arith)))
    ]
    | inr e ↦
        let k = find-if_kept j ps (ground arith) in
        elim (Bool-cases (keep p)) [ inl q ↦ rw (q, e) k | inr q ↦ rw (q, e) k ]
  ]
