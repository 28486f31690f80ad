-- ===== src/Profile/Contents/Sorted.antt =====
-- `SortStable` leaves the ids in order.
use tunwarden.Prelude.{◌≡◌, refl, Bool, true, not, ◌&&◌, List, [], ◌∷◌, arith, Bool-cases, inl, inr}
use tunwarden.Text.{text_ltb}
use tunwarden.Text.Laws.{text_ltb_asym}
use tunwarden.Profile.Model.{Profile}
use tunwarden.Profile.Contents.{insert_profile, sort_stable}

abbrev head_after : Profile → List Profile → Bool
head_after p [] = true
head_after p (q ∷ qs) = not (text_ltb q.id p.id)

-- no id stands right before a smaller one
abbrev pub sorted : List Profile → Bool
sorted [] = true
sorted (p ∷ ps) = head_after p ps && sorted ps

head_after-insert :
    (p q : Profile) (qs : List Profile)
    → text_ltb q.id p.id ≡ true
    → head_after q qs ≡ true
    → head_after q (insert_profile p qs) ≡ true
unfolding insert_profile
head_after-insert p q [] h k = rw (text_ltb_asym q.id p.id h) refl
head_after-insert p q (r ∷ qs) h k = elim (Bool-cases (text_ltb r.id p.id)) [
  | inl e ↦ rw e k
  | inr e ↦ rw (e, text_ltb_asym q.id p.id h) refl
]

sorted-insert :
    (p : Profile) (qs : List Profile) → sorted qs ≡ true → sorted (insert_profile p qs) ≡ true
unfolding insert_profile
sorted-insert p [] h = refl
sorted-insert p (q ∷ qs) h = elim (Bool-cases (text_ltb q.id p.id)) [
  | inl e ↦ rw (e, head_after-insert p q qs e (ground arith)) (sorted-insert p qs (ground arith))
  | inr e ↦ rw (e, e) (ground arith)
]

pub sort-sorted : (ps : List Profile) → sorted (sort_stable ps) ≡ true
unfolding sort_stable
sort-sorted [] = refl
sort-sorted (p ∷ ps) = sorted-insert p (sort_stable ps) (sort-sorted ps)
