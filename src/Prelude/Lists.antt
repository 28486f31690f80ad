-- ===== src/Prelude/Lists.antt =====
-- Lists: lengths by native numbers, Boolean searches, and a predicate on every element.
use Prim.Native.Nat.{ℕ, suc}
use mathlib.Core.Path.{◌≡◌, refl, ap}
use mathlib.Core.Logic.{inl, inr}
use mathlib.Core.Bool.{Bool, true, false, ◌||◌}
use mathlib.Core.List.{List, [], ◌∷◌, ◌++◌}
use native.Mathlib.Omega.{arith}
use tunwarden.Prelude.Tests.{Bool-cases}

module _ {ℓ} {A : Type ℓ} where
  abbrev pub length : List A → ℕ
  length [] = 0
  length (x ∷ xs) = suc (length xs)

  abbrev pub any : (A → Bool) → List A → Bool
  any p [] = false
  any p (x ∷ xs) = p x || any p xs

  abbrev pub is_empty : List A → Bool
  is_empty [] = true
  is_empty (x ∷ xs) = false

  pub any-append : (p : A → Bool) (xs ys : List A) → any p (xs ++ ys) ≡ (any p xs || any p ys)
  any-append p [] ys = refl
  any-append p (x ∷ xs) ys = ground (arith, any-append p xs ys)

  -- an element that passes the test, and what stands round it
  pub any→found :
      (p : A → Bool) (xs : List A)
      → any p xs ≡ true
      → (x : A) × (before : List A) × (after : List A) × (xs ≡ before ++ x ∷ after) × (p x ≡ true)
  any→found p [] h = cc
  any→found p (x ∷ xs) h = elim (Bool-cases (p x)) [
    | inl e ↦ (x, [], xs, refl, e)
    | inr e ↦
        let (y, before, after, q, k) = any→found p xs (rw e at h) in
        (y, x ∷ before, after, ap (◌∷◌ x) q, k)
  ]

  pub found→any :
      (p : A → Bool) (before : List A) (x : A) (after : List A)
      → p x ≡ true
      → any p (before ++ x ∷ after) ≡ true
  found→any p [] x after h = rw h refl
  found→any p (y ∷ before) x after h = ground (arith, found→any p before x after)

module _ {ℓ κ} {A : Type ℓ} (P : A → Type κ) where
  abbrev pub All : List A → Type κ
  All [] = Unit
  All (x ∷ xs) = P x × All xs

  pub All-append : (xs ys : List A) → All xs → All ys → All (xs ++ ys)
  All-append [] ys h k = k
  All-append (x ∷ xs) ys (p, h) k = (p, All-append xs ys h k)

pub All-map {ℓ κ μ} :
    {A : Type ℓ} (P : A → Type κ) (Q : A → Type μ)
    → ((a : A) → P a → Q a)
    → (xs : List A) → All P xs
    → All Q xs
All-map P Q f [] h = tt
All-map P Q f (x ∷ xs) (p, h) = (f x p, All-map P Q f xs h)

pub All-zip {ℓ κ μ ν} :
    {A : Type ℓ} (P : A → Type κ) (Q : A → Type μ) (R : A → Type ν)
    → ((a : A) → P a → Q a → R a)
    → (xs : List A) → All P xs
    → All Q xs
    → All R xs
All-zip P Q R f [] h k = tt
All-zip P Q R f (x ∷ xs) (p, h) (q, k) = (f x p q, All-zip P Q R f xs h k)

pub All-any {ℓ κ} : {A : Type ℓ} (P : A → Type κ) → ((a : A) → P a) → (xs : List A) → All P xs
All-any P f [] = tt
All-any P f (x ∷ xs) = (f x, All-any P f xs)
