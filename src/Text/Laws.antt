-- ===== src/Text/Laws.antt =====
-- Laws of the text functions, and runs of them.
use Prim.Native.Char.{Char, code}
use text.Mathlib.TextLemmas.{cons-append, nil-append}
use tunwarden.Prelude.{
  ◌≤◌, ltb, ◌&&◌, ◌||◌, Bool, ℕ, nat_eq, String, if◌then◌else◌, ◌≡◌, refl, true, false, [], ◌∷◌,
  Bool-cases, inl, inr, ◌==◌, eq_iff, arith,
}
use tunwarden.Text.{
  trim_left, trim_right, is_space, has_prefix, drop_prefix, ◌<>◌, trim_space, fields, join,
  has_suffix, contains, trim_prefix, split, itoa, swap_letter, text_ltb, text_length, to_lower,
}

trim_space_run : trim_space "  a b\n" ≡ "a b"
unfolding trim_space
trim_space_run = refl

fields_run : fields " inet   podlaz " ≡ "inet" ∷ "podlaz" ∷ []
unfolding fields
fields_run = refl

split_run : split b'/' "/a/b" ≡ "" ∷ "a" ∷ "b" ∷ []
unfolding split
split_run = refl

itoa_run : itoa 10050 ≡ "10050"
unfolding itoa
itoa_run = refl

contains_run : contains "RTNETLINK: no such process" "no such process" ≡ true
unfolding contains
contains_run = refl

suffix_run : has_suffix "/run/a.json" ".json" ≡ true
unfolding has_suffix
suffix_run = refl

trim_prefix_run : trim_prefix "to 1.2.3.4/32" "to " ≡ "1.2.3.4/32"
unfolding trim_prefix
trim_prefix_run = refl

join_run : join ", " ("a" ∷ "b" ∷ []) ≡ "a, b"
unfolding join
join_run = refl

pub cons-ne-empty : (c : Char) (s : String) → (String.◌∷◌ c s == "") ≡ false
cons-ne-empty c s = elim (Bool-cases (String.◌∷◌ c s == "")) [
  | inl e ↦ absurd (cc ((eq_iff (String.◌∷◌ c s) "").0 e))
  | inr e ↦ e
]

-- a text that starts with a letter that shows is not blank
pub trim_space_of_visible :
    (c : Char) (s : String)
    → is_space (code c) ≡ false
    → (trim_space (String.◌∷◌ c s) == "") ≡ false
unfolding trim_space trim_left trim_right
trim_space_of_visible c s h = rw h (elim (Bool-cases (trim_right s == "")) [
  | inl e ↦ rw (e, h) (cons-ne-empty c (trim_right s))
  | inr e ↦ rw e (cons-ne-empty c (trim_right s))
])

nat_eq_refl : (n : ℕ) → nat_eq n n ≡ true
nat_eq_refl n = ground arith

pub has_prefix-append : (p s : String) → has_prefix (p <> s) p ≡ true
unfolding has_prefix
has_prefix-append String.[] s = refl
has_prefix-append (String.◌∷◌ c p) s =
    rw (cons-append c p s, has_prefix, nat_eq_refl (code c)) (has_prefix-append p s)

drop_prefix-append : (p s : String) → drop_prefix (p <> s) p ≡ s
unfolding drop_prefix
drop_prefix-append String.[] s = rw (nil-append s, drop_prefix) refl
drop_prefix-append (String.◌∷◌ c p) s = rw (cons-append c p s, drop_prefix) (drop_prefix-append p s)

pub trim_prefix-append : (p s : String) → trim_prefix (p <> s) p ≡ s
unfolding trim_prefix
trim_prefix-append p s = rw (has_prefix-append p s) (drop_prefix-append p s)

if-and-false : (b : Bool) (s t : String) → (if b && false then s else t) ≡ t
if-and-false true s t = refl
if-and-false false s t = refl

-- every character passes the test
abbrev pub all_chars : (ℕ → Bool) → String → Bool
all_chars q String.[] = true
all_chars q (String.◌∷◌ c s) = q (code c) && all_chars q s

module _ (q : ℕ → Bool) (q-visible : (n : ℕ) → q n ≡ true → is_space n ≡ false) where
  trim_left_of_solid : (s : String) → all_chars q s ≡ true → trim_left s ≡ s
  unfolding trim_left
  trim_left_of_solid String.[] h = refl
  trim_left_of_solid (String.◌∷◌ c s) h = rw (q-visible (code c) (ground arith)) refl

  trim_right_of_solid : (s : String) → all_chars q s ≡ true → trim_right s ≡ s
  unfolding trim_right
  trim_right_of_solid String.[] h = refl
  trim_right_of_solid (String.◌∷◌ c s) h =
      rw (trim_right_of_solid s (ground arith), q-visible (code c) (ground arith))
        (if-and-false (s == "") _ _)

  pub trim_space_of_solid : (s : String) → all_chars q s ≡ true → trim_space s ≡ s
  unfolding trim_space
  trim_space_of_solid s h = rw (trim_left_of_solid s h) (trim_right_of_solid s h)

-- no capital letter, and none of the letters beyond ASCII
abbrev pub is_small : ℕ → Bool
is_small n = ltb n 65 || (ltb 90 n && ltb n 0x130)

swap_letter_of_small :
    (c : Char)
    → is_small (code c) ≡ true
    → swap_letter c "ABCDEFGHIJKLMNOPQRSTUVWXYZİK" "abcdefghijklmnopqrstuvwxyzik" ≡ c
unfolding swap_letter
swap_letter_of_small c h = ground arith

pub to_lower_of_small :
    (q : ℕ → Bool)
    → ((n : ℕ) → q n ≡ true → is_small n ≡ true)
    → (s : String) → all_chars q s ≡ true
    → to_lower s ≡ s
unfolding to_lower
to_lower_of_small q f String.[] h = refl
to_lower_of_small q f (String.◌∷◌ c s) h =
    rw (swap_letter_of_small c (f (code c) (ground arith)), to_lower_of_small q f s (ground arith))
      refl

pub text_ltb_asym : (s t : String) → text_ltb s t ≡ true → text_ltb t s ≡ false
unfolding text_ltb
text_ltb_asym String.[] String.[] h = refl
text_ltb_asym String.[] (String.◌∷◌ d t) h = refl
text_ltb_asym (String.◌∷◌ c s) String.[] h = absurd cc
text_ltb_asym (String.◌∷◌ c s) (String.◌∷◌ d t) h = ground (arith, text_ltb_asym s t)

module _ (q : ℕ → Bool) where
  trim_left-all : (s : String) → all_chars q s ≡ true → all_chars q (trim_left s) ≡ true
  unfolding trim_left
  trim_left-all String.[] h = refl
  trim_left-all (String.◌∷◌ c s) h = elim (Bool-cases (is_space (code c))) [
    | inl e ↦ rw e (trim_left-all s (ground arith))
    | inr e ↦ rw e h
  ]

  trim_right-all : (s : String) → all_chars q s ≡ true → all_chars q (trim_right s) ≡ true
  unfolding trim_right
  trim_right-all String.[] h = refl
  trim_right-all (String.◌∷◌ c s) h =
      let k = trim_right-all s (ground arith) in
      elim (Bool-cases (trim_right s == "" && is_space (code c))) [
        | inl e ↦ rw e refl
        | inr e ↦ rw e (ground arith)
      ]

  pub trim_space-all : (s : String) → all_chars q s ≡ true → all_chars q (trim_space s) ≡ true
  unfolding trim_space
  trim_space-all s h = trim_right-all (trim_left s) (trim_left-all s h)

trim_left-short : (s : String) → text_length (trim_left s) ≤ text_length s
unfolding trim_left text_length
trim_left-short String.[] = ground arith
trim_left-short (String.◌∷◌ c s) = elim (Bool-cases (is_space (code c))) [
  | inl e ↦ rw e (ground (arith, trim_left-short s))
  | inr e ↦ rw e (ground arith)
]

trim_right-short : (s : String) → text_length (trim_right s) ≤ text_length s
unfolding trim_right text_length
trim_right-short String.[] = ground arith
trim_right-short (String.◌∷◌ c s) = elim (Bool-cases (trim_right s == "" && is_space (code c))) [
  | inl e ↦ rw e (ground arith)
  | inr e ↦ rw e (ground (arith, trim_right-short s))
]

pub trim_space-short : (s : String) → text_length (trim_space s) ≤ text_length s
unfolding trim_space
trim_space-short s = ground (arith, trim_right-short (trim_left s), trim_left-short s)
