-- ===== src/Profile/Id/Normal.antt =====
-- What `NormalizeID` returns: an id that `Validate` accepts, and that it returns unchanged.
use Prim.Native.Char.{Char, code}
use Prim.Native.String.{[], ◌∷◌}
use tunwarden.Prelude.{
  ℕ, ◌≡◌, refl, String, Bool, true, false, not, ◌&&◌, ◌||◌, Option, none, some, if◌then◌else◌, ◌==◌,
  arith, inl, inr, Bool-cases, eq_iff, ap, is_none,
}
use tunwarden.Text.{is_space, trim_space, to_lower}
use tunwarden.Text.Laws.{cons-ne-empty, all_chars, is_small, trim_space_of_solid, to_lower_of_small}
use tunwarden.Profile.Validate.{is_lower, is_digit, is_separator, valid_id}
use tunwarden.Profile.Id.{
  written, prepend, last_after, normalize_rest, trim_separators_left, trim_separators_right,
  normalize_id,
}

normalize_id_run : normalize_id "  .My  VPN_-(DE) 2! " ≡ "my-vpn_de-2"
unfolding normalize_id
normalize_id_run = refl

-- Letters of ids, with no separator behind another; `before` says whether one stands before the text.
abbrev spaced : Bool → String → Bool
spaced before [] = true
spaced before (c ∷ s) =
    if is_separator (code c)
    then not before && spaced true s
    else (is_lower (code c) || is_digit (code c)) && spaced false s

-- the same, with no separator at the end
abbrev normal : Bool → String → Bool
normal before [] = not before
normal before (c ∷ s) =
    if is_separator (code c)
    then not before && normal true s
    else (is_lower (code c) || is_digit (code c)) && normal false s

-- what the loop may write in its state
abbrev fits : Bool → Bool → Option Char → Bool
fits started last none = true
fits started last (some d) =
    if is_separator (code d) then started && not last else is_lower (code d) || is_digit (code d)

written-fits : (started last : Bool) (c : Char) → fits started last (written started last c) ≡ true
unfolding written
written-fits started last c = ground arith

prepend-spaced :
    (started last : Bool) (w : Option Char) (s : String)
    → fits started last w ≡ true
    → spaced (not (started || not (is_none w)) || last_after last w) s ≡ true
    → spaced (not started || last) (prepend w s) ≡ true
prepend-spaced true last none s f h = h
prepend-spaced false last none s f h = h
prepend-spaced started last (some d) s f h = ground arith

normalize_rest-spaced :
    (s : String) (started last : Bool)
    → spaced (not started || last) (normalize_rest started last s) ≡ true
unfolding normalize_rest
normalize_rest-spaced [] started last = refl
normalize_rest-spaced (c ∷ s) started last =
    prepend-spaced started last (written started last c) _ (written-fits started last c)
      (normalize_rest-spaced s _ _)

trim_left_of_spaced : (s : String) → spaced true s ≡ true → trim_separators_left s ≡ s
unfolding trim_separators_left
trim_left_of_spaced [] h = refl
trim_left_of_spaced (c ∷ s) h = ground arith

-- what a letter of an id asks of the state before it
abbrev follows : Bool → Char → Bool
follows before c =
    if is_separator (code c) then not before else is_lower (code c) || is_digit (code c)

trimmed-normal :
    (before : Bool) (c : Char) (t : String)
    → follows before c ≡ true
    → (t == "" || normal (is_separator (code c)) t) ≡ true
    → let r : String = if t == "" && is_separator (code c) then "" else c ∷ t in
      (r == "" || normal before r) ≡ true
trimmed-normal before c [] h k = elim (Bool-cases (is_separator (code c))) [
  | inl e ↦ rw e refl
  | inr e ↦ rw (e, cons-ne-empty c "", e) (ground arith)
]
trimmed-normal before c (d ∷ t) h k =
    rw (cons-ne-empty d t, cons-ne-empty c (d ∷ t)) (ground (arith, cons-ne-empty d t))

trim_right_of_spaced :
    (before : Bool) (s : String)
    → spaced before s ≡ true
    → (trim_separators_right s == "" || normal before (trim_separators_right s)) ≡ true
unfolding trim_separators_right
trim_right_of_spaced before [] h = refl
trim_right_of_spaced before (c ∷ s) h =
    trimmed-normal before c (trim_separators_right s) (ground arith)
      (trim_right_of_spaced (is_separator (code c)) s (ground arith))

kept-normal :
    (c : Char) (t : String)
    → normal (is_separator (code c)) t ≡ true
    → (t == "" && is_separator (code c)) ≡ false
kept-normal c [] h = ground arith
kept-normal c (d ∷ t) h = rw (cons-ne-empty d t) refl

trim_right_of_normal :
    (before : Bool) (s : String) → normal before s ≡ true → trim_separators_right s ≡ s
unfolding trim_separators_right
trim_right_of_normal before [] h = refl
trim_right_of_normal before (c ∷ s) h =
    rw
      (
        trim_right_of_normal (is_separator (code c)) s (ground arith),
        kept-normal c s (ground arith),
      )
      refl

written-normal :
    (started last : Bool) (c : Char) (s : String)
    → normal (not started || last) (c ∷ s) ≡ true
    → written started last c ≡ some c
unfolding written
written-normal started last c s h = ground arith

started_then :
    (started last : Bool) (s : String)
    → normal last s ≡ true
    → normal (not (started || true) || last) s ≡ true
started_then true last s h = h
started_then false last s h = h

normalize_rest_of_normal :
    (s : String) (started last : Bool)
    → normal (not started || last) s ≡ true
    → normalize_rest started last s ≡ s
unfolding normalize_rest
normalize_rest_of_normal [] started last h = refl
normalize_rest_of_normal (c ∷ s) started last h = rw (written-normal started last c s h) (
    ap (◌∷◌ c) (
      normalize_rest_of_normal s (started || true) (is_separator (code c))
        (started_then started (is_separator (code c)) s (ground arith))))

is_id_char : ℕ → Bool
is_id_char n = is_lower n || is_digit n || is_separator n

id_char_visible : (n : ℕ) → is_id_char n ≡ true → is_space n ≡ false
unfolding is_id_char is_space
id_char_visible n h = ground arith

id_char_small : (n : ℕ) → is_id_char n ≡ true → is_small n ≡ true
unfolding is_id_char
id_char_small n h = ground arith

normal→id_chars :
    (before : Bool) (s : String) → normal before s ≡ true → all_chars is_id_char s ≡ true
unfolding is_id_char
normal→id_chars before [] h = refl
normal→id_chars before (c ∷ s) h =
    let k = normal→id_chars (is_separator (code c)) s (ground arith) in ground arith

id_chars→valid : (s : String) → all_chars is_id_char s ≡ true → valid_id s ≡ true
unfolding is_id_char valid_id
id_chars→valid [] h = refl
id_chars→valid (c ∷ s) h = let k = id_chars→valid s (ground arith) in ground arith

normal→spaced : (before : Bool) (s : String) → normal before s ≡ true → spaced before s ≡ true
normal→spaced before [] h = refl
normal→spaced before (c ∷ s) h =
    let k = normal→spaced (is_separator (code c)) s (ground arith) in ground arith

-- the ids that a name may give
abbrev pub is_normal_id : String → Bool
is_normal_id s = s == "" || normal true s

normalize_id-is_normal : (name : String) → is_normal_id (normalize_id name) ≡ true
unfolding normalize_id
normalize_id-is_normal name =
    let s = normalize_rest false false (to_lower (trim_space name)) in
    let h = normalize_rest-spaced (to_lower (trim_space name)) false false in
    rw (trim_left_of_spaced s h) (trim_right_of_spaced true s h)

normalize_id_of_normal : (s : String) → normal true s ≡ true → normalize_id s ≡ s
unfolding normalize_id
normalize_id_of_normal s h =
    let k = normal→id_chars true s h in
    rw
      (
        trim_space_of_solid is_id_char id_char_visible s k,
        to_lower_of_small is_id_char id_char_small s k,
        normalize_rest_of_normal s false false h,
        trim_left_of_spaced s (normal→spaced true s h),
      )
      (trim_right_of_normal true s h)

accepted_of_normal :
    (s : String) → is_normal_id s ≡ true → (valid_id s ≡ true) × (normalize_id s ≡ s)
unfolding normalize_id valid_id
accepted_of_normal s h = elim (Bool-cases (s == "")) [
  | inl e ↦ rw ((eq_iff s "").0 e) (refl, refl)
  | inr e ↦
      let k = rw e at h in (id_chars→valid s (normal→id_chars true s k), normalize_id_of_normal s k)
]

-- The id that a name gives has only the letters that `Validate` accepts in an id, no separator at
-- either end and no two separators together; and it is the id of itself.
pub normalize_id_is_canonical :
    (name : String)
    → (valid_id (normalize_id name) ≡ true)
      × (is_normal_id (normalize_id name) ≡ true)
      × (normalize_id (normalize_id name) ≡ normalize_id name)
normalize_id_is_canonical name =
    let h = normalize_id-is_normal name in
    let (v, i) = accepted_of_normal (normalize_id name) h in (v, h, i)
