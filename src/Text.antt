-- ===== src/Text.antt =====
-- The parts of Go's `strings` and `strconv` that the program uses, over the code points of a text.
-- A Go string that is not valid UTF-8 has no counterpart here.
pub mod Laws
use Prim.Native.Char.{Char, code}
use Prim.Native.String
use Prim.Native.String.{[], ◌∷◌}
use tunwarden.Prelude.{
  ℕ, zero, suc, ◌+◌, ◌/◌, ◌%◌, String, Bool, true, false, ◌&&◌, ◌||◌, List, [], ◌∷◌, leb, ltb,
  nat_eq, if◌then◌else◌, ◌==◌, ℤ, pos, negsuc,
}

infixr 65 ◌<>◌
abbrev pub ◌<>◌ : String → String → String
s <> t = String.◌++◌ s t

-- unicode.IsSpace
unfoldable pub is_space : ℕ → Bool
is_space c =
    (leb 9 c && leb c 13)
    || nat_eq c 32
    || nat_eq c 0x85
    || nat_eq c 0xa0
    || nat_eq c 0x1680
    || (leb 0x2000 c && leb c 0x200a)
    || nat_eq c 0x2028
    || nat_eq c 0x2029
    || nat_eq c 0x202f
    || nat_eq c 0x205f
    || nat_eq c 0x3000

trim_left : String → String
trim_left [] = ""
trim_left (c ∷ s) = let rest = trim_left s in if is_space (code c) then rest else c ∷ s

trim_right : String → String
trim_right [] = ""
trim_right (c ∷ s) =
    let rest = trim_right s in if rest == "" && is_space (code c) then "" else c ∷ rest

-- strings.TrimSpace
unfoldable pub trim_space : String → String
unfolding trim_left trim_right is_space
trim_space s = trim_right (trim_left s)

fields_from : String → String → List String
fields_from word [] = if word == "" then [] else word ∷ []
fields_from word (c ∷ s) =
    let split = fields_from "" s in
    let longer = fields_from (word <> (c ∷ "")) s in
    if is_space (code c) then (if word == "" then split else word ∷ split) else longer

-- strings.Fields
unfoldable pub fields : String → List String
unfolding fields_from is_space
fields s = fields_from "" s

-- strings.Join, with the separator first
unfoldable pub join : String → List String → String
join sep [] = ""
join sep (s ∷ []) = s
join sep (s ∷ t ∷ rest) = s <> sep <> join sep (t ∷ rest)

-- strings.HasPrefix
unfoldable pub has_prefix : String → String → Bool
has_prefix s [] = true
has_prefix [] (d ∷ p) = false
has_prefix (c ∷ s) (d ∷ p) = nat_eq (code c) (code d) && has_prefix s p

-- strings.HasSuffix
unfoldable pub has_suffix : String → String → Bool
has_suffix [] p = p == ""
has_suffix (c ∷ s) p = (c ∷ s) == p || has_suffix s p

-- strings.Contains
unfoldable pub contains : String → String → Bool
unfolding has_prefix
contains [] p = p == ""
contains (c ∷ s) p = has_prefix (c ∷ s) p || contains s p

drop_prefix : String → String → String
drop_prefix s [] = s
drop_prefix [] (d ∷ p) = ""
drop_prefix (c ∷ s) (d ∷ p) = drop_prefix s p

-- strings.TrimPrefix
unfoldable pub trim_prefix : String → String → String
unfolding drop_prefix has_prefix
trim_prefix s p = if has_prefix s p then drop_prefix s p else s

cut_suffix : String → String → String
cut_suffix [] p = ""
cut_suffix (c ∷ s) p =
    let rest = cut_suffix s p in let kept : String = c ∷ rest in if (c ∷ s) == p then "" else kept

-- strings.TrimSuffix
unfoldable pub trim_suffix : String → String → String
unfolding cut_suffix
trim_suffix s p = if has_suffix s p then cut_suffix s p else s

-- the letter at the place of `c` in the first text, taken from the second
swap_letter : Char → String → String → Char
swap_letter c (u ∷ us) (l ∷ ls) = if nat_eq (code c) (code u) then l else swap_letter c us ls
swap_letter c _ _ = c

-- strings.ToLower, as far as the result can be ASCII: İ and the Kelvin sign have an ASCII image, and
-- the other letters beyond ASCII keep away from it
unfoldable pub to_lower : String → String
unfolding swap_letter
to_lower [] = ""
to_lower (c ∷ s) =
    swap_letter c "ABCDEFGHIJKLMNOPQRSTUVWXYZİK" "abcdefghijklmnopqrstuvwxyzik" ∷ to_lower s

-- the texts that strings.EqualFold identifies, as far as one of them is ASCII
fold_case : String → String
unfolding swap_letter
fold_case [] = ""
fold_case (c ∷ s) =
    swap_letter c "ABCDEFGHIJKLMNOPQRSTUVWXYZſK" "abcdefghijklmnopqrstuvwxyzsk" ∷ fold_case s

-- strings.EqualFold, for a second text in ASCII
unfoldable pub equal_fold : String → String → Bool
unfolding fold_case
equal_fold s t = fold_case s == fold_case t

-- the number of code points
unfoldable pub text_length : String → ℕ
text_length [] = 0
text_length (c ∷ s) = suc (text_length s)

-- strings.Compare(s, t) < 0: the order of the bytes is that of the code points
unfoldable pub text_ltb : String → String → Bool
text_ltb s [] = false
text_ltb [] (d ∷ t) = true
text_ltb (c ∷ s) (d ∷ t) = ltb (code c) (code d) || (nat_eq (code c) (code d) && text_ltb s t)

-- strings.ReplaceAll of "-" by "_"
unfoldable pub underscores : String → String
underscores [] = ""
underscores (c ∷ s) = (if nat_eq (code c) b'-' then "_" else c) ∷ underscores s

-- strings.ReplaceAll of the NUL by a blank
unfoldable pub blanks_for_nul : String → String
blanks_for_nul [] = ""
blanks_for_nul (c ∷ s) = (if nat_eq (code c) 0 then " " else c) ∷ blanks_for_nul s

split_from : ℕ → String → String → List String
split_from separator part [] = part ∷ []
split_from separator part (c ∷ s) =
    let closed = split_from separator "" s in
    let longer = split_from separator (part <> (c ∷ "")) s in
    if nat_eq (code c) separator then part ∷ closed else longer

-- strings.Split at a separator of one character
unfoldable pub split : ℕ → String → List String
unfolding split_from
split separator s = split_from separator "" s

digit : ℕ → String
digit n =
    if nat_eq n 0
    then "0"
    else if nat_eq n 1
    then "1"
    else if nat_eq n 2
    then "2"
    else if nat_eq n 3
    then "3"
    else if nat_eq n 4
    then "4"
    else if nat_eq n 5
    then "5"
    else if nat_eq n 6
    then "6"
    else if nat_eq n 7
    then "7"
    else if nat_eq n 8
    then "8"
    else "9"

decimal : ℕ → ℕ → String
decimal zero n = ""
decimal (suc f) n =
    let higher = decimal f (n / 10) in if ltb n 10 then digit n else higher <> digit (n % 10)

-- strconv.Itoa of a number that is not negative; it has at most `suc n` digits
unfoldable pub itoa : ℕ → String
unfolding decimal digit
itoa n = decimal (suc n) n

-- strconv.Itoa, and fmt's %d
unfoldable pub int_text : ℤ → String
unfolding itoa
int_text (pos n) = itoa n
int_text (negsuc n) = "-" <> itoa (suc n)
