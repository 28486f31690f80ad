-- ===== src/Profile/DisplayName/Accepted.antt =====
-- What `SanitizeDisplayName` lets through.
use Prim.Native.Char.{Char, code}
use Prim.Native.String.{[], ◌∷◌}
use text.Mathlib.TextLemmas.{cons-append, nil-append}
use tunwarden.Prelude.{
  ℕ, zero, suc, ◌≤◌, ◌≡◌, refl, sym, String, Bool, true, false, not, ◌&&◌, ◌||◌, some, Bool-cases,
  inl, inr, arith, nat_eq, leb, ◌==◌,
}
use tunwarden.Text.{trim_space, text_length}
use tunwarden.Text.Laws.{all_chars, trim_space-all, trim_space-short}
use tunwarden.Profile.DisplayName.{
  is_gap, gap_then, visible_rest, first_runes, truncate_runes, unsafe_display_name, accepted_name,
  sanitize_display_name,
}

sanitize_display_name_run : sanitize_display_name "  DE/Berlin \n 1 " ≡ some "DE Berlin 1"
unfolding sanitize_display_name
sanitize_display_name_run = refl

-- a blank, or no gap
abbrev pub is_shown : ℕ → Bool
is_shown c = nat_eq c b' ' || not (is_gap c)

shown-cons :
    (c : Char) (s : String)
    → is_shown (code c) ≡ true
    → all_chars is_shown s ≡ true
    → all_chars is_shown (c ∷ s) ≡ true
shown-cons c s h k = ground arith

gap_then-shown :
    (b : Bool) (s : String) → all_chars is_shown s ≡ true → all_chars is_shown (gap_then b s) ≡ true
gap_then-shown true s h = rw (cons-append " " "" s, nil-append s) (shown-cons " " s refl h)
gap_then-shown false s h = h

visible_rest-shown :
    (s : String) (started last : Bool) → all_chars is_shown (visible_rest started last s) ≡ true
unfolding visible_rest
visible_rest-shown [] started last = refl
visible_rest-shown (c ∷ s) started last = elim (Bool-cases (is_gap (code c))) [
  | inl e ↦ rw e (gap_then-shown (started && not last) _ (visible_rest-shown s _ _))
  | inr e ↦ rw e (
      shown-cons c (visible_rest (started || true) false s) (ground arith)
        (visible_rest-shown s (started || true) false))
]

first_runes-all :
    (q : ℕ → Bool) (n : ℕ) (s : String)
    → all_chars q s ≡ true
    → all_chars q (first_runes n s) ≡ true
unfolding first_runes
first_runes-all q zero s h = refl
first_runes-all q (suc n) [] h = refl
first_runes-all q (suc n) (c ∷ s) h = let k = first_runes-all q n s (ground arith) in ground arith

first_runes-short : (n : ℕ) (s : String) → text_length (first_runes n s) ≤ n
unfolding first_runes text_length
first_runes-short zero s = ground arith
first_runes-short (suc n) [] = ground arith
first_runes-short (suc n) (c ∷ s) = ground (arith, first_runes-short n s)

truncate_runes-short : (s : String) (n : ℕ) → text_length (truncate_runes s n) ≤ n
unfolding truncate_runes text_length
truncate_runes-short s n = elim (Bool-cases (nat_eq n 0)) [
  | inl e ↦ rw e (ground arith)
  | inr e ↦ elim (Bool-cases (leb (text_length s) n)) [
    | inl k ↦ rw (e, k) (ground arith)
    | inr k ↦ rw (e, k) (ground (arith, trim_space-short (first_runes n s), first_runes-short n s))
  ]
]

truncate_runes-all :
    (q : ℕ → Bool) (s : String) (n : ℕ)
    → all_chars q s ≡ true
    → all_chars q (truncate_runes s n) ≡ true
unfolding truncate_runes
truncate_runes-all q s n h = elim (Bool-cases (nat_eq n 0)) [
  | inl e ↦ rw e refl
  | inr e ↦ elim (Bool-cases (leb (text_length s) n)) [
    | inl k ↦ rw (e, k) h
    | inr k ↦ rw (e, k) (trim_space-all q _ (first_runes-all q n s h))
  ]
]

-- a name that may be shown
abbrev pub IsDisplayName : String → Type 0
IsDisplayName name =
    (text_length name ≤ 80) × (all_chars is_shown name ≡ true) × (unsafe_display_name name ≡ false)

accepted_name-IsDisplayName :
    (s name : String)
    → all_chars is_shown s ≡ true
    → accepted_name s ≡ some name
    → IsDisplayName name
unfolding accepted_name
accepted_name-IsDisplayName s name q h = elim (Bool-cases (s == "")) [
  | inl e ↦ absurd (let k = rw e at h in cc)
  | inr e ↦
      let short = truncate_runes s 80 in
      elim (Bool-cases (unsafe_display_name short)) [
        | inl u ↦ absurd (let k = rw (e, u) at h in cc)
        | inr u ↦
            let same : short ≡ name = let k = rw (e, u) at h in cc in
            rw (sym same) (truncate_runes-short s 80, truncate_runes-all is_shown s 80 q, u)
      ]
]

-- A name that `SanitizeDisplayName` accepts has at most 80 characters, none of them is a slash, a control
-- character or a blank other than the space, and `unsafeDisplayName` does not take the accepted name, as
-- it stands after the cleaning and the cut, for a secret, a link, an identifier or a configuration.
pub sanitize_display_name-IsDisplayName :
    (raw name : String) → sanitize_display_name raw ≡ some name → IsDisplayName name
unfolding sanitize_display_name
sanitize_display_name-IsDisplayName raw name h = elim (Bool-cases (trim_space raw == "")) [
  | inl e ↦ absurd (let k = rw e at h in cc)
  | inr e ↦
      let clean = visible_rest false false (trim_space raw) in
      accepted_name-IsDisplayName (trim_space clean) name
        (trim_space-all is_shown clean (visible_rest-shown (trim_space raw) false false))
        (rw e at h)
]
