-- ===== src/Profile/Id.antt =====
-- internal/profile/profile.go: `NormalizeID` and `NewManual`.
pub mod Normal
use Prim.Native.Char.{Char, code}
use Prim.Native.String.{[], ◌∷◌}
use tunwarden.Prelude.{
  ℕ, String, Bool, true, false, not, ◌&&◌, ◌||◌, Option, none, some, if◌then◌else◌, ◌==◌, is_none,
}
use tunwarden.Text.{is_space, trim_space, to_lower}
use tunwarden.Profile.Model.{Profile, engine_xray, source_manual, zero_profile}
use tunwarden.Profile.Validate.{is_lower, is_digit, is_separator}

-- What the loop writes for a letter: `started` says that the builder is not empty, and `last` is
-- lastSeparator.
unfoldable pub written : Bool → Bool → Char → Option Char
unfolding is_space
written started last c =
    if is_lower (code c) || is_digit (code c)
    then some c
    else if is_separator (code c)
    then (if started && not last then some c else none)
    else if is_space (code c) && started && not last
    then some "-"
    else none

abbrev prepend : Option Char → String → String
prepend none s = s
prepend (some c) s = c ∷ s

abbrev last_after : Bool → Option Char → Bool
last_after last none = last
last_after last (some c) = is_separator (code c)

-- what the loop writes for the rest of the name
unfoldable pub normalize_rest : Bool → Bool → String → String
unfolding written
normalize_rest started last [] = ""
normalize_rest started last (c ∷ s) =
    let w = written started last c in
    prepend w (normalize_rest (started || not (is_none w)) (last_after last w) s)

-- strings.Trim(s, ".-_")
unfoldable pub trim_separators_left : String → String
trim_separators_left [] = ""
trim_separators_left (c ∷ s) =
    let rest = trim_separators_left s in if is_separator (code c) then rest else c ∷ s

unfoldable pub trim_separators_right : String → String
trim_separators_right [] = ""
trim_separators_right (c ∷ s) =
    let rest = trim_separators_right s in
    if rest == "" && is_separator (code c) then "" else c ∷ rest

unfoldable pub normalize_id : String → String
unfolding normalize_rest trim_separators_left trim_separators_right to_lower trim_space
normalize_id name =
    trim_separators_right
      (trim_separators_left (normalize_rest false false (to_lower (trim_space name))))

unfoldable pub new_manual : String → String → ℕ → String → Profile
unfolding normalize_id to_lower trim_space
new_manual name server port protocol =
    let name' = trim_space name in
    record zero_profile {
      id = normalize_id name';
      name = name';
      source = source_manual;
      engine = engine_xray;
      server = trim_space server;
      port = port;
      protocol = to_lower (trim_space protocol);
    }
