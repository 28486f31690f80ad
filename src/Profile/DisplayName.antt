-- ===== src/Profile/DisplayName.antt =====
-- internal/profile/display_name.go: `SanitizeDisplayName` and the names that it rejects. A text has no
-- invalid UTF-8 to drop.
pub mod Accepted
use Prim.Native.Char.{Char, code}
use Prim.Native.String.{[], ◌∷◌}
use tunwarden.Prelude.{
  ℕ, zero, suc, String, Bool, true, false, not, ◌&&◌, ◌||◌, List, [], ◌∷◌, Option, none, some, any,
  leb, ltb, nat_eq, if◌then◌else◌, ◌==◌,
}
use tunwarden.Text.{◌<>◌, is_space, trim_space, to_lower, contains, has_prefix, text_length, itoa}
use tunwarden.Profile.Id.{normalize_id}
use tunwarden.Profile.Validate.{contains_blank, is_separator, is_alphanumeric}

abbrev pub max_display_name_runes : ℕ
max_display_name_runes = 80

-- unicode.IsControl
abbrev pub is_control : ℕ → Bool
is_control c = ltb c 32 || (leb 127 c && leb c 159)

-- what the loop turns into a blank
unfoldable pub is_gap : ℕ → Bool
unfolding is_space
is_gap c = nat_eq c b'/' || nat_eq c 92 || is_control c || is_space c

abbrev gap_then : Bool → String → String
gap_then true s = " " <> s
gap_then false s = s

-- what the loop writes for the rest of the name: `started` says that the builder is not empty
unfoldable pub visible_rest : Bool → Bool → String → String
unfolding is_gap
visible_rest started last [] = ""
visible_rest started last (c ∷ s) =
    let gap = is_gap (code c) in
    let writes = started && not last in
    let rest = visible_rest (started || not gap) (if gap then writes || last else false) s in
    if gap then gap_then writes rest else c ∷ rest

unfoldable pub first_runes : ℕ → String → String
first_runes zero s = ""
first_runes (suc n) [] = ""
first_runes (suc n) (c ∷ s) = c ∷ first_runes n s

unfoldable pub truncate_runes : String → ℕ → String
unfolding first_runes trim_space text_length
truncate_runes value max =
    if nat_eq max 0
    then ""
    else if leb (text_length value) max
    then value
    else trim_space (first_runes max value)

abbrev pub sensitive_markers : List String
sensitive_markers =
    "token" ∷ "password" ∷ "passwd" ∷ "secret" ∷ "private" ∷ "authorization" ∷ "api_key" ∷ "apikey"
    ∷ []

unfoldable pub looks_sensitive_like : String → Bool
unfolding contains
looks_sensitive_like value = any (contains value) sensitive_markers

unfoldable pub all_alphanumeric : String → Bool
all_alphanumeric [] = true
all_alphanumeric (c ∷ s) = is_alphanumeric (code c) && all_alphanumeric s

-- strings.ContainsAny(value, "-_.")
unfoldable pub contains_separator : String → Bool
contains_separator [] = false
contains_separator (c ∷ s) = is_separator (code c) || contains_separator s

unfoldable pub looks_opaque_machine_id_like : String → Bool
unfolding trim_space text_length contains_blank contains_separator all_alphanumeric
looks_opaque_machine_id_like value =
    let compact = trim_space value in
    if ltb (text_length compact) 12 || contains_blank compact || contains_separator compact
    then false
    else all_alphanumeric compact

abbrev is_hex : ℕ → Bool
is_hex c = (leb b'0' c && leb c b'9') || (leb b'a' c && leb c b'f') || (leb b'A' c && leb c b'F')

-- an `x` of the shape stands for a digit in base 16, and anything else for itself
matches_shape : String → String → Bool
matches_shape [] s = s == ""
matches_shape (x ∷ shape) [] = false
matches_shape (x ∷ shape) (c ∷ s) =
    let rest = matches_shape shape s in
    (if nat_eq (code x) b'x' then is_hex (code c) else nat_eq (code c) (code x)) && rest

-- uuidPattern
unfoldable pub matches_uuid : String → Bool
unfolding matches_shape
matches_uuid s = matches_shape "xxxxxxxx-xxxx-xxxx-xxxx-xxxxxxxxxxxx" s

unfoldable pub unsafe_display_name : String → Bool
unfolding trim_space to_lower matches_uuid looks_sensitive_like looks_opaque_machine_id_like
    contains has_prefix
unsafe_display_name value =
    let v = to_lower (trim_space value) in
    v == ""
    || (matches_uuid v || looks_sensitive_like v)
    || contains v "://"
    || any (has_prefix v) ("vless:" ∷ "vmess:" ∷ "trojan:" ∷ "ss:" ∷ [])
    || ((has_prefix v "{" || has_prefix v "[") && (contains v "outbounds" || contains v "inbounds"))
    || looks_opaque_machine_id_like value

-- the name of the loop, from the trimming behind it
unfoldable pub accepted_name : String → Option String
unfolding truncate_runes unsafe_display_name
accepted_name name =
    if name == ""
    then none
    else (let short = truncate_runes name max_display_name_runes in
        if unsafe_display_name short then none else some short)

unfoldable pub sanitize_display_name : String → Option String
unfolding accepted_name visible_rest trim_space
sanitize_display_name raw =
    let name = trim_space raw in
    if name == "" then none else accepted_name (trim_space (visible_rest false false name))

or_fallback : String → Option String → String
or_fallback protocol (some name) = name
or_fallback protocol none =
    let id = normalize_id protocol in if id == "" then "profile" else id <> "-profile"

unfoldable pub fallback_profile_display_name : String → String → ℕ → String
unfolding or_fallback sanitize_display_name trim_space to_lower itoa normalize_id
fallback_profile_display_name protocol host port = or_fallback protocol (
    sanitize_display_name
      (to_lower (trim_space protocol) <> "-" <> trim_space host <> "-" <> itoa port))

provided : String → String → ℕ → Option String → String × Bool
provided protocol host port (some name) = (name, true)
provided protocol host port none = (fallback_profile_display_name protocol host port, false)

unfoldable pub provider_profile_display_name : String → String → String → ℕ → String × Bool
unfolding provided sanitize_display_name
provider_profile_display_name raw protocol host port =
    provided protocol host port (sanitize_display_name raw)
