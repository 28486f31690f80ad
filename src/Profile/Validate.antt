-- ===== src/Profile/Validate.antt =====
-- internal/profile/profile.go: `Validate` and the tests of its fields. A message of Go is a
-- constructor that carries what the text quotes.
pub mod Server
use Prim.Native.Char.{code}
use Prim.Native.String.{[], ◌∷◌}
use tunwarden.Prelude.{
  ℕ, zero, suc, String, Bool, true, false, not, ◌&&◌, ◌||◌, List, [], ◌∷◌, ◌++◌, leb, ltb, nat_eq,
  if◌then◌else◌, ◌==◌,
}
use tunwarden.Result.{Result, ok, err}
use tunwarden.Text.{trim_space, equal_fold, to_lower, split, has_prefix, has_suffix, text_length}
use tunwarden.Profile.Model.{
  Profile, engine_xray, engine_amnezia_wg, source_manual, source_subscription, source_imported_file,
  source_imported_uri, protocol_xray_json,
}
use tunwarden.Profile.Provider.{
  Library, is_provider_xray_config_profile, provider_xray_config_json,
  valid_provider_xray_config_json,
}

pub data Message : Type 0 where
  id_required id_letters name_required source_required : Message
  unsupported_source : String → Message
  engine_required : Message
  unsupported_engine : String → Message
  protocol_required : Message
  unsupported_protocol : String → Message
  provider_protocol provider_source provider_engine provider_config_required : Message
  provider_config_invalid server_required server_whitespace server_invalid port_range : Message
  user_identity_required : String → Message

abbrev pub is_lower : ℕ → Bool
is_lower c = leb b'a' c && leb c b'z'

abbrev pub is_digit : ℕ → Bool
is_digit c = leb b'0' c && leb c b'9'

abbrev pub is_separator : ℕ → Bool
is_separator c = nat_eq c b'.' || nat_eq c b'_' || nat_eq c b'-'

unfoldable pub valid_id : String → Bool
valid_id [] = true
valid_id (c ∷ s) = (is_lower (code c) || is_digit (code c) || is_separator (code c)) && valid_id s

abbrev pub is_alphanumeric : ℕ → Bool
is_alphanumeric c = is_lower c || (leb b'A' c && leb c b'Z') || is_digit c

abbrev pub is_label_char : ℕ → Bool
is_label_char c = is_alphanumeric c || nat_eq c b'-'

-- `[a-zA-Z0-9-]{0,n}[a-zA-Z0-9]$`
unfoldable pub label_rest : ℕ → String → Bool
label_rest n [] = false
label_rest zero (c ∷ s) = is_alphanumeric (code c) && s == ""
label_rest (suc n) (c ∷ s) =
    let longer = label_rest n s in
    (is_alphanumeric (code c) && s == "") || (is_label_char (code c) && longer)

-- hostnameLabelPattern: `^[a-zA-Z0-9](?:[a-zA-Z0-9-]{0,61}[a-zA-Z0-9])?$`
unfoldable pub hostname_label : String → Bool
unfolding label_rest
hostname_label [] = false
hostname_label (c ∷ s) = is_alphanumeric (code c) && (s == "" || label_rest 61 s)

unfoldable pub all_labels : List String → Bool
unfolding hostname_label
all_labels [] = true
all_labels (label ∷ rest) = hostname_label label && all_labels rest

-- Go counts bytes; a host with a character beyond ASCII fails at its label, whatever its length.
unfoldable pub valid_hostname : String → Bool
unfolding all_labels split has_prefix has_suffix text_length
valid_hostname host =
    if ltb 253 (text_length host) || has_prefix host "." || has_suffix host "."
    then false
    else all_labels (split b'.' host)

unfoldable pub contains_blank : String → Bool
contains_blank [] = false
contains_blank (c ∷ s) =
    nat_eq (code c) b' '
    || nat_eq (code c) 9
    || nat_eq (code c) 10
    || nat_eq (code c) 13
    || contains_blank s

unfoldable pub supported_manual_protocol : String → Bool
unfolding to_lower
supported_manual_protocol protocol =
    let p = to_lower protocol in
    p == "vless" || p == "vmess" || p == "trojan" || p == "shadowsocks" || p == protocol_xray_json

abbrev when : Bool → Message → List Message
when true m = m ∷ []
when false m = []

unfoldable id_messages : Profile → List Message
unfolding trim_space valid_id
id_messages p =
    if trim_space p.id == "" then id_required ∷ [] else when (not (valid_id p.id)) id_letters

unfoldable source_messages : Profile → List Message
source_messages p =
    if p.source == ""
    then source_required ∷ []
    else when
        (not (
          p.source == source_manual
          || p.source == source_subscription
          || p.source == source_imported_file
          || p.source == source_imported_uri))
        (unsupported_source p.source)

unfoldable engine_messages : Profile → List Message
engine_messages p =
    if p.engine == ""
    then engine_required ∷ []
    else when (not (p.engine == engine_xray || p.engine == engine_amnezia_wg))
        (unsupported_engine p.engine)

unfoldable protocol_messages : Profile → List Message
unfolding trim_space supported_manual_protocol
protocol_messages p =
    if trim_space p.protocol == ""
    then protocol_required ∷ []
    else when (not (supported_manual_protocol p.protocol)) (unsupported_protocol p.protocol)

unfoldable user_messages : Profile → List Message
unfolding trim_space
user_messages p =
    if p.source == source_imported_uri
      || p.source == source_imported_file
      || p.source == source_subscription
    then when
        ((p.protocol == "vless"
            || p.protocol == "vmess"
            || p.protocol == "trojan"
            || p.protocol == "shadowsocks")
          && trim_space p.user_identity == "")
        (user_identity_required p.protocol)
    else []

report : List Message → Result (List Message) (Unit {0})
report [] = ok tt
report (m ∷ ms) = err (m ∷ ms)

module _ (l : Library) where
  unfoldable server_messages : Profile → List Message
  unfolding trim_space contains_blank valid_hostname
  server_messages p =
      if trim_space p.server == ""
      then server_required ∷ []
      else if contains_blank p.server
      then server_whitespace ∷ []
      else when (not (l.parses_ip p.server) && not (valid_hostname p.server)) server_invalid

  unfoldable provider_messages : Profile → List Message
  unfolding trim_space equal_fold provider_xray_config_json valid_provider_xray_config_json
  provider_messages p =
      let config = provider_xray_config_json p in
      when (not (equal_fold (trim_space p.protocol) protocol_xray_json)) provider_protocol
      ++ when (not (p.source == source_subscription)) provider_source
      ++ when (not (p.engine == engine_xray)) provider_engine
      ++ (if trim_space config == ""
          then provider_config_required ∷ []
          else when (not (valid_provider_xray_config_json l config)) provider_config_invalid)

  unfoldable flat_messages : Profile → List Message
  unfolding server_messages user_messages
  flat_messages p = server_messages p ++ when (nat_eq p.port 0) port_range ++ user_messages p

  unfoldable pub messages : Profile → List Message
  unfolding id_messages source_messages engine_messages protocol_messages
      is_provider_xray_config_profile provider_messages flat_messages trim_space
  messages p =
      id_messages p
      ++ when (trim_space p.name == "") name_required
      ++ source_messages p
      ++ engine_messages p
      ++ protocol_messages p
      ++ (if is_provider_xray_config_profile p then provider_messages p else flat_messages p)

  unfoldable pub validate : Profile → Result (List Message) (Unit {0})
  unfolding messages report
  validate p = report (messages p)
