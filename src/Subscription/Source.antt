-- ===== src/Subscription/Source.antt =====
-- internal/sub/source_model.go and source_validation.go: the record `Source` and `ValidateSource`.
-- url.Parse is an argument. A message of Go is a constructor that carries what the text quotes.
use tunwarden.Prelude.{
  String, Bool, true, false, not, ◌&&◌, ◌||◌, List, [], ◌∷◌, ◌++◌, Option, none, some,
  if◌then◌else◌, ◌==◌,
}
use tunwarden.Result.{Result, ok, err}
use tunwarden.Text.{trim_space, to_lower}
use tunwarden.State.Transaction.{Time}

pub record Source : Type 0 where
  pub id : String
  pub name : String
  pub url : String
  pub format : String
  pub profile_ids : List String
  pub last_updated_at : Time

-- the parts of a `url.URL` that the program reads here
pub record Url : Type 0 where
  pub scheme : String
  pub host : String
  pub path : String

abbrev pub format_base64 : String
format_base64 = "base64"

abbrev pub format_xray_json : String
format_xray_json = "xray-json"

pub data SourceMessage : Type 0 where
  id_missing name_missing url_missing url_unparsed scheme_missing file_host file_path :
      SourceMessage
  host_missing format_missing : SourceMessage
  scheme_unsupported format_unsupported : String → SourceMessage

source_report : List SourceMessage → Result (List SourceMessage) (Unit {0})
source_report [] = ok tt
source_report (m ∷ ms) = err (m ∷ ms)

abbrev when_message : Bool → SourceMessage → List SourceMessage
when_message true m = m ∷ []
when_message false m = []

parsed_url_messages : Option Url → List SourceMessage
unfolding to_lower
parsed_url_messages none = url_unparsed ∷ []
parsed_url_messages (some u) =
    let scheme = to_lower u.scheme in
    if u.scheme == ""
    then scheme_missing ∷ []
    else if scheme == "file"
    then (if not (u.host == "") && not (u.host == "localhost")
        then file_host ∷ []
        else when_message (u.path == "") file_path)
    else if scheme == "http" || scheme == "https"
    then when_message (u.host == "") host_missing
    else scheme_unsupported u.scheme ∷ []

module _ (parse_url : String → Option Url) where
  unfoldable pub validate_source_url : String → List SourceMessage
  unfolding parsed_url_messages trim_space
  validate_source_url raw = parsed_url_messages (parse_url (trim_space raw))

  unfoldable pub validate_source : Source → Result (List SourceMessage) (Unit {0})
  unfolding validate_source_url source_report trim_space
  validate_source s = source_report (
      when_message (trim_space s.id == "") id_missing
      ++ when_message (trim_space s.name == "") name_missing
      ++ (if trim_space s.url == "" then url_missing ∷ [] else validate_source_url s.url)
      ++ (if s.format == format_base64 || s.format == format_xray_json
          then []
          else if s.format == ""
          then format_missing ∷ []
          else format_unsupported s.format ∷ []))
