-- ===== src/Profile/Provider.antt =====
-- internal/profile/xray_provider.go: the Xray configuration that a provider's profile carries. The
-- JSON codec of Go and the parser of IP addresses are a `Library`.
use tunwarden.Prelude.{String, Bool, true, false, Option, none, some, if◌then◌else◌}
use tunwarden.Result.{Result, ok, err}
use tunwarden.Text.{trim_space, equal_fold}
use tunwarden.Profile.Model.{Profile, protocol_xray_json}

-- what the first `Decode` of a text gives: an object or null, and whether the text ends behind it
pub record Decoded (Object : Type 0) : Type 0 where
  pub object : Option Object
  pub at_end : Bool

pub record Library : Type 1 where
  pub Object : Type 0
  pub decode_object : String → Option (Decoded Object)
  pub marshal : Object → Option String
  -- net.ParseIP gives an address
  pub parses_ip : String → Bool

pub data ConfigError : Type 0 where
  malformed trailing_data not_an_object not_canonical : ConfigError

unfoldable pub is_provider_xray_config_profile : Profile → Bool
unfolding trim_space equal_fold
is_provider_xray_config_profile p = equal_fold (trim_space p.protocol) protocol_xray_json

unfoldable pub provider_xray_config_json : Profile → String
unfolding trim_space equal_fold
provider_xray_config_json p =
    if equal_fold (trim_space p.protocol) protocol_xray_json then p.reality_spider_x else ""

module _ (l : Library) where
  marshalled : Option String → Result ConfigError String
  marshalled none = err not_canonical
  marshalled (some out) = ok out

  of_object : Option l.Object → Result ConfigError String
  unfolding marshalled
  of_object none = err not_an_object
  of_object (some o) = marshalled (l.marshal o)

  of_decoded : Option (Decoded l.Object) → Result ConfigError String
  unfolding of_object
  of_decoded none = err malformed
  of_decoded (some d) = if d.at_end then of_object d.object else err trailing_data

  unfoldable pub canonical_provider_xray_config_json : String → Result ConfigError String
  unfolding of_decoded trim_space
  canonical_provider_xray_config_json content = of_decoded (l.decode_object (trim_space content))

  unfoldable pub valid_provider_xray_config_json : String → Bool
  unfolding canonical_provider_xray_config_json
  valid_provider_xray_config_json value = elim (canonical_provider_xray_config_json value) [
    | ok out ↦ true
    | err e ↦ false
  ]
