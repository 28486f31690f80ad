-- ===== src/Profile/Grouped.antt =====
-- internal/profile/xray_provider.go: `NewSubscriptionProviderXrayConfig`. The hexadecimal digits of a
-- SHA-256 sum are an argument.
use tunwarden.Prelude.{String, Bool, true, false, List, Option, none, some}
use tunwarden.Result.{Result, ok, err}
use tunwarden.Text.{◌<>◌}
use tunwarden.Profile.Model.{
  Profile, zero_profile, source_subscription, engine_xray, protocol_xray_json,
}
use tunwarden.Profile.Provider.{Library, ConfigError, canonical_provider_xray_config_json}
use tunwarden.Profile.Validate.{Message, validate}
use tunwarden.Profile.DisplayName.{first_runes, sanitize_display_name}

pub data ProviderError : Type 0 where
  bad_config : ConfigError → ProviderError
  bad_profile : List Message → ProviderError

abbrev fallback_provider_xray_config_profile_name : String
fallback_provider_xray_config_profile_name = "Xray JSON grouped profile"

abbrev accepted_or_fallback : Option String → String × Bool
accepted_or_fallback none = (fallback_provider_xray_config_profile_name, false)
accepted_or_fallback (some name) = (name, true)

module _ (l : Library) (hex_digest : String → String) where
  provider_profile : String → String → Profile
  unfolding first_runes
  provider_profile name canonical = record zero_profile {
    id = "xray-json-" <> first_runes 12 (hex_digest canonical);
    name = name;
    source = source_subscription;
    engine = engine_xray;
    protocol = protocol_xray_json;
    reality_spider_x = canonical;
  }

  when_valid : Profile → Result (List Message) (Unit {0}) → Result ProviderError Profile
  when_valid p (ok u) = ok p
  when_valid p (err ms) = err (bad_profile ms)

  of_canonical : String → Result ConfigError String → Result ProviderError Profile
  unfolding provider_profile when_valid validate
  of_canonical name (err e) = err (bad_config e)
  of_canonical name (ok canonical) =
      let p = provider_profile name canonical in when_valid p (validate l p)

  -- the profile, and whether the provider's name was accepted
  unfoldable pub new_subscription_provider_xray_config :
      String → String → Result ProviderError Profile × Bool
  unfolding of_canonical sanitize_display_name canonical_provider_xray_config_json
  new_subscription_provider_xray_config raw_name content =
      let (name, accepted) = accepted_or_fallback (sanitize_display_name raw_name) in
      (of_canonical name (canonical_provider_xray_config_json l content), accepted)
