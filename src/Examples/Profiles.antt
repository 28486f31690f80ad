-- ===== src/Examples/Profiles.antt =====
-- Runs of internal/profile and internal/storejson at concrete profiles.
use tunwarden.Prelude.{◌+◌, ◌≡◌, refl, true, false, List, [], ◌∷◌, none, some, String, length, ◌==◌}
use tunwarden.Result.{ok, err}
use tunwarden.State.Disk.{Disk, lookup}
use tunwarden.StoreJson.{write_file, set_temp_permissions}
use tunwarden.StoreJson.Atomic.{Written, write_file_is_atomic}
use tunwarden.Profile.Model.{Profile, zero_profile}
use tunwarden.Profile.Provider.{Library, is_provider_xray_config_profile}
use tunwarden.Profile.Validate.{validate, valid_id}
use tunwarden.Profile.Validate.Server.{IsEndpoint, accepted_server_is_endpoint}
use tunwarden.Profile.Id.{normalize_id}
use tunwarden.Profile.DisplayName.{sanitize_display_name}
use tunwarden.Profile.DisplayName.Accepted.{IsDisplayName, sanitize_display_name-IsDisplayName}
use tunwarden.Profile.Id.Normal.{is_normal_id, normalize_id_is_canonical}
use tunwarden.Profile.Contents.{
  find_profile, check_stored, replace_subscription_profiles, already_exists,
}
use tunwarden.Profile.Contents.Requests.{add, delete, replace, serve, specified}
use tunwarden.Profile.Contents.Refine.{IsStore, served_update_refines_map}
use tunwarden.Profile.Contents.Diff.{update_diff_adds_up}
use tunwarden.Profile.Store.{Codec, StoreFile, schema_v1, parsed}
use tunwarden.Profile.Store.Updates.{Ends, store_request}
use tunwarden.Profile.Store.Requests.{profile_update_is_stored}

abbrev library : Library
library = record {
  Object = String;
  decode_object = λ s. none;
  marshal = λ s. none;
  parses_ip = λ s. s == "203.0.113.10";
}

-- a codec that writes the file as it is
abbrev plain : Codec StoreFile
plain = record { encode = λ f. some f; decode = λ f. some (f, true) }

abbrev home : Profile
home = record zero_profile {
  id = "home";
  name = "Home";
  source = "manual";
  engine = "xray";
  server = "vpn.example.org";
  port = 443;
  protocol = "vless";
}

abbrev office : Profile
office = record home {
  id = "office";
  source = "subscription";
  server = "203.0.113.10";
  user_identity = "u-1";
}

abbrev depot : Profile
depot = record office { id = "depot" }

abbrev moved_office : Profile
moved_office = record office { port = 8443 }

abbrev stored : List Profile
stored = home ∷ office ∷ []

abbrev profiles_path : String
profiles_path = "/home/u/.local/state/podlaz/profiles.json"

-- a disk whose call number three fails, and one with no failure
abbrev faulty_disk : Disk StoreFile
faulty_disk = record { files = []; temps = []; faults = false ∷ false ∷ true ∷ []; reads = 0 }

abbrev disk : Disk StoreFile
disk = record {
  files = (profiles_path, some (record { schema_version = schema_v1; profiles = stored })) ∷ [];
  temps = [];
  faults = [];
  reads = 0;
}

abbrev stored_file : StoreFile
stored_file = record { schema_version = schema_v1; profiles = stored }

write_file_run :
    (write_file (some stored_file) profiles_path faulty_disk).0 ≡ err set_temp_permissions
unfolding write_file
write_file_run = refl

write_file_is_atomic_example :
    Written [] [] profiles_path
      (some stored_file)
      (write_file (some stored_file) profiles_path faulty_disk)
write_file_is_atomic_example = write_file_is_atomic (some stored_file) profiles_path faulty_disk

normalize_id_is_canonical_example :
    (valid_id (normalize_id " My VPN (DE) ") ≡ true)
    × (is_normal_id (normalize_id " My VPN (DE) ") ≡ true)
    × (normalize_id (normalize_id " My VPN (DE) ") ≡ normalize_id " My VPN (DE) ")
normalize_id_is_canonical_example = normalize_id_is_canonical " My VPN (DE) "

accepted_server_is_endpoint_example : IsEndpoint library home
unfolding validate is_provider_xray_config_profile
accepted_server_is_endpoint_example = accepted_server_is_endpoint library home refl refl

add_run : serve library (add depot) stored ≡ ok (depot ∷ home ∷ office ∷ [])
unfolding serve validate
add_run = refl

add_again_run : serve library (add home) stored ≡ err (already_exists "home")
unfolding serve validate
add_again_run = refl

served_update_refines_map_example :
    IsStore library (depot ∷ home ∷ moved_office ∷ [])
    × (find_profile "office" (depot ∷ home ∷ moved_office ∷ [])
        ≡ specified
            (replace ("office" ∷ []) (moved_office ∷ depot ∷ []))
            (λ i. find_profile i stored)
            "office")
unfolding serve check_stored validate
served_update_refines_map_example =
    served_update_refines_map library (replace ("office" ∷ []) (moved_office ∷ depot ∷ [])) stored
      (depot ∷ home ∷ moved_office ∷ []) "office" refl refl

update_diff_adds_up_example :
    (1 + 1 + 0 ≡ length (moved_office ∷ depot ∷ []))
    × (length (depot ∷ home ∷ moved_office ∷ []) + 0 ≡ length stored + 1)
unfolding replace_subscription_profiles check_stored validate
update_diff_adds_up_example =
    update_diff_adds_up library ("office" ∷ []) (moved_office ∷ depot ∷ []) stored
      (depot ∷ home ∷ moved_office ∷ [])
      (record { imported = 1; updated = 1; unchanged = 0; removed = 0 }) refl refl

profile_update_is_stored_example :
    Ends library plain profiles_path
      (delete "home")
      stored
      disk.files
      (store_request library plain profiles_path (delete "home") disk)
unfolding parsed lookup validate
profile_update_is_stored_example =
    profile_update_is_stored library plain profiles_path (delete "home") stored disk (λ f b e. cc)
      refl

sanitize_display_name-IsDisplayName_example : IsDisplayName "DE Berlin 1"
unfolding sanitize_display_name
sanitize_display_name-IsDisplayName_example =
    sanitize_display_name-IsDisplayName "  DE/Berlin \n 1 " "DE Berlin 1" refl
