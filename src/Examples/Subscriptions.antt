-- ===== src/Examples/Subscriptions.antt =====
-- A run of internal/sub at a concrete subscription.
use tunwarden.Prelude.{◌≡◌, refl, ◌⊎◌, true, [], ◌∷◌, some, Option, String, ◌==◌, none}
use tunwarden.State.Disk.{Disk, lookup, next_call}
use tunwarden.Profile.Model.{Profile, zero_profile}
use tunwarden.Profile.Provider.{Library}
use tunwarden.Profile.Validate.{validate}
use tunwarden.Profile.Store.{Codec, StoreFile, save}
use tunwarden.Subscription.Source.{Source, Url, validate_source}
use tunwarden.Subscription.Sources.{SourceCodec, SourceFile}
use tunwarden.Subscription.Workflow.{SourceWorkflowRequest, hook_failed, run_source_workflow}
use tunwarden.Subscription.Workflow.Undone.{IsUnsyncedAdd, failed_workflow_restores_files}

-- a file of either store
data Bytes : Type 0 where
  profile_bytes : StoreFile → Bytes
  source_bytes : SourceFile → Bytes

abbrev profile_codec : Codec Bytes
profile_codec = record {
  encode = λ f. some (profile_bytes f);
  decode = λ b. elim b [ profile_bytes f ↦ some (f, true) | source_bytes f ↦ none ];
}

abbrev source_codec : SourceCodec Bytes
source_codec = record {
  encode_sources = λ f. some (source_bytes f);
  decode_sources = λ b. elim b [ source_bytes f ↦ some (f, true) | profile_bytes f ↦ none ];
}

abbrev library : Library
library = record {
  Object = String;
  decode_object = λ s. none;
  marshal = λ s. none;
  parses_ip = λ s. s == "203.0.113.10";
}

abbrev imported : Source
imported = record {
  id = "de";
  name = "DE";
  url = "https://sub.example.org";
  format = "base64";
  profile_ids = [];
  last_updated_at = 0;
}

abbrev member : Profile
member = record zero_profile {
  id = "de-1";
  name = "DE 1";
  source = "subscription";
  engine = "xray";
  server = "203.0.113.10";
  port = 443;
  protocol = "vless";
  user_identity = "u-1";
}

-- an import whose hook fails
abbrev request : SourceWorkflowRequest Bytes
request = record {
  prepared = record { source = imported; format = "base64"; profiles = member ∷ [] };
  previous_profile_ids = [];
  adds_source = true;
  after_profile_apply = some (λ d. (some "the daemon does not answer", d));
  now = 5;
}

abbrev parse : String → Option Url
parse url = some (record { scheme = "https"; host = "sub.example.org"; path = "" })

abbrev empty_disk : Disk Bytes
empty_disk = record { files = []; temps = []; faults = []; reads = 0 }

failed_workflow_restores_files_example :
    (lookup "/p.json"
        (run_source_workflow library parse profile_codec source_codec "/p.json" "/s.json" request
          empty_disk).1.files
      ≡ lookup "/p.json" empty_disk.files)
    ⊎ IsUnsyncedAdd parse source_codec "/s.json" request
        (next_call empty_disk)
        (hook_failed "the daemon does not answer")
unfolding run_source_workflow validate validate_source save
failed_workflow_restores_files_example =
    failed_workflow_restores_files library parse profile_codec source_codec "/p.json" "/s.json"
      request empty_disk
      (run_source_workflow library parse profile_codec source_codec "/p.json" "/s.json" request
        empty_disk).1
      (hook_failed "the daemon does not answer") "/p.json" refl (λ d j h. refl) refl
