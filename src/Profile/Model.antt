-- ===== src/Profile/Model.antt =====
-- internal/profile/profile.go: the record `Profile` and its constants. A source and an engine are
-- strings in Go too, and `port` is below 2 ^ 16.
use tunwarden.Prelude.{ℕ, String}

pub record Profile : Type 0 where
  pub id : String
  pub name : String
  pub source : String
  pub engine : String
  pub server : String
  pub port : ℕ
  pub protocol : String
  pub user_identity : String
  pub transport : String
  pub security : String
  pub encryption : String
  pub flow : String
  pub server_name : String
  pub alpn : String
  pub fingerprint : String
  pub path : String
  pub host_header : String
  pub service_name : String
  pub reality_public_key : String
  pub reality_short_id : String
  pub reality_spider_x : String

abbrev pub engine_xray : String
engine_xray = "xray"

abbrev pub engine_amnezia_wg : String
engine_amnezia_wg = "amneziawg"

abbrev pub source_manual : String
source_manual = "manual"

abbrev pub source_subscription : String
source_subscription = "subscription"

abbrev pub source_imported_file : String
source_imported_file = "imported_file"

abbrev pub source_imported_uri : String
source_imported_uri = "imported_uri"

abbrev pub protocol_xray_json : String
protocol_xray_json = "xray-json"

-- the fields of Go's zero value
abbrev pub zero_profile : Profile
zero_profile = record {
  id = "";
  name = "";
  source = "";
  engine = "";
  server = "";
  port = 0;
  protocol = "";
  user_identity = "";
  transport = "";
  security = "";
  encryption = "";
  flow = "";
  server_name = "";
  alpn = "";
  fingerprint = "";
  path = "";
  host_header = "";
  service_name = "";
  reality_public_key = "";
  reality_short_id = "";
  reality_spider_x = "";
}
