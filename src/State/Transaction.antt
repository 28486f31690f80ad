-- ===== src/State/Transaction.antt =====
-- internal/state/transaction.go: the persisted records of a transaction.
use tunwarden.Prelude.{ℕ, String, Bool, List, [], ℤ, pos, nat_eq}
use tunwarden.State.Status.{TransactionState}

-- An instant. The zero time is 0, and all times are in UTC.
abbrev pub Time : Type 0
Time = ℕ

abbrev pub is_zero_time : Time → Bool
is_zero_time t = nat_eq t 0

pub record SnapshotMetadata : Type 0 where
  pub captured_at : Time
  pub source : String
  pub summary : List String

pub record TunDesiredState : Type 0 where
  pub interface_name : String
  pub mtu : ℤ
  pub owner : String

pub record RoutePlan : Type 0 where
  pub kind : String
  pub table : String
  pub cidr : String
  pub via : String
  pub dev : String
  pub priority : ℤ
  pub owner : String
  pub operation : String

pub record DnsPlan : Type 0 where
  pub backend : String
  pub link : String
  pub servers : List String
  pub search_domains : List String
  pub owner : String

pub record NftChainPlan : Type 0 where
  pub name : String
  pub hook : String
  pub type : String
  pub priority : ℤ
  pub policy : String
  pub rules : List String
  pub owner : String

pub record NftPlan : Type 0 where
  pub family : String
  pub table : String
  pub chains : List NftChainPlan
  pub owner : String

pub record CorePlan : Type 0 where
  pub runtime_config_path : String
  pub process_label : String
  pub owner : String

pub record PlannedStep : Type 0 where
  pub kind : String
  pub target : String
  pub description : String
  pub owner : String

pub record DesiredPlan : Type 0 where
  pub plan_id : String
  pub tun : TunDesiredState
  pub routes : List RoutePlan
  pub dns : DnsPlan
  pub nft : NftPlan
  pub core : CorePlan
  pub steps : List PlannedStep

pub record AppliedStep : Type 0 where
  pub kind : String
  pub target : String
  pub description : String
  pub applied_at : Time
  pub owner : String

pub record TunRollback : Type 0 where
  pub interface_name : String
  pub owner : String

pub record RouteRollback : Type 0 where
  pub table : String
  pub cidr : String
  pub via : String
  pub dev : String
  pub owner : String

pub record PolicyRuleRollback : Type 0 where
  pub priority : ℤ
  pub from : String
  pub to : String
  pub table : String
  pub mark : String
  pub owner : String

pub record DnsRollback : Type 0 where
  pub backend : String
  pub link : String
  pub previous : List String
  pub search_domains : List String
  pub owner : String

pub record NftablesRollback : Type 0 where
  pub family : String
  pub table : String
  pub chain : String
  pub owner : String

pub record GeneratedConfigRollback : Type 0 where
  pub path : String
  pub owner : String

pub record ChildProcessRollback : Type 0 where
  pub pid : ℤ
  pub pid_file : String
  pub label : String
  pub config_ref : String
  pub owner : String

pub record RollbackMetadata : Type 0 where
  pub tun : List TunRollback
  pub routes : List RouteRollback
  pub policy_rules : List PolicyRuleRollback
  pub dns : List DnsRollback
  pub nftables : List NftablesRollback
  pub generated_configs : List GeneratedConfigRollback
  pub child_processes : List ChildProcessRollback

pub record HealthResult : Type 0 where
  pub status : String
  pub checked_at : Time
  pub message : String

pub record Transaction : Type 0 where
  pub schema_version : String
  pub owner : String
  pub id : String
  pub profile_id : String
  pub mode : String
  pub state : TransactionState
  pub created_at : Time
  pub updated_at : Time
  pub before_snapshot : SnapshotMetadata
  pub desired_plan : DesiredPlan
  pub applied_steps : List AppliedStep
  pub rollback : RollbackMetadata
  pub health : HealthResult
  pub failure_reason : String
  pub labels : List (String × String)

pub record TransactionSummary : Type 0 where
  pub id : String
  pub state : TransactionState
  pub path : String
  pub rollback_available : Bool
  pub requires_cleanup : Bool

-- the zero values of the embedded structs
abbrev pub empty_snapshot : SnapshotMetadata
empty_snapshot = record { captured_at = 0; source = ""; summary = [] }

abbrev pub empty_core : CorePlan
empty_core = record { runtime_config_path = ""; process_label = ""; owner = "" }

abbrev pub empty_plan : DesiredPlan
empty_plan = record {
  plan_id = "";
  tun = record { interface_name = ""; mtu = pos 0; owner = "" };
  routes = [];
  dns = record { backend = ""; link = ""; servers = []; search_domains = []; owner = "" };
  nft = record { family = ""; table = ""; chains = []; owner = "" };
  core = empty_core;
  steps = [];
}

abbrev pub empty_rollback : RollbackMetadata
empty_rollback = record {
  tun = [];
  routes = [];
  policy_rules = [];
  dns = [];
  nftables = [];
  generated_configs = [];
  child_processes = [];
}

abbrev pub empty_health : HealthResult
empty_health = record { status = ""; checked_at = 0; message = "" }
