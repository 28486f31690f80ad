-- ===== src/State/Json.antt =====
-- The JSON document that encoding/json makes of a transaction, by the struct tags of
-- internal/state/transaction.go. Numbers and times keep only what a reader of strings sees: a number
-- is no string, and a time is the string that `format_time` gives, unless its
-- year cannot be written (time.Time.MarshalJSON then fails, and the whole document with it).
use tunwarden.Prelude.{
  String, List, [], ◌∷◌, ℤ, int_eq, is_empty, ◌==◌, if◌then◌else◌, Bool, true, false, Option, none,
  some, any, map,
}
use tunwarden.State.Status.{state_text}
use tunwarden.State.Transaction.{
  Time, SnapshotMetadata, TunDesiredState, RoutePlan, DnsPlan, NftChainPlan, NftPlan, CorePlan,
  PlannedStep, DesiredPlan, AppliedStep, TunRollback, RouteRollback, PolicyRuleRollback,
  DnsRollback, NftablesRollback, GeneratedConfigRollback, ChildProcessRollback, RollbackMetadata,
  HealthResult, Transaction,
}

mutual
  pub data Value : Type 0 where
    null number : Value
    object : Fields → Value
    array : Items → Value
    string : String → Value

  pub data Fields : Type 0 where
    no_fields : Fields
    field : String → Value → Fields → Fields

  pub data Items : Type 0 where
    no_items : Items
    item : Value → Items → Items

-- a tag with `omitempty`, at a string, an int and a list
text_field : String → String → Fields → Fields
text_field key s rest = if s == "" then rest else field key (string s) rest

int_field : String → ℤ → Fields → Fields
int_field key n rest = if int_eq n 0 then rest else field key number rest

items_of {ℓ} : {A : Type ℓ} → (A → Value) → List A → Items
items_of f [] = no_items
items_of f (x ∷ xs) = item (f x) (items_of f xs)

list_field {ℓ} : {A : Type ℓ} → String → (A → Value) → List A → Fields → Fields
unfolding items_of
list_field key f xs rest = if is_empty xs then rest else field key (array (items_of f xs)) rest

labels_of : List (String × String) → Fields
labels_of [] = no_fields
labels_of ((k, v) ∷ rest) = field k (string v) (labels_of rest)

route_value : RoutePlan → Value
route_value r = object (
    text_field "kind" r.kind (
      text_field "table" r.table (
        text_field "cidr" r.cidr (
          text_field "via" r.via (
            text_field "dev" r.dev (
              int_field "priority" r.priority
                (text_field "owner" r.owner (text_field "operation" r.operation no_fields))))))))

chain_value : NftChainPlan → Value
chain_value c = object (
    text_field "name" c.name (
      text_field "hook" c.hook (
        text_field "type" c.type (
          int_field "priority" c.priority (
            text_field "policy" c.policy
              (list_field "rules" string c.rules (text_field "owner" c.owner no_fields)))))))

planned_step_value : PlannedStep → Value
planned_step_value s = object (
    field "kind" (string s.kind) (
      field "target" (string s.target)
        (text_field "description" s.description (text_field "owner" s.owner no_fields))))

tun_desired_value : TunDesiredState → Value
tun_desired_value t = object (
    text_field "interface_name" t.interface_name
      (int_field "mtu" t.mtu (text_field "owner" t.owner no_fields)))

dns_value : DnsPlan → Value
dns_value d = object (
    text_field "backend" d.backend (
      text_field "link" d.link (
        list_field "servers" string d.servers (
          list_field "search_domains" string d.search_domains
            (text_field "owner" d.owner no_fields)))))

nft_value : NftPlan → Value
unfolding chain_value
nft_value n = object (
    text_field "family" n.family (
      text_field "table" n.table
        (list_field "chains" chain_value n.chains (text_field "owner" n.owner no_fields))))

core_value : CorePlan → Value
core_value c = object (
    text_field "runtime_config_path" c.runtime_config_path
      (text_field "process_label" c.process_label (text_field "owner" c.owner no_fields)))

plan_value : DesiredPlan → Value
unfolding route_value planned_step_value tun_desired_value dns_value nft_value core_value
plan_value p = object (
    text_field "plan_id" p.plan_id (
      field "tun" (tun_desired_value p.tun) (
        list_field "routes" route_value p.routes (
          field "dns" (dns_value p.dns) (
            field "nftables" (nft_value p.nft) (
              field "core" (core_value p.core)
                (list_field "steps" planned_step_value p.steps no_fields)))))))

tun_rollback_value : TunRollback → Value
tun_rollback_value t =
    object (field "interface_name" (string t.interface_name) (text_field "owner" t.owner no_fields))

route_rollback_value : RouteRollback → Value
route_rollback_value r = object (
    text_field "table" r.table (
      text_field "cidr" r.cidr
        (text_field "via" r.via (text_field "dev" r.dev (text_field "owner" r.owner no_fields)))))

policy_rule_value : PolicyRuleRollback → Value
policy_rule_value r = object (
    int_field "priority" r.priority (
      text_field "from" r.from (
        text_field "to" r.to (
          text_field "table" r.table
            (text_field "mark" r.mark (text_field "owner" r.owner no_fields))))))

dns_rollback_value : DnsRollback → Value
dns_rollback_value d = object (
    text_field "backend" d.backend (
      text_field "link" d.link (
        list_field "previous" string d.previous (
          list_field "search_domains" string d.search_domains
            (text_field "owner" d.owner no_fields)))))

nftables_value : NftablesRollback → Value
nftables_value n = object (
    text_field "family" n.family (
      text_field "table" n.table
        (text_field "chain" n.chain (text_field "owner" n.owner no_fields))))

config_value : GeneratedConfigRollback → Value
config_value c = object (field "path" (string c.path) (text_field "owner" c.owner no_fields))

process_value : ChildProcessRollback → Value
process_value c = object (
    int_field "pid" c.pid (
      text_field "pid_file" c.pid_file (
        text_field "label" c.label
          (text_field "config_ref" c.config_ref (text_field "owner" c.owner no_fields)))))

rollback_value : RollbackMetadata → Value
unfolding tun_rollback_value route_rollback_value policy_rule_value dns_rollback_value
    nftables_value config_value process_value list_field text_field int_field
rollback_value m = object (
    list_field "tun" tun_rollback_value m.tun (
      list_field "routes" route_rollback_value m.routes (
        list_field "policy_rules" policy_rule_value m.policy_rules (
          list_field "dns" dns_rollback_value m.dns (
            list_field "nftables" nftables_value m.nftables (
              list_field "generated_configs" config_value m.generated_configs
                (list_field "child_processes" process_value m.child_processes no_fields)))))))

-- every time of the document
abbrev pub times_of : Transaction → List Time
times_of tx =
    tx.created_at
    ∷ tx.updated_at
    ∷ tx.before_snapshot.captured_at
    ∷ tx.health.checked_at
    ∷ map (λ (s : AppliedStep). s.applied_at) tx.applied_steps

module _ (format_time : Time → Option String) where
  time_value : Time → Value
  time_value t = elim (format_time t) [ none ↦ null | some s ↦ string s ]

  snapshot_value : SnapshotMetadata → Value
  unfolding time_value
  snapshot_value s = object (
      field "captured_at" (time_value s.captured_at)
        (text_field "source" s.source (list_field "summary" string s.summary no_fields)))

  applied_step_value : AppliedStep → Value
  unfolding time_value
  applied_step_value s = object (
      field "kind" (string s.kind) (
        field "target" (string s.target) (
          text_field "description" s.description
            (field "applied_at" (time_value s.applied_at) (text_field "owner" s.owner no_fields)))))

  health_value : HealthResult → Value
  unfolding time_value
  health_value h = object (
      text_field "status" h.status
        (field "checked_at" (time_value h.checked_at) (text_field "message" h.message no_fields)))

  unfoldable pub transaction_value : Transaction → Value
  unfolding snapshot_value applied_step_value health_value plan_value rollback_value labels_of
      state_text
  transaction_value tx = object (
      field "schema_version" (string tx.schema_version) (
        field "owner" (string tx.owner) (
          field "id" (string tx.id) (
            text_field "profile_id" tx.profile_id (
              text_field "mode" tx.mode (
                field "state" (string (state_text tx.state)) (
                  field "created_at" (time_value tx.created_at) (
                    field "updated_at" (time_value tx.updated_at) (
                      field "before_snapshot" (snapshot_value tx.before_snapshot) (
                        field "desired_plan" (plan_value tx.desired_plan) (
                          list_field "applied_steps" applied_step_value tx.applied_steps (
                            field "rollback" (rollback_value tx.rollback) (
                              field "health_result" (health_value tx.health) (
                                text_field "failure_reason" tx.failure_reason (
                                  if is_empty tx.labels
                                  then no_fields
                                  else field "labels" (object (labels_of tx.labels))
                                      no_fields)))))))))))))))

  -- the time has no JSON text
  abbrev pub cannot_write : Time → Bool
  cannot_write t = elim (format_time t) [ none ↦ true | some s ↦ false ]

  -- json.Marshal of a transaction
  unfoldable pub marshal_transaction : Transaction → Option Value
  unfolding transaction_value
  marshal_transaction tx =
      if any cannot_write (times_of tx) then none else some (transaction_value tx)
