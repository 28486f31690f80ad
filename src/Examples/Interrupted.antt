-- ===== src/Examples/Interrupted.antt =====
-- A run of the daemon that is interrupted while `Apply` runs.
use tunwarden.Prelude.{ℕ, ◌≡◌, refl, sym, false, some, String, [], ◌∷◌, ◌++◌}
use tunwarden.Result.{ok}
use tunwarden.Text.{trim_space}
use tunwarden.State.Status.{planned, applying}
use tunwarden.State.Transaction.{Time, Transaction, SnapshotMetadata, DesiredPlan}
use tunwarden.State.Lifecycle.{new_transaction}
use tunwarden.State.Validate.{contains_persistent_secret, validate_transaction}
use tunwarden.State.Disk.{Disk}
use tunwarden.State.Store.{store_path, save, stamped, load, store_transition}
use tunwarden.State.Store.Durable.{Holds}
use tunwarden.Recovery.Host.{removed}
use tunwarden.Recovery.Daemon.{cleanup_loaded}
use tunwarden.Network.TunPlan.{TunPlan}
use tunwarden.Network.Planner.{plan_for, default_rule_plan}
use tunwarden.Daemon.Desired.{snapshot_metadata, desired_plan_from_tun_plan}
use tunwarden.Daemon.World.{World}
use tunwarden.Daemon.Run.{os_plan_executor}
use tunwarden.Daemon.Connect.{first_tx, after_apply, prepare_run, before_apply, run_tun_transaction}
use tunwarden.Daemon.Interrupted.{interrupted_apply_is_forgotten}
use tunwarden.Examples.Executor.{quiet_host}
use tunwarden.Examples.State.{platform}
use tunwarden.Examples.Recovery.{state_candidate}
use tunwarden.Examples.Connect.{plan, surroundings}

-- a plan that only adds the device and the rule that sends traffic to it
abbrev small_plan : TunPlan
small_plan = record plan {
  routes = [];
  policy_rules = default_rule_plan ∷ [];
  firewall = record plan.firewall { chains = []; rules = [] };
  steps = [];
}

abbrev empty_world : World Transaction
empty_world = record { disk = record { files = []; temps = []; faults = []; reads = 0 }; log = [] }

abbrev interrupted_path : String
interrupted_path = "/run/podlaz/transactions/tun-20260101T000000.000000000Z.json"

abbrev holding : Transaction → ℕ → Disk Transaction
holding tx n = record {
  files = (interrupted_path, some tx) ∷ [];
  temps = [];
  faults = [];
  reads = n;
}

-- the transaction that `Apply` finds on the disk
abbrev interrupted_tx : Transaction
unfolding first_tx
interrupted_tx =
    record (first_tx surroundings (os_plan_executor quiet_host) "" small_plan "home" 1 2 3) {
      state = applying;
      updated_at = 6;
    }

abbrev interrupted_world : World Transaction
interrupted_world = record { disk = holding interrupted_tx 6; log = [] }

first_tx_has_no_secret :
    (t : Time)
    → contains_persistent_secret platform.matches_secret platform.format_time
        (record interrupted_tx { state = planned; updated_at = t })
      ≡ false
unfolding contains_persistent_secret interrupted_tx tunwarden.Daemon.Desired.snapshot_metadata
    tunwarden.Daemon.Desired.desired_plan_from_tun_plan plan_for tunwarden.Text.itoa
    tunwarden.Text.int_text new_transaction trim_space tunwarden.State.Secret.contains_secret_value
    tunwarden.State.Json.marshal_transaction tunwarden.State.Json.transaction_value
    tunwarden.State.Secret.contains_secret_text tunwarden.State.Secret.is_secret_key
    tunwarden.State.Status.state_text tunwarden.Text.split tunwarden.Text.to_lower
    tunwarden.Text.underscores tunwarden.Text.is_space tunwarden.Text.has_prefix tunwarden.Text.join
    tunwarden.Network.Parts.dns_plan tunwarden.Network.Firewall.firewall_plan
    tunwarden.Network.Firewall.table_action_of tunwarden.Daemon.Desired.planned_steps_of
    tunwarden.Daemon.Desired.nft_chains tunwarden.Daemon.Desired.route_plans
    tunwarden.Network.Compact.normalize_dns_servers tunwarden.Network.Compact.compact_from
    tunwarden.Network.Firewall.table_reason_of
first_tx_has_no_secret t = refl

moved_tx_has_no_secret :
    (t : Time)
    → contains_persistent_secret platform.matches_secret platform.format_time
        (record interrupted_tx { state = applying; updated_at = t })
      ≡ false
unfolding contains_persistent_secret interrupted_tx tunwarden.Daemon.Desired.snapshot_metadata
    tunwarden.Daemon.Desired.desired_plan_from_tun_plan plan_for tunwarden.Text.itoa
    tunwarden.Text.int_text new_transaction trim_space tunwarden.State.Secret.contains_secret_value
    tunwarden.State.Json.marshal_transaction tunwarden.State.Json.transaction_value
    tunwarden.State.Secret.contains_secret_text tunwarden.State.Secret.is_secret_key
    tunwarden.State.Status.state_text tunwarden.Text.split tunwarden.Text.to_lower
    tunwarden.Text.underscores tunwarden.Text.is_space tunwarden.Text.has_prefix tunwarden.Text.join
    tunwarden.Network.Parts.dns_plan tunwarden.Network.Firewall.firewall_plan
    tunwarden.Network.Firewall.table_action_of tunwarden.Daemon.Desired.planned_steps_of
    tunwarden.Daemon.Desired.nft_chains tunwarden.Daemon.Desired.route_plans
    tunwarden.Network.Compact.normalize_dns_servers tunwarden.Network.Compact.compact_from
    tunwarden.Network.Firewall.table_reason_of
moved_tx_has_no_secret t = refl

abbrev begun_tx : SnapshotMetadata → DesiredPlan → Transaction
unfolding new_transaction
begun_tx s p = record (new_transaction "tun-20260101T000000.000000000Z" "home" "tun" 2 1) {
  before_snapshot = s;
  desired_plan = p;
}

id_path : store_path "" "tun-20260101T000000.000000000Z" ≡ ok interrupted_path
unfolding store_path tunwarden.State.Validate.validate_transaction_id trim_space
    tunwarden.State.Validate.matches_id tunwarden.FilePath.join_path tunwarden.FilePath.clean
    tunwarden.Text.has_prefix tunwarden.Text.join tunwarden.FilePath.parts tunwarden.FilePath.render
    tunwarden.Text.split tunwarden.Text.is_space
id_path = refl

module _ (s : SnapshotMetadata) (p : DesiredPlan) where
  abbrev IsClean : Transaction → Type 0
  IsClean tx = contains_persistent_secret platform.matches_secret platform.format_time tx ≡ false

  abbrev IsAccepted : Transaction → Type 0
  IsAccepted tx = validate_transaction platform.matches_secret platform.format_time tx ≡ ok tt

  abbrev planned_tx : Time → Transaction
  unfolding begun_tx
  planned_tx t = record (begun_tx s p) { updated_at = t }

  abbrev applying_tx : Time → Transaction
  unfolding begun_tx
  applying_tx t = record (begun_tx s p) { state = applying; updated_at = t }

  accepted_planned : IsClean (planned_tx 4) → IsAccepted (planned_tx 4)
  unfolding planned_tx begun_tx new_transaction validate_transaction trim_space
      tunwarden.State.Validate.validate_transaction_id tunwarden.State.Validate.matches_id
      tunwarden.State.Status.valid_transaction_state
  accepted_planned h = rw h refl

  accepted_applying : IsClean (applying_tx 6) → IsAccepted (applying_tx 6)
  unfolding applying_tx begun_tx new_transaction validate_transaction trim_space
      tunwarden.State.Validate.validate_transaction_id tunwarden.State.Validate.matches_id
      tunwarden.State.Status.valid_transaction_state
  accepted_applying h = rw h refl

  saved_planned :
      IsAccepted (planned_tx 4)
      → save platform "" (begun_tx s p) (record empty_world.disk { reads = 3 })
        ≡ (ok interrupted_path, holding (planned_tx 4) 4)
  unfolding planned_tx begun_tx new_transaction save stamped tunwarden.State.Disk.faulty
      tunwarden.State.Disk.next_call tunwarden.State.Disk.perform_create
      tunwarden.State.Disk.perform_write tunwarden.State.Disk.perform_rename
      tunwarden.State.Disk.put tunwarden.State.Store.◌>>=◌
  saved_planned v = rw (v, id_path) refl

  saved_applying :
      IsAccepted (applying_tx 6)
      → save platform "" (applying_tx 5) (holding (planned_tx 4) 5)
        ≡ (ok interrupted_path, holding (applying_tx 6) 6)
  unfolding planned_tx applying_tx begun_tx new_transaction save stamped tunwarden.State.Disk.faulty
      tunwarden.State.Disk.next_call tunwarden.State.Disk.perform_create
      tunwarden.State.Disk.perform_write tunwarden.State.Disk.perform_rename
      tunwarden.State.Disk.put tunwarden.State.Store.◌>>=◌
  saved_applying v = rw (v, id_path) refl

  loaded :
      (tx : Transaction) (n : ℕ)
      → IsAccepted tx
      → load platform "" "tun-20260101T000000.000000000Z" (holding tx n)
        ≡ (ok (tx, interrupted_path), holding tx n)
  unfolding load tunwarden.State.Store.load_transaction_file tunwarden.State.Disk.lookup
      tunwarden.State.Disk.faulty tunwarden.State.Disk.next_call tunwarden.State.Store.◌>>=◌
  loaded tx n v = rw (id_path, v) refl

  moved_on :
      IsAccepted (planned_tx 4)
      → IsAccepted (applying_tx 6)
      → store_transition platform "" "tun-20260101T000000.000000000Z" applying
          (holding (planned_tx 4) 4)
        ≡ (ok (applying_tx 5, interrupted_path), holding (applying_tx 6) 6)
  unfolding planned_tx applying_tx begun_tx new_transaction store_transition
      tunwarden.State.Store.◌>>=◌ tunwarden.State.Store.now tunwarden.State.Store.moved
      tunwarden.State.Store.keep_or_save tunwarden.State.Lifecycle.transition
      tunwarden.State.Status.valid_transition
  moved_on v w = rw (loaded (planned_tx 4) 4 v, saved_applying w) refl

  -- a transaction without secrets is saved, moved to `applying` and loaded
  prepared :
      IsClean (planned_tx 4)
      → IsClean (applying_tx 6)
      → prepare_run surroundings
          (os_plan_executor quiet_host)
          ""
          (begun_tx s p)
          (record empty_world { disk = record empty_world.disk { reads = 3 } })
        ≡ (
          ok (interrupted_path, (applying_tx 6, interrupted_path)),
          record { disk = holding (applying_tx 6) 6; log = [] },
        )
  unfolding planned_tx applying_tx begun_tx new_transaction prepare_run tunwarden.Daemon.World.◌>>=◌
      tunwarden.Daemon.World.pure tunwarden.Daemon.World.on_disk
  prepared h k =
      let v = accepted_planned h in
      let w = accepted_applying k in
      rw (saved_planned v, moved_on v w, loaded (applying_tx 6) 6 w) refl

-- all that comes before `Apply` succeeds on an empty disk
begun :
    before_apply surroundings (os_plan_executor quiet_host) "" "home" small_plan empty_world
    ≡ (ok (interrupted_path, (interrupted_tx, interrupted_path)), interrupted_world)
unfolding interrupted_tx begun_tx before_apply first_tx tunwarden.Daemon.World.◌>>=◌
    tunwarden.Daemon.Run.read_clock new_transaction tunwarden.State.Store.now
begun =
    prepared (snapshot_metadata small_plan.snapshot 3) (desired_plan_from_tun_plan small_plan)
      (first_tx_has_no_secret 4) (moved_tx_has_no_secret 6)

interrupted_apply_is_forgotten_example :
    (run_tun_transaction surroundings (os_plan_executor quiet_host) "" "home" small_plan empty_world
      ≡ after_apply surroundings
          (os_plan_executor quiet_host)
          ""
          small_plan
          interrupted_path
          interrupted_tx
          ((os_plan_executor quiet_host).apply small_plan interrupted_world.log).0
          (record interrupted_world {
            log = ((os_plan_executor quiet_host).apply small_plan interrupted_world.log).1;
          }))
    × Holds platform "" interrupted_tx interrupted_world.disk
    × (interrupted_tx.state ≡ applying)
    × ((cleanup_loaded quiet_host "" state_candidate interrupted_path (ok interrupted_tx) []).1
        ≡ [] ++ removed interrupted_path ∷ [])
unfolding interrupted_tx
interrupted_apply_is_forgotten_example =
    interrupted_apply_is_forgotten surroundings (os_plan_executor quiet_host) "" "home" small_plan
      empty_world interrupted_world interrupted_path interrupted_path interrupted_tx quiet_host
      state_candidate interrupted_path [] (λ t b h. sym h) begun
