-- ===== src/Network/Executor/Nftables/Failing.antt =====
-- What a failed `Apply` of the firewall executor leaves behind.
use tunwarden.Prelude.{
  String, ◌≡◌, refl, Bool, true, false, Option, none, some, List, [], ◌∷◌, ◌++◌, if◌then◌else◌,
}
use tunwarden.Result.{err}
use tunwarden.Recovery.Host.{Action, ran, Env, ◌>>=◌, pure, run_command}
use tunwarden.Recovery.Command.{command_succeeded}
use tunwarden.Network.TunPlan.{TunFirewallPlan}
use tunwarden.Network.Executor.Command.{observe_command, run_tool}
use tunwarden.Network.Executor.Nftables.{validate_firewall_plan, validate_owned_firewall_target}
use tunwarden.Network.Executor.Nftables.Run.{
  rollback_firewall, delete_owned_table, settled, after_table, apply_firewall,
}
use tunwarden.Network.Executor.Nftables.Owned.{TargetsOwn, valid_plan-TargetsOwn}

abbrev pub table_args : String → List String
table_args verb = verb ∷ "table" ∷ "inet" ∷ "podlaz" ∷ []

-- the ways in which a failed call of `Apply` ends
pub data Clean (env : Env) (plan : TunFirewallPlan) (log : List Action) : List Action → Type 0 where
  refused :
      {log' : List Action} (m : String)
      → validate_firewall_plan plan ≡ some m
      → log' ≡ log
      → Clean env plan log log'
  not_created :
      {log' : List Action}
      → log' ≡ log ++ ran "nft" (table_args "add") ∷ []
      → command_succeeded
          (env.run log "nft" (table_args "add")).0
          (env.run log "nft" (table_args "add")).1
        ≡ false
      → Clean env plan log log'
  deleted :
      {log' : List Action} (before : List Action)
      → log' ≡ before ++ ran "nft" (table_args "delete") ∷ []
      → Clean env plan log log'

module _ (env : Env) (plan : TunFirewallPlan) (own : TargetsOwn plan) where
  rolled_back :
      (log : List Action)
      → (rollback_firewall env plan log).1 ≡ log ++ ran "nft" (table_args "delete") ∷ []
  unfolding rollback_firewall delete_owned_table validate_owned_firewall_target run_tool
      observe_command run_command ◌>>=◌ pure
  rolled_back log = rw (own.0, own.1) refl

  settled_failure :
      (log log0 : List Action) (e : Option String) (m : String)
      → (settled env plan e log).0 ≡ err m
      → Clean env plan log0 (settled env plan e log).1
  unfolding settled ◌>>=◌ pure
  settled_failure log log0 none m h = cc
  settled_failure log log0 (some x) m h = deleted log (rolled_back log)

  created :
      (log : List Action) (b : Bool) (text m : String)
      → command_succeeded
          (env.run log "nft" (table_args "add")).0
          (env.run log "nft" (table_args "add")).1
        ≡ b
      → (after_table env plan
          (if b then none else some text)
          (log ++ ran "nft" (table_args "add") ∷ [])).0
        ≡ err m
      → Clean env plan log
          (after_table env plan
            (if b then none else some text)
            (log ++ ran "nft" (table_args "add") ∷ [])).1
  unfolding after_table ◌>>=◌ pure
  created log false text m h k = not_created refl h
  created log true text m h k = settled_failure _ log _ m k

failed :
    (env : Env) (plan : TunFirewallPlan) (log : List Action) (v : Option String) (m : String)
    → validate_firewall_plan plan ≡ v
    → (apply_firewall env plan log).0 ≡ err m
    → Clean env plan log (apply_firewall env plan log).1
unfolding apply_firewall run_tool observe_command run_command ◌>>=◌ pure
failed env plan log (some x) m v h = rw (v, apply_firewall) (refused x v refl)
failed env plan log none m v h =
    let own = valid_plan-TargetsOwn plan v in
    rw (v, apply_firewall, own.0, own.1)
      (created env plan own log _ _ m refl (rw (v, apply_firewall, own.0, own.1) at h))

-- A failed `Apply` of the firewall executor leaves no half-built table unattended: the plan was refused and nothing
-- ran; or the creation of the table failed and nothing ran behind it; or the last command is the deletion of the whole
-- table.
pub failed_apply_is_clean :
    (env : Env) (plan : TunFirewallPlan) (log : List Action) (m : String)
    → (apply_firewall env plan log).0 ≡ err m
    → Clean env plan log (apply_firewall env plan log).1
failed_apply_is_clean env plan log m h = failed env plan log (validate_firewall_plan plan) m refl h
