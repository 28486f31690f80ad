-- ===== src/Daemon/Run/Undone.antt =====
-- What `rollbackTunTransaction` and `rollbackTunFailure` do to the host.
use tunwarden.Prelude.{
  String, ◌≡◌, refl, ap, ◌∙◌, inl, inr, Bool, false, Option, none, some, List, [], ◌∷◌, arith,
  Bool-cases,
}
use tunwarden.Result.{Result, ok, err}
use tunwarden.State.Status.{rolled_back, rolling_back, same_state}
use tunwarden.State.Transaction.{Transaction}
use tunwarden.State.Lifecycle.{transition, TransitionError}
use tunwarden.State.Store.{StoreError, refused}
use tunwarden.Recovery.Host.{Action}
use tunwarden.Network.TunPlan.{TunPlan}
use tunwarden.Network.Executor.Command.{Step}
use tunwarden.Network.Executor.Full.{joined_errors}
use tunwarden.Daemon.Metadata.{rollback_metadata_from_tun_plan}
use tunwarden.Daemon.Processes.{stop_rollback_child_processes, remove_generated_configs}
use tunwarden.Daemon.World
use tunwarden.Daemon.World.{World, W, pure, on_disk, on_host}
use tunwarden.Daemon.Run.{
  TunPlanExecutor, TunError, store_failed, rolled_back_after, rollback_failed, Surroundings,
  refusal, read_clock, save_tx, finish_rollback, as_list, undo_on_host, undo_and_finish,
  rollback_saved, rollback_tun_transaction, report_rollback, rollback_tun_failure,
}

module _ (x : Surroundings) (executor : TunPlanExecutor) (runtime_dir : String) where
  open x use {platform}

  log-finish :
      (tx : Transaction) (errors : List String) (w : World platform.Bytes)
      → (finish_rollback x executor runtime_dir tx errors w).1.log ≡ w.log
  unfolding finish_rollback read_clock World.◌>>=◌ pure on_disk refusal
  log-finish tx (e ∷ errors) w = refl
  log-finish tx [] w = ground arith

  clean_of_none :
      (tx : Transaction) (errors : List String) (w : World platform.Bytes)
      → (finish_rollback x executor runtime_dir tx errors w).0.0 ≡ none
      → errors ≡ []
  unfolding finish_rollback pure
  clean_of_none tx (e ∷ errors) w h = cc
  clean_of_none tx [] w h = refl

  module _ (plan : TunPlan) (log : List Action) where
    -- the rollback of the executor ran on the log, and no error means that it had none
    pub record Undone (o : Option TunError) (log' : List Action) : Type 0 where
      pub ran : log' ≡ (executor.rollback plan log).1
      pub clean : o ≡ none → (executor.rollback plan log).0 ≡ []

    -- or the store failed before it could run
    pub data Undoing (o : Option TunError) (log' : List Action) : Type 0 where
      undone : Undone o log' → Undoing o log'
      not_begun : (e : StoreError) → o ≡ some (store_failed e) → log' ≡ log → Undoing o log'

  -- the transaction names no process and no configuration of the core
  abbrev pub NamesNoCore : Transaction → Type 0
  NamesNoCore tx = (tx.rollback.child_processes ≡ []) × (tx.rollback.generated_configs ≡ [])

  empty_of_as_list :
      (errors : List String)
      → as_list x executor runtime_dir (joined_errors errors) ≡ []
      → errors ≡ []
  unfolding joined_errors
  empty_of_as_list [] h = refl
  empty_of_as_list (e ∷ errors) h = cc

  log-undo_on_host :
      (tx : Transaction) (plan : TunPlan) (w : World platform.Bytes)
      → NamesNoCore tx
      → undo_on_host x executor runtime_dir tx plan w ≡ (
        as_list x executor runtime_dir (joined_errors (executor.rollback plan w.log).0),
        record w { log = (executor.rollback plan w.log).1 },
      )
  unfolding undo_on_host World.◌>>=◌ pure on_host stop_rollback_child_processes
      remove_generated_configs joined_errors tunwarden.Recovery.Host.pure
  log-undo_on_host tx plan w (c, g) = rw (c, g) refl

  Undone-undo :
      (tx : Transaction) (plan : TunPlan) (w : World platform.Bytes)
      → NamesNoCore tx
      → let r = undo_and_finish x executor runtime_dir tx plan w in Undone plan w.log r.0.0 r.1.log
  unfolding undo_and_finish World.◌>>=◌
  Undone-undo tx plan w k =
      rw (log-undo_on_host tx plan w k) (record {
        ran = log-finish tx _ _;
        clean = λ h. empty_of_as_list _ (clean_of_none tx _ _ h);
      })

  rollback-transition :
      (tx : Transaction) (next : tunwarden.State.Status.TransactionState)
      (t wall : tunwarden.State.Transaction.Time)
      → (transition tx next t wall).1.rollback ≡ tx.rollback
  unfolding transition
  rollback-transition tx next t wall = ground arith

  module _ (plan : TunPlan) where
    Undoing-saved :
        (tx : Transaction) (r : Result StoreError String) (w : World platform.Bytes)
        → NamesNoCore tx
        → let o = rollback_saved x executor runtime_dir plan tx r w in
          Undoing plan w.log o.0.0 o.1.log
    unfolding rollback_saved pure
    Undoing-saved tx (err e) w k = not_begun e refl refl
    Undoing-saved tx (ok path) w k = undone (Undone-undo tx plan w k)

    Undoing-begun :
        (r : Result TransitionError Bool) (tx : Transaction) (w : World platform.Bytes)
        → NamesNoCore tx
        → let o =
            (elim (refusal r) as (λ _. W platform (Option TunError × Transaction)) [
              | some e ↦ pure platform (some e, tx)
              | none ↦
                  World.◌>>=◌ platform
                    (save_tx x executor runtime_dir tx)
                    (rollback_saved x executor runtime_dir plan tx)
            ])
              w in
          Undoing plan w.log o.0.0 o.1.log
    unfolding refusal pure World.◌>>=◌ on_disk
    Undoing-begun (err e) tx w k = not_begun (refused e) refl refl
    Undoing-begun (ok changed) tx w k = Undoing-saved tx _ _ k

    pub Undoing-rollback :
        (tx : Transaction) (w : World platform.Bytes)
        → NamesNoCore tx
        → same_state tx.state rolled_back ≡ false
        → let o = rollback_tun_transaction x executor runtime_dir tx plan w in
          Undoing plan w.log o.0.0 o.1.log
    unfolding rollback_tun_transaction World.◌>>=◌ read_clock
    Undoing-rollback tx w (c, g) h = rw h (elim (Bool-cases (same_state tx.state rolling_back)) [
      | inl e ↦ rw e (undone (Undone-undo tx plan w (c, g)))
      | inr e ↦ rw e (
          let time = platform.clock w.disk.reads in
          let kept = rollback-transition tx rolling_back time platform.wall in
          let moved = transition tx rolling_back time platform.wall in
          Undoing-begun moved.0 moved.1 _
            (ap (λ m. m.child_processes) kept ∙ c, ap (λ m. m.generated_configs) kept ∙ g))
    ])

  module _ (plan : TunPlan) (log : List Action) (cause : TunError) where
    -- how `rollbackTunFailure` ends: the error it returns, and the log that it leaves
    pub data GaveUp : TunError → List Action → Type 0 where
      cleanly :
          {log' : List Action}
          → log' ≡ (executor.rollback plan log).1
          → (executor.rollback plan log).0 ≡ []
          → GaveUp (rolled_back_after cause) log'
      with_errors :
          {e : TunError} {log' : List Action}
          → log' ≡ (executor.rollback plan log).1
          → GaveUp (rollback_failed cause e) log'
      unable :
          {e : TunError} {log' : List Action} (s : StoreError)
          → e ≡ store_failed s
          → log' ≡ log
          → GaveUp (rollback_failed cause e) log'

    GaveUp-report :
        (o : Option TunError) (tx : Transaction) (w : World platform.Bytes)
        → Undoing plan log o w.log
        → let r = report_rollback x executor runtime_dir cause (o, tx) w in GaveUp r.0 r.1.log
    unfolding report_rollback World.◌>>=◌ pure on_disk read_clock
    GaveUp-report none tx w (undone u) = cleanly u.ran (u.clean refl)
    GaveUp-report (some e) tx w (undone u) = with_errors u.ran
    GaveUp-report none tx w (not_begun s h l) = cc
    GaveUp-report (some e) tx w (not_begun s h l) = unable s (cc h) l

  pub GaveUp-failure :
      (tx : Transaction) (plan : TunPlan) (steps : List Step) (cause : TunError)
      (w : World platform.Bytes)
      → same_state tx.state rolled_back ≡ false
      → let r = rollback_tun_failure x executor runtime_dir tx plan steps cause w in
        GaveUp plan w.log cause r.0 r.1.log
  unfolding rollback_tun_failure World.◌>>=◌ on_disk read_clock rollback_metadata_from_tun_plan
  GaveUp-failure tx plan steps cause w h =
      GaveUp-report plan w.log cause _ _ _ (Undoing-rollback plan _ _ (refl, refl) h)
