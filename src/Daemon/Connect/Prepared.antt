-- ===== src/Daemon/Connect/Prepared.antt =====
-- What `runTunTransaction` has left on the disk when it calls `Apply`.
use tunwarden.Prelude.{String, ◌≡◌, refl, sym, List}
use tunwarden.Result.{Result, ok, err}
use tunwarden.State.Status.{planned, applying, valid_transition}
use tunwarden.State.Transaction.{Transaction, RollbackMetadata, empty_rollback}
use tunwarden.State.Lifecycle.{new_transaction}
use tunwarden.State.Disk.{Disk}
use tunwarden.State.Store.{StoreError, Op, stamped}
use tunwarden.State.Store.Outcomes.{Ends}
use tunwarden.State.Store.Atomic.{IsFaithful}
use tunwarden.State.Store.Durable.{
  Holds, Whatever, save-Holds, load-Holds, Loaded, Moved, store_transition-Holds,
}
use tunwarden.Recovery.Host.{Action}
use tunwarden.Network.TunPlan.{TunPlan}
use tunwarden.Daemon.World
use tunwarden.Daemon.World.{World, W, pure, on_disk}
use tunwarden.Daemon.Run.{TunPlanExecutor, Surroundings, read_clock}
use tunwarden.Daemon.Connect.{Prepared, first_tx, go_on, prepare_run, before_apply}

module _ (x : Surroundings) (executor : TunPlanExecutor) (runtime_dir : String) where
  open x use {platform}

  -- Nothing has run on the host, and the file of the transaction that was loaded says that it is being
  -- applied, with this rollback metadata.
  abbrev pub Ready :
      RollbackMetadata
      → List Action
      → Prepared x executor runtime_dir × World platform.Bytes
      → Type 0
  Ready rollback start (err e, w) = w.log ≡ start
  Ready rollback start (ok (path, (tx, at)), w) =
      (w.log ≡ start)
      × (tx.state ≡ applying)
      × (tx.rollback ≡ rollback)
      × Holds platform runtime_dir tx w.disk

  module _ (first : Transaction) (start : List Action) where
    -- a call of the store, and what follows its result
    after_store :
        {A : Type 0} (Q : A → Disk platform.Bytes → Type 0) (m : Op platform A)
        (next : A → W platform (Prepared x executor runtime_dir)) (w : World platform.Bytes)
        → w.log ≡ start
        → Ends Q (Whatever platform runtime_dir) (m w.disk)
        → ((a : A) (d : Disk platform.Bytes)
            → Q a d
            → Ready first.rollback start (next a (record w { disk = d })))
        → Ready first.rollback start
            (World.◌>>=◌ platform (on_disk platform m) (go_on x executor runtime_dir next) w)
    unfolding World.◌>>=◌ on_disk pure
    after_store {A} Q m next w l ends k = split (m w.disk) ends
      where
        split :
            (r : Result StoreError A × Disk platform.Bytes)
            → Ends Q (Whatever platform runtime_dir) r
            → Ready first.rollback start
                (go_on x executor runtime_dir next r.0 (record w { disk = r.1 }))
        split (ok a, d) q = k a d q
        split (err e, d) q = l

    module _ (faithful : IsFaithful platform) (planned_first : first.state ≡ planned) where
      prepare-Ready :
          (w : World platform.Bytes)
          → w.log ≡ start
          → Ready first.rollback start (prepare_run x executor runtime_dir first w)
      unfolding prepare_run stamped valid_transition pure
      prepare-Ready w l =
          let tx' = stamped platform first w.disk.reads in
          after_store (λ path d. Holds platform runtime_dir tx' d) _ _ w l
            (save-Holds platform runtime_dir faithful first w.disk)
            (λ path d h.
              after_store (λ r d'. Moved platform runtime_dir tx' applying d') _ _
                (record w { disk = d }) l
                (store_transition-Holds platform runtime_dir faithful tx' applying
                  (rw planned_first refl) (rw planned_first refl) d h)
                (λ r d' (tx2, h2, s2, i2, u2).
                  after_store (Loaded platform runtime_dir tx2 d' h2) _ _ (record w { disk = d' }) l
                    (rw (sym i2) (load-Holds platform runtime_dir tx2 d' h2))
                    (λ (t, at) d2 (e, h3). rw e (l, s2, u2, h3))))

-- When `runTunTransaction` is about to call `Apply`.
pub before_apply-Ready :
    (x : Surroundings) (executor : TunPlanExecutor) (runtime_dir profile_id : String)
    (plan : TunPlan) (w : World x.platform.Bytes)
    → IsFaithful x.platform
    → Ready x executor runtime_dir empty_rollback w.log
        (before_apply x executor runtime_dir profile_id plan w)
unfolding before_apply World.◌>>=◌ read_clock first_tx new_transaction
before_apply-Ready x executor runtime_dir profile_id plan w faithful =
    prepare-Ready x executor runtime_dir _ w.log faithful refl _ refl
