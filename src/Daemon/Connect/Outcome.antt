-- ===== src/Daemon/Connect/Outcome.antt =====
-- How `runTunTransaction` ends, whatever the host answers and whichever calls of the store fail.
use tunwarden.Prelude.{String, ◌≡◌, refl, sym, ap, ◌∙◌, false, Option, none, some, List}
use tunwarden.Result.{Result, ok, err}
use tunwarden.State.Status.{applying, applied, verifying, rolled_back, same_state, valid_transition}
use tunwarden.State.Transaction.{Transaction, empty_rollback}
use tunwarden.State.Disk.{Disk}
use tunwarden.State.Store.{StoreError, Op, store_transition, stamped}
use tunwarden.State.Store.Outcomes.{Ends}
use tunwarden.State.Store.Atomic.{IsFaithful}
use tunwarden.State.Store.Durable.{
  Holds, Whatever, save-Holds, load-Holds, Loaded, Moved, store_transition-Holds,
}
use tunwarden.Recovery.Host.{Action}
use tunwarden.Network.TunPlan.{TunPlan}
use tunwarden.Network.Executor.Command.{Step}
use tunwarden.Daemon.Metadata.{rollback_metadata_from_tun_plan}
use tunwarden.Daemon.Desired.{applied_steps_from_executor}
use tunwarden.Daemon.Partial.{rollback_plan_from_applied_steps}
use tunwarden.Daemon.World
use tunwarden.Daemon.World.{World, W, pure, on_disk, on_host}
use tunwarden.Daemon.Run.{
  TunPlanExecutor, TunError, store_failed, apply_failed, verify_failed, record_failed,
  TunTransactionResult, Surroundings, read_clock, save_tx,
}
use tunwarden.Daemon.Run.Undone.{GaveUp, GaveUp-failure}
use tunwarden.Daemon.Connect.{
  Outcome, stop_on, fail_run, after_verify, verify_run, after_verifying, after_applied,
  after_record, after_apply, apply_run, Prepared, before_apply, run_tun_transaction,
}
use tunwarden.Daemon.Connect.Prepared.{Ready, before_apply-Ready}

module _ (x : Surroundings) (executor : TunPlanExecutor) (runtime_dir : String)
    (plan : TunPlan) where
  open x use {platform}

  -- the file of the transaction says that it is being verified, and how to undo what the steps name
  pub record Recorded (id : String) (steps : List Step) (d : Disk platform.Bytes) : Type 0 where
    pub tx : Transaction
    pub holds : Holds platform runtime_dir tx d
    pub has_id : tx.id ≡ id
    pub is_verifying : tx.state ≡ verifying
    pub undoes :
        tx.rollback ≡ rollback_metadata_from_tun_plan (rollback_plan_from_applied_steps plan steps)

  module _ (start : List Action) where
    -- `Apply` gave these steps, and it or `Verify` came to an end at this log
    pub data Reached (steps : List Step) (log : List Action) : Type 0 where
      by_apply :
          (e : Option String) → executor.apply plan start ≡ ((steps, e), log) → Reached steps log
      by_verify :
          (m : String) (before : List Action)
          → executor.apply plan start ≡ ((steps, none), before)
          → executor.verify plan before ≡ (some m, log)
          → Reached steps log

    pub data Ended : Outcome x executor runtime_dir → World platform.Bytes → Type 0 where
      nothing_ran :
          {w : World platform.Bytes} (s : StoreError)
          → w.log ≡ start
          → Ended (err (store_failed s)) w
      verified :
          {r : TunTransactionResult} {w : World platform.Bytes} (steps : List Step)
          (log : List Action)
          → executor.apply plan start ≡ ((steps, none), log)
          → executor.verify plan log ≡ (none, w.log)
          → Recorded r.transaction_id steps w.disk
          → Ended (ok r) w
      left_applied :
          {w : World platform.Bytes} (s : StoreError) (steps : List Step)
          → executor.apply plan start ≡ ((steps, none), w.log)
          → Ended (err (store_failed s)) w
      gave_up :
          {e : TunError} {w : World platform.Bytes} (steps : List Step) (log : List Action)
          (cause : TunError)
          → Reached steps log
          → GaveUp x executor runtime_dir
              (rollback_plan_from_applied_steps plan steps)
              log
              cause
              e
              w.log
          → Ended (err e) w

    abbrev EndedIn : Outcome x executor runtime_dir × World platform.Bytes → Type 0
    EndedIn r = Ended r.0 r.1

    gave_up_by :
        (tx : Transaction) (steps : List Step) (cause : TunError) (w : World platform.Bytes)
        → Reached steps w.log
        → same_state tx.state rolled_back ≡ false
        → EndedIn (fail_run x executor runtime_dir plan tx steps cause w)
    unfolding fail_run World.◌>>=◌ pure
    gave_up_by tx steps cause w reached h = gave_up steps w.log cause reached (
        GaveUp-failure x executor runtime_dir tx (rollback_plan_from_applied_steps plan steps) steps
          cause w h)

    -- a call of the store, and what follows its result
    after_call :
        {A : Type 0} (Q : A → Disk platform.Bytes → Type 0) (m : Op platform A)
        (f : Result StoreError A → W platform (Outcome x executor runtime_dir))
        (w : World platform.Bytes)
        → Ends Q (Whatever platform runtime_dir) (m w.disk)
        → ((a : A) (d : Disk platform.Bytes) → Q a d → EndedIn (f (ok a) (record w { disk = d })))
        → ((e : StoreError) (d : Disk platform.Bytes) → EndedIn (f (err e) (record w { disk = d })))
        → EndedIn (World.◌>>=◌ platform (on_disk platform m) f w)
    unfolding World.◌>>=◌ on_disk
    after_call {A} Q m f w ends k j = split (m w.disk) ends
      where
        split :
            (r : Result StoreError A × Disk platform.Bytes)
            → Ends Q (Whatever platform runtime_dir) r
            → EndedIn (f r.0 (record w { disk = r.1 }))
        split (ok a, d) q = k a d q
        split (err e, d) q = j e d

    module _ (path : String) (steps : List Step) where
      verify_ends :
          (tx : Transaction) (at : String) (w : World platform.Bytes)
          → executor.apply plan start ≡ ((steps, none), w.log)
          → Recorded tx.id steps w.disk
          → tx.state ≡ verifying
          → EndedIn (verify_run x executor runtime_dir plan path steps (tx, at) w)
      unfolding verify_run World.◌>>=◌ on_host
      verify_ends tx at w a k s =
          shown (executor.verify plan w.log).0 (executor.verify plan w.log).1 refl
        where
          shown :
              (e : Option String) (log : List Action)
              → executor.verify plan w.log ≡ (e, log)
              → EndedIn (
                  after_verify x executor runtime_dir plan path steps tx e (record w { log = log }))
          shown none log v = unfold after_verify in unfold pure in verified steps w.log a v k
          shown (some m) log v =
              unfold after_verify in
              gave_up_by tx steps (verify_failed m) _ (by_verify m w.log a v) (rw s refl)

      module _ (faithful : IsFaithful platform) (tx : Transaction)
          (in_memory : same_state tx.state rolled_back ≡ false)
          (undoes : tx.rollback
            ≡ rollback_metadata_from_tun_plan (rollback_plan_from_applied_steps plan steps)) where
        recorded :
            (tx2 : Transaction) (d : Disk platform.Bytes)
            → Holds platform runtime_dir tx2 d
            → tx2.state ≡ verifying
            → tx2.rollback ≡ tx.rollback
            → Recorded tx2.id steps d
        recorded tx2 d h s u = record {
          tx = tx2;
          holds = h;
          has_id = refl;
          is_verifying = s;
          undoes = u ∙ undoes;
        }

        after_verifying_ends :
            (tx' : Transaction) (w : World platform.Bytes)
            → executor.apply plan start ≡ ((steps, none), w.log)
            → tx'.id ≡ tx.id
            → tx'.state ≡ applied
            → tx'.rollback ≡ tx.rollback
            → Holds platform runtime_dir tx' w.disk
            → EndedIn (
                World.◌>>=◌ platform
                  (on_disk platform (store_transition platform runtime_dir tx.id verifying))
                  (after_verifying x executor runtime_dir plan path steps tx)
                  w)
        unfolding after_verifying valid_transition pure
        after_verifying_ends tx' w a i s u h =
            after_call (λ r d. Moved platform runtime_dir tx' verifying d) _ _ w
              (rw (sym i) (
                store_transition-Holds platform runtime_dir faithful tx' verifying (rw s refl)
                  (rw s refl) w.disk h))
              (λ r d (tx2, h2, s2, i2, u2).
                after_call (Loaded platform runtime_dir tx2 d h2) _ _ (record w { disk = d })
                  (rw (sym (i2 ∙ i)) (load-Holds platform runtime_dir tx2 d h2))
                  (λ (t, at) d' (e, h3).
                    rw e (verify_ends tx2 at _ a (recorded tx2 d' h3 s2 (u2 ∙ u)) s2))
                  (λ e d'. left_applied e steps a))
              (λ e d. gave_up_by tx steps (store_failed e) _ (by_apply none a) in_memory)

        after_applied_ends :
            (tx' : Transaction) (w : World platform.Bytes)
            → executor.apply plan start ≡ ((steps, none), w.log)
            → tx'.id ≡ tx.id
            → tx'.state ≡ applying
            → tx'.rollback ≡ tx.rollback
            → Holds platform runtime_dir tx' w.disk
            → EndedIn (
                World.◌>>=◌ platform
                  (on_disk platform (store_transition platform runtime_dir tx.id applied))
                  (after_applied x executor runtime_dir plan path steps tx)
                  w)
        unfolding after_applied valid_transition
        after_applied_ends tx' w a i s u h =
            after_call (λ r d. Moved platform runtime_dir tx' applied d) _ _ w
              (rw (sym i) (
                store_transition-Holds platform runtime_dir faithful tx' applied (rw s refl)
                  (rw s refl) w.disk h))
              (λ r d (tx2, h2, s2, i2, u2).
                after_verifying_ends tx2 (record w { disk = d }) a (i2 ∙ i) s2 (u2 ∙ u) h2)
              (λ e d. gave_up_by tx steps (store_failed e) _ (by_apply none a) in_memory)

        after_record_ends :
            (w : World platform.Bytes)
            → executor.apply plan start ≡ ((steps, none), w.log)
            → tx.state ≡ applying
            → EndedIn (
                World.◌>>=◌ platform
                  (save_tx x executor runtime_dir tx)
                  (after_record x executor runtime_dir plan path steps tx)
                  w)
        unfolding after_record stamped
        after_record_ends w a s =
            after_call (λ r d. Holds platform runtime_dir (stamped platform tx w.disk.reads) d) _ _
              w (save-Holds platform runtime_dir faithful tx w.disk)
              (λ r d h.
                after_applied_ends (stamped platform tx w.disk.reads) (record w { disk = d }) a refl
                  s refl h)
              (λ e d. gave_up_by tx steps (record_failed e) _ (by_apply none a) in_memory)

    module _ (faithful : IsFaithful platform) where
      apply_ends :
          (path : String) (tx : Transaction) (at : String) (w : World platform.Bytes)
          → w.log ≡ start
          → tx.state ≡ applying
          → EndedIn (apply_run x executor runtime_dir plan path (tx, at) w)
      unfolding apply_run after_apply World.◌>>=◌ on_host read_clock
      apply_ends path tx at w l s =
          shown (executor.apply plan w.log).0.0 (executor.apply plan w.log).0.1
            (executor.apply plan w.log).1 (ap (executor.apply plan) (sym l))
        where
          shown :
              (steps : List Step) (e : Option String) (log : List Action)
              → executor.apply plan start ≡ ((steps, e), log)
              → EndedIn (
                  after_apply x executor runtime_dir plan path tx
                    (steps, e)
                    (record w { log = log }))
          shown steps (some m) log a =
              gave_up_by tx steps (apply_failed m) _ (by_apply (some m) a) (rw s refl)
          shown steps none log a =
              let tx' = record tx {
                applied_steps = applied_steps_from_executor steps (platform.clock w.disk.reads);
                rollback =
                    rollback_metadata_from_tun_plan (rollback_plan_from_applied_steps plan steps);
              } in
              after_record_ends path steps faithful tx' (rw s refl) refl _ a s

      prepared_ends :
          (r : Prepared x executor runtime_dir × World platform.Bytes)
          → Ready x executor runtime_dir empty_rollback start r
          → EndedIn (
              stop_on x executor runtime_dir
                (λ (path, loaded). apply_run x executor runtime_dir plan path loaded)
                r.0
                r.1)
      unfolding pure
      prepared_ends (err e, w) l = nothing_ran e l
      prepared_ends (ok (path, (tx, at)), w) (l, s, u, h) = apply_ends path tx at w l s

-- `runTunTransaction` ends in one of four ways, whatever the host answers and whichever calls of the store fail, if the
-- decoder reads back what was encoded. (1) It returns a result: `Apply` and then `Verify` succeeded, nothing else ran on
-- the host, and the transaction's file holds a transaction in the state `verifying` whose rollback metadata is that of
-- the plan's part which the applied steps name. (2) The store failed before `Apply`, and nothing ran. (3) The store
-- failed to load the transaction between `Apply` and `Verify`: the plan stays applied. (4) `Apply`, the store or `Verify`
-- failed: the rollback of what the steps name ran last, and an error that says "rolled back" means that it had no
-- errors; or the store failed once more before the rollback, which then did not run.
pub run_tun_transaction_ends :
    (x : Surroundings) (executor : TunPlanExecutor) (runtime_dir profile_id : String)
    (plan : TunPlan) (w : World x.platform.Bytes)
    → IsFaithful x.platform
    → let r = run_tun_transaction x executor runtime_dir profile_id plan w in
      Ended x executor runtime_dir plan w.log r.0 r.1
unfolding run_tun_transaction World.◌>>=◌
run_tun_transaction_ends x executor runtime_dir profile_id plan w faithful =
    prepared_ends x executor runtime_dir plan w.log faithful
      (before_apply x executor runtime_dir profile_id plan w)
      (before_apply-Ready x executor runtime_dir profile_id plan w faithful)
