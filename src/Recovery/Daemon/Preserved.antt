-- ===== src/Recovery/Daemon/Preserved.antt =====
-- When the file of a transaction is removed, and when it stays.
use tunwarden.Prelude.{
  String, ◌≡◌, refl, Bool, true, false, not, ◌||◌, Option, none, some, List, [], ◌∷◌, ◌++◌, any,
  any-append, All, arith, if◌then◌else◌,
}
use tunwarden.Result.{Result, ok, err}
use tunwarden.State.Lifecycle.{requires_cleanup}
use tunwarden.State.Transaction.{Transaction}
use tunwarden.Recovery.Host.{
  OsError, Action, removed, loaded, Env, M, ◌>>=◌, pure, remove, load_transaction,
}
use tunwarden.Recovery.Results.{
  Candidate, TransactionCandidate, CleanupResult, CleanupStatus, done, passed_over, broken,
  is_broken, is_passed_over,
}
use tunwarden.Recovery.Os.{with_defaults}
use tunwarden.Recovery.Metadata.{has_failed_cleanup, has_skipped_cleanup}
use tunwarden.Recovery.Daemon.{
  rollback_all, settle, cleanup_loaded, cleanup_transaction, cleanup_transaction_state,
  cleanup_many,
}
use tunwarden.Recovery.Allowed.{
  Safely, Undo, look_up, run_tool, remove_generated, Undoes, Safely-weaken, Safely-pure,
  Safely-then, one_action,
}
use tunwarden.Recovery.Os.Safety.{
  cleanup_tun_interface-Safely, cleanup_nftables_table-Safely,
  cleanup_generated_runtime_configs-Safely,
}
use tunwarden.Recovery.Daemon.Safety.{rollback_all-Safely}

-- the action that removes the file of a transaction
abbrev pub is_removal : Action → Bool
is_removal (removed path) = true
is_removal _ = false

Other : Action → Type 0
Other a = is_removal a ≡ false

Undo-Other : (runtime_dir : String) (a : Action) → Undo runtime_dir a → Other a
unfolding Other
Undo-Other runtime_dir _ (look_up command t) = refl
Undo-Other runtime_dir _ (run_tool path args k) = refl
Undo-Other runtime_dir _ (remove_generated path k) = refl

no_removal : (log : List Action) → All Other log → any is_removal log ≡ false
unfolding Other
no_removal [] h = refl
no_removal (a ∷ log) (h, k) = ground (arith, no_removal log k)

-- all results but the last one are recoveries
abbrev pub RecoveredButLast : List CleanupResult → Type 0
RecoveredButLast results =
    (before : List CleanupResult) × (final : CleanupResult) × (results ≡ before ++ final ∷ [])
    × All (λ (r : CleanupResult). r.status ≡ done) before

record Kept (m : M (List CleanupResult)) : Type 0 where
  at :
      (log : List Action)
      → any is_removal log ≡ false
      → any is_removal (m log).1 ≡ true
      → RecoveredButLast (m log).0

Safely-none :
    {A : Type 0} (m : M A)
    → Safely Other m
    → (log : List Action) → any is_removal log ≡ false
    → any is_removal (m log).1 ≡ false
Safely-none m k log h =
    rw (k.appends log, any-append is_removal log (k.new log))
      (ground (arith, no_removal (k.new log) (k.holds log)))

Kept-Safely : (m : M (List CleanupResult)) → Safely Other m → Kept m
Kept-Safely m k = record { at = λ log h e. ground (arith, Safely-none m k log h) }

Kept-bind :
    {A : Type 0} (m : M A) (f : A → M (List CleanupResult))
    → Safely Other m
    → ((a : A) → Kept (f a))
    → Kept (m >>= f)
unfolding ◌>>=◌
Kept-bind m f k j = record { at = λ log h e. (j (m log).0).at (m log).1 (Safely-none m k log h) e }

Kept-if :
    (b : Bool) (m n : M (List CleanupResult))
    → (b ≡ true → Kept m)
    → (b ≡ false → Kept n)
    → Kept (if b then m else n)
Kept-if true m n k j = k refl
Kept-if false m n k j = j refl

is_done : (s : CleanupStatus) → is_broken s ≡ false → is_passed_over s ≡ false → s ≡ done
is_done done h k = refl
is_done passed_over h k = ground arith
is_done broken h k = ground arith

recovered-All :
    (rs : List CleanupResult)
    → has_failed_cleanup rs ≡ false
    → has_skipped_cleanup rs ≡ false
    → All (λ (r : CleanupResult). r.status ≡ done) rs
unfolding has_failed_cleanup has_skipped_cleanup
recovered-All [] h k = tt
recovered-All (r ∷ rs) h k =
    (is_done r.status (ground arith) (ground arith), recovered-All rs (ground arith) (ground arith))

Kept-pure : (rs : List CleanupResult) → Kept (pure rs)
Kept-pure rs = Kept-Safely (pure rs) (Safely-pure Other rs)

ruleset kept_rules = (Kept-pure, Kept-bind, Kept-if)

module _ (env : Env) (runtime_dir : String) where
  others : {A : Type 0} (m : M A) → Undoes runtime_dir m → Safely Other m
  others m = Safely-weaken (Undo runtime_dir) Other m (Undo-Other runtime_dir)

  Kept-undo : (m : M (List CleanupResult)) → Undoes runtime_dir m → Kept m
  Kept-undo m k = Kept-Safely m (others m k)

  Other-load : (path : String) → Safely Other (load_transaction env path)
  unfolding load_transaction Other
  Other-load path = one_action _ (loaded path) _ refl

  Kept-remove :
      (path : String) (rs : List CleanupResult) (final : Option OsError → CleanupResult)
      → has_failed_cleanup rs ≡ false
      → has_skipped_cleanup rs ≡ false
      → Kept (remove env path >>= λ e. pure (rs ++ final e ∷ []))
  unfolding remove pure ◌>>=◌
  Kept-remove path rs final h k = record {
    at = λ log _ _. (rs, final (env.remove log path), refl, recovered-All rs h k);
  }

  Kept-settle :
      (c : Candidate) (path : String) (rs : List CleanupResult)
      → Kept (settle env runtime_dir c path rs)
  unfolding settle
  Kept-settle c path rs = search (kept_rules, Kept-remove)

  Kept-loaded :
      (c : Candidate) (path : String) (r : Result String Transaction)
      → Kept (cleanup_loaded env runtime_dir c path r)
  unfolding cleanup_loaded
  Kept-loaded c path (err e) = search kept_rules
  Kept-loaded c path (ok tx) = search (kept_rules, Kept-settle, others, rollback_all-Safely)

  Kept-transaction :
      (c : Candidate) (t : Option TransactionCandidate)
      → Kept (cleanup_transaction env runtime_dir c t)
  unfolding cleanup_transaction
  Kept-transaction c none = search kept_rules
  Kept-transaction c (some t) = search (kept_rules, Other-load, Kept-loaded)

  Kept-state : (c : Candidate) → Kept (cleanup_transaction_state env runtime_dir c)
  unfolding cleanup_transaction_state
  Kept-state c = Kept-transaction c c.transaction

  Kept-one : (m : M CleanupResult) → Undoes runtime_dir m → Kept (m >>= λ r. pure (r ∷ []))
  Kept-one m k = Kept-undo _ (Safely-then (Undo runtime_dir) m (λ r. r ∷ []) k)

module _ (env : Env) (runtime_dir : String) where
  Kept-many : (c : Candidate) → Kept (cleanup_many env runtime_dir c)
  unfolding cleanup_many
  Kept-many c =
      search
        (
          kept_rules,
          Kept-state env (with_defaults runtime_dir),
          Kept-one env (with_defaults runtime_dir),
          cleanup_tun_interface-Safely,
          cleanup_nftables_table-Safely,
          cleanup_generated_runtime_configs-Safely,
        )
        depth 12

-- If the cleanup of a candidate removes any transaction file, then all of its results but the last one
-- have the status `recovered`: none is reported as failed and none as skipped. This is about what the
-- results report, not about the host.
pub removed_only_if_recovered :
    (env : Env) (runtime_dir : String) (candidate : Candidate)
    → any is_removal (cleanup_many env runtime_dir candidate []).1 ≡ true
    → RecoveredButLast (cleanup_many env runtime_dir candidate []).0
removed_only_if_recovered env runtime_dir candidate =
    (Kept-many env runtime_dir candidate).at [] refl

module _ (env : Env) (runtime_dir : String) where
  removal_of_settle :
      (c : Candidate) (path : String) (rs : List CleanupResult) (log : List Action)
      → any is_removal log ≡ false
      → any is_removal (settle env runtime_dir c path rs log).1
        ≡ not (has_failed_cleanup rs || has_skipped_cleanup rs)
  unfolding settle remove pure ◌>>=◌
  removal_of_settle c path rs log h = ground (arith, any-append is_removal log (removed path ∷ []))

-- Cleaning up a loaded transaction that requires it, from a log without removals, removes its file exactly
-- if undoing its rollback metadata neither failed on a resource nor skipped one.
pub removed_iff_recovered :
    (env : Env) (runtime_dir : String) (candidate : Candidate) (path : String) (tx : Transaction)
    (log : List Action)
    → requires_cleanup tx ≡ true
    → any is_removal log ≡ false
    → any is_removal (cleanup_loaded env runtime_dir candidate path (ok tx) log).1
      ≡ not (
          has_failed_cleanup (rollback_all env runtime_dir tx.rollback log).0
          || has_skipped_cleanup (rollback_all env runtime_dir tx.rollback log).0)
unfolding cleanup_loaded ◌>>=◌
removed_iff_recovered env runtime_dir candidate path tx log h k = rw h (
    removal_of_settle env runtime_dir candidate path
      (rollback_all env runtime_dir tx.rollback log).0
      (rollback_all env runtime_dir tx.rollback log).1
      (Safely-none _ (others env runtime_dir _ (rollback_all-Safely env runtime_dir tx.rollback))
        log k))
