-- ===== src/State/Store/Durable.antt =====
-- A file of the store that holds a transaction, and what the operations make of it.
use tunwarden.Prelude.{
  suc, String, ◌≡◌, refl, true, false, Option, some, List, inl, inr, Bool-cases, eq_refl,
}
use tunwarden.Result.{Result, ok, err}
use tunwarden.State.Status.{TransactionState, valid_transition, same_state}
use tunwarden.State.Transaction.{Time, Transaction}
use tunwarden.State.Lifecycle.{transition, or_wall}
use tunwarden.State.Validate.{validate_transaction}
use tunwarden.State.Disk.{Disk, lookup, faulty, next_call}
use tunwarden.State.Store.{
  Platform, StoreError, store_path, stamped, save, load, load_transaction_file, store_transition,
  parsed, decoded, accepted, moved, keep_or_save, now, lift, pure, attempt, ◌>>=◌,
}
use tunwarden.State.Store.Effects.{lookup-put, files-next_call}
use tunwarden.State.Store.Outcomes.{Ends, Ends-bind}
use tunwarden.State.Store.Atomic.{save_is_atomic, Stored, NotStored, IsFaithful}

module _ (p : Platform) (runtime_dir : String) where
  -- the file of the transaction's id decodes to it
  pub record Holds (tx : Transaction) (d : Disk p.Bytes) : Type 0 where
    pub path : String
    pub bytes : p.Bytes
    pub at_path : store_path runtime_dir tx.id ≡ ok path
    pub is_valid : validate_transaction p.matches_secret p.format_time tx ≡ ok tt
    pub decodes : p.decode bytes ≡ some tx
    pub stands : lookup path d.files ≡ some (some bytes)

  abbrev pub Whatever : StoreError → Disk p.Bytes → Type 0
  Whatever e d = Unit

  module _ (faithful : IsFaithful p) where
    saved_Holds :
        (tx : Transaction) (files : List (String × Option p.Bytes)) (temps : List (Option p.Bytes))
        (r : Result StoreError String × Disk p.Bytes)
        → Ends (Stored p runtime_dir tx files temps) (NotStored p runtime_dir tx files temps) r
        → Ends (λ path d. Holds tx d) Whatever r
    saved_Holds tx files temps (err e, d) h = tt
    saved_Holds tx files temps (ok path, d) (v, s, b, e, (f, t)) = record {
      path = path;
      bytes = b;
      at_path = s;
      is_valid = v;
      decodes = faithful tx b e;
      stands = rw f (rw (lookup-put path path (some b) files, eq_refl path) refl);
    }

    pub save-Holds :
        (tx : Transaction) (d : Disk p.Bytes)
        → Ends (λ path d'. Holds (stamped p tx d.reads) d') Whatever (save p runtime_dir tx d)
    save-Holds tx d =
        saved_Holds (stamped p tx d.reads) d.files d.temps _ (save_is_atomic p runtime_dir tx d)

  module _ (tx : Transaction) (d : Disk p.Bytes) (h : Holds tx d) where
    Holds-next_call : Holds tx (next_call d)
    Holds-next_call = record {
      path = h.path;
      bytes = h.bytes;
      at_path = h.at_path;
      is_valid = h.is_valid;
      decodes = h.decodes;
      stands = rw (files-next_call d) h.stands;
    }

    -- what a load gives, unless reading the file fails
    abbrev pub Loaded : Transaction × String → Disk p.Bytes → Type 0
    Loaded (t, at) d' = (t ≡ tx) × Holds tx d'

    parsed_Holds : parsed p (lookup h.path (next_call d).files) ≡ ok tx
    unfolding parsed decoded accepted
    parsed_Holds =
        rw (files-next_call d, h.stands, parsed)
          (rw (h.decodes, decoded) (rw (h.is_valid, accepted)))

    file-Holds : Ends (λ t d'. (t ≡ tx) × Holds tx d') Whatever (load_transaction_file p h.path d)
    unfolding load_transaction_file attempt lift ◌>>=◌
    file-Holds = elim (Bool-cases (faulty d)) [
      | inl e ↦ rw e tt
      | inr e ↦ rw (e, parsed_Holds) (refl, Holds-next_call)
    ]

    pub load-Holds : Ends Loaded Whatever (load p runtime_dir tx.id d)
    unfolding load lift pure ◌>>=◌
    load-Holds = rw h.at_path (
        Ends-bind p (λ t d'. (t ≡ tx) × Holds tx d') Loaded Whatever
          (load_transaction_file p h.path) (λ t. pure p (t, h.path)) d file-Holds (λ t d' q. q))

  -- the file holds the transaction in another state
  abbrev pub Moved : Transaction → TransactionState → Disk p.Bytes → Type 0
  Moved tx next d =
      (tx' : Transaction) × Holds tx' d
      × (tx'.state ≡ next)
      × (tx'.id ≡ tx.id)
      × (tx'.rollback ≡ tx.rollback)

  module _ (faithful : IsFaithful p) (tx : Transaction) (next : TransactionState)
      (valid : valid_transition tx.state next ≡ true)
      (differs : same_state tx.state next ≡ false) where
    saved_Moved :
        (path : String) (t : Time) (d : Disk p.Bytes)
        → let tx' = record tx { state = next; updated_at = or_wall t p.wall } in
          Ends (λ r d'. Moved tx next d') Whatever (keep_or_save p runtime_dir path (true, tx') d)
    unfolding keep_or_save stamped pure
    saved_Moved path t d =
        let tx' = record tx { state = next; updated_at = or_wall t p.wall } in
        Ends-bind p (λ path' d'. Holds (stamped p tx' d.reads) d') (λ r d'. Moved tx next d')
          Whatever (save p runtime_dir tx') _ d (save-Holds faithful tx' d)
          (λ path' d' k. (stamped p tx' d.reads, k, refl, refl, refl))

    moving_Moved :
        (t : Transaction) (path : String) (d : Disk p.Bytes)
        → t ≡ tx
        → Ends
            (λ r d'. Moved tx next d')
            Whatever
            (◌>>=◌ p
              (now p)
              (λ time.
                ◌>>=◌ p
                  (lift p (moved p (transition t next time p.wall)))
                  (keep_or_save p runtime_dir path))
              d)
    unfolding now lift transition moved ◌>>=◌
    moving_Moved t path d e = rw e (
        rw (valid, differs) (saved_Moved path (p.clock d.reads) (record d { reads = suc d.reads })))

    pub store_transition-Holds :
        (d : Disk p.Bytes)
        → Holds tx d
        → Ends (λ r d'. Moved tx next d') Whatever (store_transition p runtime_dir tx.id next d)
    unfolding store_transition
    store_transition-Holds d h =
        Ends-bind p (Loaded tx d h) (λ r d'. Moved tx next d') Whatever (load p runtime_dir tx.id) _
          d (load-Holds tx d h) (λ (t, at) d' (e, k). moving_Moved t at d' e)
