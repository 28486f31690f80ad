-- ===== src/State/Store.antt =====
-- internal/state/transaction.go: `TransactionStore`.
-- What Go's library and the environment supply is a `Platform`: the JSON codec, the secret pattern,
-- the printed form of a time, and the readings of the clock.
pub mod Effects
pub mod Outcomes
pub mod Saving
pub mod Atomic
pub mod Durable
use tunwarden.Prelude.{
  ℕ, zero, suc, ◌+◌, ◌≡◌, String, Bool, true, false, not, List, [], ◌∷◌, Option, none, some,
  if◌then◌else◌, ◌==◌,
}
use tunwarden.Result.{Result, ok, err}
use tunwarden.Text.{◌<>◌}
use tunwarden.FilePath.{join_path}
use tunwarden.State.Status.{TransactionState}
use tunwarden.State.Transaction.{Time, is_zero_time, Transaction}
use tunwarden.State.Lifecycle.{
  TransitionError, transition, transaction_schema_version, transaction_owner,
}
use tunwarden.State.Validate.{Invalid, validate_transaction, validate_transaction_id}
use tunwarden.State.Disk.{
  Call, mkdir, create_temp, chmod, write, sync, close, rename, sync_dir, read, Disk, lookup, faulty,
  next_call, remove_temp, perform_create, perform_write, perform_rename,
}

pub record Platform : Type 1 where
  pub Bytes : Type 0
  -- json.MarshalIndent, with the newline that `Save` appends; json.Unmarshal
  pub encode : Transaction → Option Bytes
  pub decode : Bytes → Option Transaction
  pub matches_secret : String → Bool
  -- the text of a time, unless MarshalJSON refuses its year
  pub format_time : Time → Option String
  -- the reading number n of the clock
  pub clock : ℕ → Time
  -- a reading of the system clock, where `Now` gives the zero time
  pub wall : Time

pub data StoreError : Type 0 where
  invalid : Invalid → StoreError
  refused : TransitionError → StoreError
  encoding decoding not_found : StoreError
  failed_call : Call → StoreError

abbrev pub transaction_dir_name : String
transaction_dir_name = "transactions"

abbrev pub transaction_file_suffix : String
transaction_file_suffix = ".json"

abbrev pub or_default : String → String → String
or_default s default = if s == "" then default else s

-- `Path`, with its error as this component's
path_of : String → String → Result Invalid (Unit {0}) → Result StoreError String
path_of runtime_dir id (err e) = err (invalid e)
path_of runtime_dir id (ok _) = ok (
    join_path (
      or_default runtime_dir "/run/podlaz"
      ∷ transaction_dir_name
      ∷ (id <> transaction_file_suffix)
      ∷ []))

unfoldable pub store_path : String → String → Result StoreError String
unfolding path_of
store_path runtime_dir id = path_of runtime_dir id (validate_transaction_id id)

module _ (p : Platform) where
  open p use {Bytes, encode, decode, matches_secret, format_time, clock, wall}

  -- An operation of the store: it may fail, and the disk comes back either way.
  abbrev pub Op : Type 0 → Type 0
  Op A = Disk Bytes → Result StoreError A × Disk Bytes

  abbrev pub continue : {A B : Type 0} → Result StoreError A → (A → Op B) → Op B
  continue (ok a) f d = f a d
  continue (err e) f d = (err e, d)

  infixl 5 ◌>>=◌ ◌>>◌
  unfoldable pub ◌>>=◌ : {A B : Type 0} → Op A → (A → Op B) → Op B
  ◌>>=◌ m f d = let (r, d') = m d in continue r f d'

  abbrev pub ◌>>◌ : {B : Type 0} → Op (Unit {0}) → Op B → Op B
  m >> k = m >>= λ _. k

  pub pure : {A : Type 0} → A → Op A
  pure a d = (ok a, d)

  pub lift : {A : Type 0} → Result StoreError A → Op A
  lift r d = (r, d)

  -- a call of `os` that does `effect` unless it fails
  pub attempt : Call → (Disk Bytes → Disk Bytes) → Op (Unit {0})
  attempt call effect d =
      let d' = next_call d in if faulty d then (err (failed_call call), d') else (ok tt, effect d')

  -- the deferred removal of the temporary file, for an error inside
  pub removing_temp : {A : Type 0} → Op A → Op A
  removing_temp m d =
      let (r, d') = m d in elim r [ ok a ↦ (ok a, d') | err e ↦ (err e, remove_temp d') ]

  unfoldable pub now : Op Time
  now d = (ok (clock d.reads), record d { reads = suc d.reads })

  pub as_store : Result Invalid (Unit {0}) → Result StoreError (Unit {0})
  as_store (ok u) = ok u
  as_store (err e) = err (invalid e)

  or_encoding : Option Bytes → Result StoreError Bytes
  or_encoding none = err encoding
  or_encoding (some b) = ok b

  pub encoded : Transaction → Result StoreError Bytes
  unfolding or_encoding
  encoded tx = or_encoding (encode tx)

  -- the defaults that `Save` fills in
  unfoldable pub stamped : Transaction → ℕ → Transaction
  stamped tx reads =
      let fresh = is_zero_time tx.created_at in
      record tx {
        schema_version = or_default tx.schema_version transaction_schema_version;
        owner = or_default tx.owner transaction_owner;
        created_at = if fresh then clock reads else tx.created_at;
        updated_at = if fresh then clock (suc reads) else clock reads;
      }

  pub filled : Transaction → Op Transaction
  unfolding stamped
  filled tx d = (
    ok (stamped tx d.reads),
    record d { reads = if is_zero_time tx.created_at then suc (suc d.reads) else suc d.reads },
  )

  -- from the temporary file to the rename
  pub replace_file : String → Bytes → Op (Unit {0})
  replace_file path b = removing_temp (do
    attempt chmod (λ d. d)
    attempt write (perform_write b)
    attempt sync (λ d. d)
    attempt close (λ d. d)
    attempt rename (perform_rename path))

  pub write_file : String → Transaction → Op String
  write_file path tx = do
    attempt mkdir (λ d. d)
    b ← lift (encoded tx)
    attempt create_temp perform_create
    replace_file path b
    attempt sync_dir (λ d. d)
    pure path

  unfoldable pub save : String → Transaction → Op String
  unfolding filled as_store write_file replace_file encoded lift pure attempt removing_temp ◌>>=◌
  save runtime_dir tx = do
    tx' ← filled tx
    lift (as_store (validate_transaction matches_secret format_time tx'))
    path ← lift (store_path runtime_dir tx'.id)
    write_file path tx'

  accepted : Transaction → Result Invalid (Unit {0}) → Result StoreError Transaction
  accepted tx (ok _) = ok tx
  accepted tx (err e) = err (invalid e)

  decoded : Option Transaction → Result StoreError Transaction
  unfolding accepted
  decoded none = err decoding
  decoded (some tx) = accepted tx (validate_transaction matches_secret format_time tx)

  pub parsed : Option (Option Bytes) → Result StoreError Transaction
  unfolding decoded
  parsed none = err not_found
  parsed (some none) = err decoding
  parsed (some (some b)) = decoded (decode b)

  unfoldable pub load_transaction_file : String → Op Transaction
  unfolding parsed attempt lift
  load_transaction_file path = do attempt read (λ d. d); λ d. lift (parsed (lookup path d.files)) d

  unfoldable pub load : String → String → Op (Transaction × String)
  unfolding lift pure
  load runtime_dir id = do
    path ← lift (store_path runtime_dir id)
    tx ← load_transaction_file path
    pure (tx, path)

  -- the transaction that `Transition` leaves, and whether it has to be saved
  unfoldable pub moved :
      Result TransitionError Bool × Transaction → Result StoreError (Bool × Transaction)
  moved (ok changed, tx) = ok (changed, tx)
  moved (err e, tx) = err (refused e)

  unfoldable pub keep_or_save : String → String → Bool × Transaction → Op (Transaction × String)
  keep_or_save runtime_dir path (false, tx) = pure (tx, path)
  keep_or_save runtime_dir path (true, tx) = do path' ← save runtime_dir tx; pure (tx, path')

  unfoldable pub store_transition : String → String → TransactionState → Op (Transaction × String)
  unfolding moved keep_or_save now lift pure
  store_transition runtime_dir id next = do
    (tx, path) ← load runtime_dir id
    t ← now
    m ← lift (moved (transition tx next t wall))
    keep_or_save runtime_dir path m
