-- ===== src/State/Validate.antt =====
-- internal/state/transaction.go: `ValidateTransaction`.
pub mod Facts
use Prim.Native.Char.{code}
use Prim.Native.String.{[], ◌∷◌}
use tunwarden.Prelude.{
  ℕ, zero, suc, String, Option, none, some, Bool, true, false, not, ◌&&◌, ◌||◌, leb, nat_eq,
  if◌then◌else◌, ◌==◌,
}
use tunwarden.Result.{Result, ok, err, ◌>>=◌, ◌>>◌, reject}
use tunwarden.Text.{trim_space}
use tunwarden.State.Status.{TransactionState, valid_transaction_state}
use tunwarden.State.Transaction.{Time, is_zero_time, Transaction}
use tunwarden.State.Lifecycle.{transaction_schema_version, transaction_owner}
use tunwarden.State.Json.{marshal_transaction}
use tunwarden.State.Secret.{contains_secret_value}

pub data Invalid : Type 0 where
  unsupported_schema unsupported_owner : String → Invalid
  empty_id : Invalid
  invalid_id : String → Invalid
  invalid_state : TransactionState → Invalid
  missing_created_at missing_updated_at persistent_secret : Invalid

abbrev is_alphanumeric : ℕ → Bool
is_alphanumeric c =
    (leb b'A' c && leb c b'Z') || (leb b'a' c && leb c b'z') || (leb b'0' c && leb c b'9')

is_id_char : ℕ → Bool
is_id_char c = is_alphanumeric c || nat_eq c b'_' || nat_eq c b'.' || nat_eq c b'-'

-- `[A-Za-z0-9_.-]{0,n}` up to the end of the text
id_tail : ℕ → String → Bool
unfolding is_id_char
id_tail n [] = true
id_tail zero (c ∷ s) = false
id_tail (suc n) (c ∷ s) = is_id_char (code c) && id_tail n s

-- `transactionIDPattern`
unfoldable pub matches_id : String → Bool
unfolding id_tail
matches_id [] = false
matches_id (c ∷ s) = is_alphanumeric (code c) && id_tail 127 s

unfoldable pub validate_transaction_id : String → Result Invalid (Unit {0})
validate_transaction_id id = do
  reject (trim_space id == "") empty_id
  reject (not (matches_id id)) (invalid_id id)
  ok tt

module _ (matches_secret : String → Bool) (format_time : Time → Option String) where
  unfoldable pub contains_persistent_secret : Transaction → Bool
  unfolding marshal_transaction
  contains_persistent_secret tx = elim (marshal_transaction format_time tx) [
    | none ↦ true
    | some value ↦ contains_secret_value matches_secret "" value
  ]

  unfoldable pub validate_transaction : Transaction → Result Invalid (Unit {0})
  validate_transaction tx = do
    reject (not (tx.schema_version == transaction_schema_version))
        (unsupported_schema tx.schema_version)
    reject (not (tx.owner == transaction_owner)) (unsupported_owner tx.owner)
    validate_transaction_id tx.id
    reject (not (valid_transaction_state tx.state)) (invalid_state tx.state)
    reject (is_zero_time tx.created_at) missing_created_at
    reject (is_zero_time tx.updated_at) missing_updated_at
    reject (contains_persistent_secret tx) persistent_secret
    ok tt
