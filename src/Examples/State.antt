-- ===== src/Examples/State.antt =====
-- Runs of internal/state/transaction.go at concrete transactions.
use tunwarden.Prelude.{◌+◌, ◌≡◌, refl, sym, ◌↔◌, true, false, some, List, [], ◌∷◌}
use tunwarden.Result.{ok}
use tunwarden.State.Status.{
  planned, applying, applied, verifying, committed, rolling_back, rolled_back, failed, same_state,
  valid_transition, valid_transaction_state,
}
use tunwarden.State.Status.Edges.{Edge, valid_transition_iff}
use tunwarden.State.Transaction.{Transaction}
use tunwarden.State.Json.{string, object, field, no_fields}
use tunwarden.State.Secret.{contains_secret_value}
use tunwarden.State.Secret.Leaves.{SecretLeaf, contains_secret_value_iff}
use tunwarden.State.Lifecycle.{new_transaction, transition, mark_failure}
use tunwarden.State.Lifecycle.Effects.{mark_failure_cases}
use tunwarden.State.Lifecycle.History.{
  Request, request_all, InOrder, committed-InOrder, rolled_back_is_final, rollback_reachable,
}
use tunwarden.State.Validate.{validate_transaction, validate_transaction_id}
use tunwarden.State.Validate.Facts.{IsValid, validate_transaction_iff}
use tunwarden.Text.{trim_space}
use tunwarden.State.Disk.{Disk}
use tunwarden.State.Store.{Platform, save, stamped, load, store_path}
use tunwarden.State.Store.Outcomes.{Ends}
use tunwarden.State.Store.Atomic.{Stored, NotStored, save_is_atomic, load-save}

abbrev tx : Transaction
unfolding new_transaction
tx = new_transaction "tx-1" "home" "tun" 5 5

-- a platform whose files hold the transactions themselves
abbrev pub platform : Platform
platform = record {
  Bytes = Transaction;
  encode = λ t. some t;
  decode = λ b. some b;
  matches_secret = λ s. false;
  format_time = λ t. some "2026-01-01T00:00:00Z";
  clock = λ n. n + 1;
  wall = 1;
}

-- an empty directory; a disk on which the sixth call fails
abbrev pub disk : Disk Transaction
disk = record { files = []; temps = []; faults = []; reads = 0 }

abbrev pub failing_disk : Disk Transaction
failing_disk = record disk { faults = false ∷ false ∷ false ∷ false ∷ false ∷ true ∷ [] }

abbrev stored : Transaction
stored = record tx { updated_at = 1 }

abbrev saved_disk : Disk Transaction
saved_disk = record {
  files = ("/run/podlaz/transactions/tx-1.json", some stored) ∷ [];
  temps = [];
  faults = [];
  reads = 1;
}

abbrev full_history : List Request
full_history =
    (applying, 6, 6)
    ∷ (committed, 7, 7)
    ∷ (applied, 8, 8)
    ∷ (verifying, 9, 9)
    ∷ (committed, 10, 10)
    ∷ []

valid_transition_iff_example : (valid_transition planned applying ≡ true) ↔ Edge planned applying
valid_transition_iff_example = valid_transition_iff planned applying

mark_failure_cases_example :
    mark_failure tx " no link " 9 9
    ≡ (ok true, record tx { state = failed; failure_reason = "no link"; updated_at = 9 })
unfolding tx trim_space
mark_failure_cases_example = mark_failure_cases tx " no link " 9 9

committed-InOrder_example : InOrder (applying ∷ applied ∷ verifying ∷ committed ∷ []) full_history
unfolding tx request_all transition valid_transition
committed-InOrder_example = committed-InOrder tx full_history refl refl

rolled_back_is_final_example :
    request_all (record tx { state = rolled_back }) full_history ≡ record tx { state = rolled_back }
unfolding tx
rolled_back_is_final_example =
    rolled_back_is_final (record tx { state = rolled_back }) full_history refl

rollback_reachable_example :
    (request_all tx ((rolling_back, 8, 8) ∷ (rolled_back, 8, 8) ∷ [])).state ≡ rolled_back
unfolding tx valid_transaction_state
rollback_reachable_example = rollback_reachable tx 8 8 refl

contains_secret_value_iff_example :
    (contains_secret_value (λ s. false) "" (object (field "token" (string "abc") no_fields)) ≡ true)
    ↔ SecretLeaf (λ s. false) "" (object (field "token" (string "abc") no_fields))
contains_secret_value_iff_example =
    contains_secret_value_iff (λ s. false) "" (object (field "token" (string "abc") no_fields))

validate_transaction_iff_example :
    (validate_transaction (λ s. false) (λ t. some "2026-01-01T00:00:00Z") tx ≡ ok tt)
    ↔ IsValid (λ s. false) (λ t. some "2026-01-01T00:00:00Z") tx
validate_transaction_iff_example =
    validate_transaction_iff (λ s. false) (λ t. some "2026-01-01T00:00:00Z") tx

save_is_atomic_example :
    Ends
      (Stored platform "" (stamped platform tx 0) [] [])
      (NotStored platform "" (stamped platform tx 0) [] [])
      (save platform "" tx failing_disk)
save_is_atomic_example = save_is_atomic platform "" tx failing_disk

load-save_example :
    (load platform "" "tx-1" saved_disk).0
    ≡ ok (stamped platform tx 0, "/run/podlaz/transactions/tx-1.json")
unfolding tx save load store_path validate_transaction validate_transaction_id new_transaction
    trim_space tunwarden.State.Validate.matches_id valid_transaction_state
    tunwarden.State.Validate.contains_persistent_secret contains_secret_value
    tunwarden.State.Json.marshal_transaction tunwarden.State.Json.transaction_value
    tunwarden.State.Secret.contains_secret_text tunwarden.State.Secret.is_secret_key
    tunwarden.State.Disk.faulty tunwarden.State.Disk.next_call tunwarden.State.Disk.perform_create
    tunwarden.State.Disk.perform_write tunwarden.State.Disk.perform_rename
    tunwarden.FilePath.join_path tunwarden.State.Disk.put tunwarden.FilePath.clean
    tunwarden.Text.has_prefix tunwarden.Text.join tunwarden.FilePath.parts tunwarden.FilePath.render
    tunwarden.State.Disk.lookup tunwarden.State.Status.state_text
    tunwarden.State.Store.load_transaction_file tunwarden.State.Store.◌>>=◌ tunwarden.Text.is_space
    tunwarden.Text.split tunwarden.Text.to_lower tunwarden.Text.underscores
load-save_example =
    load-save platform "" tx disk saved_disk "/run/podlaz/transactions/tx-1.json" (λ t b h. sym h)
      refl refl
