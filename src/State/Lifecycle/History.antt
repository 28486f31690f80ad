-- ===== src/State/Lifecycle/History.antt =====
-- What holds of a transaction over any sequence of requested transitions.
use tunwarden.Prelude.{
  ◌≡◌, refl, sym, ap, ◌∙◌, arith, Bool, true, false, List, [], ◌∷◌, ◌⊎◌, inl, inr, if◌then◌else◌,
}
use tunwarden.State.Status.{
  TransactionState, planned, applying, applied, verifying, committed, rolling_back, rolled_back,
  failed, other, valid_transition, valid_transaction_state,
}
use tunwarden.State.Transaction.{Time, Transaction}
use tunwarden.State.Lifecycle.{transition}

-- A request: the state asked for, the time given, and the system clock.
abbrev pub Request : Type 0
Request = TransactionState × Time × Time

-- Each request in turn; a refused one is dropped by the caller and the next one follows.
unfoldable pub request_all : Transaction → List Request → Transaction
request_all tx [] = tx
request_all tx ((next, now, wall) ∷ rest) = request_all (transition tx next now wall).1 rest

-- the states of the first list are requested in this order, with others between
pub data InOrder : List TransactionState → List Request → Type 0 where
  all_seen : {requests : List Request} → InOrder [] requests
  skip :
      {wanted : List TransactionState} {r : Request} {requests : List Request}
      → InOrder wanted requests
      → InOrder wanted (r ∷ requests)
  take :
      {s : TransactionState} {wanted : List TransactionState} {now wall : Time}
      {requests : List Request}
      → InOrder wanted requests
      → InOrder (s ∷ wanted) ((s, now, wall) ∷ requests)

-- the phases that lie between a state and `committed`
phases_left : TransactionState → List TransactionState
phases_left planned = applying ∷ applied ∷ verifying ∷ committed ∷ []
phases_left applying = applied ∷ verifying ∷ committed ∷ []
phases_left applied = verifying ∷ committed ∷ []
phases_left verifying = committed ∷ []
phases_left _ = []

-- the states from which `committed` is out of reach
lost : TransactionState → Bool
lost rolling_back = true
lost rolled_back = true
lost failed = true
lost (other s) = true
lost _ = false

-- the same on states alone
after : TransactionState → TransactionState → TransactionState
after s next = if valid_transition s next then next else s

final : TransactionState → List Request → TransactionState
final s [] = s
final s ((next, now, wall) ∷ rest) = final (after s next) rest

state-transition :
    (tx : Transaction) (next : TransactionState) (now wall : Time)
    → (transition tx next now wall).1.state ≡ after tx.state next
unfolding transition after valid_transition
state-transition tx next now wall = ground arith

state-request_all :
    (tx : Transaction) (requests : List Request)
    → (request_all tx requests).state ≡ final tx.state requests
unfolding request_all final
state-request_all tx [] = refl
state-request_all tx ((next, now, wall) ∷ rest) =
    state-request_all (transition tx next now wall).1 rest
    ∙ ap (λ s. final s rest) (state-transition tx next now wall)

lost-after : (s next : TransactionState) → lost s ≡ true → lost (after s next) ≡ true
unfolding lost after valid_transition
lost-after s next h = ground arith

lost-final :
    (s : TransactionState) (requests : List Request)
    → lost s ≡ true
    → lost (final s requests) ≡ true
unfolding final
lost-final s [] h = h
lost-final s ((next, now, wall) ∷ rest) h = lost-final (after s next) rest (lost-after s next h)

-- a step stays, loses `committed` for good, or takes the next phase
step_cases :
    (s next : TransactionState)
    → (after s next ≡ s)
      ⊎ (lost (after s next) ≡ true)
      ⊎ (phases_left s ≡ next ∷ phases_left (after s next))
unfolding lost after valid_transition phases_left
step_cases s next = ground arith

final-InOrder :
    (s : TransactionState) (requests : List Request)
    → final s requests ≡ committed
    → InOrder (phases_left s) requests
unfolding final
final-InOrder s [] h = rw h (unfold phases_left in all_seen)
final-InOrder s ((next, now, wall) ∷ rest) h = elim (step_cases s next) [
  | inl stays ↦ skip (final-InOrder s rest (rw stays at h))
  | inr (inl gone) ↦ absurd (unfold lost in cc (h, lost-final (after s next) rest gone))
  | inr (inr phase) ↦ rw phase (take (final-InOrder (after s next) rest h))
]

-- A planned transaction that any requests bring to `committed` was asked for `applying`, `applied`,
-- `verifying` and `committed`, in this order, whatever was asked for between them.
pub committed-InOrder :
    (tx : Transaction) (requests : List Request)
    → tx.state ≡ planned
    → (request_all tx requests).state ≡ committed
    → InOrder (applying ∷ applied ∷ verifying ∷ committed ∷ []) requests
committed-InOrder tx requests p h =
    unfold phases_left in
    (rw p at (final-InOrder tx.state requests (sym (state-request_all tx requests) ∙ h)))

transition_of_rolled_back :
    (tx : Transaction) (next : TransactionState) (now wall : Time)
    → tx.state ≡ rolled_back
    → (transition tx next now wall).1 ≡ tx
unfolding transition valid_transition
transition_of_rolled_back tx next now wall h = ground arith

-- A rolled back transaction stays exactly as it is, whatever is requested.
pub rolled_back_is_final :
    (tx : Transaction) (requests : List Request)
    → tx.state ≡ rolled_back
    → request_all tx requests ≡ tx
unfolding request_all
rolled_back_is_final tx [] h = refl
rolled_back_is_final tx ((next, now, wall) ∷ rest) h =
    rw (transition_of_rolled_back tx next now wall h) (rolled_back_is_final tx rest h)

-- From every known state two requests, `rolling_back` and then `rolled_back`, end a transaction in
-- `rolled_back`: no known state is a dead end for a rollback.
pub rollback_reachable :
    (tx : Transaction) (now wall : Time)
    → valid_transaction_state tx.state ≡ true
    → (request_all tx ((rolling_back, now, wall) ∷ (rolled_back, now, wall) ∷ [])).state
      ≡ rolled_back
unfolding request_all transition valid_transition
rollback_reachable tx now wall h = ground arith
