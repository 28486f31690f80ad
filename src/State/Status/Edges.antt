-- ===== src/State/Status/Edges.antt =====
-- The transition diagram as a relation, and that `validTransition` decides it.
use tunwarden.Prelude.{◌≡◌, refl, ◌↔◌, true, arith, eq_iff}
use tunwarden.State.Status.{
  TransactionState, planned, applying, applied, verifying, committed, rolling_back, rolled_back,
  failed, other, valid_transition, valid_transaction_state, same_state,
}

-- the states of a transaction that has not been given up
pub data InProgress : TransactionState → Type 0 where
  on_planned : InProgress planned
  on_applying : InProgress applying
  on_applied : InProgress applied
  on_verifying : InProgress verifying
  on_committed : InProgress committed

-- the next phase of the happy path
pub data NextPhase : TransactionState → TransactionState → Type 0 where
  start : NextPhase planned applying
  applies : NextPhase applying applied
  verify : NextPhase applied verifying
  commit : NextPhase verifying committed

pub data Edge : TransactionState → TransactionState → Type 0 where
  stay : {s : TransactionState} → valid_transaction_state s ≡ true → Edge s s
  advance : {s t : TransactionState} → NextPhase s t → Edge s t
  give_up : {s : TransactionState} → InProgress s → Edge s rolling_back
  break : {s : TransactionState} → InProgress s → Edge s failed
  finish : Edge rolling_back rolled_back
  break_rollback : Edge rolling_back failed
  retry : Edge failed rolling_back

ruleset phases = (start, applies, verify, commit)

ruleset live = (on_planned, on_applying, on_applied, on_verifying, on_committed)

same_state_refl : (s : TransactionState) → same_state s s ≡ true
same_state_refl planned = refl
same_state_refl (TransactionState.other s) = (eq_iff s s).1 refl
same_state_refl _ = refl

ruleset edges = (phases, live, stay, advance, give_up, break, finish, break_rollback, retry)

valid_transition→Edge :
    (from to : TransactionState) → valid_transition from to ≡ true → Edge from to
unfolding valid_transition
valid_transition→Edge planned to h = grind (arith, edges)
valid_transition→Edge applying to h = grind (arith, edges)
valid_transition→Edge applied to h = grind (arith, edges)
valid_transition→Edge verifying to h = grind (arith, edges)
valid_transition→Edge committed to h = grind (arith, edges)
valid_transition→Edge rolling_back to h = grind (arith, edges)
valid_transition→Edge rolled_back to h = grind (arith, edges)
valid_transition→Edge failed to h = grind (arith, edges)
valid_transition→Edge (other s) (other t) h = ground arith
valid_transition→Edge (other s) to h = ground arith

Edge→valid_transition :
    {from to : TransactionState} → Edge from to → valid_transition from to ≡ true
unfolding valid_transition
Edge→valid_transition (stay {s = s} v) = rw (same_state_refl s) v
Edge→valid_transition (advance start) = refl
Edge→valid_transition (advance applies) = refl
Edge→valid_transition (advance verify) = refl
Edge→valid_transition (advance commit) = refl
Edge→valid_transition (give_up on_planned) = refl
Edge→valid_transition (give_up _) = refl
Edge→valid_transition (break on_planned) = refl
Edge→valid_transition (break _) = refl
Edge→valid_transition finish = refl
Edge→valid_transition break_rollback = refl
Edge→valid_transition retry = refl

-- `validTransition` accepts exactly the edges of the diagram: staying in a known state, the next
-- phase, giving up or failing from a phase in progress, and the three steps of a rollback.
pub valid_transition_iff :
    (from to : TransactionState) → (valid_transition from to ≡ true) ↔ Edge from to
valid_transition_iff from to = (valid_transition→Edge from to, Edge→valid_transition)
