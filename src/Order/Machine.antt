-- ===== src/Order/Machine.antt =====
-- The life of an order as a state machine: the step relation of its transitions, what every
-- reachable order satisfies, and which transitions leave a finished order alone.
use cipher_trader.Prelude.{ℕ, true, ◌||◌, ◌≡◌, refl, List, [], ◌∷◌, Option, none, some, Text, arith}
use cipher_trader.Enums.{
  OrderStatus, active, canceled, executed, partially_filled, queued, liquidated, rejected,
}
use cipher_trader.Order.{
  Order, is_canceled, is_executed, is_queued, queue_it, resubmit, cancel, execute,
  execute_partially,
}

-- What the time stamps (of the execution, of the cancellation) are for each status
abbrev Stamps : OrderStatus → Option ℕ → Option ℕ → Type 0
Stamps active e c = c ≡ none
Stamps queued e c = c ≡ none
Stamps canceled e c = (t : ℕ) × (c ≡ some t)
Stamps executed e c = (t : ℕ) × (e ≡ some t)
Stamps partially_filled e c = (t : ℕ) × (e ≡ some t)
Stamps liquidated e c = ⊥
Stamps rejected e c = ⊥

-- The same for an order that was never filled in part
abbrev Settled : OrderStatus → Option ℕ → Option ℕ → Type 0
Settled active e c = (e ≡ none) × (c ≡ none)
Settled queued e c = (e ≡ none) × (c ≡ none)
Settled canceled e c = (e ≡ none) × ((t : ℕ) × (c ≡ some t))
Settled executed e c = ((t : ℕ) × (e ≡ some t)) × (c ≡ none)
Settled partially_filled e c = ⊥
Settled liquidated e c = ⊥
Settled rejected e c = ⊥

abbrev IsOpen : OrderStatus → Type 0
IsOpen active = Unit
IsOpen queued = Unit
IsOpen _ = ⊥

-- A call of one of the transitions that check the status
pub data Call : Type 0 where
  call_resubmit : Text → Call
  call_cancel : ℕ → Text → Call
  call_execute : ℕ → Call

module _ {D : Type 0} where
  -- An order as it is created for an exchange
  abbrev pub IsFresh : Order D → Type 0
  IsFresh o = IsOpen o.status × (o.executed_at ≡ none) × (o.canceled_at ≡ none)

  abbrev pub HasStamps : Order D → Type 0
  HasStamps o = Stamps o.status o.executed_at o.canceled_at

  abbrev pub IsSettled : Order D → Type 0
  IsSettled o = Settled o.status o.executed_at o.canceled_at

  -- One call of a transition, by any part of the program at any time
  pub data Step : Order D → Order D → Type 0 where
    by_queue_it : (o : Order D) → Step o (queue_it o)
    by_resubmit : (id : Text) (o : Order D) → Step o (resubmit id o).1
    by_cancel : (now : ℕ) (source : Text) (o : Order D) → Step o (cancel now source o)
    by_execute : (now : ℕ) (o : Order D) → Step o (execute now o)
    by_execute_partially : (now : ℕ) (o : Order D) → Step o (execute_partially now o)

  pub data Reach (s : Order D) : Order D → Type 0 where
    here : Reach s s
    next : {o o' : Order D} → Reach s o → Step o o' → Reach s o'

  Step-HasStamps : {o o' : Order D} → Step o o' → HasStamps o → HasStamps o'
  unfolding queue_it resubmit cancel execute execute_partially is_queued is_canceled is_executed
  Step-HasStamps (by_queue_it o) h = refl
  Step-HasStamps (by_resubmit id o) h = ground (arith, h)
  Step-HasStamps (by_cancel now source o) h = ground (arith, h)
  Step-HasStamps (by_execute now o) h = ground (arith, h)
  Step-HasStamps (by_execute_partially now o) h = (now, refl)

  fresh-HasStamps : (o : Order D) → IsFresh o → HasStamps o
  fresh-HasStamps o h = ground (arith, h)

  -- Whatever transitions a new order goes through, in any order: an executed or partially filled
  -- order has the time of its execution, a canceled one has the time of its cancellation, an active
  -- or queued one has no time of a cancellation, and it is never liquidated or rejected.
  pub reachable-HasStamps : (o o' : Order D) → IsFresh o → Reach o o' → HasStamps o'
  reachable-HasStamps o o' f here = fresh-HasStamps o f
  reachable-HasStamps o o' f (next r s) = Step-HasStamps s (reachable-HasStamps o _ f r)

  unfoldable pub apply : Call → Order D → Order D
  unfolding resubmit cancel execute
  apply (call_resubmit id) o = (resubmit id o).1
  apply (call_cancel now source) o = cancel now source o
  apply (call_execute now) o = execute now o

  unfoldable pub run : List Call → Order D → Order D
  unfolding apply
  run [] o = o
  run (c ∷ cs) o = run cs (apply c o)

  apply_finished : (c : Call) (o : Order D) → is_canceled o || is_executed o ≡ true → apply c o ≡ o
  unfolding apply resubmit cancel execute is_queued is_canceled is_executed
  apply_finished (call_resubmit id) o h = ground (arith, h)
  apply_finished (call_cancel now source) o h = ground (arith, h)
  apply_finished (call_execute now) o h = ground (arith, h)

  -- A canceled or executed order is left as it is by every sequence of cancellations, executions
  -- and resubmissions.
  pub finished_stays :
      (calls : List Call) (o : Order D) → is_canceled o || is_executed o ≡ true → run calls o ≡ o
  unfolding run
  finished_stays [] o h = refl
  finished_stays (c ∷ cs) o h = rw (apply_finished c o h) (finished_stays cs o h)

  apply-IsSettled : (c : Call) (o : Order D) → IsSettled o → IsSettled (apply c o)
  unfolding apply resubmit cancel execute is_queued is_canceled is_executed
  apply-IsSettled (call_resubmit id) o h = ground (arith, h)
  apply-IsSettled (call_cancel now source) o h = ground (arith, h)
  apply-IsSettled (call_execute now) o h = ground (arith, h)

  run-IsSettled : (cs : List Call) (o : Order D) → IsSettled o → IsSettled (run cs o)
  unfolding run
  run-IsSettled [] o h = h
  run-IsSettled (c ∷ cs) o h = run-IsSettled cs (apply c o) (apply-IsSettled c o h)

  -- A new order that is never filled in part is executed or canceled at most once: after every
  -- sequence of cancellations, executions and resubmissions it is executed with a time of execution
  -- alone, or canceled with a time of cancellation alone, or still active or queued with neither.
  pub one_ending : (calls : List Call) (o : Order D) → IsFresh o → IsSettled (run calls o)
  one_ending calls o f = run-IsSettled calls o (ground (arith, f))
