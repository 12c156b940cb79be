-- ===== src/Examples/Queues.antt =====
-- Runs of the queue at concrete inputs.
use full_stack_shinfeld.Common.{ℕ, ◌≡◌, refl, List, [], ◌∷◌, ◌++◌, Bool, true, false, some}
use full_stack_shinfeld.Tcp.Queue.{Queue, item, new_queue, push, pop, try_pop}
use full_stack_shinfeld.Tcp.Queue.Order.{
  pushes, pops, tries, Execution, start, then_step, run_fifo, run_closed,
}

abbrev queue_of : List ℕ → Bool → Queue ℕ
queue_of items closed = record { items = items; closed = closed }

first_push : push new_queue 1 ≡ some (queue_of (1 ∷ []) false)
unfolding push new_queue
first_push = refl

second_push : push (queue_of (1 ∷ []) false) 2 ≡ some (queue_of (1 ∷ 2 ∷ []) false)
unfolding push
second_push = refl

then_pop : pop (queue_of (1 ∷ 2 ∷ []) false) ≡ item 1 (queue_of (2 ∷ []) false)
unfolding pop
then_pop = refl

short_run : Execution new_queue (1 ∷ 2 ∷ []) (1 ∷ []) (queue_of (2 ∷ []) false)
short_run =
    then_step new_queue (queue_of (1 ∷ 2 ∷ []) false) (queue_of (2 ∷ []) false) (1 ∷ 2 ∷ []) [] _ _
      [] (1 ∷ [])
      (then_step new_queue (queue_of (1 ∷ []) false) (queue_of (1 ∷ 2 ∷ []) false) (1 ∷ []) [] _ _
        (2 ∷ []) []
        (then_step new_queue new_queue (queue_of (1 ∷ []) false) [] [] _ _ (1 ∷ []) []
          (start new_queue) (pushes new_queue (queue_of (1 ∷ []) false) 1 first_push) refl refl)
        (pushes (queue_of (1 ∷ []) false) (queue_of (1 ∷ 2 ∷ []) false) 2 second_push) refl refl)
      (pops (queue_of (1 ∷ 2 ∷ []) false) (queue_of (2 ∷ []) false) 1 then_pop) refl refl

run_fifo_example : ◌≡◌ {A = List ℕ} (1 ∷ 2 ∷ []) ((1 ∷ []) ++ 2 ∷ [])
run_fifo_example = run_fifo (1 ∷ 2 ∷ []) (1 ∷ []) (queue_of (2 ∷ []) false) short_run

then_try : try_pop (queue_of (7 ∷ []) true) ≡ some (7, queue_of [] true)
unfolding try_pop
then_try = refl

draining_run : Execution (queue_of (7 ∷ []) true) [] (7 ∷ []) (queue_of [] true)
draining_run =
    then_step (queue_of (7 ∷ []) true) (queue_of (7 ∷ []) true) (queue_of [] true) [] [] _ _ []
      (7 ∷ []) (start (queue_of (7 ∷ []) true))
      (tries (queue_of (7 ∷ []) true) (queue_of [] true) 7 then_try) refl refl

run_closed_example :
    ◌≡◌ {A = List ℕ} [] [] × ◌≡◌ {A = Bool} true true × ◌≡◌ {A = List ℕ} (7 ∷ []) ((7 ∷ []) ++ [])
run_closed_example =
    run_closed (queue_of (7 ∷ []) true) (queue_of [] true) [] (7 ∷ []) refl draining_run
