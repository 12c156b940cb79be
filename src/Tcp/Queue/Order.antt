-- ===== src/Tcp/Queue/Order.antt =====
-- Any interleaving of the calls of producers and consumers.
use full_stack_shinfeld.Common.{
  ◌≡◌, refl, sym, ap, ◌∙◌, ◌++◌, true, List, [], ◌∷◌, some, arith, append_assoc, append-nil,
}
use full_stack_shinfeld.Tcp.Queue.{Queue, item, new_queue, push, pop, try_pop, close}

module _ {ℓ} {A : Type ℓ} where
  -- A call of one of the threads that changes the queue, with what it put in and what it took out.
  pub data Call : Queue A → List A → List A → Queue A → Type ℓ where
    pushes : (q r : Queue A) (x : A) → push q x ≡ some r → Call q (x ∷ []) [] r
    pops : (q r : Queue A) (x : A) → pop q ≡ item x r → Call q [] (x ∷ []) r
    tries : (q r : Queue A) (x : A) → try_pop q ≡ some (x, r) → Call q [] (x ∷ []) r
    closes : (q : Queue A) → Call q [] [] (close q)

  -- A run, with all that was put in and all that was taken out, oldest first.
  pub data Execution : Queue A → List A → List A → Queue A → Type ℓ where
    start : (q : Queue A) → Execution q [] [] q
    then_step :
        (q r s : Queue A) (ins outs ins' outs' more more' : List A)
        → Execution q ins outs r
        → Call r more more' s
        → ins' ≡ ins ++ more
        → outs' ≡ outs ++ more'
        → Execution q ins' outs' s

  -- One call moves items from the front, and to the back.
  step_items :
      {q r : Queue A} {ins outs : List A} → Call q ins outs r → q.items ++ ins ≡ outs ++ r.items
  unfolding push pop try_pop close
  step_items (pushes q r x e) = ground arith
  step_items (pops q r x e) = ground (arith, append-nil q.items)
  step_items (tries q r x e) = ground (arith, append-nil q.items)
  step_items (closes q) = append-nil q.items

  step_closed :
      {q r : Queue A} {ins outs : List A}
      → Call q ins outs r
      → q.closed ≡ true
      → (r.closed ≡ true) × (ins ≡ [])
  unfolding push pop try_pop close
  step_closed (pushes q r x e) h = ground arith
  step_closed (pops q r x e) h = ground arith
  step_closed (tries q r x e) h = ground arith
  step_closed (closes q) h = (refl, refl)

  run_items :
      {q r : Queue A} {ins outs : List A}
      → Execution q ins outs r
      → q.items ++ ins ≡ outs ++ r.items
  run_items (start q) = append-nil q.items
  run_items (then_step q r s ins outs ins' outs' more more' run step e e') =
      rw
        (
          e,
          e',
          ← append_assoc q.items ins more,
          run_items run,
          append_assoc outs r.items more,
          step_items step,
        )
        (sym (append_assoc outs more' s.items))

  -- In every run from the new queue, whichever threads call in whichever order, what was put in is
  -- what was taken out followed by what is still in the queue: nothing is lost, made up, doubled or
  -- overtaken.
  pub run_fifo :
      (ins outs : List A) (q : Queue A) → Execution new_queue ins outs q → ins ≡ outs ++ q.items
  unfolding new_queue
  run_fifo ins outs q run = run_items run

  stays_closed :
      {q r : Queue A} {ins outs : List A}
      → q.closed ≡ true
      → Execution q ins outs r
      → (r.closed ≡ true) × (ins ≡ [])
  stays_closed h (start q) = (h, refl)
  stays_closed h (then_step q r s ins outs ins' outs' more more' run step e e') =
      let before = stays_closed h run in
      let after = step_closed step before.0 in
      (after.0, e ∙ ap (λ (t : List A). t ++ more) before.1 ∙ after.1)

  -- After `close`, no run puts anything in, and what comes out is a first part of what was there;
  -- the queue stays closed.
  pub run_closed :
      (q r : Queue A) (ins outs : List A)
      → q.closed ≡ true
      → Execution q ins outs r
      → (ins ≡ []) × (r.closed ≡ true) × (q.items ≡ outs ++ r.items)
  run_closed q r ins outs h run =
      let (shut, nothing) = stays_closed h run in
      (
        nothing,
        shut,
        sym (append-nil q.items) ∙ ap (λ (t : List A). q.items ++ t) (sym nothing) ∙ run_items run,
      )
