-- ===== src/Tcp/Queue.antt =====
-- backend/TCP/include/ThreadSafeQueue.hpp (backend/WEBSOCKET/include has a copy): a queue behind a
-- mutex. Each method runs under the lock, so the threads' calls interleave as whole steps; a thread
-- that waits on the condition variable takes its step only when its condition holds.
pub mod Order
use full_stack_shinfeld.Common.{
  ℕ, ◌++◌, Bool, true, false, List, [], ◌∷◌, Option, none, some, length, is_empty, if◌then◌else◌,
}

pub record Queue {ℓ} (A : Type ℓ) : Type ℓ where
  pub items : List A
  pub closed : Bool

-- What `pop` does: it waits, or returns `std::nullopt`, or an item and the queue without it.
pub data Popped {ℓ} (A : Type ℓ) : Type ℓ where
  waits closed_and_empty : Popped A
  item : A → Queue A → Popped A

module _ {ℓ} {A : Type ℓ} where
  unfoldable pub new_queue : Queue A
  new_queue = record { items = []; closed = false }

  -- `none` is the exception "Queue is closed".
  unfoldable pub push : Queue A → A → Option (Queue A)
  push q value = if q.closed then none else some (record q { items = q.items ++ value ∷ [] })

  pop_items : Bool → List A → Popped A
  pop_items closed (x ∷ rest) = item x (record { items = rest; closed = closed })
  pop_items true [] = closed_and_empty
  pop_items false [] = waits

  unfoldable pub pop : Queue A → Popped A
  unfolding pop_items
  pop q = pop_items q.closed q.items

  try_pop_items : Bool → List A → Option (A × Queue A)
  try_pop_items closed [] = none
  try_pop_items closed (x ∷ rest) = some (x, record { items = rest; closed = closed })

  -- `none` is the result `false`.
  unfoldable pub try_pop : Queue A → Option (A × Queue A)
  unfolding try_pop_items
  try_pop q = try_pop_items q.closed q.items

  unfoldable pub close : Queue A → Queue A
  close q = record q { closed = true }

  unfoldable pub is_closed : Queue A → Bool
  is_closed q = q.closed

  unfoldable pub empty : Queue A → Bool
  empty q = is_empty q.items

  unfoldable pub size : Queue A → ℕ
  size q = length q.items
