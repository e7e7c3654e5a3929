-- ===== src/Queue.antt =====
-- include/sipdemo/BoundedQueue.h: the bounded queue between the playout and the output thread.
-- Each function is what one call does while it holds the mutex; the threads, the condition
-- variables and the notifications are the steps of Queue/Threads.antt.
pub mod Threads
pub mod Calls
pub mod Fifo
pub mod Wakeup
use sipdemo.Base.{
  ℕ, ◌+◌, Bool, true, false, not, ◌||◌, List, [], ◌∷◌, ◌++◌, Option, none, some, ltb, leb, ◌==◌,
  if◌then◌else◌, length,
}

module _ {ℓ} (A : Type ℓ) where
  pub record BoundedQueue : Type ℓ where
    pub items : List A
    pub limit : ℕ
    pub is_closed : Bool

-- What a blocking call finds when it has the mutex: its wait goes on, or it returns.
pub data Waited {ℓ} (B : Type ℓ) : Type ℓ where
  blocks : Waited B
  returns : B → Waited B

module _ {ℓ} {A : Type ℓ} where
  unfoldable pub create : ℕ → BoundedQueue A
  create capacity = record {
    items = [];
    limit = if capacity == 0 then 1 else capacity;
    is_closed = false;
  }

  unfoldable pub push : A → BoundedQueue A → Waited (Bool × BoundedQueue A)
  push x q =
      if ltb (length q.items) q.limit || q.is_closed
      then if q.is_closed
        then returns (false, q)
        else returns (true, record q { items = q.items ++ x ∷ [] })
      else blocks

  unfoldable pub try_push : A → BoundedQueue A → Bool × BoundedQueue A
  try_push x q =
      if q.is_closed || leb q.limit (length q.items)
      then (false, q)
      else (true, record q { items = q.items ++ x ∷ [] })

  pub pop_items : List A → BoundedQueue A → Waited (Option A × BoundedQueue A)
  pop_items [] q = if q.is_closed then returns (none, q) else blocks
  pop_items (x ∷ xs) q = returns (some x, record q { items = xs })

  -- `pop` waits while the queue is empty and open.
  unfoldable pub pop : BoundedQueue A → Waited (Option A × BoundedQueue A)
  unfolding pop_items
  pop q = pop_items q.items q

  pub try_pop_items : List A → BoundedQueue A → Option A × BoundedQueue A
  try_pop_items [] q = (none, q)
  try_pop_items (x ∷ xs) q = (some x, record q { items = xs })

  unfoldable pub try_pop : BoundedQueue A → Option A × BoundedQueue A
  unfolding try_pop_items
  try_pop q = try_pop_items q.items q

  unfoldable pub close : BoundedQueue A → BoundedQueue A
  close q = record q { is_closed = true }

  abbrev pub closed : BoundedQueue A → Bool
  closed q = q.is_closed

  abbrev pub size : BoundedQueue A → ℕ
  size q = length q.items

  abbrev pub capacity : BoundedQueue A → ℕ
  capacity q = q.limit
