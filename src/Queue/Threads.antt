-- ===== src/Queue/Threads.antt =====
-- The threads that use include/sipdemo/BoundedQueue.h, as steps. Any number of producers and
-- consumers run, or wait on a condition variable; a notification is a step of its own, since
-- `push`, `pop` and `close` send it after they have released the mutex.
use sipdemo.Base.{ℕ, suc, ◌+◌, ◌≡◌, true, false, List, [], ◌∷◌, ◌++◌, none, some}
use sipdemo.Queue.{BoundedQueue, blocks, returns, create, push, try_push, pop, try_pop, close}

module _ {ℓ} (A : Type ℓ) where
  -- `accepted` and `taken` are the items that went in and came out, in order.
  pub record System : Type ℓ where
    pub queue : BoundedQueue A
    pub producers : ℕ
    pub waiting_producers : ℕ
    pub consumers : ℕ
    pub waiting_consumers : ℕ
    pub notify_not_empty : ℕ
    pub notify_not_full : ℕ
    pub notify_all_not_empty : ℕ
    pub notify_all_not_full : ℕ
    pub accepted : List A
    pub taken : List A

  unfoldable pub initial : ℕ → System
  unfolding create
  initial n = record {
    queue = create n;
    producers = 0;
    waiting_producers = 0;
    consumers = 0;
    waiting_consumers = 0;
    notify_not_empty = 0;
    notify_not_full = 0;
    notify_all_not_empty = 0;
    notify_all_not_full = 0;
    accepted = [];
    taken = [];
  }

  pub data Step : System → System → Type ℓ where
    producer_calls : (s : System) → Step s (record s { producers = s.producers + 1 })
    consumer_calls : (s : System) → Step s (record s { consumers = s.consumers + 1 })
    pushes :
        (s : System) (x : A) (n : ℕ) (q : BoundedQueue A)
        → s.producers ≡ suc n
        → push x s.queue ≡ returns (true, q)
        → Step s (record s {
          queue = q;
          producers = n;
          notify_not_empty = s.notify_not_empty + 1;
          accepted = s.accepted ++ x ∷ [];
        })
    push_refused :
        (s : System) (x : A) (n : ℕ) (q : BoundedQueue A)
        → s.producers ≡ suc n
        → push x s.queue ≡ returns (false, q)
        → Step s (record s { queue = q; producers = n })
    push_waits :
        (s : System) (x : A) (n : ℕ)
        → s.producers ≡ suc n
        → push x s.queue ≡ blocks
        → Step s (record s { producers = n; waiting_producers = s.waiting_producers + 1 })
    pops :
        (s : System) (x : A) (n : ℕ) (q : BoundedQueue A)
        → s.consumers ≡ suc n
        → pop s.queue ≡ returns (some x, q)
        → Step s (record s {
          queue = q;
          consumers = n;
          notify_not_full = s.notify_not_full + 1;
          taken = s.taken ++ x ∷ [];
        })
    pop_drained :
        (s : System) (n : ℕ) (q : BoundedQueue A)
        → s.consumers ≡ suc n
        → pop s.queue ≡ returns (none, q)
        → Step s (record s { queue = q; consumers = n })
    pop_waits :
        (s : System) (n : ℕ)
        → s.consumers ≡ suc n
        → pop s.queue ≡ blocks
        → Step s (record s { consumers = n; waiting_consumers = s.waiting_consumers + 1 })
    try_pushes :
        (s : System) (x : A) (q : BoundedQueue A)
        → try_push x s.queue ≡ (true, q)
        → Step s (record s {
          queue = q;
          notify_not_empty = s.notify_not_empty + 1;
          accepted = s.accepted ++ x ∷ [];
        })
    try_push_fails :
        (s : System) (x : A) (q : BoundedQueue A)
        → try_push x s.queue ≡ (false, q)
        → Step s (record s { queue = q })
    try_pops :
        (s : System) (x : A) (q : BoundedQueue A)
        → try_pop s.queue ≡ (some x, q)
        → Step s (record s {
          queue = q;
          notify_not_full = s.notify_not_full + 1;
          taken = s.taken ++ x ∷ [];
        })
    try_pop_fails :
        (s : System) (q : BoundedQueue A)
        → try_pop s.queue ≡ (none, q)
        → Step s (record s { queue = q })
    closes :
        (s : System)
        → Step s (record s {
          queue = close s.queue;
          notify_all_not_empty = s.notify_all_not_empty + 1;
          notify_all_not_full = s.notify_all_not_full + 1;
        })
    wakes_consumer :
        (s : System) (n m : ℕ)
        → s.notify_not_empty ≡ suc n
        → s.waiting_consumers ≡ suc m
        → Step s
            (record s { notify_not_empty = n; waiting_consumers = m; consumers = s.consumers + 1 })
    wakes_no_consumer :
        (s : System) (n : ℕ)
        → s.notify_not_empty ≡ suc n
        → s.waiting_consumers ≡ 0
        → Step s (record s { notify_not_empty = n })
    wakes_producer :
        (s : System) (n m : ℕ)
        → s.notify_not_full ≡ suc n
        → s.waiting_producers ≡ suc m
        → Step s
            (record s { notify_not_full = n; waiting_producers = m; producers = s.producers + 1 })
    wakes_no_producer :
        (s : System) (n : ℕ)
        → s.notify_not_full ≡ suc n
        → s.waiting_producers ≡ 0
        → Step s (record s { notify_not_full = n })
    wakes_all_consumers :
        (s : System) (n : ℕ)
        → s.notify_all_not_empty ≡ suc n
        → Step s (record s {
          notify_all_not_empty = n;
          consumers = s.consumers + s.waiting_consumers;
          waiting_consumers = 0;
        })
    wakes_all_producers :
        (s : System) (n : ℕ)
        → s.notify_all_not_full ≡ suc n
        → Step s (record s {
          notify_all_not_full = n;
          producers = s.producers + s.waiting_producers;
          waiting_producers = 0;
        })
    -- A waiting thread may also wake for no reason.
    consumer_stirs :
        (s : System) (m : ℕ)
        → s.waiting_consumers ≡ suc m
        → Step s (record s { waiting_consumers = m; consumers = s.consumers + 1 })
    producer_stirs :
        (s : System) (m : ℕ)
        → s.waiting_producers ≡ suc m
        → Step s (record s { waiting_producers = m; producers = s.producers + 1 })

  pub data Reach (s : System) : System → Type ℓ where
    no_step : Reach s s
    then_step : {before after : System} → Step before after → Reach s before → Reach s after
