-- ===== src/Queue/Wakeup.antt =====
-- No thread of include/sipdemo/BoundedQueue.h sleeps through its wakeup.
use sipdemo.Base.{
  ℕ, ◌+◌, ◌≤◌, ◌<◌, ◌≡◌, ◌⊎◌, inl, inr, refl, ap, true, false, [], ◌∷◌, arith, length,
  length-append,
}
use sipdemo.Queue.{close}
use sipdemo.Queue.Calls.{
  push-true, push-false, push_blocks, pop-some, pop-none, pop_blocks, try_push-true, try_push-false,
  try_pop-some, try_pop-none,
}
use sipdemo.Queue.Threads.{
  System, initial, Step, Reach, no_step, then_step, producer_calls, consumer_calls, pushes,
  push_refused, push_waits, pops, pop_drained, pop_waits, try_pushes, try_push_fails, try_pops,
  try_pop_fails, closes, wakes_consumer, wakes_no_consumer, wakes_producer, wakes_no_producer,
  wakes_all_consumers, wakes_all_producers, consumer_stirs, producer_stirs,
}

module _ {ℓ} {A : Type ℓ} where
  -- While a consumer waits, each queued item has a consumer that runs or a notification on its way;
  -- while a producer waits on an open queue, so has each free place. After `close` a thread waits
  -- only while its `notify_all` is on its way.
  pub record IsAwake (s : System A) : Type 0 where
    pub items_told :
        (s.waiting_consumers ≡ 0) ⊎ (length (s.queue).items ≤ s.consumers + s.notify_not_empty)
    pub places_told :
        ((s.queue).is_closed ≡ true)
        ⊎ ((s.waiting_producers ≡ 0)
            ⊎ ((s.queue).limit ≤ length (s.queue).items + (s.producers + s.notify_not_full)))
    pub consumers_freed :
        ((s.queue).is_closed ≡ false) ⊎ ((s.waiting_consumers ≡ 0) ⊎ (0 < s.notify_all_not_empty))
    pub producers_freed :
        ((s.queue).is_closed ≡ false) ⊎ ((s.waiting_producers ≡ 0) ⊎ (0 < s.notify_all_not_full))

  Step-IsAwake : {s t : System A} → Step A s t → IsAwake s → IsAwake t
  Step-IsAwake (producer_calls s) w = ground (arith, w.items_told)
  Step-IsAwake (consumer_calls s) w = ground arith
  Step-IsAwake (pushes s x n q hp e) w =
      let (open_, room, eq) = push-true x s.queue q e in
      let size = length-append (s.queue).items (x ∷ []) in rw eq (ground (arith, size))
  Step-IsAwake (try_pushes s x q e) w =
      let (open_, room, eq) = try_push-true x s.queue q e in
      let size = length-append (s.queue).items (x ∷ []) in rw eq (ground (arith, size))
  Step-IsAwake (pops s x n q hc e) w =
      let (xs, front, eq) = pop-some x s.queue q e in
      let size = ap length front in rw eq (ground (arith, size))
  Step-IsAwake (try_pops s x q e) w =
      let (xs, front, eq) = try_pop-some x s.queue q e in
      let size = ap length front in rw eq (ground (arith, size))
  Step-IsAwake (push_refused s x n q hp e) w =
      let (shut, eq) = push-false x s.queue q e in rw eq (ground arith)
  Step-IsAwake (push_waits s x n hp e) w =
      let (open_, full) = push_blocks x s.queue e in ground arith
  Step-IsAwake (pop_drained s n q hc e) w =
      let (empty, shut, eq) = pop-none s.queue q e in
      let size = ap length empty in rw eq (ground (arith, size))
  Step-IsAwake (pop_waits s n hc e) w =
      let (empty, open_) = pop_blocks s.queue e in
      let size = ap length empty in ground (arith, size)
  Step-IsAwake (try_push_fails s x q e) w = rw (try_push-false x s.queue q e) (ground arith)
  Step-IsAwake (try_pop_fails s q e) w = rw (try_pop-none s.queue q e).1 (ground arith)
  Step-IsAwake (closes s) w = unfold close in ground arith
  Step-IsAwake (wakes_consumer s n m hn hw) w = ground arith
  Step-IsAwake (wakes_no_consumer s n hn hw) w = ground arith
  Step-IsAwake (wakes_producer s n m hn hw) w = ground arith
  Step-IsAwake (wakes_no_producer s n hn hw) w = ground arith
  Step-IsAwake (wakes_all_consumers s n hn) w = ground arith
  Step-IsAwake (wakes_all_producers s n hn) w = ground arith
  Step-IsAwake (consumer_stirs s m hw) w = ground arith
  Step-IsAwake (producer_stirs s m hw) w = ground arith

  -- In every state that threads can reach from a new queue: while a consumer waits, each queued item
  -- has a consumer that is about to look or a notification on its way; while a producer waits and
  -- the queue is open, so has each free place; and once the queue is closed a thread waits only
  -- while the `notify_all` for it is on its way.
  pub Reach-IsAwake : (capacity : ℕ) {s : System A} → Reach A (initial A capacity) s → IsAwake s
  Reach-IsAwake capacity no_step =
      unfold initial in
      record {
        items_told = inl refl;
        places_told = inr (inl refl);
        consumers_freed = inl refl;
        producers_freed = inl refl;
      }
  Reach-IsAwake capacity (then_step st r) = Step-IsAwake st (Reach-IsAwake capacity r)
