-- ===== src/Tests/Threads.antt =====
-- A consumer that waits on an empty queue and is woken (include/sipdemo/BoundedQueue.h).
use sipdemo.Base.{ℕ, refl, false, [], ◌∷◌}
use sipdemo.Queue.{BoundedQueue, create, push, pop}
use sipdemo.Queue.Threads.{
  System, initial, Reach, no_step, then_step, producer_calls, consumer_calls, pushes, pop_waits,
  wakes_consumer,
}
use sipdemo.Queue.Fifo.{IsFifo, Reach-IsFifo}
use sipdemo.Queue.Wakeup.{IsAwake, Reach-IsAwake}

abbrev holding_seven : BoundedQueue ℕ
holding_seven = record { items = 7 ∷ []; limit = 1; is_closed = false }

-- A producer has put 7 into a queue of capacity 1 while a consumer waited, which runs again.
abbrev woken : System ℕ
woken = record {
  queue = holding_seven;
  producers = 0;
  waiting_producers = 0;
  consumers = 1;
  waiting_consumers = 0;
  notify_not_empty = 0;
  notify_not_full = 0;
  notify_all_not_empty = 0;
  notify_all_not_full = 0;
  accepted = 7 ∷ [];
  taken = [];
}

woken-Reach : Reach ℕ (initial ℕ 0) woken
unfolding initial create push pop
woken-Reach =
    let s0 = initial ℕ 0 in
    let s1 = record s0 { consumers = 1 } in
    let s2 = record s0 { consumers = 0; waiting_consumers = 1 } in
    let s3 = record s2 { producers = 1 } in
    let s4 = record s2 {
      producers = 0;
      queue = holding_seven;
      notify_not_empty = 1;
      accepted = 7 ∷ [];
    } in
    let calls : Reach ℕ (initial ℕ 0) s1 = then_step (consumer_calls s0) no_step in
    let waits : Reach ℕ (initial ℕ 0) s2 = then_step (pop_waits s1 0 refl refl) calls in
    let produces : Reach ℕ (initial ℕ 0) s3 = then_step (producer_calls s2) waits in
    let pushed : Reach ℕ (initial ℕ 0) s4 =
      then_step (pushes s3 7 0 holding_seven refl refl) produces in
    then_step (wakes_consumer s4 0 0 refl refl) pushed

Reach-IsFifo_example : IsFifo 1 woken
Reach-IsFifo_example = Reach-IsFifo 0 woken-Reach

Reach-IsAwake_example : IsAwake woken
Reach-IsAwake_example = Reach-IsAwake 0 woken-Reach
