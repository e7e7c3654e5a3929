-- ===== src/Queue/Fifo.antt =====
-- The queue of include/sipdemo/BoundedQueue.h is a bounded FIFO, whatever its threads do.
use mathlib.Core.List.{append_assoc}
use sipdemo.Base.{
  ℕ, ◌≤◌, ◌≡◌, refl, sym, ap, ◌∙◌, List, [], ◌∷◌, ◌++◌, arith, if◌then◌else◌, ◌==◌, length,
  length-append,
}
use sipdemo.Queue.{close}
use sipdemo.Queue.Calls.{
  push-true, push-false, pop-some, pop-none, try_push-true, try_push-false, try_pop-some,
  try_pop-none,
}
use sipdemo.Queue.Threads.{
  System, initial, Step, Reach, no_step, then_step, pushes, push_refused, pops, pop_drained,
  try_pushes, try_push_fails, try_pops, try_pop_fails, closes,
}

module _ {ℓ} {A : Type ℓ} where
  -- What came out and what is still queued is what went in, in order; and the queue is bounded.
  pub record IsFifo (limit : ℕ) (s : System A) : Type ℓ where
    pub in_order : s.accepted ≡ s.taken ++ (s.queue).items
    pub within : length (s.queue).items ≤ limit
    pub same_limit : (s.queue).limit ≡ limit

  -- An item that goes in, and one that comes out.
  add-IsFifo :
      (limit : ℕ) (acc tk items : List A) (x : A)
      → acc ≡ tk ++ items
      → acc ++ x ∷ [] ≡ tk ++ (items ++ x ∷ [])
  add-IsFifo limit acc tk items x e = rw e (append_assoc tk items (x ∷ []))

  take-IsFifo :
      (acc tk items xs : List A) (x : A)
      → acc ≡ tk ++ items
      → items ≡ x ∷ xs
      → acc ≡ (tk ++ x ∷ []) ++ xs
  take-IsFifo acc tk items xs x e h = e ∙ (ap (◌++◌ tk) h ∙ sym (append_assoc tk (x ∷ []) xs))

  Step-IsFifo : {limit : ℕ} {s t : System A} → Step A s t → IsFifo limit s → IsFifo limit t
  Step-IsFifo {limit} (pushes s x n q hp e) f =
      let (_, room, eq) = push-true x s.queue q e in
      let size = length-append (s.queue).items (x ∷ []) in
      rw eq (record {
        in_order = add-IsFifo limit s.accepted s.taken (s.queue).items x f.in_order;
        within = omega (arith, room, f.same_limit, size);
        same_limit = f.same_limit;
      })
  Step-IsFifo {limit} (try_pushes s x q e) f =
      let (_, room, eq) = try_push-true x s.queue q e in
      let size = length-append (s.queue).items (x ∷ []) in
      rw eq (record {
        in_order = add-IsFifo limit s.accepted s.taken (s.queue).items x f.in_order;
        within = omega (arith, room, f.same_limit, size);
        same_limit = f.same_limit;
      })
  Step-IsFifo (pops s x n q hc e) f =
      let (xs, front, eq) = pop-some x s.queue q e in
      rw eq (record {
        in_order = take-IsFifo s.accepted s.taken (s.queue).items xs x f.in_order front;
        within = omega (arith, f.within, ap length front);
        same_limit = f.same_limit;
      })
  Step-IsFifo (try_pops s x q e) f =
      let (xs, front, eq) = try_pop-some x s.queue q e in
      rw eq (record {
        in_order = take-IsFifo s.accepted s.taken (s.queue).items xs x f.in_order front;
        within = omega (arith, f.within, ap length front);
        same_limit = f.same_limit;
      })
  Step-IsFifo (push_refused s x n q hp e) f =
      rw (push-false x s.queue q e).1
        (record { in_order = f.in_order; within = f.within; same_limit = f.same_limit })
  Step-IsFifo (pop_drained s n q hc e) f =
      rw (pop-none s.queue q e).2
        (record { in_order = f.in_order; within = f.within; same_limit = f.same_limit })
  Step-IsFifo (try_push_fails s x q e) f =
      rw (try_push-false x s.queue q e)
        (record { in_order = f.in_order; within = f.within; same_limit = f.same_limit })
  Step-IsFifo (try_pop_fails s q e) f =
      rw (try_pop-none s.queue q e).1
        (record { in_order = f.in_order; within = f.within; same_limit = f.same_limit })
  Step-IsFifo (closes s) f =
      unfold close in record { in_order = f.in_order; within = f.within; same_limit = f.same_limit }
  Step-IsFifo _ f = record { in_order = f.in_order; within = f.within; same_limit = f.same_limit }

  -- In every state that any number of producers, consumers and closers can reach from a new queue:
  -- the items taken, followed by those queued, are the items accepted in their order, and the queue
  -- holds at most its capacity, which is 1 where 0 was asked for.
  pub Reach-IsFifo :
      (capacity : ℕ) {s : System A}
      → Reach A (initial A capacity) s
      → IsFifo (if capacity == 0 then 1 else capacity) s
  Reach-IsFifo capacity no_step =
      unfold initial in record { in_order = refl; within = omega arith; same_limit = refl }
  Reach-IsFifo capacity (then_step st r) = Step-IsFifo st (Reach-IsFifo capacity r)
