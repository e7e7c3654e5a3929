-- ===== src/Queue/Calls.antt =====
-- What the result of each call of include/sipdemo/BoundedQueue.h says of the queue before and
-- after it.
use sipdemo.Base.{
  Bool-cases, if◌then◌else◌, ap, ◌∙◌, ◌⊎◌, inl, inr, ◌≤◌, ◌<◌, ◌≡◌, refl, true, false, List, [],
  ◌∷◌, ◌++◌, none, some, arith, length,
}
use sipdemo.Queue.{
  BoundedQueue, blocks, returns, push, try_push, pop, try_pop, pop_items, try_pop_items,
}

module _ {ℓ} {A : Type ℓ} where
  pub push-true :
      (x : A) (q r : BoundedQueue A)
      → push x q ≡ returns (true, r)
      → (q.is_closed ≡ false)
        × (length q.items < q.limit)
        × (r ≡ record q { items = q.items ++ x ∷ [] })
  unfolding push
  push-true x q r h = ground arith

  pub push-false :
      (x : A) (q r : BoundedQueue A)
      → push x q ≡ returns (false, r)
      → (q.is_closed ≡ true) × (r ≡ q)
  unfolding push
  push-false x q r h = ground arith

  pub push_blocks :
      (x : A) (q : BoundedQueue A)
      → push x q ≡ blocks
      → (q.is_closed ≡ false) × (q.limit ≤ length q.items)
  unfolding push
  push_blocks x q h = ground arith

  pop_items-some :
      (is : List A) (x : A) (q r : BoundedQueue A)
      → pop_items is q ≡ returns (some x, r)
      → (xs : List A) × (is ≡ x ∷ xs) × (r ≡ record q { items = xs })
  unfolding pop_items
  pop_items-some [] x q r h = ground arith
  pop_items-some (y ∷ xs) x q r h = (xs, ground arith, ground arith)

  pub pop-some :
      (x : A) (q r : BoundedQueue A)
      → pop q ≡ returns (some x, r)
      → (xs : List A) × (q.items ≡ x ∷ xs) × (r ≡ record q { items = xs })
  pop-some x q r h = unfold pop in pop_items-some q.items x q r h

  pop_items-none :
      (is : List A) (q r : BoundedQueue A)
      → pop_items is q ≡ returns (none, r)
      → (is ≡ []) × (q.is_closed ≡ true) × (r ≡ q)
  unfolding pop_items
  pop_items-none [] q r h = (refl, ground arith, ground arith)
  pop_items-none (y ∷ xs) q r h = ground arith

  pub pop-none :
      (q r : BoundedQueue A)
      → pop q ≡ returns (none, r)
      → (q.items ≡ []) × (q.is_closed ≡ true) × (r ≡ q)
  pop-none q r h = unfold pop in pop_items-none q.items q r h

  pop_items_blocks :
      (is : List A) (q : BoundedQueue A)
      → pop_items is q ≡ blocks
      → (is ≡ []) × (q.is_closed ≡ false)
  unfolding pop_items
  pop_items_blocks [] q h = (refl, ground arith)
  pop_items_blocks (y ∷ xs) q h = cc

  pub pop_blocks : (q : BoundedQueue A) → pop q ≡ blocks → (q.items ≡ []) × (q.is_closed ≡ false)
  pop_blocks q h = unfold pop in pop_items_blocks q.items q h

  pub try_push-true :
      (x : A) (q r : BoundedQueue A)
      → try_push x q ≡ (true, r)
      → (q.is_closed ≡ false)
        × (length q.items < q.limit)
        × (r ≡ record q { items = q.items ++ x ∷ [] })
  unfolding try_push
  try_push-true x q r h = ground arith

  pub try_push-false : (x : A) (q r : BoundedQueue A) → try_push x q ≡ (false, r) → r ≡ q
  unfolding try_push
  try_push-false x q r h = ground arith

  try_pop_items-some :
      (is : List A) (x : A) (q r : BoundedQueue A)
      → try_pop_items is q ≡ (some x, r)
      → (xs : List A) × (is ≡ x ∷ xs) × (r ≡ record q { items = xs })
  unfolding try_pop_items
  try_pop_items-some [] x q r h = ground arith
  try_pop_items-some (y ∷ xs) x q r h = (xs, ground arith, ground arith)

  pub try_pop-some :
      (x : A) (q r : BoundedQueue A)
      → try_pop q ≡ (some x, r)
      → (xs : List A) × (q.items ≡ x ∷ xs) × (r ≡ record q { items = xs })
  try_pop-some x q r h = unfold try_pop in try_pop_items-some q.items x q r h

  try_pop_items-none :
      (is : List A) (q r : BoundedQueue A) → try_pop_items is q ≡ (none, r) → (is ≡ []) × (r ≡ q)
  unfolding try_pop_items
  try_pop_items-none [] q r h = (refl, ground arith)
  try_pop_items-none (y ∷ xs) q r h = ground arith

  pub try_pop-none : (q r : BoundedQueue A) → try_pop q ≡ (none, r) → (q.items ≡ []) × (r ≡ q)
  try_pop-none q r h = unfold try_pop in try_pop_items-none q.items q r h

  -- What a call finds: an empty queue, or its first item.
  pub data PopCase (q : BoundedQueue A) : Type ℓ where
    waits : q.items ≡ [] → pop q ≡ blocks → PopCase q
    ends : q.items ≡ [] → pop q ≡ returns (none, q) → PopCase q
    takes :
        (x : A) (xs : List A)
        → q.items ≡ x ∷ xs
        → pop q ≡ returns (some x, record q { items = xs })
        → PopCase q

  pop_items-PopCase :
      (is : List A) (q : BoundedQueue A) → q.items ≡ is → pop q ≡ pop_items is q → PopCase q
  unfolding pop_items
  pop_items-PopCase [] q e r = elim (Bool-cases q.is_closed) [
    | inl shut ↦ ends e (r ∙ ap (λ b. if b then returns (none, q) else blocks) shut)
    | inr open_ ↦ waits e (r ∙ ap (λ b. if b then returns (none, q) else blocks) open_)
  ]
  pop_items-PopCase (x ∷ xs) q e r = takes x xs e r

  pub pop-PopCase : (q : BoundedQueue A) → PopCase q
  pop-PopCase q = pop_items-PopCase q.items q refl (unfold pop in refl)

  pub try_push_cases :
      (x : A) (q : BoundedQueue A)
      → ((try_push x q).1.items ≡ q.items ++ x ∷ []) ⊎ ((try_push x q).1 ≡ q)
  unfolding try_push
  try_push_cases x q = ground arith
