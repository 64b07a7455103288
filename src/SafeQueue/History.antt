-- ===== src/SafeQueue/History.antt =====
-- Any sequence of calls, from any threads: first in, first out, nothing lost, and never more than
-- the capacity.
use handy.Base.{
  ℕ, ◌≤◌, ◌≡◌, ◌⊎◌, inl, inr, refl, sym, ap, ◌∙◌, subst, Bool, true, false, not, ◌&&◌, ◌||◌, Option,
  none, some, List, [], ◌∷◌, ◌++◌, append_assoc, arith, leb, ◌==◌, if◌then◌else◌, ==_iff,
  Bool-cases, if_cases, length, length-append,
}
use handy.SafeQueue.{
  SafeQueue, new_queue, is_empty, exit_queue, push, Wait, wait_infinite, wait_ms, may_return,
  pop_items, pop_ready, pop_wait,
}

pub data Call {ℓ} (A : Type ℓ) : Type ℓ where
  pushes : A → Call A
  pops : Wait → Bool → Call A
  exits : Call A

-- The queue, and the items that were taken in and handed out so far.
pub record Trace {ℓ} (A : Type ℓ) : Type ℓ where
  pub queue : SafeQueue A
  pub accepted : List A
  pub handed : List A

pub record IsOrderly {ℓ} {A : Type ℓ} (t : Trace A) : Type ℓ where
  pub fifo : t.accepted ≡ t.handed ++ t.queue.items
  pub bounded : (t.queue.capacity ≡ 0) ⊎ (length t.queue.items ≤ t.queue.capacity)

module _ {ℓ} {A : Type ℓ} where
  unfoldable pub after_push : Trace A → A → SafeQueue A × Bool → Trace A
  after_push t v (q, true) = record t { queue = q; accepted = t.accepted ++ v ∷ [] }
  after_push t v (q, false) = record t { queue = q }

  unfoldable pub after_pop : Trace A → Option (Option A × SafeQueue A) → Option (Trace A)
  after_pop t none = none
  after_pop t (some (none, q)) = some (record t { queue = q })
  after_pop t (some (some v, q)) = some (record t { queue = q; handed = t.handed ++ v ∷ [] })

  -- `none` where the call would still be waiting.
  pub step : Trace A → Call A → Option (Trace A)
  step t (pushes v) = some (after_push t v (push t.queue v))
  step t (pops wait timed_out) = after_pop t (pop_wait t.queue wait timed_out)
  step t exits = some (record t { queue = exit_queue t.queue })

  unfoldable pub run : Trace A → List (Call A) → Option (Trace A)
  unfolding step
  run t [] = some t
  run t (c ∷ cs) = elim (step t c) [ none ↦ none | some u ↦ run u cs ]

  unfoldable pub start : ℕ → Trace A
  start capacity = record { queue = new_queue capacity; accepted = []; handed = [] }

  abbrev pub OrderlyIf : Option (Trace A) → Type ℓ
  OrderlyIf none = Unit
  OrderlyIf (some t) = IsOrderly t

  fits :
      (t : Trace A) (v : A)
      → (t.queue.exit
          || (not (t.queue.capacity == 0) && leb t.queue.capacity (length t.queue.items)))
        ≡ false
      → (t.queue.capacity ≡ 0) ⊎ (length (t.queue.items ++ v ∷ []) ≤ t.queue.capacity)
  fits t v room = elim (Bool-cases (t.queue.capacity == 0)) [
    | inl e ↦ inl ((==_iff t.queue.capacity 0).0 e)
    | inr e ↦ inr (ground (arith, length-append t.queue.items (v ∷ [])))
  ]

  pub push-cases :
      (q : SafeQueue A) (v : A)
      → (push q v ≡ (q, false)) ⊎ (push q v ≡ (record q { items = q.items ++ v ∷ [] }, true))
  unfolding push
  push-cases q v =
      if_cases (λ r. (r ≡ (q, false)) ⊎ (r ≡ (record q { items = q.items ++ v ∷ [] }, true)))
        (q.exit || (not (q.capacity == 0) && leb q.capacity (length q.items))) (q, false)
        (record q { items = q.items ++ v ∷ [] }, true) (λ e. inl refl) (λ e. inr refl)

  -- A queue without a bound that has not exited takes everything.
  pub push-unbounded :
      (q : SafeQueue A) (v : A)
      → q.capacity ≡ 0
      → q.exit ≡ false
      → push q v ≡ (record q { items = q.items ++ v ∷ [] }, true)
  unfolding push
  push-unbounded q v unbounded runs =
      let room : (q.exit || (not (q.capacity == 0) && leb q.capacity (length q.items))) ≡ false =
        ground arith in
      if_cases (λ r. r ≡ (record q { items = q.items ++ v ∷ [] }, true))
        (q.exit || (not (q.capacity == 0) && leb q.capacity (length q.items))) (q, false)
        (record q { items = q.items ++ v ∷ [] }, true) (λ full. absurd (cc (full, room)))
        (λ e. refl)

  push-IsOrderly : (t : Trace A) (v : A) → IsOrderly t → IsOrderly (after_push t v (push t.queue v))
  unfolding push after_push
  push-IsOrderly t v o =
      if_cases (λ x. IsOrderly (after_push t v x))
        (t.queue.exit
          || (not (t.queue.capacity == 0) && leb t.queue.capacity (length t.queue.items)))
        (t.queue, false) (record (t.queue) { items = t.queue.items ++ v ∷ [] }, true)
        (λ full. record { fifo = o.fifo; bounded = o.bounded })
        (λ room. record {
          fifo = ap (λ x. x ++ v ∷ []) o.fifo ∙ append_assoc t.handed t.queue.items (v ∷ []);
          bounded = fits t v room;
        })

  pop-IsOrderly :
      (t : Trace A) (wait : Wait) (timed_out : Bool)
      → IsOrderly t
      → OrderlyIf (after_pop t (pop_wait t.queue wait timed_out))
  unfolding pop_wait after_pop pop_items
  pop-IsOrderly t wait timed_out o =
      if_cases (λ x. OrderlyIf (after_pop t x)) (may_return t.queue wait timed_out)
        (some (pop_ready t.queue)) none (λ ready. unfold pop_ready in go t.queue.items refl)
        (λ blocked. tt {ℓ})
    where
      go :
          (xs : List A) → t.queue.items ≡ xs → OrderlyIf (after_pop t (some (pop_items t.queue xs)))
      go [] e = record { fifo = o.fifo; bounded = o.bounded }
      go (v ∷ rest) e = record {
        fifo = o.fifo ∙ ap (◌++◌ t.handed) e ∙ sym (append_assoc t.handed (v ∷ []) rest);
        bounded = elim o.bounded [ inl z ↦ inl z | inr h ↦ inr (omega (arith, h, ap length e)) ];
      }

  run-OrderlyIf : (cs : List (Call A)) (t : Trace A) → IsOrderly t → OrderlyIf (run t cs)
  unfolding run
  run-OrderlyIf [] t o = o
  run-OrderlyIf (pushes v ∷ cs) t o = run-OrderlyIf cs _ (push-IsOrderly t v o)
  run-OrderlyIf (exits ∷ cs) t o =
      run-OrderlyIf cs _ (unfold exit_queue in record { fifo = o.fifo; bounded = o.bounded })
  run-OrderlyIf (pops wait timed_out ∷ cs) t o =
      go (after_pop t (pop_wait t.queue wait timed_out)) (pop-IsOrderly t wait timed_out o)
        (λ u p. run-OrderlyIf cs u p)
    where
      go :
          (r : Option (Trace A))
          → OrderlyIf r
          → ((u : Trace A) → IsOrderly u → OrderlyIf (run u cs))
          → OrderlyIf (elim r [ none ↦ none | some u ↦ run u cs ])
      go none p again = tt
      go (some u) p again = again u p

  -- After any sequence of calls, whatever they wait for: the items taken in are those handed out and
  -- then those still queued, in order, and a capacity other than 0 is never exceeded.
  pub run-IsOrderly :
      (capacity : ℕ) (cs : List (Call A)) (t : Trace A)
      → run (start capacity) cs ≡ some t
      → IsOrderly t
  run-IsOrderly capacity cs t e = subst OrderlyIf e (
      run-OrderlyIf cs (start capacity)
        (unfold start new_queue in record { fifo = refl; bounded = inr (omega arith) }))

  pop_none :
      (q : SafeQueue A) (xs : List A) (b : Bool)
      → (if b || not (is_empty xs) then some (pop_items q xs) else none) ≡ some (none, q)
      → b ≡ true
  unfolding pop_items is_empty
  pop_none q xs true e = refl
  pop_none q [] false e = cc
  pop_none q (v ∷ rest) false e = cc

  pop_some :
      (q r : SafeQueue A) (v : A) (b : Bool) (xs : List A)
      → (if b then some (pop_items q xs) else none) ≡ some (some v, r)
      → (xs ≡ v ∷ r.items) × (r ≡ record q { items = r.items })
  unfolding pop_items
  pop_some q r v false xs e = absurd cc
  pop_some q r v true [] e = absurd cc
  pop_some q r v true (x ∷ xs) e =
      let popped : Option (Option A × SafeQueue A) → List A × SafeQueue A = λ o. elim o [
        | none ↦ ([], q)
        | some a ↦ (elim a.0 [ none ↦ [] | some y ↦ y ∷ a.1.items ], a.1)
      ] in
      let same : (x ∷ xs, record q { items = xs }) ≡ (v ∷ r.items, r) = ap popped e in
      (
        ap (λ (a : List A × SafeQueue A). a.0) same,
        sym (ap (λ (a : List A × SafeQueue A). a.1) same)
            ∙ ap (λ (a : List A × SafeQueue A). record q { items = a.1.items }) same,
      )

  -- What a pop that gives an item says of the queue.
  pub pop_wait-some :
      (q r : SafeQueue A) (v : A) (wait : Wait) (timed_out : Bool)
      → pop_wait q wait timed_out ≡ some (some v, r)
      → (q.items ≡ v ∷ r.items) × (r ≡ record q { items = r.items })
  unfolding pop_wait pop_ready
  pop_wait-some q r v wait timed_out e = pop_some q r v (may_return q wait timed_out) q.items e

  ready_with_item :
      (q : SafeQueue A) (timed_out : Bool) (v : A) (rest : List A) (wait : Wait)
      → q.items ≡ v ∷ rest
      → may_return q wait timed_out ≡ true
  unfolding may_return is_empty
  ready_with_item q timed_out v rest wait_infinite e = ground arith
  ready_with_item q timed_out v rest (wait_ms n) e = ground arith

  -- A pop that waits without end comes back with nothing only after exit; one that has an item to
  -- give never waits.
  pub pop_wait_lem :
      (q : SafeQueue A) (timed_out : Bool)
      → (pop_wait q wait_infinite timed_out ≡ some (none, q) → q.exit ≡ true)
        × ((v : A) (rest : List A) (wait : Wait)
            → q.items ≡ v ∷ rest
            → pop_wait q wait timed_out ≡ some (some v, record q { items = rest }))
  unfolding pop_wait pop_ready
  pop_wait_lem q timed_out = (
    λ e. pop_none q q.items q.exit (unfold may_return in e),
    λ v rest wait e.
        rw (ready_with_item q timed_out v rest wait e)
          (ap (λ xs. some (pop_items q xs)) e ∙ (unfold pop_items in refl)),
  )
