-- ===== src/EventLoop/Tasks.antt =====
-- handy/event_base.cc: every task that has been taken in is run.
use handy.Base.{
  ℕ, zero, suc, ◌<◌, ◌≡◌, refl, ap, ◌∙◌, true, none, some, List, [], ◌∷◌, arith, length,
}
use handy.EventLoop.{EventLoop, after_pop, run_tasks}
use handy.SafeQueue.History.{pop_wait_lem}
use handy.SafeQueue.{SafeQueue, pop_wait, wait_ms, pop_items, pop_ready, may_return}

module _ {ℓ} {A : Type ℓ} where
  pub pop_empty : (q : SafeQueue A) → q.items ≡ [] → pop_wait q (wait_ms 0) true ≡ some (none, q)
  unfolding pop_wait may_return pop_ready pop_items
  pop_empty q e =
      let r : may_return q (wait_ms 0) true ≡ true = ground arith in
      rw r (ap (λ i. some (pop_items q i)) e)

  pub pop_first :
      (q : SafeQueue A) (t : A) (ts : List A)
      → q.items ≡ t ∷ ts
      → pop_wait q (wait_ms 0) true ≡ some (some t, record q { items = ts })
  pop_first q t ts e = (pop_wait_lem q true).1 t ts (wait_ms 0) e

  -- Tasks that leave the loop alone: the callback runs all that are queued, each once and in order, and
  -- one round more than there are tasks is enough.
  pub run_tasks_lem :
      (act : A → EventLoop A → EventLoop A)
      → ((t : A) (l : EventLoop A) → act t l ≡ l)
      → (fuel : ℕ) (l : EventLoop A) (ts : List A) → l.tasks.items ≡ ts
      → length ts < fuel
      → run_tasks act fuel l ≡ (ts, record l { tasks = record (l.tasks) { items = [] } })
  unfolding run_tasks after_pop
  run_tasks_lem act leaves zero l ts e h = absurd (omega arith)
  run_tasks_lem act leaves (suc fuel) l [] e h =
      rw (pop_empty l.tasks e)
        (ap (λ i. ([], record l { tasks = record (l.tasks) { items = i } })) e)
  run_tasks_lem act leaves (suc fuel) l (t ∷ ts) e h =
      let q : SafeQueue A = record (l.tasks) { items = ts } in
      rw (pop_first l.tasks t ts e) (
        ap (λ m. (t ∷ (run_tasks act fuel m).0, (run_tasks act fuel m).1))
          (leaves t (record l { tasks = q }))
        ∙ ap {A = List A × EventLoop A} (λ r. (t ∷ r.0, r.1))
            (run_tasks_lem act leaves fuel (record l { tasks = q }) ts refl (omega arith)))
