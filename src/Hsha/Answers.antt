-- ===== src/Hsha/Answers.antt =====
-- handy/conn.cc, handy/udp.cc: requests and their answers, counted over all the places where they are.
use handy.Base.{
  ℕ, ◌+◌, ◌≡◌, inl, inr, refl, sym, ap, ◌∙◌, Bool, false, some, List, [], ◌∷◌, ◌++◌, arith,
  if◌then◌else◌, Bytes,
}
use handy.SafeQueue.History.{pop_wait-some, push-cases}
use handy.Base.Counts.{count, count-append}
use handy.SafeQueue.{SafeQueue, push, pop_wait, exit_queue, new_queue, wait_infinite}
use handy.EventLoop.{add_task, post, wakeup, read_pipe}
use handy.EventLoop.Wakeup.{
  Waking, posted, Turn, writes, reads, runs, ends, with_tasks, popped-task, popped-end,
}
use handy.Hsha.{
  Request, Reply, Hsha, start, on_msg, after_add_task, exit_pool, post_reply, answer, Work, starts,
  finishes, turns, Step, works, takes, exits, Steps, done, step,
}

module _ {ℓ} {P : Type ℓ} (cb : P → Bytes → Bytes) (p : Reply P → Bool) where
  -- A request counts as its answer.
  unfoldable pub count_requests : List (Request P) → ℕ
  unfolding answer
  count_requests [] = 0
  count_requests (r ∷ rs) = (if p (answer cb r) then 1 else 0) + count_requests rs

  count_requests-append :
      (rs qs : List (Request P)) → count_requests (rs ++ qs) ≡ count_requests rs + count_requests qs
  unfolding count_requests
  count_requests-append [] qs = omega arith
  count_requests-append (r ∷ rs) qs = omega (arith, count_requests-append rs qs)

  -- The requests that wait or are worked on, and the replies that wait, were run or were refused.
  unfoldable pub count_all : Hsha P → ℕ
  count_all s =
      count_requests s.pool.items
      + count_requests s.working
      + count p s.loop.loop.tasks.items
      + count p s.loop.ran
      + count p s.refused

  Turn-count :
      (w v : Waking (Reply P))
      → Turn w v
      → count p v.loop.tasks.items + count p v.ran ≡ count p w.loop.tasks.items + count p w.ran
  unfolding wakeup read_pipe with_tasks
  Turn-count w v (writes n e) = refl
  Turn-count w v (reads d h) = refl
  Turn-count w v (runs t q d e) =
      rw (popped-task w t q e) (omega (arith, count-append p w.ran (t ∷ [])))
  Turn-count w v (ends q d e) =
      ap (λ (s : SafeQueue (Reply P)). count p s.items + count p w.ran) (popped-end w q e).1

  post_reply-count :
      (s : Hsha P) (r : Reply P) → count_all (post_reply r s) ≡ count_all s + (if p r then 1 else 0)
  unfolding count_all post_reply posted post push
  post_reply-count s r = elim (push-cases s.loop.loop.tasks r) [
    | inl e ↦ rw e (omega (arith, count-append p s.refused (r ∷ [])))
    | inr e ↦ rw e (omega (arith, count-append p s.loop.loop.tasks.items (r ∷ [])))
  ]

  -- The pool's pop and the thread's list.
  start-count :
      (s : Hsha P) (r : Request P) (q : SafeQueue (Request P))
      → pop_wait s.pool wait_infinite false ≡ some (some r, q)
      → count_all (record s { pool = q; working = s.working ++ r ∷ [] }) ≡ count_all s
  unfolding count_all count_requests
  start-count s r q e =
      rw (pop_wait-some s.pool q r wait_infinite false e).0
        (omega (arith, count_requests-append s.working (r ∷ [])))

  finish-count :
      (s : Hsha P) (before after : List (Request P)) (r : Request P)
      → s.working ≡ before ++ r ∷ after
      → count_all (post_reply (answer cb r) (record s { working = before ++ after })) ≡ count_all s
  unfolding count_all count_requests
  finish-count s before after r e =
      rw (post_reply-count (record s { working = before ++ after }) (answer cb r), e)
        (omega
          (arith, count_requests-append before (r ∷ after), count_requests-append before after))

  Work-count : {s u : Hsha P} → Work cb s u → count_all u ≡ count_all s
  unfolding count_all
  Work-count {s} (starts r q room e) = start-count s r q e
  Work-count {s} (finishes before after r e) = finish-count s before after r e
  Work-count {s} (turns v t) = omega (arith, Turn-count s.loop v t)

  pub Work-accepted : {s u : Hsha P} → Work cb s u → u.accepted ≡ s.accepted
  unfolding post_reply
  Work-accepted (starts r q room e) = refl
  Work-accepted (finishes before after r e) = refl
  Work-accepted (turns v t) = refl

  IsBalanced : Hsha P → Type 0
  IsBalanced s = count_requests s.accepted ≡ count_all s

  on_msg-IsBalanced : (r : Request P) (s : Hsha P) → IsBalanced s → IsBalanced (on_msg r s)
  unfolding IsBalanced on_msg after_add_task add_task count_all count_requests
  on_msg-IsBalanced r s balanced = elim (push-cases s.pool r) [
    | inl e ↦ rw e balanced
    | inr e ↦ rw e (
        omega (
          arith,
          balanced,
          count_requests-append s.pool.items (r ∷ []),
          count_requests-append s.accepted (r ∷ []),
        ))
  ]

  Step-IsBalanced : {s u : Hsha P} → Step cb s u → IsBalanced s → IsBalanced u
  unfolding IsBalanced count_all exit_pool exit_queue
  Step-IsBalanced (works w) balanced =
      ap count_requests (Work-accepted w) ∙ balanced ∙ sym (Work-count w)
  Step-IsBalanced {s} (takes r d) balanced = on_msg-IsBalanced r s balanced
  Step-IsBalanced exits balanced = balanced

  -- A new server, whatever its threads, its peers and its loop have done in whatever order: of the
  -- requests that the pool took, counted by their answers, each still waits, is worked on, or has its
  -- answer exactly once among the tasks of the loop, the replies that were run and those refused.
  pub Steps-count :
      (threads capacity : ℕ) (s : Hsha P)
      → Steps cb (start threads capacity) s
      → count_requests s.accepted ≡ count_all s
  unfolding IsBalanced start new_queue count_all count_requests
  Steps-count threads capacity s steps = go s steps
    where
      go : (u : Hsha P) → Steps cb (start threads capacity) u → IsBalanced u
      go u done = refl
      go u (step ss t) = Step-IsBalanced t (go _ ss)
