-- ===== src/Hsha/Order.antt =====
-- handy/conn.cc, handy/udp.cc: the order of the answers of one worker thread.
use handy.Base.{
  ◌≤◌, ◌<◌, ◌≡◌, inl, inr, refl, sym, ap, ◌∙◌, false, some, List, [], ◌∷◌, ◌++◌, map, append_assoc,
  arith, List-cases, Bytes, length, length-append,
}
use handy.SafeQueue.{SafeQueue, pop_wait, exit_queue, new_queue, wait_infinite}
use handy.SafeQueue.History.{push-unbounded, push-cases, pop_wait-some}
use handy.EventLoop.{add_task, post}
use handy.EventLoop.Wakeup.{posted, taken_in, Turn-taken_in, Turn-bounds}
use handy.Hsha.{
  Request, Reply, Hsha, start, on_msg, after_add_task, exit_pool, post_reply, answer, msg_calls,
  msg_call, Work, starts, finishes, turns, Step, works, takes, exits, Steps, done, step,
}

module _ {ℓ} {P : Type ℓ} (cb : P → Bytes → Bytes) where
  unfoldable pub answers : List (Request P) → List (Reply P)
  answers rs = map (answer cb) rs

  answers-append : (rs qs : List (Request P)) → answers (rs ++ qs) ≡ answers rs ++ answers qs
  unfolding answers
  answers-append [] qs = refl
  answers-append (r ∷ rs) qs = ap (◌∷◌ (answer cb r)) (answers-append rs qs)

  -- What has been sent or will be, in the order of the requests.
  record IsInOrder (s : Hsha P) : Type ℓ where
    one_thread : s.threads ≡ 1
    one_task : length s.working ≤ 1
    unbounded : s.loop.loop.tasks.capacity ≡ 0
    runs_on : s.loop.loop.tasks.exit ≡ false
    in_line : answers s.accepted ≡ taken_in s.loop ++ (answers s.working ++ answers s.pool.items)

  start-IsInOrder :
      (s : Hsha P) (r : Request P) (q : SafeQueue (Request P))
      → length s.working < s.threads
      → pop_wait s.pool wait_infinite false ≡ some (some r, q)
      → IsInOrder s
      → IsInOrder (record s { pool = q; working = s.working ++ r ∷ [] })
  start-IsInOrder s r q room e o =
      let idle : s.working ≡ [] = elim (List-cases s.working) [
        | inl e ↦ e
        | inr (x, ys, e) ↦ absurd (omega (arith, room, o.one_thread, ap length e))
      ] in
      record {
        one_thread = o.one_thread;
        one_task = rw idle (omega arith);
        unbounded = o.unbounded;
        runs_on = o.runs_on;
        in_line =
            o.in_line
            ∙ (unfold answers in rw (idle, (pop_wait-some s.pool q r wait_infinite false e).0));
      }

  only_member :
      (before after xs : List (Request P)) (r : Request P)
      → xs ≡ before ++ r ∷ after
      → length xs ≤ 1
      → (before ≡ []) × (after ≡ [])
  only_member [] [] xs r e h = (refl, refl)
  only_member [] (x ∷ after) xs r e h = absurd (omega (arith, h, ap length e))
  only_member (x ∷ before) after xs r e h =
      absurd (omega (arith, h, ap length e, length-append before (r ∷ after)))

  move_on :
      (ran waiting rest : List (Reply P)) (a : Reply P)
      → (ran ++ waiting) ++ (a ∷ rest) ≡ (ran ++ (waiting ++ a ∷ [])) ++ rest
  move_on ran waiting rest a =
      append_assoc ran waiting (a ∷ rest)
      ∙ ap (◌++◌ ran) (sym (append_assoc waiting (a ∷ []) rest))
      ∙ sym (append_assoc ran (waiting ++ a ∷ []) rest)

  finish-IsInOrder :
      (s : Hsha P) (before after : List (Request P)) (r : Request P)
      → s.working ≡ before ++ r ∷ after
      → IsInOrder s
      → IsInOrder (post_reply (answer cb r) (record s { working = before ++ after }))
  unfolding post_reply posted post taken_in
  finish-IsInOrder s before after r e o =
      let (first, last) = only_member before after s.working r e o.one_task in
      let pushed = push-unbounded s.loop.loop.tasks (answer cb r) o.unbounded o.runs_on in
      let alone : s.working ≡ r ∷ [] = rw (e, first, last) in
      record {
        one_thread = o.one_thread;
        one_task = rw (first, last) (omega arith);
        unbounded = rw pushed o.unbounded;
        runs_on = rw pushed o.runs_on;
        in_line =
            rw (pushed, first, last)
              (o.in_line
                ∙ ap (λ ws. taken_in s.loop ++ (answers ws ++ answers s.pool.items)) alone
                ∙ (unfold answers in
                    move_on s.loop.ran s.loop.loop.tasks.items (answers s.pool.items)
                      (answer cb r)));
      }

  Work-IsInOrder : {s u : Hsha P} → Work cb s u → IsInOrder s → IsInOrder u
  Work-IsInOrder {s} (starts r q room e) o = start-IsInOrder s r q room e o
  Work-IsInOrder {s} (finishes before after r e) o = finish-IsInOrder s before after r e o
  Work-IsInOrder {s} (turns v t) o =
      let (capacity, exit) = Turn-bounds t in
      record {
        one_thread = o.one_thread;
        one_task = o.one_task;
        unbounded = capacity ∙ o.unbounded;
        runs_on = exit ∙ o.runs_on;
        in_line = rw (Turn-taken_in t) o.in_line;
      }

  on_msg-IsInOrder : (r : Request P) (s : Hsha P) → IsInOrder s → IsInOrder (on_msg r s)
  unfolding on_msg after_add_task add_task
  on_msg-IsInOrder r s o = elim (push-cases s.pool r) [
    | inl e ↦ rw e (record {
      one_thread = o.one_thread;
      one_task = o.one_task;
      unbounded = o.unbounded;
      runs_on = o.runs_on;
      in_line = o.in_line;
    })
    | inr e ↦ rw e (record {
      one_thread = o.one_thread;
      one_task = o.one_task;
      unbounded = o.unbounded;
      runs_on = o.runs_on;
      in_line =
          answers-append s.accepted (r ∷ [])
          ∙ ap (λ xs. xs ++ answers (r ∷ [])) o.in_line
          ∙ append_assoc (taken_in s.loop) _ (answers (r ∷ []))
          ∙ ap (◌++◌ (taken_in s.loop)) (
              append_assoc (answers s.working) (answers s.pool.items) (answers (r ∷ []))
              ∙ ap (◌++◌ (answers s.working)) (sym (answers-append s.pool.items (r ∷ []))));
    })
  ]

  Step-IsInOrder : {s u : Hsha P} → Step cb s u → IsInOrder s → IsInOrder u
  unfolding exit_pool exit_queue
  Step-IsInOrder (works w) o = Work-IsInOrder w o
  Step-IsInOrder {s} (takes r d) o = on_msg-IsInOrder r s o
  Step-IsInOrder exits o = record {
    one_thread = o.one_thread;
    one_task = o.one_task;
    unbounded = o.unbounded;
    runs_on = o.runs_on;
    in_line = o.in_line;
  }

  Steps-IsInOrder : (s : Hsha P) → Steps cb (start 1 0) s → IsInOrder s
  unfolding start new_queue
  Steps-IsInOrder s done = record {
    one_thread = refl;
    one_task = omega arith;
    unbounded = refl;
    runs_on = refl;
    in_line = unfold taken_in answers in refl;
  }
  Steps-IsInOrder s (step ss t) = Step-IsInOrder t (Steps-IsInOrder _ ss)

  msg_calls-append : (rs qs : List (Reply P)) → msg_calls (rs ++ qs) ≡ msg_calls rs ++ msg_calls qs
  unfolding msg_calls
  msg_calls-append [] qs = refl
  msg_calls-append (r ∷ rs) qs =
      ap (◌++◌ (msg_call r)) (msg_calls-append rs qs)
      ∙ sym (append_assoc (msg_call r) (msg_calls rs) (msg_calls qs))

  -- A server with one worker thread, on a loop without a bound for its tasks: whatever has happened,
  -- the calls of sendMsg that the loop has made are the beginning of those for the answers to the requests
  -- that were taken, in the order of the requests, each with its connection and the whole answer; what is
  -- missing is the answers that wait, that are worked on and that have not been started, in this order.
  pub Steps-msg_calls :
      (s : Hsha P)
      → Steps cb (start 1 0) s
      → msg_calls (answers s.accepted)
        ≡ msg_calls s.loop.ran
          ++ msg_calls (s.loop.loop.tasks.items ++ (answers s.working ++ answers s.pool.items))
  unfolding taken_in
  Steps-msg_calls s steps =
      let o = Steps-IsInOrder s steps in
      let rest = answers s.working ++ answers s.pool.items in
      ap msg_calls (o.in_line ∙ append_assoc s.loop.ran s.loop.loop.tasks.items rest)
      ∙ msg_calls-append s.loop.ran (s.loop.loop.tasks.items ++ rest)
