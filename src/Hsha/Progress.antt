-- ===== src/Hsha/Progress.antt =====
-- handy/conn.cc, handy/udp.cc: how far the threads of a server have to go.
use handy.Base.{
  ℕ, suc, ◌+◌, ◌*◌, ◌≤◌, ◌<◌, ◌≡◌, ◌⊎◌, inl, inr, refl, sym, ap, ◌∙◌, subst, Bool, true, false, [],
  ◌∷◌, arith, List-cases, Bytes, length, length-append,
}
use handy.Base.Counts.{count}
use handy.SafeQueue.{SafeQueue, new_queue, wait_infinite}
use handy.SafeQueue.History.{push-cases, pop_wait-some, pop_wait_lem}
use handy.EventLoop.{add_task}
use handy.EventLoop.Wakeup.{
  IsAwake, posted-IsAwake, Turn-IsAwake, Turn-weight, posted-weight, weight,
}
use handy.EventLoop.Settling.{IsResting, resting-empty, progress}
use handy.Hsha.{
  Request, Reply, Hsha, start, on_msg, after_add_task, exit_pool, post_reply, answer, Work, starts,
  finishes, turns, Step, works, takes, exits, Steps, done, step,
}
use handy.Hsha.Answers.{count_requests, count_all, Steps-count, Work-accepted}

module _ {ℓ} {P : Type ℓ} where
  -- What is left to do, a request counted with its thread, its reply and the wake-up.
  pub weight_all : Hsha P → ℕ
  weight_all s = 6 * length s.pool.items + 5 * length s.working + weight s.loop

  pub record IsSettled (s : Hsha P) : Type ℓ where
    pub no_request : s.pool.items ≡ []
    pub none_working : s.working ≡ []
    pub rests : IsResting s.loop

module _ {ℓ} {P : Type ℓ} (cb : P → Bytes → Bytes) where
  -- A number of steps that the threads and the loop take by themselves.
  pub data Works : Hsha P → ℕ → Hsha P → Type ℓ where
    stay : {s : Hsha P} → Works s 0 s
    go_on : {s u v : Hsha P} {n : ℕ} → Work cb s u → Works u n v → Works s (suc n) v

  Work-weight : {s u : Hsha P} → Work cb s u → weight_all u < weight_all s
  unfolding weight_all post_reply
  Work-weight {s} (starts r q room e) = omega (
    arith,
    length-append s.working (r ∷ []),
    ap length (pop_wait-some s.pool q r wait_infinite false e).0,
  )
  Work-weight {s} (finishes before after r e) = omega (
    arith,
    ap length e,
    length-append before (r ∷ after),
    length-append before after,
    posted-weight (answer cb r) s.loop,
  )
  Work-weight (turns v t) = omega (arith, Turn-weight t)

  -- There is a thread, the pool runs on, and no task of the loop is left behind.
  record IsGoing (s : Hsha P) : Type ℓ where
    has_thread : 1 ≤ s.threads
    pool_runs : s.pool.exit ≡ false
    awake : IsAwake s.loop

  idle-progress :
      (s : Hsha P) → IsGoing s → s.working ≡ [] → IsSettled s ⊎ ((u : Hsha P) × Work cb s u)
  idle-progress s going idle = elim (List-cases s.pool.items) [
    | inr (r, rs, e) ↦ inr (
      _,
      starts r (record (s.pool) { items = rs }) (omega (arith, ap length idle, going.has_thread))
          ((pop_wait_lem s.pool false).1 r rs wait_infinite e),
    )
    | inl none_left ↦ elim (progress s.loop) [
      | inl rest ↦ inl (record { no_request = none_left; none_working = idle; rests = rest })
      | inr (v, t) ↦ inr (_, turns v t)
    ]
  ]

  all-progress : (s : Hsha P) → IsGoing s → IsSettled s ⊎ ((u : Hsha P) × Work cb s u)
  all-progress s going = elim (List-cases s.working) [
    | inl idle ↦ idle-progress s going idle
    | inr (r, rs, e) ↦ inr (_, finishes [] rs r e)
  ]

  Work-IsGoing : {s u : Hsha P} → Work cb s u → IsGoing s → IsGoing u
  unfolding post_reply
  Work-IsGoing {s} (starts r q room e) going = record {
    has_thread = going.has_thread;
    pool_runs =
        ap (λ (x : SafeQueue (Request P)). x.exit)
          (pop_wait-some s.pool q r wait_infinite false e).1
        ∙ going.pool_runs;
    awake = going.awake;
  }
  Work-IsGoing {s} (finishes before after r e) going = record {
    has_thread = going.has_thread;
    pool_runs = going.pool_runs;
    awake = posted-IsAwake (answer cb r) s.loop;
  }
  Work-IsGoing (turns v t) going = record {
    has_thread = going.has_thread;
    pool_runs = going.pool_runs;
    awake = Turn-IsAwake t going.awake;
  }

  Works-weight : {s u : Hsha P} {n : ℕ} → Works s n u → n + weight_all u ≤ weight_all s
  Works-weight stay = omega arith
  Works-weight (go_on w ws) = omega (arith, Works-weight ws, Work-weight w)

  Works-IsGoing : {s u : Hsha P} {n : ℕ} → Works s n u → IsGoing s → IsGoing u
  Works-IsGoing stay going = going
  Works-IsGoing (go_on w ws) going = Works-IsGoing ws (Work-IsGoing w going)

  Works-Steps : {a s u : Hsha P} {n : ℕ} → Steps cb a s → Works s n u → Steps cb a u
  Works-Steps ss stay = ss
  Works-Steps ss (go_on w ws) = Works-Steps (step ss (works w)) ws

  Works-accepted : {s u : Hsha P} {n : ℕ} → Works s n u → u.accepted ≡ s.accepted
  Works-accepted stay = refl
  Works-accepted (go_on w ws) = Works-accepted ws ∙ Work-accepted cb (λ r. true) w

  Work-threads : {s u : Hsha P} → Work cb s u → u.threads ≡ s.threads
  unfolding post_reply
  Work-threads (starts r q room e) = refl
  Work-threads (finishes before after r e) = refl
  Work-threads (turns v t) = refl

  Work-IsAwake : {s u : Hsha P} → Work cb s u → IsAwake s.loop → IsAwake u.loop
  unfolding post_reply
  Work-IsAwake (starts r q room e) awake = awake
  Work-IsAwake {s} (finishes before after r e) awake = posted-IsAwake (answer cb r) s.loop
  Work-IsAwake (turns v t) awake = Turn-IsAwake t awake

  on_msg-keeps :
      (r : Request P) (s : Hsha P)
      → (((on_msg r s).threads ≡ s.threads) × ((on_msg r s).loop ≡ s.loop))
  unfolding on_msg after_add_task add_task
  on_msg-keeps r s = elim (push-cases s.pool r) [
    | inl e ↦ rw e (refl, refl)
    | inr e ↦ rw e (refl, refl)
  ]

  Step-keeps :
      {s u : Hsha P} → Step cb s u → (u.threads ≡ s.threads) × (IsAwake s.loop → IsAwake u.loop)
  unfolding exit_pool
  Step-keeps (works w) = (Work-threads w, Work-IsAwake w)
  Step-keeps {s} (takes r d) =
      let (threads_stay, loop_stays) = on_msg-keeps r s in
      (threads_stay, subst IsAwake (sym loop_stays))
  Step-keeps exits = (refl, λ awake. awake)

  Steps-keeps :
      (threads capacity : ℕ) (s : Hsha P)
      → Steps cb (start threads capacity) s
      → (s.threads ≡ threads) × IsAwake s.loop
  unfolding start new_queue IsAwake
  Steps-keeps threads capacity s done = (refl, inl refl)
  Steps-keeps threads capacity s (step ss t) =
      let (same, awake) = Steps-keeps threads capacity _ ss in
      let (threads_stay, stays) = Step-keeps t in (threads_stay ∙ same, stays awake)

  settled-count :
      (p : Reply P → Bool) (s : Hsha P)
      → IsGoing s
      → IsSettled s
      → count_all cb p s ≡ count p s.loop.ran + count p s.refused
  unfolding count_all count_requests
  settled-count p s going settled =
      rw (settled.no_request, settled.none_working, resting-empty s.loop going.awake settled.rests)
        (omega arith)

  -- A new server with a thread at least, whatever has happened to it, while its pool has not been told to
  -- exit and no further request comes: however the steps of the threads and the loop are interleaved,
  -- each lessens `weight_all`, so that no more than that many can follow, and at every moment either
  -- one of them can take a step, or the server has settled: no request is left in the pool or with a
  -- thread, and for every request that was taken its answer has been run by the loop, unless the loop's own
  -- queue refused it, as many as there are requests, whatever the answers are counted by.
  pub answers_all :
      (threads capacity : ℕ) {s u : Hsha P} {n : ℕ}
      → 1 ≤ threads
      → Steps cb (start threads capacity) s
      → s.pool.exit ≡ false
      → Works s n u
      → (n + weight_all u ≤ weight_all s)
        × (((v : Hsha P) × Work cb u v)
            ⊎ (IsSettled u
                × ((p : Reply P → Bool)
                    → count_requests cb p s.accepted ≡ count p u.loop.ran + count p u.refused)))
  answers_all threads capacity {s} {u} some_thread steps runs_on ws =
      let (same, awake) = Steps-keeps threads capacity s steps in
      let going : IsGoing s = record {
        has_thread = omega (arith, same, some_thread);
        pool_runs = runs_on;
        awake = awake;
      } in
      let still = Works-IsGoing ws going in
      (
        Works-weight ws,
        elim (all-progress u still) [
          | inr further ↦ inl further
          | inl settled ↦ inr (
            settled,
            λ p.
                ap (count_requests cb p) (sym (Works-accepted ws))
                ∙ Steps-count cb p threads capacity u (Works-Steps steps ws)
                ∙ settled-count p u still settled,
          )
        ],
      )
