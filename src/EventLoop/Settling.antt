-- ===== src/EventLoop/Settling.antt =====
-- handy/event_base.cc: a loop and the threads that post to it, until nothing can go on.
use handy.Base.{
  ℕ, suc, ◌+◌, ◌≤◌, ◌≡◌, ◌⊎◌, inl, inr, refl, sym, ap, ◌∙◌, true, false, [], ◌++◌, append-nil,
  arith, Bool-cases, ℕ-cases,
}
use handy.EventLoop.Wakeup.{
  Waking, Turn, writes, reads, runs, ends, IsAwake, popped-cases, weight, taken_in, Turn-IsAwake,
  Turn-weight, Turn-taken_in,
}

module _ {ℓ} {A : Type ℓ} where
  -- No post is between its two halves, the pipe is empty and the loop waits in poll.
  pub record IsResting (w : Waking A) : Type ℓ where
    pub none_writing : w.writing ≡ 0
    pub pipe_empty : w.loop.pipe ≡ 0
    pub not_draining : w.draining ≡ false

  pub data Turns : Waking A → ℕ → Waking A → Type ℓ where
    stay : {w : Waking A} → Turns w 0 w
    turn : {n : ℕ} {w v u : Waking A} → Turn w v → Turns v n u → Turns w (suc n) u

  draining-progress : (w : Waking A) → w.draining ≡ true → (v : Waking A) × Turn w v
  draining-progress w d = elim (popped-cases w) [
    | inl (e, r) ↦ (_, ends w.loop.tasks d r)
    | inr (x, ys, e, r) ↦ (_, runs x (record (w.loop.tasks) { items = ys }) d r)
  ]

  waiting-progress : (w : Waking A) → w.draining ≡ false → IsResting w ⊎ ((v : Waking A) × Turn w v)
  waiting-progress w d = elim (ℕ-cases w.writing) [
    | inr (n, e) ↦ inr (_, writes n e)
    | inl quiet ↦ elim (ℕ-cases w.loop.pipe) [
      | inr (n, e) ↦ inr (_, reads d (omega (arith, e)))
      | inl empty ↦ inl (record { none_writing = quiet; pipe_empty = empty; not_draining = d })
    ]
  ]

  -- The loop and the threads that post can go on unless all of them rest.
  pub progress : (w : Waking A) → IsResting w ⊎ ((v : Waking A) × Turn w v)
  progress w = elim (Bool-cases w.draining) [
    | inl d ↦ inr (draining-progress w d)
    | inr d ↦ waiting-progress w d
  ]

  pub resting-empty : (w : Waking A) → IsAwake w → IsResting w → w.loop.tasks.items ≡ []
  unfolding IsAwake
  resting-empty w awake rest = elim awake [
    | inl empty ↦ empty
    | inr (inl busy) ↦ absurd (cc (busy, rest.not_draining))
    | inr (inr told) ↦ absurd (omega (arith, told, rest.none_writing, rest.pipe_empty))
  ]

  Turns-IsAwake : {w v : Waking A} {n : ℕ} → Turns w n v → IsAwake w → IsAwake v
  Turns-IsAwake stay awake = awake
  Turns-IsAwake (turn t ts) awake = Turns-IsAwake ts (Turn-IsAwake t awake)

  Turns-taken_in : {w v : Waking A} {n : ℕ} → Turns w n v → taken_in v ≡ taken_in w
  Turns-taken_in stay = refl
  Turns-taken_in (turn t ts) = Turns-taken_in ts ∙ Turn-taken_in t

  pub Turns-weight : {w v : Waking A} {n : ℕ} → Turns w n v → n + weight v ≤ weight w
  Turns-weight stay = omega arith
  Turns-weight (turn t ts) = omega (arith, Turns-weight ts, Turn-weight t)

  -- However the turns of the loop and of the threads that post are interleaved from a state where
  -- someone will look at the queue, as long as no further task comes: once all of them rest, the
  -- loop has run the tasks that were queued, each once and in order.
  pub Turns-ran :
      {w v : Waking A} {n : ℕ}
      → Turns w n v
      → IsAwake w
      → IsResting v
      → v.ran ≡ w.ran ++ w.loop.tasks.items
  unfolding taken_in
  Turns-ran {w} {v} ts awake rest =
      let none_left = resting-empty v (Turns-IsAwake ts awake) rest in
      sym (append-nil v.ran) ∙ ap (◌++◌ v.ran) (sym none_left) ∙ Turns-taken_in ts

  -- However the turns of the loop and of the threads that post are interleaved from a state where
  -- someone will look at the queue, as long as no further task comes: each turn lessens `weight`, so that
  -- no more than that many can follow, and at every moment either someone can take a turn or
  -- all of them rest, and then all the tasks that were queued have run, each once and in order.
  pub settles :
      {w v : Waking A} {n : ℕ}
      → Turns w n v
      → IsAwake w
      → (n + weight v ≤ weight w)
        × (((u : Waking A) × Turn v u) ⊎ (IsResting v × (v.ran ≡ w.ran ++ w.loop.tasks.items)))
  settles {v = v} ts awake = (
    Turns-weight ts,
    elim (progress v) [
      | inl rest ↦ inr (rest, Turns-ran ts awake rest)
      | inr further ↦ inl further
    ],
  )
