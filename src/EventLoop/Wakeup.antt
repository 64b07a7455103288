-- ===== src/EventLoop/Wakeup.antt =====
-- handy/event_base.cc: the queue of a loop that may sleep. Other threads post while
-- the loop runs: `safeCall` is two steps, the push and then the write to the pipe, and the callback of
-- the pipe is a read and then a pop for each step. The loop has not been told to exit.
use handy.Base.{
  ℕ, suc, ◌+◌, ◌*◌, ◌≤◌, ◌<◌, ◌≡◌, ◌⊎◌, inl, inr, refl, sym, ap, ◌∙◌, Bool, true, false, Option,
  none, some, List, [], ◌∷◌, ◌++◌, append_assoc, arith, if◌then◌else◌, List-cases, length,
  length-append,
}
use handy.SafeQueue.History.{pop_wait-some, push-cases}
use handy.EventLoop.{EventLoop, wakeup, post, read_pipe}
use handy.SafeQueue.{SafeQueue, pop_wait, wait_ms}
use handy.EventLoop.Tasks.{pop_empty, pop_first}

-- A loop, the threads that are between the push and the write, whether the loop is in the callback
-- of the pipe, and the tasks that it has run.
pub record Waking {ℓ} (A : Type ℓ) : Type ℓ where
  pub loop : EventLoop A
  pub writing : ℕ
  pub draining : Bool
  pub ran : List A

module _ {ℓ} {A : Type ℓ} where
  -- The first half of safeCall, of any thread.
  unfoldable pub posted : A → Waking A → Waking A
  unfolding post
  posted t w = record w { loop = post t w.loop; writing = w.writing + 1 }

  unfoldable pub popped : Waking A → Option (Option A × SafeQueue A)
  unfolding pop_wait
  popped w = pop_wait w.loop.tasks (wait_ms 0) true

  unfoldable pub with_tasks : SafeQueue A → Waking A → Waking A
  with_tasks q w = record w { loop = record (w.loop) { tasks = q } }

  -- What happens next, but for the posts.
  pub data Turn (w : Waking A) : Waking A → Type ℓ where
    writes : (n : ℕ) → w.writing ≡ suc n → Turn w (record w { loop = wakeup w.loop; writing = n })
    reads :
        w.draining ≡ false
        → 1 ≤ w.loop.pipe
        → Turn w (record w { loop = read_pipe w.loop; draining = true })
    runs :
        (t : A) (q : SafeQueue A)
        → w.draining ≡ true
        → popped w ≡ some (some t, q)
        → Turn w (record (with_tasks q w) { ran = w.ran ++ t ∷ [] })
    ends :
        (q : SafeQueue A)
        → w.draining ≡ true
        → popped w ≡ some (none, q)
        → Turn w (record (with_tasks q w) { draining = false })

  -- Something will still look at the queue.
  unfoldable pub IsAwake : Waking A → Type ℓ
  IsAwake w = (w.loop.tasks.items ≡ []) ⊎ ((w.draining ≡ true) ⊎ (1 ≤ w.loop.pipe + w.writing))

  pub popped-cases :
      (w : Waking A)
      → ((w.loop.tasks.items ≡ []) × (popped w ≡ some (none, w.loop.tasks)))
        ⊎ ((x : A) × (ys : List A) × (w.loop.tasks.items ≡ x ∷ ys)
            × (popped w ≡ some (some x, record (w.loop.tasks) { items = ys })))
  unfolding popped
  popped-cases w = elim (List-cases w.loop.tasks.items) [
    | inl e ↦ inl (e, pop_empty w.loop.tasks e)
    | inr (x, ys, e) ↦ inr (x, ys, e, pop_first w.loop.tasks x ys e)
  ]

  pub popped-task :
      (w : Waking A) (t : A) (q : SafeQueue A)
      → popped w ≡ some (some t, q)
      → (w.loop.tasks.items ≡ t ∷ q.items)
  popped-task w t q e = elim (popped-cases w) [
    | inl (none_left, r) ↦ absurd (cc (e, r))
    | inr (x, ys, items, r) ↦
        let found : Option (Option A × SafeQueue A) → List A =
          λ o. elim o [ none ↦ [] | some p ↦ elim p.0 [ none ↦ [] | some y ↦ y ∷ p.1.items ] ] in
        items ∙ ap found (sym r ∙ e)
  ]

  pub popped-end :
      (w : Waking A) (q : SafeQueue A)
      → popped w ≡ some (none, q)
      → (w.loop.tasks.items ≡ []) × (q ≡ w.loop.tasks)
  popped-end w q e = elim (popped-cases w) [
    | inl (none_left, r) ↦ (none_left, cc (e, r))
    | inr (x, ys, items, r) ↦ absurd (cc (e, r))
  ]

  pub posted-IsAwake : (t : A) (w : Waking A) → IsAwake (posted t w)
  unfolding posted post IsAwake
  posted-IsAwake t w = inr (inr (omega arith))

  pub Turn-IsAwake : {w v : Waking A} → Turn w v → IsAwake w → IsAwake v
  unfolding IsAwake wakeup read_pipe with_tasks
  Turn-IsAwake (writes n e) awake = elim awake [
    | inl empty ↦ inl empty
    | inr (inl busy) ↦ inr (inl busy)
    | inr (inr told) ↦ inr (inr (omega arith))
  ]
  Turn-IsAwake (reads d h) awake = inr (inl refl)
  Turn-IsAwake (runs t q d e) awake = inr (inl d)
  Turn-IsAwake {w} (ends q d e) awake =
      let r = popped-end w q e in inl (ap (λ (s : SafeQueue A). s.items) r.1 ∙ r.0)

  -- What is left to do, the tasks that come counted with their wake-ups.
  pub weight : Waking A → ℕ
  weight w =
      length w.loop.tasks.items + (if w.draining then 1 else 0) + 2 * w.loop.pipe + 3 * w.writing

  pub Turn-weight : {w v : Waking A} → Turn w v → weight v < weight w
  unfolding weight wakeup read_pipe with_tasks
  Turn-weight (writes n e) = omega (arith, e)
  Turn-weight (reads d h) = rw d (omega (arith, h))
  Turn-weight {w} (runs t q d e) = rw (d, popped-task w t q e) (omega arith)
  Turn-weight {w} (ends q d e) =
      rw (d, ap (λ (s : SafeQueue A). s.items) (popped-end w q e).1) (omega arith)

  pub posted-weight : (t : A) (w : Waking A) → weight (posted t w) ≤ weight w + 4
  unfolding posted post weight
  posted-weight t w = elim (push-cases w.loop.tasks t) [
    | inl e ↦ rw e (omega arith)
    | inr e ↦ rw e (omega (arith, length-append w.loop.tasks.items (t ∷ [])))
  ]

  -- The tasks that have been taken in, in order: those that ran and those that wait.
  unfoldable pub taken_in : Waking A → List A
  taken_in w = w.ran ++ w.loop.tasks.items

  pub Turn-taken_in : {w v : Waking A} → Turn w v → taken_in v ≡ taken_in w
  unfolding taken_in wakeup read_pipe with_tasks
  Turn-taken_in (writes n e) = refl
  Turn-taken_in (reads d h) = refl
  Turn-taken_in {w} (runs t q d e) =
      append_assoc w.ran (t ∷ []) q.items ∙ ap (◌++◌ w.ran) (sym (popped-task w t q e))
  Turn-taken_in {w} (ends q d e) = ap (λ (s : SafeQueue A). w.ran ++ s.items) (popped-end w q e).1

  -- The bound of the queue, and whether it has been told to exit, stay.
  pub Turn-bounds :
      {w v : Waking A}
      → Turn w v
      → (v.loop.tasks.capacity ≡ w.loop.tasks.capacity) × (v.loop.tasks.exit ≡ w.loop.tasks.exit)
  unfolding wakeup read_pipe with_tasks popped
  Turn-bounds (writes n e) = (refl, refl)
  Turn-bounds (reads d h) = (refl, refl)
  Turn-bounds {w} (runs t q d e) =
      let same = (pop_wait-some w.loop.tasks q t (wait_ms 0) true e).1 in
      (ap (λ (s : SafeQueue A). s.capacity) same, ap (λ (s : SafeQueue A). s.exit) same)
  Turn-bounds {w} (ends q d e) =
      let same = (popped-end w q e).1 in
      (ap (λ (s : SafeQueue A). s.capacity) same, ap (λ (s : SafeQueue A). s.exit) same)
