-- ===== src/SafeQueue.antt =====
-- handy/threads.h: `SafeQueue`. Every method holds the lock from its first look at the queue to its
-- return, but for the wait in wait_ready; so a run of the threads is a sequence of calls, a pop
-- standing where its wait is over.
pub mod History
use handy.Base.{
  ℕ, zero, suc, ◌≤◌, ◌≡◌, Bool, true, false, not, ◌&&◌, ◌||◌, Option, none, some, List, [], ◌∷◌,
  ◌++◌, length, leb, ◌==◌, if◌then◌else◌,
}

pub record SafeQueue {ℓ} (A : Type ℓ) : Type ℓ where
  pub items : List A
  pub capacity : ℕ
  pub exit : Bool

-- waitMs: wait_infinite, or a number of milliseconds
pub data Wait : Type 0 where
  wait_infinite : Wait
  wait_ms : ℕ → Wait

module _ {ℓ} {A : Type ℓ} where
  unfoldable pub new_queue : ℕ → SafeQueue A
  new_queue capacity = record { items = []; capacity = capacity; exit = false }

  pub is_empty : List A → Bool
  is_empty [] = true
  is_empty (x ∷ xs) = false

  pub size : SafeQueue A → ℕ
  size q = length q.items

  unfoldable pub exited : SafeQueue A → Bool
  exited q = q.exit

  -- exit(): the notification is for those who wait
  unfoldable pub exit_queue : SafeQueue A → SafeQueue A
  exit_queue q = record q { exit = true }

  -- the new queue, and what push returns
  unfoldable pub push : SafeQueue A → A → SafeQueue A × Bool
  push q v =
      if q.exit || (not (q.capacity == 0) && leb q.capacity (length q.items))
      then (q, false)
      else (record q { items = q.items ++ v ∷ [] }, true)

  -- Whether wait_ready may return now; `timed_out` says that a time has run out.
  unfoldable pub may_return : SafeQueue A → Wait → Bool → Bool
  unfolding is_empty
  may_return q wait_infinite timed_out = q.exit || not (is_empty q.items)
  may_return q (wait_ms n) timed_out = q.exit || not (is_empty q.items) || n == 0 || timed_out

  -- pop_wait(v, waitMs) behind its wait: the item, if it returns true; the other overload returns
  -- T() where this one returns false
  unfoldable pub pop_items : SafeQueue A → List A → Option A × SafeQueue A
  pop_items q [] = (none, q)
  pop_items q (v ∷ rest) = (some v, record q { items = rest })

  unfoldable pub pop_ready : SafeQueue A → Option A × SafeQueue A
  unfolding pop_items
  pop_ready q = pop_items q q.items

  -- `none` while the call has to wait
  unfoldable pub pop_wait : SafeQueue A → Wait → Bool → Option (Option A × SafeQueue A)
  unfolding may_return pop_ready
  pop_wait q wait timed_out = if may_return q wait timed_out then some (pop_ready q) else none
