-- ===== src/EventLoop.antt =====
-- handy/event_base.h, handy/event_base.cc and handy/threads.cc: how tasks reach the loop that runs them.
-- `pipe` counts the bytes that wait in the wake-up pipe. What a task is and what it does to the
-- loop are parameters; poll and the timers are in Poller and Timers.
pub mod Tasks
pub mod Wakeup
pub mod Settling
pub mod Looping
use handy.Base.{
  ℕ, zero, suc, ◌+◌, ◌-◌, ◌%◌, ◌*◌, ◌/◌, ◌^◌, min, Bool, true, false, not, Option, none, some, List,
  [], ◌∷◌, ◌++◌, Bytes, length, leb, ltb, if◌then◌else◌,
}
use handy.Base.Int.{ℤ, pos, negsuc, leb_ℤ, as_int, as_size_t}
use handy.SafeQueue.{SafeQueue, push, Wait, wait_ms, wait_infinite, pop_wait, exited}
use handy.Http.Request.{show_digits}

pub record EventLoop {ℓ} (A : Type ℓ) : Type ℓ where
  pub tasks : SafeQueue A
  pub pipe : ℕ
  pub exit : Bool
  pub poller_exited : Bool

module _ {ℓ} {A : Type ℓ} where
  -- EventsImp::wakeup
  unfoldable pub wakeup : EventLoop A → EventLoop A
  wakeup l = record l { pipe = l.pipe + 1 }

  -- EventsImp::exit
  unfoldable pub exit_loop : EventLoop A → EventLoop A
  unfolding wakeup
  exit_loop l = record (wakeup (record l { exit = true })) { poller_exited = true }

  -- tasks_.push, whose result safeCall does not look at
  unfoldable pub post : A → EventLoop A → EventLoop A
  unfolding push
  post t l = record l { tasks = (push l.tasks t).0 }

  -- EventsImp::safeCall
  unfoldable pub safe_call : A → EventLoop A → EventLoop A
  unfolding wakeup post
  safe_call t l = wakeup (post t l)

  -- ::read(ch->fd(), buf, sizeof buf) in the callback of the pipe's channel
  unfoldable pub read_pipe : EventLoop A → EventLoop A
  read_pipe l = record l { pipe = l.pipe - min l.pipe 1024 }

-- What EventsImp::loop_once waits at most: the smaller of the two times.
unfoldable pub wait_time : ℤ → ℤ → ℤ
wait_time wait next = if leb_ℤ wait next then wait else next

module _ {ℓ} {A : Type ℓ} (act : A → EventLoop A → EventLoop A) where
  -- Behind tasks_.pop_wait(&task, 0); `again` is the loop.
  pub after_pop :
      (EventLoop A → List A × EventLoop A)
      → EventLoop A
      → Option (Option A × SafeQueue A)
      → List A × EventLoop A
  after_pop again l none = ([], l)
  after_pop again l (some (none, q)) = ([], record l { tasks = q })
  after_pop again l (some (some t, q)) =
      let r = again (act t (record l { tasks = q })) in (t ∷ r.0, r.1)

  -- while (tasks_.pop_wait(&task, 0)) task(), on fuel: the tasks that ran, in order.
  pub run_tasks : ℕ → EventLoop A → List A × EventLoop A
  unfolding after_pop pop_wait
  run_tasks zero l = ([], l)
  run_tasks (suc fuel) l = after_pop (run_tasks fuel) l (pop_wait l.tasks (wait_ms 0) true)

  -- The callback of the pipe's channel, where the pipe is not closed: one read takes 1024 bytes.
  unfoldable pub on_wakeup : ℕ → EventLoop A → List A × EventLoop A
  unfolding run_tasks read_pipe
  on_wakeup fuel l = if leb 1 l.pipe then run_tasks fuel (read_pipe l) else ([], l)

-- MultiBase: the number of the base, and the next id_. id_ is an int, given by its 32 bits, which wraps
-- around, and a negative one becomes a large size_t before the remainder is taken.
unfoldable pub alloc_base : ℕ → ℕ → ℕ × ℕ
unfolding as_int as_size_t
alloc_base bases id = (as_size_t (as_int id) % bases, (id + 1) % 2 ^ 32)

module _ {ℓ} {A : Type ℓ} where
  -- ThreadPool::addTask
  unfoldable pub add_task : A → SafeQueue A → SafeQueue A × Bool
  unfolding push
  add_task t q = push q t

  -- A round of a thread of ThreadPool: the task that it runs; `none` where it waits.
  unfoldable pub work : SafeQueue A → Option (Option A × SafeQueue A)
  unfolding pop_wait exited
  work q = if exited q then some (none, q) else pop_wait q wait_infinite false

-- Ip4Addr: the address in network order, as the little-endian number that it is in memory.
pub ip : ℕ → Bytes
unfolding show_digits
ip a =
    show_digits 20 (a % 256)
    ++ b'.'
      ∷ (show_digits 20 (a / 2 ^ 8 % 256)
          ++ b'.' ∷ (show_digits 20 (a / 2 ^ 16 % 256) ++ b'.' ∷ show_digits 20 (a / 2 ^ 24 % 256)))

unfoldable pub address : ℕ → ℕ → Bytes
unfolding ip show_digits
address a port = ip a ++ b':' ∷ show_digits 20 port
