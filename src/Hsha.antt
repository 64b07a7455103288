-- ===== src/Hsha.antt =====
-- HSHA of handy/conn.cc and HSHAU of handy/udp.cc with the ThreadPool of handy/threads.cc: the loop
-- hands requests to worker threads, which compute the answers and post them back to the loop.
-- A peer is a connection, for HSHAU the socket with the sender's address. The steps are those of
-- all threads in any order; a callback of the loop does not run while the loop runs posted tasks.
pub mod Answers
pub mod Order
pub mod Progress
use mathlib.Core.Option
use mathlib.Core.Path.{ap₂}
use handy.Base.{
  ℕ, zero, suc, ◌+◌, ◌-◌, ◌*◌, ◌/◌, ◌%◌, ◌^◌, ◌≤◌, ◌<◌, min, max, ◌≡◌, ◌≢◌, ◌↔◌, ◌⊎◌, inl, inr,
  refl, sym, ap, ◌∙◌, subst, Bool, true, false, not, ◌&&◌, ◌||◌, Option, none, some, List, [], ◌∷◌,
  ◌++◌, map, reverse, append-nil, append_assoc, arith, ltb, leb, ◌==◌, if◌then◌else◌, ltb→lt,
  lt→ltb, leb→le, ==_iff, ==_self, Bool-cases, ℕ-cases, List-cases, Option-cases, if_cases, Bytes,
  codes, length, take, drop, get_elem?, All, length-append, length-take, length-drop,
  take-append-drop, take-all, drop-all, take-append, drop-append, take-append_le, drop-append_le,
  take-append_ge, drop-drop, take-drop, same_bytes, same_bytes_iff,
}
use handy.SafeQueue.{SafeQueue, push, pop_wait, wait_infinite, exit_queue, new_queue, exited}
use handy.EventLoop.{EventLoop, add_task, post}
use handy.EventLoop.Wakeup.{Waking, posted, Turn}

pub record Request {ℓ} (P : Type ℓ) : Type ℓ where
  pub peer : P
  pub input : Bytes

-- The task that a worker posts: what it has captured.
pub record Reply {ℓ} (P : Type ℓ) : Type ℓ where
  pub peer : P
  pub output : Bytes

-- `working` are the requests whose tasks run now, each in its own thread. Beside the program's own
-- state there are the requests that addTask took and the replies that a push refused.
pub record Hsha {ℓ} (P : Type ℓ) : Type ℓ where
  pub pool : SafeQueue (Request P)
  pub threads : ℕ
  pub working : List (Request P)
  pub loop : Waking (Reply P)
  pub accepted : List (Request P)
  pub refused : List (Reply P)

module _ {ℓ} {P : Type ℓ} where
  -- A server on a new EventBase with this capacity for tasks; the pool has no bound.
  unfoldable pub start : ℕ → ℕ → Hsha P
  unfolding new_queue
  start threads capacity = record {
    pool = new_queue 0;
    threads = threads;
    working = [];
    loop = record {
      loop = record { tasks = new_queue capacity; pipe = 0; exit = false; poller_exited = false };
      writing = 0;
      draining = false;
      ran = [];
    };
    accepted = [];
    refused = [];
  }

  pub after_add_task : Request P → Hsha P → SafeQueue (Request P) × Bool → Hsha P
  after_add_task r s (q, true) = record s { pool = q; accepted = s.accepted ++ r ∷ [] }
  after_add_task r s (q, false) = record s { pool = q }

  -- The callback that onMsg sets: threadPool_.addTask(…)
  unfoldable pub on_msg : Request P → Hsha P → Hsha P
  unfolding after_add_task add_task
  on_msg r s = after_add_task r s (add_task r s.pool)

  -- ThreadPool::exit
  unfoldable pub exit_pool : Hsha P → Hsha P
  unfolding exit_queue
  exit_pool s = record s { pool = exit_queue s.pool }

  -- The task of the loop: if (output.size()) con->sendMsg(output); the calls of sendMsg that it makes. What
  -- sendMsg does, nothing where the connection has lost its channel, is that of a connection.
  pub msg_call : Reply P → List (P × Bytes)
  msg_call r = elim r.output [ [] ↦ [] | b ∷ bs ↦ (r.peer, b ∷ bs) ∷ [] ]

  unfoldable pub msg_calls : List (Reply P) → List (P × Bytes)
  unfolding msg_call
  msg_calls [] = []
  msg_calls (r ∷ rs) = msg_call r ++ msg_calls rs

  -- The first half of getBase()->safeCall(…); the push may refuse.
  unfoldable pub post_reply : Reply P → Hsha P → Hsha P
  unfolding posted push
  post_reply r s = record s {
    loop = posted r s.loop;
    refused = if (push s.loop.loop.tasks r).1 then s.refused else s.refused ++ r ∷ [];
  }

module _ {ℓ} {P : Type ℓ} (cb : P → Bytes → Bytes) where
  -- std::string output = cb(con, input)
  unfoldable pub answer : Request P → Reply P
  answer r = record { peer = r.peer; output = cb r.peer r.input }

  -- What happens by itself. A thread that has found its pool not exited may take a task after an
  -- exit that comes then, so that `starts` asks only what pop_wait asks.
  pub data Work (s : Hsha P) : Hsha P → Type ℓ where
    starts :
        (r : Request P) (q : SafeQueue (Request P))
        → length s.working < s.threads
        → pop_wait s.pool wait_infinite false ≡ some (some r, q)
        → Work s (record s { pool = q; working = s.working ++ r ∷ [] })
    finishes :
        (before after : List (Request P)) (r : Request P)
        → s.working ≡ before ++ r ∷ after
        → Work s (post_reply (answer r) (record s { working = before ++ after }))
    turns : (v : Waking (Reply P)) → Turn s.loop v → Work s (record s { loop = v })

  pub data Step (s : Hsha P) : Hsha P → Type ℓ where
    works : {u : Hsha P} → Work s u → Step s u
    takes : (r : Request P) → s.loop.draining ≡ false → Step s (on_msg r s)
    exits : Step s (exit_pool s)

  pub data Steps : Hsha P → Hsha P → Type ℓ where
    done : {s : Hsha P} → Steps s s
    step : {s u v : Hsha P} → Steps s u → Step u v → Steps s v
