-- ===== src/Tests/Clocks.antt =====
-- Timers, idle connections and the task queue on short runs.
use handy.Base.{ℕ, ◌≡◌, refl, true, false, some, List, [], ◌∷◌, arith, length, All, ◌≤◌}
use handy.Timers.{
  Key, TimerId, TimerRepeatable, Task, user, repeats, Timers, run_at, cancel, handle_timeouts,
  fire_loop, nearest, is_due,
}
use handy.EventLoop.{
  EventLoop, on_wakeup, safe_call, exit_loop, wait_time, alloc_base, add_task, work, address,
}
use handy.Timers.Sound.{IsSound, run_at-IsSound}
use handy.Timers.Calls.{run_at-IsKept}
use handy.Timers.Firing.{NoneDue}
use handy.Timers.Reps.{HasRep, HaveReps, weight}
use handy.Timers.Ending.{IsKept, handle_timeouts_lem}
use handy.Timers.Due.{due_keys, not_due, fire_loop-due_keys}
use handy.Base.Int.{pos, negsuc, as_int}
use handy.SafeQueue.History.{Call, pushes, pops, Trace, IsOrderly, run, start, run-IsOrderly}
use handy.SafeQueue.{wait_infinite, new_queue}
use handy.Idle.{IdleNode}
use handy.Idle.Lists.{Past}

abbrev early : Key
early = record { at = 5; seq = 1 }

abbrev late : Key
late = record { at = 9; seq = 2 }

-- two one-shot timers, at 5 and at 9
abbrev two_timers : Timers
two_timers = record {
  exit = false;
  next_timeout = pos 5;
  timers = (early, user 10) ∷ (late, user 20) ∷ [];
  timer_reps = [];
  timer_seq = 2;
}

early_first : handy.Timers.key_less early late ≡ true
unfolding handy.Timers.key_less
early_first = refl

two_timers-IsSound : IsSound two_timers
two_timers-IsSound = record {
  sorted = ((early_first, tt), (tt, tt));
  seqs = (omega arith, (omega arith, tt));
  ids = tt;
}

-- a task that does nothing to the timers
idle_task : ℕ → Timers → Timers
idle_task t s = s

idle_task-leaves : (t : ℕ) (s : Timers) → idle_task t s ≡ s
unfolding idle_task
idle_task-leaves t s = refl

abbrev late_only : Timers
late_only = record two_timers { timers = (late, user 20) ∷ [] }

early_cancelled : cancel two_timers (record { first = pos 5; second = 1 }) ≡ some (late_only, true)
unfolding cancel handy.Timers.has_timer handy.Timers.key_eq handy.Timers.erase_timer
early_cancelled = refl

fire_loop-due_keys_example :
    fire_loop idle_task 3 6 7 two_timers
    ≡ some
        (due_keys 6 two_timers.timers, record two_timers { timers = not_due 6 two_timers.timers })
fire_loop-due_keys_example =
    fire_loop-due_keys idle_task idle_task-leaves 3 6 7 two_timers two_timers.timers refl tt
      (omega arith)

abbrev fired_one : Timers
fired_one = record late_only { next_timeout = pos 2 }

one_fires : handle_timeouts idle_task 3 6 7 two_timers ≡ some (early ∷ [], fired_one)
unfolding handle_timeouts idle_task handy.Timers.key_less nearest as_int
one_fires = refl

-- a timer at 5 that is repeated every 2 milliseconds, and a one-shot timer at 9
abbrev ticks : TimerId
ticks = record { first = negsuc 4; second = 1 }

abbrev tick : Key
tick = record { at = 5; seq = 2 }

abbrev repeating : TimerRepeatable
repeating = record { at = 5; interval = 2; timerid = tick; cb = 10 }

abbrev last_key : Key
last_key = record { at = 9; seq = 3 }

abbrev ticking : Timers
ticking = record {
  exit = false;
  next_timeout = pos 5;
  timers = (tick, repeats ticks) ∷ (last_key, user 20) ∷ [];
  timer_reps = (ticks, repeating) ∷ [];
  timer_seq = 3;
}

ticking-IsKept : IsKept ticking
unfolding HaveReps HasRep handy.Timers.find_rep handy.Timers.key_less handy.Timers.id_eq
ticking-IsKept = record {
  sound = record {
    sorted = ((refl, tt), (tt, tt));
    seqs = (omega arith, (omega arith, tt));
    ids = (omega arith, tt);
  };
  have_reps = ((repeating, (refl, (omega arith, omega arith))), (tt, tt));
}

-- a task that sets a repeated timer for time 20
adds_timer : ℕ → Timers → Timers
adds_timer t s = (run_at s 8 20 7 3).0

adds_timer-IsSound : (t : ℕ) (s : Timers) → IsSound s → IsSound (adds_timer t s)
unfolding adds_timer
adds_timer-IsSound t s h = run_at-IsSound s 8 20 7 3 h

adds_timer-IsKept :
    (t : ℕ) (s : Timers)
    → IsKept s
    → IsKept (adds_timer t s) × (weight 8 (adds_timer t s).timers ≤ weight 8 s.timers)
unfolding adds_timer
adds_timer-IsKept t s kept = run_at-IsKept s 8 8 20 7 3 (omega arith) kept

handle_timeouts_lem_example :
    (fired : List Key) × (d : Timers) × ((handle_timeouts adds_timer 5 8 8 ticking
        ≡ some (fired, d))
      × (IsSound d
          × All (λ k. is_due 8 k ≡ true) fired
          × NoneDue 8 d.timers
          × (d.next_timeout ≡ nearest d.timers 8)))
handle_timeouts_lem_example =
    handle_timeouts_lem adds_timer 8 adds_timer-IsSound adds_timer-IsKept 5 8 ticking ticking-IsKept
      (unfold weight in omega arith)

abbrev queue_calls : List (Call ℕ)
queue_calls = pushes 7 ∷ pushes 8 ∷ pushes 9 ∷ pops wait_infinite false ∷ []

abbrev queue_trace : Trace ℕ
queue_trace = record {
  queue = record { items = 8 ∷ []; capacity = 2; exit = false };
  accepted = 7 ∷ 8 ∷ [];
  handed = 7 ∷ [];
}

queue_runs : run (start 2) queue_calls ≡ some queue_trace
unfolding run start handy.SafeQueue.History.after_pop handy.SafeQueue.pop_wait
    handy.SafeQueue.History.after_push handy.SafeQueue.push new_queue
queue_runs = refl

run-IsOrderly_example : IsOrderly queue_trace
run-IsOrderly_example = run-IsOrderly 2 queue_calls queue_trace queue_runs

abbrev nodes : List IdleNode
nodes = record { node = 0; con = 4; updated = 10 } ∷ record { node = 1; con = 5; updated = 18 } ∷ []

nodes-Past : Past 20 nodes
unfolding Past
nodes-Past = (omega arith, (omega arith, tt))

abbrev queued : EventLoop ℕ
queued = record {
  tasks = record { items = 7 ∷ 8 ∷ []; capacity = 0; exit = false };
  pipe = 2;
  exit = false;
  poller_exited = false;
}

no_effect : ℕ → EventLoop ℕ → EventLoop ℕ
no_effect t l = l

called_and_woken :
    on_wakeup no_effect 2
      (safe_call 9 (record queued { tasks = record (queued.tasks) { items = [] } }))
    ≡ (9 ∷ [], record queued { tasks = record (queued.tasks) { items = [] }; pipe = 0 })
unfolding on_wakeup safe_call no_effect
called_and_woken = refl

exits_and_wakes : (exit_loop queued).pipe ≡ 3
unfolding exit_loop
exits_and_wakes = refl

shorter_wait : wait_time (pos 10000) (pos 5) ≡ pos 5
unfolding wait_time
shorter_wait = refl

bases_in_turn : alloc_base 3 4 ≡ (1, 5)
unfolding alloc_base
bases_in_turn = refl

worker_takes :
    work (add_task 4 queued.tasks).0 ≡ some (some 7, record (queued.tasks) { items = 8 ∷ 4 ∷ [] })
unfolding work add_task
worker_takes = refl

local_address : length (address 16777343 80) ≡ 12
unfolding address
local_address = refl
