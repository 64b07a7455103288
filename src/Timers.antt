-- ===== src/Timers.antt =====
-- handy/event_base.cc: the timers of `EventsImp` (runAt, cancel, repeatableTimeout, refreshNearest,
-- handleTimeouts) and the exit flag. Times are milliseconds and not negative; a reading of the
-- clock is an argument. `none` is a fault: an iterator or a pointer that points at nothing.
pub mod Sorted
pub mod Sound
pub mod Cancel
pub mod Firing
pub mod Due
pub mod Reps
pub mod Ending
pub mod Calls
use mathlib.Core.Option
use handy.Base.{
  ℕ, zero, suc, ◌+◌, ◌^◌, Bool, true, false, not, ◌&&◌, ◌||◌, List, [], ◌∷◌, Option, none, some,
  ltb, ◌==◌, if◌then◌else◌,
}
use handy.Base.Int.{ℤ, pos, negsuc, as_int}
use handy.Base.Sizes.{sub_size_t}

-- The keys of `timers_`: pair<int64_t, int64_t>.
pub record Key : Type 0 where
  pub at : ℕ
  pub seq : ℕ

-- TimerId as callers see it; a repeated timer has a first component that is not positive.
pub record TimerId : Type 0 where
  pub first : ℤ
  pub second : ℕ

-- A Task: the user's, by a label, or the closure that calls repeatableTimeout on an entry of
-- `timerReps_`.
pub data Task : Type 0 where
  user : ℕ → Task
  repeats : TimerId → Task

pub record TimerRepeatable : Type 0 where
  pub at : ℕ
  pub interval : ℕ
  pub timerid : Key
  pub cb : ℕ

pub record Timers : Type 0 where
  pub exit : Bool
  pub next_timeout : ℤ
  pub timers : List (Key × Task)
  pub timer_reps : List (TimerId × TimerRepeatable)
  pub timer_seq : ℕ

-- operator< of pairs
unfoldable pub key_less : Key → Key → Bool
key_less k j = ltb k.at j.at || (k.at == j.at && ltb k.seq j.seq)

unfoldable pub key_eq : Key → Key → Bool
key_eq k j = k.at == j.at && k.seq == j.seq

pub int_eq : ℤ → ℤ → Bool
int_eq (pos a) (pos b) = a == b
int_eq (negsuc a) (negsuc b) = a == b
int_eq _ _ = false

unfoldable pub id_eq : TimerId → TimerId → Bool
unfolding int_eq
id_eq i j = int_eq i.first j.first && i.second == j.second

-- timers_[k] = t
pub insert_timer : Key → Task → List (Key × Task) → List (Key × Task)
insert_timer k t [] = (k, t) ∷ []
insert_timer k t ((j, u) ∷ m) =
    let rest = insert_timer k t m in
    if key_less k j then (k, t) ∷ (j, u) ∷ m else if key_less j k then (j, u) ∷ rest else (j, t) ∷ m

unfoldable pub has_timer : Key → List (Key × Task) → Bool
has_timer k [] = false
has_timer k ((j, u) ∷ m) = key_eq j k || has_timer k m

unfoldable pub erase_timer : Key → List (Key × Task) → List (Key × Task)
erase_timer k [] = []
erase_timer k ((j, u) ∷ m) = let rest = erase_timer k m in if key_eq j k then m else (j, u) ∷ rest

-- timerReps_[i] = r, where `i` is a new key; and a write through a pointer to an entry
unfoldable pub find_rep : TimerId → List (TimerId × TimerRepeatable) → Option TimerRepeatable
find_rep i [] = none
find_rep i ((j, r) ∷ m) = if id_eq j i then some r else find_rep i m

pub set_rep :
    TimerId → TimerRepeatable → List (TimerId × TimerRepeatable) → List (TimerId × TimerRepeatable)
set_rep i r [] = (i, r) ∷ []
set_rep i r ((j, q) ∷ m) =
    let rest = set_rep i r m in if id_eq j i then (j, r) ∷ m else (j, q) ∷ rest

pub erase_rep : TimerId → List (TimerId × TimerRepeatable) → List (TimerId × TimerRepeatable)
erase_rep i [] = []
erase_rep i ((j, q) ∷ m) = let rest = erase_rep i m in if id_eq j i then m else (j, q) ∷ rest

-- nextTimeout_ = t.first - util::timeMilli(), an int; then a negative one becomes 0
pub wait_for : ℕ → ℕ → ℤ
wait_for at now = elim (as_int (sub_size_t at now)) [ pos n ↦ pos n | negsuc n ↦ pos 0 ]

unfoldable pub nearest : List (Key × Task) → ℕ → ℤ
unfolding wait_for
nearest [] now = pos (2 ^ 30)
nearest ((k, t) ∷ m) now = wait_for k.at now

unfoldable pub refresh_nearest : Timers → ℕ → Timers
refresh_nearest s now = record s { next_timeout = nearest s.timers now }

-- -milli
abbrev pub negate : ℕ → ℤ
negate zero = pos 0
negate (suc n) = negsuc n

-- TimerId()
abbrev pub no_timer : TimerId
no_timer = record { first = pos 0; second = 0 }

pub run_once : Timers → ℕ → ℕ → ℕ → Timers × TimerId
unfolding refresh_nearest
run_once s now milli task =
    let key : Key = record { at = milli; seq = suc s.timer_seq } in
    (
      refresh_nearest
          (record s { timers = insert_timer key (user task) s.timers; timer_seq = suc s.timer_seq })
          now,
      record { first = pos milli; second = suc s.timer_seq },
    )

pub run_repeated : Timers → ℕ → ℕ → ℕ → ℕ → Timers × TimerId
unfolding refresh_nearest
run_repeated s now milli task interval =
    let tid : TimerId = record { first = negate milli; second = suc s.timer_seq } in
    let key : Key = record { at = milli; seq = suc (suc s.timer_seq) } in
    let rtr : TimerRepeatable = record {
      at = milli;
      interval = interval;
      timerid = key;
      cb = task;
    } in
    (
      refresh_nearest
          (record s {
            timers = insert_timer key (repeats tid) s.timers;
            timer_reps = set_rep tid rtr s.timer_reps;
            timer_seq = suc (suc s.timer_seq);
          })
          now,
      tid,
    )

-- runAt(milli, task, interval)
pub run_at : Timers → ℕ → ℕ → ℕ → ℕ → Timers × TimerId
unfolding run_once run_repeated
run_at s now milli task interval =
    if s.exit
    then (s, no_timer)
    else if not (interval == 0)
    then run_repeated s now milli task interval
    else run_once s now milli task

pub cancel_repeated : Timers → TimerId → Option TimerRepeatable → Option (Timers × Bool)
cancel_repeated s i none = none
cancel_repeated s i (some r) = some (
  record s { timers = erase_timer r.timerid s.timers; timer_reps = erase_rep i s.timer_reps },
  true,
)

pub cancel_once : Timers → Key → Timers × Bool
cancel_once s k =
    if has_timer k s.timers
    then (record s { timers = erase_timer k s.timers }, true)
    else (s, false)

pub cancel_in : ℤ → Timers → TimerId → Option (Timers × Bool)
unfolding cancel_once cancel_repeated
cancel_in (negsuc n) s i = cancel_repeated s i (find_rep i s.timer_reps)
cancel_in (pos n) s i = some (cancel_once s (record { at = n; seq = i.second }))

-- cancel(timerid), by the sign of its first component
unfoldable pub cancel : Timers → TimerId → Option (Timers × Bool)
unfolding cancel_in
cancel s i = cancel_in i.first s i

-- begin()->first < tid
abbrev pub is_due : ℕ → Key → Bool
is_due now k = key_less k (record { at = now; seq = 2 ^ 62 })

-- `act` is what the user's tasks do to the timers, through the calls above.
module _ (act : ℕ → Timers → Timers) where
  pub repeat_entry : TimerId → Timers → ℕ → Option TimerRepeatable → Option Timers
  unfolding refresh_nearest
  repeat_entry i s now none = none
  repeat_entry i s now (some r) =
      let key : Key = record { at = r.at + r.interval; seq = suc s.timer_seq } in
      some (
        act r.cb (
          refresh_nearest
            (record s {
              timers = insert_timer key (repeats i) s.timers;
              timer_reps =
                  set_rep i (record r { at = r.at + r.interval; timerid = key }) s.timer_reps;
              timer_seq = suc s.timer_seq;
            })
            now))

  -- repeatableTimeout(tr)
  pub repeatable_timeout : TimerId → Timers → ℕ → Option Timers
  unfolding repeat_entry
  repeatable_timeout i s now = repeat_entry i s now (find_rep i s.timer_reps)

  pub call_task : Task → Timers → ℕ → Option Timers
  unfolding repeatable_timeout
  call_task (user t) s later = some (act t s)
  call_task (repeats i) s later = repeatable_timeout i s later

  -- The rest of a round, after the task `k` was called; `again` is the loop.
  pub after_task :
      (Timers → Option (List Key × Timers)) → Key → Option Timers → Option (List Key × Timers)
  after_task again k none = none
  after_task again k (some s) = Option.map (λ (r : List Key × Timers). (k ∷ r.0, r.1)) (again s)

  -- A round of the loop, on the timers that `s` holds.
  unfoldable pub fire_first :
      (Timers → Option (List Key × Timers))
      → ℕ
      → ℕ
      → Timers
      → List (Key × Task)
      → Option (List Key × Timers)
  unfolding call_task after_task
  fire_first again now later s [] = some ([], s)
  fire_first again now later s ((k, t) ∷ m) = elim (is_due now k) [
    | false ↦ some ([], s)
    | true ↦ after_task again k (call_task t (record s { timers = m }) later)
  ]

  -- The loop of handleTimeouts; `later` is the clock while the tasks run and when the loop ends.
  -- The keys of the timers that fired are returned too. Out of fuel is a fault as well.
  unfoldable pub fire_loop : ℕ → ℕ → ℕ → Timers → Option (List Key × Timers)
  unfolding fire_first
  fire_loop zero now later s = none
  fire_loop (suc fuel) now later s = fire_first (fire_loop fuel now later) now later s s.timers

  unfoldable pub handle_timeouts : ℕ → ℕ → ℕ → Timers → Option (List Key × Timers)
  unfolding fire_loop refresh_nearest
  handle_timeouts fuel now later s =
      Option.map (λ (r : List Key × Timers). (r.0, refresh_nearest r.1 later))
        (fire_loop fuel now later s)
