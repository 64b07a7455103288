-- ===== src/Timers/Calls.antt =====
-- handy/event_base.cc: tasks that call runAt for a later time keep the timers as handleTimeouts needs them.
use handy.Base.{
  ℕ, zero, suc, ◌≤◌, ◌<◌, ◌≡◌, inl, inr, refl, true, not, Option, none, some, List, [], ◌∷◌, arith,
  Bool-cases, if_cases, ◌==◌,
}
use handy.Timers.{
  Key, TimerId, Task, user, repeats, TimerRepeatable, Timers, id_eq, insert_timer, find_rep,
  set_rep, run_at, run_once, run_repeated, refresh_nearest, negate,
}
use handy.Timers.Firing.{find_rep-IdsUpTo}
use handy.Timers.Sorted.{IdsUpTo}
use handy.Timers.Sound.{run_at-IsSound}
use handy.Timers.Reps.{weight, insert-weight, HasRep, HaveReps, insert-HaveReps}
use handy.Timers.Ending.{IsKept}

-- An entry under another id is found as before.
set_rep-find_old :
    (i j : TimerId) (r q : TimerRepeatable) (m : List (TimerId × TimerRepeatable))
    → find_rep i m ≡ none
    → find_rep j m ≡ some q
    → find_rep j (set_rep i r m) ≡ some q
unfolding find_rep set_rep
set_rep-find_old i j r q [] e d = absurd cc
set_rep-find_old i j r q ((l, x) ∷ m) e d = elim (Bool-cases (id_eq l i)) [
  | inl hit ↦ absurd (let h : some x ≡ none = rw hit at e in cc)
  | inr miss ↦ elim (Bool-cases (id_eq l j)) [
    | inl found ↦ rw (miss, found) (rw found at d)
    | inr further ↦ rw (miss, further) (set_rep-find_old i j r q m (rw miss at e) (rw further at d))
  ]
]

find_rep-set :
    (i : TimerId) (r : TimerRepeatable) (m : List (TimerId × TimerRepeatable))
    → find_rep i m ≡ none
    → id_eq i i ≡ true
    → find_rep i (set_rep i r m) ≡ some r
unfolding find_rep set_rep
find_rep-set i r [] e same = rw same refl
find_rep-set i r ((l, x) ∷ m) e same = elim (Bool-cases (id_eq l i)) [
  | inl hit ↦ absurd (let h : some x ≡ none = rw hit at e in cc)
  | inr miss ↦ rw (miss, miss) (find_rep-set i r m (rw miss at e) same)
]

set_rep-HaveReps_new :
    (i : TimerId) (r : TimerRepeatable) (reps : List (TimerId × TimerRepeatable))
    (m : List (Key × Task))
    → find_rep i reps ≡ none
    → HaveReps reps m
    → HaveReps (set_rep i r reps) m
unfolding HaveReps HasRep
set_rep-HaveReps_new i r reps [] e hs = tt
set_rep-HaveReps_new i r reps ((l, user t) ∷ m) e hs = (tt, set_rep-HaveReps_new i r reps m e hs.1)
set_rep-HaveReps_new i r reps ((l, repeats j) ∷ m) e ((q, (d, rest)), hs) =
    ((q, (set_rep-find_old i j r q reps e d, rest)), set_rep-HaveReps_new i r reps m e hs)

fresh :
    (n : ℕ) (i : TimerId) (m : List (TimerId × TimerRepeatable))
    → IdsUpTo n m
    → n < i.second
    → find_rep i m ≡ none
fresh n i m ids h = none_found (find_rep i m) refl
  where
    none_found : (o : Option TimerRepeatable) → find_rep i m ≡ o → o ≡ none
    none_found none e = refl
    none_found (some r) e = absurd (omega (arith, h, find_rep-IdsUpTo n i m ids e))

id_eq_self :
    (milli n : ℕ)
    → id_eq
        (record { first = negate milli; second = n })
        (record { first = negate milli; second = n })
      ≡ true
unfolding id_eq
id_eq_self zero n = ground arith
id_eq_self (suc m) n = ground arith

run_once-weight :
    (now milli : ℕ) (k : Key) (t : Task) (m : List (Key × Task))
    → k.at ≡ milli
    → now < milli
    → weight now (insert_timer k t m) ≤ weight now m
run_once-weight now milli k t m e later = omega (arith, insert-weight now k t m, e, later)

-- What a call leaves of the entries and of the weight.
StaysLight : ℕ → Timers → Timers × TimerId → Type 0
StaysLight now s x =
    HaveReps x.0.timer_reps x.0.timers × (weight now x.0.timers ≤ weight now s.timers)

run_once-StaysLight :
    (s : Timers) (clock now milli task : ℕ)
    → now < milli
    → IsKept s
    → StaysLight now s (run_once s clock milli task)
unfolding run_once StaysLight refresh_nearest
run_once-StaysLight s clock now milli task later kept =
    let key : Key = record { at = milli; seq = suc s.timer_seq } in
    (
      insert-HaveReps s.timer_reps key (user task) s.timers (unfold HasRep in tt) kept.have_reps,
      run_once-weight now milli key (user task) s.timers refl later,
    )

run_repeated-StaysLight :
    (s : Timers) (clock now milli task interval : ℕ)
    → now < milli
    → 1 ≤ interval
    → IsKept s
    → StaysLight now s (run_repeated s clock milli task interval)
unfolding run_repeated StaysLight refresh_nearest
run_repeated-StaysLight s clock now milli task interval later often kept =
    let tid : TimerId = record { first = negate milli; second = suc s.timer_seq } in
    let key : Key = record { at = milli; seq = suc (suc s.timer_seq) } in
    let rtr : TimerRepeatable = record {
      at = milli;
      interval = interval;
      timerid = key;
      cb = task;
    } in
    let new = fresh s.timer_seq tid s.timer_reps kept.sound.ids (omega arith) in
    let found = find_rep-set tid rtr s.timer_reps new (id_eq_self milli (suc s.timer_seq)) in
    (
      insert-HaveReps (set_rep tid rtr s.timer_reps) key (repeats tid) s.timers
          (unfold HasRep in (rtr, (found, (omega arith, often))))
          (set_rep-HaveReps_new tid rtr s.timer_reps s.timers new kept.have_reps),
      run_once-weight now milli key (repeats tid) s.timers refl later,
    )

nonzero : (n : ℕ) → not (n == 0) ≡ true → 1 ≤ n
nonzero n e = ground arith

run_at-StaysLight :
    (s : Timers) (clock now milli task interval : ℕ)
    → now < milli
    → IsKept s
    → StaysLight now s (run_at s clock milli task interval)
unfolding run_at
run_at-StaysLight s clock now milli task interval later kept =
    if_cases (StaysLight now s) s.exit _ _ (λ e. unfold StaysLight in (kept.have_reps, omega arith))
      (λ _.
        if_cases (StaysLight now s) (not (interval == 0)) _ _
          (λ e.
            run_repeated-StaysLight s clock now milli task interval later (nonzero interval e) kept)
          (λ _. run_once-StaysLight s clock now milli task later kept))

-- runAt for a time that is still to come keeps the timers sound and each repeated one with its entry,
-- and sets no timer that is due.
pub run_at-IsKept :
    (s : Timers) (clock now milli task interval : ℕ)
    → now < milli
    → IsKept s
    → IsKept (run_at s clock milli task interval).0
      × (weight now (run_at s clock milli task interval).0.timers ≤ weight now s.timers)
run_at-IsKept s clock now milli task interval later kept =
    let (have, light) : HaveReps (run_at s clock milli task interval).0.timer_reps
          (run_at s clock milli task interval).0.timers
        × (weight now (run_at s clock milli task interval).0.timers ≤ weight now s.timers) =
      unfold StaysLight in run_at-StaysLight s clock now milli task interval later kept in
    (
      record { sound = run_at-IsSound s clock milli task interval kept.sound; have_reps = have },
      light,
    )
