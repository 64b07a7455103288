-- ===== src/Timers/Ending.antt =====
-- handy/event_base.cc: the loop of handleTimeouts ends, repeated timers included.
use mathlib.Core.Option
use handy.Base.{
  ℕ, zero, suc, ◌+◌, ◌-◌, ◌≤◌, ◌<◌, ◌≡◌, inl, inr, refl, ap, ◌∙◌, subst, true, Option, some, List,
  [], ◌∷◌, arith, Bool-cases, All,
}
use handy.Timers.{
  Key, TimerId, Task, user, repeats, TimerRepeatable, Timers, key_less, insert_timer, find_rep,
  set_rep, is_due, nearest, refresh_nearest, repeat_entry, repeatable_timeout, call_task,
  after_task, fire_first, fire_loop, handle_timeouts,
}
use handy.Timers.Sorted.{IsSorted, SeqsUpTo}
use handy.Timers.Sound.{IsSound}
use handy.Timers.Firing.{repeat_entry-IsSound, NoneDue, handle_timeouts-IsSound}
use handy.Timers.Reps.{
  weight, insert-weight, HasRep, HaveReps, insert-HaveReps, moved, set_rep-HaveReps, found-moved,
}

-- Sound timers of which each repeated one has its entry.
pub record IsKept (s : Timers) : Type 0 where
  pub sound : IsSound s
  pub have_reps : HaveReps s.timer_reps s.timers

due-at : (now : ℕ) (k : Key) → is_due now k ≡ true → k.at ≤ now
unfolding key_less
due-at now k e = ground arith

-- The timers behind a task that has been called.
record Called (now bound : ℕ) (o : Option Timers) : Type 0 where
  behind : Timers
  returns : o ≡ some behind
  kept : IsKept behind
  lighter : weight now behind.timers < bound

module _ (act : ℕ → Timers → Timers) (now : ℕ)
    (keeps : (t : ℕ) (s : Timers)
      → IsKept s
      → IsKept (act t s) × (weight now (act t s).timers ≤ weight now s.timers)) where
  repeated : TimerId → TimerRepeatable → ℕ → Timers → Timers
  unfolding refresh_nearest
  repeated i r later s =
      let key : Key = record { at = r.at + r.interval; seq = suc s.timer_seq } in
      refresh_nearest
        (record s {
          timers = insert_timer key (repeats i) s.timers;
          timer_reps = set_rep i (record r { at = r.at + r.interval; timerid = key }) s.timer_reps;
          timer_seq = suc s.timer_seq;
        })
        later

  repeated-IsKept :
      (i : TimerId) (r : TimerRepeatable) (later : ℕ) (s : Timers)
      → find_rep i s.timer_reps ≡ some r
      → 1 ≤ r.interval
      → IsKept s
      → IsKept (repeated i r later s)
  unfolding repeated refresh_nearest
  repeated-IsKept i r later s e often kept =
      let key : Key = record { at = r.at + r.interval; seq = suc s.timer_seq } in
      let reps = set_rep i (moved r key) s.timer_reps in
      record {
        sound =
            unfold repeat_entry in
            repeat_entry-IsSound (λ t x. x) (λ t x h. h) i s later (some r) kept.sound e;
        have_reps =
            insert-HaveReps reps key (repeats i) s.timers
              (unfold HasRep in
                (moved r key, (found-moved i key r s.timer_reps e, (omega arith, often))))
              (set_rep-HaveReps i key r s.timer_reps s.timers e kept.have_reps);
      }

  others-IsKept :
      (k : Key) (t : Task) (m : List (Key × Task)) (s : Timers)
      → s.timers ≡ (k, t) ∷ m
      → IsKept s
      → IsKept (record s { timers = m }) × HasRep s.timer_reps k t
  unfolding HaveReps
  others-IsKept k t m s e kept =
      let sorted : IsSorted ((k, t) ∷ m) = subst IsSorted e kept.sound.sorted in
      let seqs : SeqsUpTo s.timer_seq ((k, t) ∷ m) =
        subst (SeqsUpTo s.timer_seq) e kept.sound.seqs in
      let have : HaveReps s.timer_reps ((k, t) ∷ m) =
        subst (HaveReps s.timer_reps) e kept.have_reps in
      (
        record {
          sound = record { sorted = sorted.1; seqs = seqs.1; ids = kept.sound.ids };
          have_reps = have.1;
        },
        have.0,
      )

  called :
      (k : Key) (t : Task) (m : List (Key × Task)) (s : Timers) (later : ℕ)
      → is_due now k ≡ true
      → IsKept (record s { timers = m })
      → HasRep s.timer_reps k t
      → Called now (weight now ((k, t) ∷ m)) (call_task act t (record s { timers = m }) later)
  unfolding call_task weight
  called k (user t) m s later due kept has =
      let (stays, lessens) = keeps t (record s { timers = m }) kept in
      record {
        behind = act t (record s { timers = m });
        returns = refl;
        kept = stays;
        lighter = omega (arith, lessens, due-at now k due);
      }
  called k (repeats i) m s later due kept has =
      let entry : (r : TimerRepeatable) × ((find_rep i s.timer_reps ≡ some r)
            × ((k.at ≤ r.at) × (1 ≤ r.interval))) =
        unfold HasRep in has in
      let (r, (e, (ahead, often))) = entry in
      let next = repeated i r later (record s { timers = m }) in
      let again_kept = repeated-IsKept i r later (record s { timers = m }) e often kept in
      let (stays, lessens) = keeps r.cb next again_kept in
      let key : Key = record { at = r.at + r.interval; seq = suc s.timer_seq } in
      let inserted : weight now next.timers ≤ (now + 1 - (r.at + r.interval)) + weight now m =
        unfold repeated refresh_nearest in insert-weight now key (repeats i) m in
      record {
        behind = act r.cb next;
        returns =
            unfold repeatable_timeout in
            unfold repeat_entry in
            unfold repeated in ap (repeat_entry act i (record s { timers = m }) later) e;
        kept = stays;
        lighter = omega (arith, lessens, inserted, due-at now k due, ahead, often);
      }

  first_ends :
      (again : Timers → Option (List Key × Timers)) (later : ℕ) (s : Timers) (m : List (Key × Task))
      → s.timers ≡ m
      → IsKept s
      → ((q : Timers)
          → IsKept q
          → weight now q.timers < weight now m
          → (r : List Key × Timers) × (again q ≡ some r))
      → (r : List Key × Timers) × (fire_first act again now later s m ≡ some r)
  unfolding fire_first
  first_ends again later s [] e kept ih = (([], s), refl)
  first_ends again later s ((k, t) ∷ m) e kept ih = elim (Bool-cases (is_due now k)) [
    | inr waits ↦ (([], s), rw (waits, fire_first) refl)
    | inl due ↦
        let (others, has) = others-IsKept k t m s e kept in
        let c = called k t m s later due others has in
        let (r, ends) = ih c.behind c.kept c.lighter in
        (
          (k ∷ r.0, r.1),
          rw (due, fire_first)
              (ap (after_task act again k) c.returns
                ∙ (unfold after_task in
                    ap (Option.map {B = List Key × Timers} (λ x. (k ∷ x.0, x.1))) ends)),
        )
  ]

  fire_loop_ends :
      (fuel later : ℕ) (s : Timers)
      → IsKept s
      → weight now s.timers < fuel
      → (r : List Key × Timers) × (fire_loop act fuel now later s ≡ some r)
  unfolding fire_loop
  fire_loop_ends zero later s kept enough = absurd (omega (arith, enough))
  fire_loop_ends (suc fuel) later s kept enough =
      first_ends (fire_loop act fuel now later) later s s.timers refl kept
        (λ q k h. fire_loop_ends fuel later q k (omega (arith, h, enough)))

-- handleTimeouts ends, with repeated timers too, where the timers are sound, each repeated timer
-- has its entry, which is not behind it and has an interval, and the tasks keep this so and set no
-- further timer that is due: as many rounds as `weight` and one more are enough. Then the timers are
-- sound, every timer that fired was due, none that is left is due, and the time to wait is that
-- of the first one left.
pub handle_timeouts_lem :
    (act : ℕ → Timers → Timers) (now : ℕ)
    → ((t : ℕ) (s : Timers) → IsSound s → IsSound (act t s))
    → ((t : ℕ) (s : Timers)
        → IsKept s
        → IsKept (act t s) × (weight now (act t s).timers ≤ weight now s.timers))
    → (fuel later : ℕ) (s : Timers) → IsKept s
    → weight now s.timers < fuel
    → (fired : List Key) × (d : Timers) × ((handle_timeouts act fuel now later s ≡ some (fired, d))
        × (IsSound d
            × All (λ k. is_due now k ≡ true) fired
            × NoneDue now d.timers
            × (d.next_timeout ≡ nearest d.timers later)))
unfolding handle_timeouts
handle_timeouts_lem act now sound keeps fuel later s kept enough =
    let (r, ends) = fire_loop_ends act now keeps fuel later s kept enough in
    let e : handle_timeouts act fuel now later s ≡ some (r.0, refresh_nearest r.1 later) =
      ap (Option.map (λ (x : List Key × Timers). (x.0, refresh_nearest x.1 later))) ends in
    (
      r.0,
      refresh_nearest r.1 later,
      (e, handle_timeouts-IsSound act sound fuel now later s _ r.0 kept.sound e),
    )
