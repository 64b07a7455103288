-- ===== src/Timers/Firing.antt =====
-- What handleTimeouts does, whatever the tasks that it calls do through runAt and cancel.
use mathlib.Core.Option
use handy.Base.{
  ℕ, zero, suc, ◌≤◌, ◌≡◌, inl, inr, refl, sym, subst, true, false, Option, none, some, List, [],
  ◌∷◌, arith, Bool-cases, All,
}
use handy.Timers.Sorted.{
  IdsUpTo, SeqsUpTo-mono, Above, IsSorted, insert-IsSorted, SeqsUpTo, insert-SeqsUpTo,
  set_rep-IdsUpTo, IdsUpTo-mono,
}
use handy.Timers.Sound.{IsSound, SoundIf}
use handy.Timers.{
  user, repeats, key_less, find_rep, Timers, TimerId, Key, is_due, TimerRepeatable, Task, fire_loop,
  after_task, fire_first, handle_timeouts, call_task, repeat_entry, refresh_nearest,
  repeatable_timeout, nearest, id_eq,
}

same_fired : {a b : List Key × Timers} → some a ≡ some b → a ≡ b
same_fired e = cc

pub find_rep-IdsUpTo :
    (n : ℕ) (i : TimerId) (m : List (TimerId × TimerRepeatable)) {r : TimerRepeatable}
    → IdsUpTo n m
    → find_rep i m ≡ some r
    → i.second ≤ n
unfolding find_rep
find_rep-IdsUpTo n i [] a e = cc
find_rep-IdsUpTo n i ((j, q) ∷ m) a e = elim (Bool-cases (id_eq j i)) [
  | inl hit ↦ let same : j.second ≡ i.second = unfold id_eq in ground arith in omega (arith, a.0)
  | inr miss ↦ find_rep-IdsUpTo n i m a.1 (rw miss at e)
]

module _ (act : ℕ → Timers → Timers)
    (act-IsSound : (t : ℕ) (s : Timers) → IsSound s → IsSound (act t s)) where
  pub repeat_entry-IsSound :
      (i : TimerId) (s : Timers) (later : ℕ) (o : Option TimerRepeatable)
      → IsSound s
      → find_rep i s.timer_reps ≡ o
      → SoundIf (repeat_entry act i s later o)
  unfolding repeat_entry
  repeat_entry-IsSound i s later none v e = tt
  repeat_entry-IsSound i s later (some r) v e = act-IsSound r.cb _ (record {
    sorted = insert-IsSorted _ _ s.timers v.sorted;
    seqs =
        insert-SeqsUpTo _ _ _ s.timers (omega arith)
          (SeqsUpTo-mono _ _ s.timers (omega arith) v.seqs);
    ids =
        let known = find_rep-IdsUpTo _ i s.timer_reps v.ids e in
        set_rep-IdsUpTo _ _ _ s.timer_reps (omega arith)
          (IdsUpTo-mono _ _ s.timer_reps (omega arith) v.ids);
  })

  call_task-IsSound :
      (t : Task) (s : Timers) (later : ℕ) → IsSound s → SoundIf (call_task act t s later)
  unfolding call_task
  call_task-IsSound (user t) s later v = act-IsSound t s v
  call_task-IsSound (repeats i) s later v =
      unfold repeatable_timeout in repeat_entry-IsSound i s later _ v refl

-- No timer of the map is due.
abbrev pub NoneDue : ℕ → List (Key × Task) → Type 0
NoneDue now = All (λ e. is_due now e.0 ≡ false)

pub later-not-due :
    (now : ℕ) (k j : Key) → is_due now k ≡ false → key_less k j ≡ true → is_due now j ≡ false
unfolding key_less
later-not-due now k j h l = ground arith

pub Above-NoneDue :
    (now : ℕ) (k : Key) (m : List (Key × Task)) → is_due now k ≡ false → Above k m → NoneDue now m
Above-NoneDue now k [] h a = tt
Above-NoneDue now k ((j, t) ∷ m) h a = (later-not-due now k j h a.0, Above-NoneDue now k m h a.1)

-- What the loop of handleTimeouts gives, where it gives something.
pub record Fired (now : ℕ) (r : List Key × Timers) : Type 0 where
  pub sound : IsSound r.1
  pub due : All (λ k. is_due now k ≡ true) r.0
  pub none_left : NoneDue now r.1.timers

abbrev pub FiredIf : ℕ → Option (List Key × Timers) → Type 0
FiredIf now none = Unit
FiredIf now (some r) = Fired now r

module _ (act : ℕ → Timers → Timers)
    (act-IsSound : (t : ℕ) (s : Timers) → IsSound s → IsSound (act t s)) where
  after_task-Fired :
      (now : ℕ) (again : Timers → Option (List Key × Timers)) (k : Key) (o : Option Timers)
      → is_due now k ≡ true
      → ((s : Timers) → IsSound s → FiredIf now (again s))
      → SoundIf o
      → FiredIf now (after_task act again k o)
  unfolding after_task
  after_task-Fired now again k none d ih v = tt
  after_task-Fired now again k (some s) d ih v = go (again s) (ih s v)
    where
      go :
          (r : Option (List Key × Timers))
          → FiredIf now r
          → FiredIf now (Option.map (λ (r : List Key × Timers). (k ∷ r.0, r.1)) r)
      go none f = tt
      go (some r) f = record { sound = f.sound; due = (d, f.due); none_left = f.none_left }

  fire_first-Fired :
      (now later : ℕ) (again : Timers → Option (List Key × Timers)) (s : Timers)
      (m : List (Key × Task))
      → s.timers ≡ m
      → IsSound s
      → ((s : Timers) → IsSound s → FiredIf now (again s))
      → FiredIf now (fire_first act again now later s m)
  unfolding fire_first
  fire_first-Fired now later again s [] e v ih = record { sound = v; due = tt; none_left = rw e tt }
  fire_first-Fired now later again s ((k, t) ∷ m) e v ih =
      let sorted : IsSorted ((k, t) ∷ m) = subst IsSorted e v.sorted in
      let seqs : SeqsUpTo s.timer_seq ((k, t) ∷ m) = subst (SeqsUpTo s.timer_seq) e v.seqs in
      elim (Bool-cases (is_due now k)) [
        | inl due ↦
            rw (due, fire_first)
              (after_task-Fired now again k _ due ih (
                call_task-IsSound act act-IsSound t (record s { timers = m }) later
                  (record { sorted = sorted.1; seqs = seqs.1; ids = v.ids })))
        | inr quiet ↦
            rw (quiet, fire_first)
              (record {
                sound = v;
                due = tt;
                none_left =
                    subst (NoneDue now) (sym e) (quiet, Above-NoneDue now k m quiet sorted.0);
              })
      ]

  fire_loop-FiredIf :
      (fuel now later : ℕ) (s : Timers) → IsSound s → FiredIf now (fire_loop act fuel now later s)
  unfolding fire_loop
  fire_loop-FiredIf zero now later s v = tt
  fire_loop-FiredIf (suc fuel) now later s v =
      fire_first-Fired now later (fire_loop act fuel now later) s s.timers refl v
        (λ t w. fire_loop-FiredIf fuel now later t w)

  -- Whatever the tasks do through runAt and cancel: when the loop of handleTimeouts ends, the
  -- timers are sound, every timer that fired was due, none that is left is due, and the time to
  -- wait is that of the first one left.
  pub handle_timeouts-IsSound :
      (fuel now later : ℕ) (s s' : Timers) (fired : List Key)
      → IsSound s
      → handle_timeouts act fuel now later s ≡ some (fired, s')
      → IsSound s'
        × All (λ k. is_due now k ≡ true) fired
        × NoneDue now s'.timers
        × (s'.next_timeout ≡ nearest s'.timers later)
  unfolding handle_timeouts refresh_nearest
  handle_timeouts-IsSound fuel now later s s' fired v e =
      go (fire_loop act fuel now later s) (fire_loop-FiredIf fuel now later s v) e
    where
      go :
          (o : Option (List Key × Timers))
          → FiredIf now o
          → Option.map {B = List Key × Timers} (λ r. (r.0, refresh_nearest r.1 later)) o
            ≡ some (fired, s')
          → IsSound s'
            × All (λ k. is_due now k ≡ true) fired
            × NoneDue now s'.timers
            × (s'.next_timeout ≡ nearest s'.timers later)
      go none f q = cc
      go (some r) f q =
          subst
            (λ (x : List Key × Timers).
              IsSound x.1
              × All (λ k. is_due now k ≡ true) x.0
              × NoneDue now x.1.timers
              × (x.1.next_timeout ≡ nearest x.1.timers later))
            (same_fired q)
            (
              record { sorted = f.sound.sorted; seqs = f.sound.seqs; ids = f.sound.ids },
              f.due,
              f.none_left,
              refl,
            )
