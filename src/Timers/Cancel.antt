-- ===== src/Timers/Cancel.antt =====
-- cancel undoes runAt, and what a second cancel of a repeated timer does.
use mathlib.Core.Path.{ap₂}
use handy.Base.{
  ℕ, zero, suc, ◌≤◌, ◌<◌, ◌≡◌, inl, inr, refl, ap, true, false, none, some, List, [], ◌∷◌, arith,
  Bool-cases, if_cases,
}
use handy.Base.Int.{ℤ, pos, negsuc}
use handy.Timers.{
  Key, TimerId, Task, user, repeats, TimerRepeatable, Timers, key_less, key_eq, id_eq, int_eq,
  insert_timer, has_timer, erase_timer, find_rep, set_rep, erase_rep, run_at, run_once,
  run_repeated, cancel, cancel_in, cancel_once, cancel_repeated, refresh_nearest,
}
use handy.Timers.Sorted.{SeqsUpTo, IdsUpTo}
use handy.Timers.Sound.{IsSound}

key_eq_self : (k : Key) → key_eq k k ≡ true
unfolding key_eq
key_eq_self k = ground arith

module _ (k : Key) (t : Task) where
  has_timer-insert : (m : List (Key × Task)) → has_timer k (insert_timer k t m) ≡ true
  unfolding has_timer insert_timer
  has_timer-insert [] = rw (key_eq_self k)
  has_timer-insert ((j, u) ∷ m) =
      if_cases (λ x. has_timer k x ≡ true) (key_less k j) _ _ (λ _. rw (key_eq_self k))
        (λ late.
          if_cases (λ x. has_timer k x ≡ true) (key_less j k) _ _
            (λ _. ground (arith, has_timer-insert m))
            (λ same. let e : key_eq j k ≡ true = unfold key_eq key_less in ground arith in rw e))

  erase-insert :
      (n : ℕ) (m : List (Key × Task))
      → n < k.seq
      → SeqsUpTo n m
      → erase_timer k (insert_timer k t m) ≡ m
  unfolding erase_timer insert_timer
  erase-insert n [] h a = rw (key_eq_self k)
  erase-insert n ((j, u) ∷ m) h a =
      let fresh : key_eq j k ≡ false = unfold key_eq in ground arith in
      if_cases (λ x. erase_timer k x ≡ (j, u) ∷ m) (key_less k j) _ _ (λ _. rw (key_eq_self k))
        (λ late.
          if_cases (λ x. erase_timer k x ≡ (j, u) ∷ m) (key_less j k) _ _
            (λ _. rw fresh (ap (◌∷◌ (j, u)) (erase-insert n m h a.1)))
            (λ same. absurd (unfold key_less in ground (arith, a.0))))

id_eq_self : (i : TimerId) → id_eq i i ≡ true
id_eq_self i = go i.first refl
  where
    go : (f : ℤ) → i.first ≡ f → id_eq i i ≡ true
    go (pos n) e = unfold id_eq int_eq in ground arith
    go (negsuc n) e = unfold id_eq int_eq in ground arith

module _ (i : TimerId) (n : ℕ) (h : n < i.second) where
  fresh-id : (j : TimerId) → j.second ≤ n → id_eq j i ≡ false
  fresh-id j l = elim (Bool-cases (id_eq j i)) [
    | inl hit ↦ absurd (unfold id_eq in ground arith)
    | inr miss ↦ miss
  ]

  find_rep_fresh : (m : List (TimerId × TimerRepeatable)) → IdsUpTo n m → find_rep i m ≡ none
  unfolding find_rep
  find_rep_fresh [] a = refl
  find_rep_fresh ((j, q) ∷ m) a = rw (fresh-id j a.0) (find_rep_fresh m a.1)

  find_rep-set_rep :
      (r : TimerRepeatable) (m : List (TimerId × TimerRepeatable))
      → IdsUpTo n m
      → find_rep i (set_rep i r m) ≡ some r
  unfolding find_rep set_rep
  find_rep-set_rep r [] a = rw (id_eq_self i)
  find_rep-set_rep r ((j, q) ∷ m) a =
      rw (fresh-id j a.0) (rw (fresh-id j a.0) (find_rep-set_rep r m a.1))

  erase_rep-set_rep :
      (r : TimerRepeatable) (m : List (TimerId × TimerRepeatable))
      → IdsUpTo n m
      → erase_rep i (set_rep i r m) ≡ m
  unfolding erase_rep set_rep
  erase_rep-set_rep r [] a = rw (id_eq_self i)
  erase_rep-set_rep r ((j, q) ∷ m) a =
      rw (fresh-id j a.0) (rw (fresh-id j a.0) (ap (◌∷◌ (j, q)) (erase_rep-set_rep r m a.1)))

run_at_once :
    (s : Timers) (now milli task : ℕ)
    → s.exit ≡ false
    → run_at s now milli task 0 ≡ run_once s now milli task
unfolding run_at
run_at_once s now milli task live = ground arith

run_at_repeated :
    (s : Timers) (now milli task interval : ℕ)
    → s.exit ≡ false
    → 0 < interval
    → run_at s now milli task interval ≡ run_repeated s now milli task interval
unfolding run_at
run_at_repeated s now milli task interval live h = ground arith

-- A one-shot timer, set in a sound state before exit, that is cancelled before it fires leaves the
-- timers as they were.
pub cancel-run_at :
    (s : Timers) (now milli task : ℕ)
    → IsSound s
    → s.exit ≡ false
    → let (s', i) = run_at s now milli task 0 in
      (q : Timers) × (cancel s' i ≡ some (q, true))
      × (q.timers ≡ s.timers)
      × (q.timer_reps ≡ s.timer_reps)
cancel-run_at s now milli task v live = rw (run_at_once s now milli task live) (
  record (run_once s now milli task).0 {
    timers =
        erase_timer (record { at = milli; seq = suc s.timer_seq })
          (run_once s now milli task).0.timers;
  },
  (unfold cancel cancel_in cancel_once run_once refresh_nearest in
      rw (has_timer-insert (record { at = milli; seq = suc s.timer_seq }) (user task) s.timers)),
  (unfold run_once refresh_nearest in
      erase-insert (record { at = milli; seq = suc s.timer_seq }) (user task) s.timer_seq s.timers
        (omega arith) v.seqs),
  (unfold run_once refresh_nearest in refl),
)

-- A repeated timer, of a positive time and interval, that is cancelled before it fires leaves the
-- timers as they were; a second cancel of it faults, for the entry is looked for and used though
-- there is none.
pub cancel_twice :
    (s : Timers) (now milli task interval : ℕ)
    → IsSound s
    → s.exit ≡ false
    → 0 < milli
    → 0 < interval
    → let (s', i) = run_at s now milli task interval in
      (q : Timers) × (cancel s' i ≡ some (q, true))
      × (q.timers ≡ s.timers)
      × (q.timer_reps ≡ s.timer_reps)
      × (cancel q i ≡ none)
cancel_twice s now zero task interval v live h k = absurd (omega arith)
cancel_twice s now (suc milli) task interval v live h k =
    rw (run_at_repeated s now (suc milli) task interval live k) (
      record (run_repeated s now (suc milli) task interval).0 {
        timers = s.timers;
        timer_reps = s.timer_reps;
      },
      (unfold cancel cancel_in cancel_repeated run_repeated refresh_nearest in
          rw (find_rep-set_rep i s.timer_seq next r s.timer_reps v.ids, cancel_repeated)
            (ap₂
              (λ m n. some (
                record s {
                  next_timeout = (run_repeated s now (suc milli) task interval).0.next_timeout;
                  timers = m;
                  timer_reps = n;
                  timer_seq = suc (suc s.timer_seq);
                },
                true,
              ))
              (erase-insert key (repeats i) s.timer_seq s.timers (omega arith) v.seqs)
              (erase_rep-set_rep i s.timer_seq next r s.timer_reps v.ids))),
      refl,
      refl,
      (unfold cancel cancel_in run_repeated cancel_repeated in
          rw (find_rep_fresh i s.timer_seq next s.timer_reps v.ids)),
    )
  where
    i : TimerId
    i = record { first = negsuc milli; second = suc s.timer_seq }

    key : Key
    key = record { at = suc milli; seq = suc (suc s.timer_seq) }

    r : TimerRepeatable
    r = record { at = suc milli; interval = interval; timerid = key; cb = task }

    next : s.timer_seq < suc s.timer_seq
    next = omega arith
