-- ===== src/Timers/Sound.antt =====
-- runAt and cancel keep the timers sound: the keys ascend, and no number is above the counter.
use handy.Base.{
  ℕ, ◌≡◌, inl, inr, subst, Bool, not, Option, none, some, arith, ◌==◌, Bool-cases, if_cases,
}
use handy.Timers.Sorted.{
  IsSorted, SeqsUpTo, IdsUpTo, erase-IsSorted, insert-IsSorted, erase-All, insert-SeqsUpTo,
  erase_rep-IdsUpTo, SeqsUpTo-mono, set_rep-IdsUpTo, IdsUpTo-mono,
}
use handy.Timers.{
  Timers, cancel_in, cancel_once, cancel_repeated, run_at, cancel, Key, TimerId, TimerRepeatable,
  has_timer, erase_timer, erase_rep, find_rep,
}
use handy.Base.Int.{pos, negsuc, ℤ}

pub record IsSound (s : Timers) : Type 0 where
  pub sorted : IsSorted s.timers
  pub seqs : SeqsUpTo s.timer_seq s.timers
  pub ids : IdsUpTo s.timer_seq s.timer_reps

-- runAt keeps the timers sound, for one-shot and repeated timers and after exit.
pub run_at-IsSound :
    (s : Timers) (now milli task interval : ℕ)
    → IsSound s
    → IsSound (run_at s now milli task interval).0
unfolding run_at
run_at-IsSound s now milli task interval v =
    if_cases (λ (x : Timers × TimerId). IsSound x.0) s.exit _ _ (λ _. v)
      (λ _.
        if_cases (λ (x : Timers × TimerId). IsSound x.0) (not (interval == 0)) _ _
          (λ _. record {
            sorted = insert-IsSorted _ _ s.timers v.sorted;
            seqs =
                insert-SeqsUpTo _ _ _ s.timers (omega arith)
                  (SeqsUpTo-mono _ _ s.timers (omega arith) v.seqs);
            ids =
                set_rep-IdsUpTo _ _ _ s.timer_reps (omega arith)
                  (IdsUpTo-mono _ _ s.timer_reps (omega arith) v.ids);
          })
          (λ _. record {
            sorted = insert-IsSorted _ _ s.timers v.sorted;
            seqs =
                insert-SeqsUpTo _ _ _ s.timers (omega arith)
                  (SeqsUpTo-mono _ _ s.timers (omega arith) v.seqs);
            ids = IdsUpTo-mono _ _ s.timer_reps (omega arith) v.ids;
          }))

-- A sound state, where there is one.
abbrev pub SoundIf : Option Timers → Type 0
SoundIf none = Unit
SoundIf (some s) = IsSound s

same_some : {a b : Timers × Bool} → some a ≡ some b → a ≡ b
same_some e = cc

cancel_repeated-IsSound :
    (s : Timers) (i : TimerId) (o : Option TimerRepeatable) {r : Timers × Bool}
    → IsSound s
    → cancel_repeated s i o ≡ some r
    → IsSound r.0
unfolding cancel_repeated
cancel_repeated-IsSound s i none v e = cc
cancel_repeated-IsSound s i (some q) {r} v e =
    let w : IsSound (record s {
      timers = erase_timer q.timerid s.timers;
      timer_reps = erase_rep i s.timer_reps;
    }) =
      record {
        sorted = erase-IsSorted _ s.timers v.sorted;
        seqs = erase-All _ _ s.timers v.seqs;
        ids = erase_rep-IdsUpTo _ i s.timer_reps v.ids;
      } in
    subst (λ (x : Timers × Bool). IsSound x.0) (same_some e) w

cancel_once-IsSound : (s : Timers) (k : Key) → IsSound s → IsSound (cancel_once s k).0
unfolding cancel_once
cancel_once-IsSound s k v = elim (Bool-cases (has_timer k s.timers)) [
  | inl there ↦
      rw (there, cancel_once)
        (record {
          sorted = erase-IsSorted _ s.timers v.sorted;
          seqs = erase-All _ _ s.timers v.seqs;
          ids = v.ids;
        })
  | inr gone ↦ rw (gone, cancel_once) v
]

-- cancel keeps them sound, where it does not fault.
pub cancel-IsSound :
    (s : Timers) (i : TimerId) {r : Timers × Bool} → IsSound s → cancel s i ≡ some r → IsSound r.0
unfolding cancel_in cancel
cancel-IsSound s i {r} v e = go i.first e
  where
    go : (f : ℤ) → cancel_in f s i ≡ some r → IsSound r.0
    go (pos n) e =
        subst (λ (x : Timers × Bool). IsSound x.0) (same_some e) (cancel_once-IsSound s _ v)
    go (negsuc n) e = cancel_repeated-IsSound s i (find_rep i s.timer_reps) v e
