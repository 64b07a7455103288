-- ===== src/Timers/Reps.antt =====
-- handy/event_base.cc: the entries of the repeated timers, and how often timers can fire still.
use handy.Base.{
  ℕ, ◌+◌, ◌-◌, ◌≤◌, ◌≡◌, inl, inr, refl, sym, ap, ◌∙◌, false, some, List, [], ◌∷◌, arith,
  Bool-cases, if_cases, if◌then◌else◌,
}
use handy.Timers.{
  Key, TimerId, Task, user, repeats, TimerRepeatable, id_eq, key_less, insert_timer, find_rep,
  set_rep,
}

-- How often the timers can fire still: a timer for each millisecond that it is behind, and once more.
unfoldable pub weight : ℕ → List (Key × Task) → ℕ
weight now [] = 0
weight now ((k, t) ∷ m) = (now + 1 - k.at) + weight now m

pub insert-weight :
    (now : ℕ) (k : Key) (t : Task) (m : List (Key × Task))
    → weight now (insert_timer k t m) ≤ (now + 1 - k.at) + weight now m
unfolding weight insert_timer
insert-weight now k t [] = omega arith
insert-weight now k t ((j, u) ∷ m) =
    let rest = insert-weight now k t m in
    if_cases (λ l. weight now l ≤ (now + 1 - k.at) + ((now + 1 - j.at) + weight now m))
      (key_less k j) ((k, t) ∷ (j, u) ∷ m)
      (if key_less j k then (j, u) ∷ insert_timer k t m else (j, t) ∷ m) (λ e. omega arith)
      (λ e.
        if_cases (λ l. weight now l ≤ (now + 1 - k.at) + ((now + 1 - j.at) + weight now m))
          (key_less j k) ((j, u) ∷ insert_timer k t m) ((j, t) ∷ m) (λ h. omega (arith, rest))
          (λ h. omega arith))

-- A repeated timer has its entry, which is not behind the timer and has an interval.
unfoldable pub HasRep : List (TimerId × TimerRepeatable) → Key → Task → Type 0
HasRep reps k (user t) = Unit
HasRep reps k (repeats i) =
    (r : TimerRepeatable) × ((find_rep i reps ≡ some r) × ((k.at ≤ r.at) × (1 ≤ r.interval)))

unfoldable pub HaveReps : List (TimerId × TimerRepeatable) → List (Key × Task) → Type 0
unfolding HasRep
HaveReps reps [] = Unit
HaveReps reps ((k, t) ∷ m) = HasRep reps k t × HaveReps reps m

HasRep-earlier :
    (reps : List (TimerId × TimerRepeatable)) (k j : Key) (t : Task)
    → j.at ≤ k.at
    → HasRep reps k t
    → HasRep reps j t
unfolding HasRep
HasRep-earlier reps k j (user t) h has = tt
HasRep-earlier reps k j (repeats i) h (r, (e, (behind, interval))) =
    (r, (e, (omega (arith, h, behind), interval)))

not_less : (k j : Key) → key_less k j ≡ false → j.at ≤ k.at
unfolding key_less
not_less k j e = ground arith

pub insert-HaveReps :
    (reps : List (TimerId × TimerRepeatable)) (k : Key) (t : Task) (m : List (Key × Task))
    → HasRep reps k t
    → HaveReps reps m
    → HaveReps reps (insert_timer k t m)
unfolding HaveReps insert_timer
insert-HaveReps reps k t [] h hs = (h, tt)
insert-HaveReps reps k t ((j, u) ∷ m) h hs =
    let rest = insert-HaveReps reps k t m h hs.1 in
    if_cases (λ l. HaveReps reps l) (key_less k j) ((k, t) ∷ (j, u) ∷ m)
      (if key_less j k then (j, u) ∷ insert_timer k t m else (j, t) ∷ m) (λ e. (h, hs))
      (λ e.
        if_cases (λ l. HaveReps reps l) (key_less j k) ((j, u) ∷ insert_timer k t m) ((j, t) ∷ m)
          (λ d. (hs.0, rest)) (λ d. (HasRep-earlier reps k j t (not_less k j e) h, hs.1)))

-- An entry that is moved on is not behind any timer that it was not behind before.
abbrev pub moved : TimerRepeatable → Key → TimerRepeatable
moved r k = record r { at = r.at + r.interval; timerid = k }

set_rep-find :
    (i j : TimerId) (k : Key) (r q : TimerRepeatable) (m : List (TimerId × TimerRepeatable))
    → find_rep i m ≡ some r
    → find_rep j m ≡ some q
    → (p : TimerRepeatable) × ((find_rep j (set_rep i (moved r k) m) ≡ some p)
        × ((q.at ≤ p.at) × (q.interval ≡ p.interval)))
unfolding find_rep set_rep
set_rep-find i j k r q [] e d = absurd cc
set_rep-find i j k r q ((l, x) ∷ m) e d = elim (Bool-cases (id_eq l i)) [
  | inl hit ↦
      let same : x ≡ r = let h : some x ≡ some r = rw hit at e in cc in
      elim (Bool-cases (id_eq l j)) [
        | inl found ↦
            let other : x ≡ q = let h : some x ≡ some q = rw found at d in cc in
            let one : q ≡ r = sym other ∙ same in
            (
              moved r k,
              (
                rw (hit, found) refl,
                (
                  let f : q.at ≡ r.at = ap (λ (z : TimerRepeatable). z.at) one in omega (arith, f),
                  ap (λ (z : TimerRepeatable). z.interval) one,
                ),
              ),
            )
        | inr further ↦ (q, (rw (hit, further) (rw further at d), (omega arith, refl)))
      ]
  | inr miss ↦ elim (Bool-cases (id_eq l j)) [
    | inl found ↦ (q, (rw (miss, found) (rw found at d), (omega arith, refl)))
    | inr further ↦
        let (p, (gives, kept)) = set_rep-find i j k r q m (rw miss at e) (rw further at d) in
        (p, (rw (miss, further) gives, kept))
  ]
]

pub set_rep-HaveReps :
    (i : TimerId) (k : Key) (r : TimerRepeatable) (reps : List (TimerId × TimerRepeatable))
    (m : List (Key × Task))
    → find_rep i reps ≡ some r
    → HaveReps reps m
    → HaveReps (set_rep i (moved r k) reps) m
unfolding HaveReps HasRep
set_rep-HaveReps i k r reps [] e hs = tt
set_rep-HaveReps i k r reps ((l, user t) ∷ m) e hs = (tt, set_rep-HaveReps i k r reps m e hs.1)
set_rep-HaveReps i k r reps ((l, repeats j) ∷ m) e ((q, (d, (behind, interval))), hs) =
    let (p, (gives, (later, same))) = set_rep-find i j k r q reps e d in
    (
      (p, (gives, (omega (arith, behind, later), omega (arith, interval, same)))),
      set_rep-HaveReps i k r reps m e hs,
    )

pub found-moved :
    (i : TimerId) (k : Key) (r : TimerRepeatable) (m : List (TimerId × TimerRepeatable))
    → find_rep i m ≡ some r
    → find_rep i (set_rep i (moved r k) m) ≡ some (moved r k)
unfolding find_rep set_rep
found-moved i k r [] e = absurd cc
found-moved i k r ((l, x) ∷ m) e = elim (Bool-cases (id_eq l i)) [
  | inl hit ↦ rw (hit, hit) refl
  | inr miss ↦ rw (miss, miss) (found-moved i k r m (rw miss at e))
]
