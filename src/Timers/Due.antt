-- ===== src/Timers/Due.antt =====
-- How long the loop waits, and which one-shot timers fire.
use mathlib.Core.Option
use handy.Base.{
  ℕ, zero, suc, ◌-◌, ◌^◌, ◌≤◌, ◌<◌, ◌≡◌, inl, inr, refl, ap, ◌∙◌, true, false, Option, some, List,
  [], ◌∷◌, arith, if◌then◌else◌, Bool-cases, length,
}
use handy.Base.Int.{pos, as_int}
use handy.Timers.{
  Key, Task, user, repeats, Timers, is_due, wait_for, after_task, fire_first, fire_loop,
}

-- The time to wait is what is missing to the first timer, 0 if it has passed. A timer that is 2 ^ 31
-- to 2 ^ 32 milliseconds ahead (25 to 50 days) is taken for one that has passed.
pub wait_for_lem :
    (at now : ℕ)
    → at < 2 ^ 63
    → now < 2 ^ 63
    → (at ≤ now → now - at ≤ 2 ^ 31 → wait_for at now ≡ pos 0)
      × (now ≤ at → at - now < 2 ^ 31 → wait_for at now ≡ pos (at - now))
      × (2 ^ 31 ≤ at - now → at - now < 2 ^ 32 → wait_for at now ≡ pos 0)
unfolding wait_for as_int
wait_for_lem at now h k = (λ p q. ground arith, λ p q. ground arith, λ p q. ground arith)

-- All tasks are the user's.
abbrev pub OneShots : List (Key × Task) → Type 0
OneShots [] = Unit
OneShots ((k, user t) ∷ m) = OneShots m
OneShots ((k, repeats i) ∷ m) = ⊥

pub due_keys : ℕ → List (Key × Task) → List Key
due_keys now [] = []
due_keys now ((k, t) ∷ m) = let rest = due_keys now m in if is_due now k then k ∷ rest else []

pub not_due : ℕ → List (Key × Task) → List (Key × Task)
not_due now [] = []
not_due now ((k, t) ∷ m) = let rest = not_due now m in if is_due now k then rest else (k, t) ∷ m

module _ (act : ℕ → Timers → Timers) (leaves : (t : ℕ) (s : Timers) → act t s ≡ s) where
  loop_head :
      (fuel now later : ℕ) (s : Timers) (m : List (Key × Task))
      → s.timers ≡ m
      → fire_loop act (suc fuel) now later s
        ≡ fire_first act (fire_loop act fuel now later) now later s m
  unfolding fire_loop
  loop_head fuel now later s m e = ap (fire_first act (fire_loop act fuel now later) now later s) e

  user_due :
      (again : Timers → Option (List Key × Timers)) (now later : ℕ) (s : Timers) (k : Key) (t : ℕ)
      (m : List (Key × Task)) (r : List Key × Timers)
      → is_due now k ≡ true
      → again (record s { timers = m }) ≡ some r
      → fire_first act again now later s ((k, user t) ∷ m) ≡ some (k ∷ r.0, r.1)
  unfolding fire_first
  user_due again now later s k t m r d e =
      rw (d, fire_first)
        (ap (λ x. after_task act again k (some x)) (leaves t (record s { timers = m }))
          ∙ ap (Option.map {B = List Key × Timers} (λ x. (k ∷ x.0, x.1))) e)

  user_waits :
      (again : Timers → Option (List Key × Timers)) (now later : ℕ) (s : Timers) (k : Key) (t : ℕ)
      (m : List (Key × Task))
      → is_due now k ≡ false
      → fire_first act again now later s ((k, user t) ∷ m) ≡ some ([], s)
  unfolding fire_first
  user_waits again now later s k t m d = rw (d, fire_first)

  -- With tasks that set no timers, one round for each timer and one more is enough: the due timers
  -- fire, each once and in the order of their keys, and the others stay.
  pub fire_loop-due_keys :
      (fuel now later : ℕ) (s : Timers) (m : List (Key × Task))
      → s.timers ≡ m
      → OneShots m
      → length m < fuel
      → fire_loop act fuel now later s ≡ some (due_keys now m, record s { timers = not_due now m })
  unfolding due_keys not_due fire_first
  fire_loop-due_keys zero now later s m e o h = absurd (omega arith)
  fire_loop-due_keys (suc fuel) now later s [] e o h =
      loop_head fuel now later s [] e ∙ ap (λ m. some ([], record s { timers = m })) e
  fire_loop-due_keys (suc fuel) now later s ((k, repeats i) ∷ m) e o h = absurd o
  fire_loop-due_keys (suc fuel) now later s ((k, user t) ∷ m) e o h =
      let t' : Timers = record s { timers = m } in
      let again = fire_loop act fuel now later in
      let rest = fire_loop-due_keys fuel now later t' m refl o (omega arith) in
      loop_head fuel now later s ((k, user t) ∷ m) e ∙ elim (Bool-cases (is_due now k)) [
        | inl due ↦ user_due again now later s k t m _ due rest ∙ rw due
        | inr waits ↦
            user_waits again now later s k t m waits
            ∙ rw waits (ap (λ m. some ([], record s { timers = m })) e)
      ]
