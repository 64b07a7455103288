-- ===== src/Logger/Rotating.antt =====
-- handy/logging.cc: rotation over a run of lines.
use handy.Base.{
  ℕ, ◌+◌, ◌≡◌, inl, inr, refl, true, false, List, [], ◌∷◌, arith, ◌==◌, if◌then◌else◌, ==_iff,
  Bool-cases,
}
use handy.Conf.{is_empty}
use handy.Base.Int.{ℤ}
use handy.Logger.{Logger, Rotation, keeps_file, reopens_file, renames_file, period, maybe_rotate}

abbrev pub rotations : Rotation → ℕ
rotations keeps_file = 0
rotations renames_file = 1
rotations reopens_file = 1

-- What is written at these times; the file system answers every rename and open with success.
unfoldable pub log_at : ℤ → List ℕ → Logger → Logger × ℕ
unfolding maybe_rotate
log_at timezone [] l = (l, 0)
log_at timezone (now ∷ times) l =
    let r = maybe_rotate timezone now true true l in
    let rest = log_at timezone times r.0 in (rest.0, rotations r.1 + rest.1)

-- How often the period changes from one time to the next.
unfoldable pub changes : ℤ → ℕ → ℕ → List ℕ → ℕ
unfolding period
changes timezone interval before [] = 0
changes timezone interval before (now ∷ times) =
    (if period timezone interval now == period timezone interval before then 0 else 1)
    + changes timezone interval now times

-- The two times of the logger are in the same period, and a file is set.
pub record IsInStep (timezone : ℤ) (l : Logger) : Type 0 where
  pub same_period :
      period timezone l.rotate_interval l.real_rotate
      ≡ period timezone l.rotate_interval l.last_rotate
  pub has_file : is_empty l.filename ≡ false

-- The log's count depends on the period alone.
changes-cong :
    (timezone : ℤ) (interval a b : ℕ) (times : List ℕ)
    → period timezone interval a ≡ period timezone interval b
    → changes timezone interval a times ≡ changes timezone interval b times
unfolding changes
changes-cong timezone interval a b [] e = refl
changes-cong timezone interval a b (now ∷ times) e = rw e refl

same_file :
    (timezone : ℤ) (now : ℕ) (l : Logger)
    → (period timezone l.rotate_interval now == period timezone l.rotate_interval l.last_rotate)
      ≡ true
    → maybe_rotate timezone now true true l ≡ (l, keeps_file)
unfolding maybe_rotate
same_file timezone now l e = elim (Bool-cases (is_empty l.filename)) [
  | inl h ↦ rw h refl
  | inr h ↦ rw (h, e) refl
]

new_file :
    (timezone : ℤ) (now : ℕ) (l : Logger)
    → IsInStep timezone l
    → (period timezone l.rotate_interval now == period timezone l.rotate_interval l.last_rotate)
      ≡ false
    → maybe_rotate timezone now true true l
      ≡ (record l { last_rotate = now; real_rotate = now }, reopens_file)
unfolding maybe_rotate
new_file timezone now l s e =
    let late : (period timezone l.rotate_interval l.real_rotate
          == period timezone l.rotate_interval now)
        ≡ false =
      ground (arith, s.same_period, e) in
    rw (s.has_file, e, late) refl

-- A logger with a file, whose two times of the last rotation are in the same period, logs at any times:
-- the file is rotated as often as the period changes from one time to the next.
pub log_at-changes :
    (timezone : ℤ) (times : List ℕ) (l : Logger)
    → IsInStep timezone l
    → (log_at timezone times l).1 ≡ changes timezone l.rotate_interval l.last_rotate times
unfolding log_at changes
log_at-changes timezone [] l s = refl
log_at-changes timezone (now ∷ times) l s =
    let interval = l.rotate_interval in
    elim (Bool-cases (period timezone interval now == period timezone interval l.last_rotate)) [
      | inl e ↦
          let same =
            (==_iff (period timezone interval now) (period timezone interval l.last_rotate)).0 e in
          rw (same_file timezone now l e, e)
            (omega (
              arith,
              log_at-changes timezone times l s,
              changes-cong timezone interval now l.last_rotate times same,
            ))
      | inr e ↦
          let moved : Logger = record l { last_rotate = now; real_rotate = now } in
          rw (new_file timezone now l s e, e)
            (omega (
              arith,
              log_at-changes timezone times moved
                  (record { same_period = refl; has_file = s.has_file }),
            ))
    ]
