-- ===== src/Daemon/PidFile.antt =====
-- handy/daemon.cc: the pid file, written and read.
use handy.Base.{
  ℕ, zero, suc, ◌+◌, ◌-◌, ◌/◌, ◌%◌, ◌^◌, ◌≤◌, ◌<◌, ◌≡◌, ◌≢◌, inl, inr, refl, ap, ◌∙◌, Bool, true,
  false, Option, some, [], ◌∷◌, ◌++◌, append_assoc, arith, ltb, ◌==◌, if◌then◌else◌, Bool-cases,
  if_cases, Bytes, length, take, drop, length-append, take-all, take-append_ge,
}
use handy.Base.Int.{ℤ, pos, negsuc}
use handy.Base.Scan.{Every, take_while, take_while-stop}
use handy.Http.{is_digit, atoi}
use handy.Http.Request.{show_digits, show_int}
use handy.Http.Numbers.{show_digits-Every, atoi-show_digits}
use handy.Daemon.{write_pid_file, pid_buffer, in_pid, get_pid_from_file}

length-show : (fuel n : ℕ) → length (show_digits fuel n) ≤ fuel
unfolding show_digits
length-show zero n = omega arith
length-show (suc fuel) n =
    if_cases (λ s. length s ≤ suc fuel) (ltb n 10) ((b'0' + n) ∷ [])
      (show_digits fuel (n / 10) ++ (b'0' + n % 10) ∷ []) (λ e. omega arith)
      (λ e. omega (
        arith,
        length-append (show_digits fuel (n / 10)) ((b'0' + n % 10) ∷ []),
        length-show fuel (n / 10),
      ))

digits-in_pid : (s : Bytes) → Every is_digit s → Every in_pid s
digits-in_pid [] h = tt
digits-in_pid (c ∷ cs) (d, ds) = (ground arith, digits-in_pid cs ds)

-- The file of a pid: short enough for the buffer, and the newline ends the number before what the buffer
-- held before.
read_pid :
    (text stale : Bytes)
    → Every is_digit text
    → length text ≤ 20
    → take_while in_pid (pid_buffer (text ++ b'\n' ∷ []) stale) ≡ text
unfolding pid_buffer
read_pid text stale digits short =
    let line = text ++ b'\n' ∷ [] in
    let len = length-append text (b'\n' ∷ []) in
    let got : take 64 line ≡ line = take-all 64 line (omega (arith, len, short)) in
    let rest = drop (length line) stale in
    let cut = take-append_ge 63 line rest (omega (arith, len, short)) in
    let tail = take (63 - length line) rest ++ 0 ∷ [] in
    rw got (
      ap (λ s. take_while in_pid (s ++ 0 ∷ [])) cut
      ∙ ap (take_while in_pid) (
          append_assoc line (take (63 - length line) rest) (0 ∷ [])
          ∙ append_assoc text (b'\n' ∷ []) tail)
      ∙ take_while-stop in_pid text (b'\n' ∷ tail) (digits-in_pid text digits) refl)

nonempty_file :
    (text stale : Bytes)
    → get_pid_from_file (some (text ++ b'\n' ∷ [])) stale
      ≡ atoi (take_while in_pid (pid_buffer (text ++ b'\n' ∷ []) stale))
unfolding get_pid_from_file
nonempty_file [] stale = refl
nonempty_file (c ∷ cs) stale = refl

not_written :
    (b : Bool) (x y : ℤ × Option Bytes) → b ≡ false → y.0 ≢ pos 0 → (if b then x else y).0 ≢ pos 0
not_written true x y e h = absurd cc
not_written false x y e h = h

-- A pid from 0 to 2 ^ 31 - 1 that writePidFile has written, which it says by returning 0, is what
-- getPidFromFile reads back, whatever its buffer held before.
pub get_pid-write_pid :
    (n written : ℕ) (stale : Bytes)
    → n < 2 ^ 31
    → (write_pid_file true true (pos n) written).0 ≡ pos 0
    → get_pid_from_file (write_pid_file true true (pos n) written).1 stale ≡ pos n
unfolding write_pid_file show_int
get_pid-write_pid n written stale small wrote =
    let text = show_digits 20 n in
    let str = text ++ b'\n' ∷ [] in
    let read : get_pid_from_file (some str) stale ≡ pos n =
      nonempty_file text stale
      ∙ ap atoi (read_pid text stale (show_digits-Every 20 n) (length-show 20 n))
      ∙ atoi-show_digits n small in
    elim (Bool-cases (written == length str)) [
      | inl e ↦ rw e read
      | inr e ↦ absurd (
          not_written (written == length str) (pos 0, some str) (negsuc 0, some (take written str))
            e (λ h. cc h) wrote)
    ]
