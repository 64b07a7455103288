-- ===== src/Http/Numbers.antt =====
-- The numbers that sprintf prints and atoi reads, in handy/http.cc and handy/daemon.cc.
use handy.Base.{
  ℕ, zero, suc, ◌+◌, ◌-◌, ◌*◌, ◌/◌, ◌%◌, ◌^◌, ◌≤◌, ◌<◌, ◌≡◌, refl, sym, ap, ◌∙◌, true, false, [],
  ◌∷◌, ◌++◌, append-nil, arith, ltb, ◌==◌, ltb→lt, if_cases, Bytes, length, length-append,
}
use handy.Base.Int.{pos, as_int, as_int_small}
use handy.Base.Scan.{
  Every, Stops, take_while, drop_while, take_while-stop, drop_while-stop, Every-append,
}
use handy.Slice.{is_space}
use handy.Http.{is_digit, decimal_value, atoi_word, atoi}
use handy.Http.Request.{show_digits}

-- The numbers that have that many digits at most are below it.
abbrev pub bound : ℕ → ℕ
bound zero = 1
bound (suc fuel) = 10 * bound fuel

digit-is_digit : (n : ℕ) → n < 10 → is_digit (b'0' + n) ≡ true
digit-is_digit n h = ground arith

pub show_digits-Every : (fuel n : ℕ) → Every is_digit (show_digits fuel n)
unfolding show_digits
show_digits-Every zero n = tt
show_digits-Every (suc fuel) n =
    if_cases (Every is_digit) (ltb n 10) ((b'0' + n) ∷ [])
      (show_digits fuel (n / 10) ++ (b'0' + n % 10) ∷ [])
      (λ e. (digit-is_digit n (ltb→lt n 10 e), tt))
      (λ e.
        Every-append is_digit (show_digits fuel (n / 10)) ((b'0' + n % 10) ∷ [])
          (show_digits-Every fuel (n / 10)) (digit-is_digit (n % 10) (omega arith), tt))

decimal_value-append :
    (acc : ℕ) (s : Bytes) (c : ℕ)
    → decimal_value acc (s ++ c ∷ []) ≡ 10 * decimal_value acc s + (c - b'0')
unfolding decimal_value
decimal_value-append acc [] c = refl
decimal_value-append acc (x ∷ s) c = decimal_value-append (10 * acc + (x - b'0')) s c

pub decimal_value-show_digits :
    (fuel n : ℕ) → n < bound fuel → decimal_value 0 (show_digits fuel n) ≡ n
unfolding show_digits decimal_value
decimal_value-show_digits zero n h = omega (arith, h)
decimal_value-show_digits (suc fuel) n h =
    if_cases (λ s. decimal_value 0 s ≡ n) (ltb n 10) ((b'0' + n) ∷ [])
      (show_digits fuel (n / 10) ++ (b'0' + n % 10) ∷ []) (λ e. omega arith)
      (λ e. omega (
        arith,
        decimal_value-append 0 (show_digits fuel (n / 10)) (b'0' + n % 10),
        decimal_value-show_digits fuel (n / 10) (omega (arith, h)),
      ))

digit_no_space : (c : ℕ) → is_digit c ≡ true → is_space c ≡ false
unfolding is_space
digit_no_space c h = ground arith

-- Digits at the start, and what is no digit behind them.
atoi-digits :
    (s t : Bytes)
    → Every is_digit s
    → Stops is_digit t
    → 1 ≤ length s
    → decimal_value 0 s < 2 ^ 31
    → atoi (s ++ t) ≡ pos (decimal_value 0 s)
unfolding atoi
atoi-digits [] t h e k small = absurd (omega arith)
atoi-digits (c ∷ cs) t (d, ds) e k small =
    let no_minus : (c == b'-') ≡ false = ground arith in
    let no_plus : (c == b'+') ≡ false = ground arith in
    let all : take_while is_digit ((c ∷ cs) ++ t) ≡ c ∷ cs =
      take_while-stop is_digit (c ∷ cs) t (d, ds) e in
    let begins : drop_while is_space ((c ∷ cs) ++ t) ≡ (c ∷ cs) ++ t =
      drop_while-stop is_space [] ((c ∷ cs) ++ t) tt (digit_no_space c d) in
    ap atoi_word begins
    ∙ rw (no_minus, no_plus, all)
        (ap as_int (omega arith) ∙ as_int_small (decimal_value 0 (c ∷ cs)) small)

pub length-show_digits : (fuel n : ℕ) → 1 ≤ length (show_digits (suc fuel) n)
unfolding show_digits
length-show_digits fuel n =
    if_cases (λ s. 1 ≤ length s) (ltb n 10) ((b'0' + n) ∷ [])
      (show_digits fuel (n / 10) ++ (b'0' + n % 10) ∷ []) (λ e. omega arith)
      (λ e. omega (arith, length-append (show_digits fuel (n / 10)) ((b'0' + n % 10) ∷ [])))

-- atoi reads back what %d and %lu print of a number below 2 ^ 31, also with other text behind it.
pub atoi-show_append :
    (n : ℕ) (t : Bytes) → n < 2 ^ 31 → Stops is_digit t → atoi (show_digits 20 n ++ t) ≡ pos n
atoi-show_append n t h e =
    let same = decimal_value-show_digits 20 n (omega (arith, h)) in
    atoi-digits (show_digits 20 n) t (show_digits-Every 20 n) e (length-show_digits 19 n)
      (omega (arith, same, h))
    ∙ ap pos same

pub atoi-show_digits : (n : ℕ) → n < 2 ^ 31 → atoi (show_digits 20 n) ≡ pos n
atoi-show_digits n h = ap atoi (sym (append-nil (show_digits 20 n))) ∙ atoi-show_append n [] h tt
