-- ===== src/Conf/Printed.antt =====
-- handy/conf.cc: getInteger of a number that has been printed.
use mathlib.Core.Option
use handy.Base.{
  ℕ, zero, suc, ◌+◌, ◌-◌, ◌*◌, ◌/◌, ◌%◌, ◌^◌, ◌≤◌, ◌<◌, ◌≡◌, inl, inr, refl, sym, ap, ◌∙◌, Bool,
  true, false, ◌||◌, Option, none, some, [], ◌∷◌, ◌++◌, append-nil, arith, ltb, ◌==◌, if◌then◌else◌,
  ℕ-cases, if_cases, Bytes, length,
}
use handy.Base.Scan.{Every, Stops, take_while, drop_while, take_while-stop, drop_while-stop}
use handy.Base.Int.{ℤ, pos, negsuc}
use handy.Slice.{is_space}
use handy.Conf.{Values, get, is_empty, c_string, is_not}
use handy.Conf.Integers.{
  digit_value, in_base, value_of, split_base, magnitude, bounded, signed_number, strtol, or_default,
  get_integer,
}
use handy.Http.{is_digit, decimal_value}
use handy.Http.Request.{show_digits, show_int}
use handy.Http.Numbers.{show_digits-Every, decimal_value-show_digits, length-show_digits, bound}

digit-value : (c : ℕ) → is_digit c ≡ true → digit_value c ≡ c - b'0'
unfolding digit_value
digit-value c h = ground arith

value_of-digits : (acc : ℕ) (s : Bytes) → Every is_digit s → value_of 10 acc s ≡ decimal_value acc s
unfolding value_of decimal_value
value_of-digits acc [] h = refl
value_of-digits acc (c ∷ s) h =
    rw (digit-value c h.0) (value_of-digits (10 * acc + (c - b'0')) s h.1)

digits-in_base : (s : Bytes) → Every is_digit s → Every (in_base 10) s
digits-in_base [] h = tt
digits-in_base (c ∷ s) h = (ground (arith, h.0, digit-value c h.0), digits-in_base s h.1)

-- There is a first byte, and it is not the digit 0.
abbrev LeadsNonZero : Bytes → Type 0
LeadsNonZero [] = ⊥
LeadsNonZero (c ∷ cs) = (c == b'0') ≡ false

LeadsNonZero-append : (s t : Bytes) → LeadsNonZero s → LeadsNonZero (s ++ t)
LeadsNonZero-append [] t h = absurd h
LeadsNonZero-append (c ∷ s) t h = h

show_digits-LeadsNonZero : (fuel n : ℕ) → 0 < n → n < bound fuel → LeadsNonZero (show_digits fuel n)
unfolding show_digits
show_digits-LeadsNonZero zero n h g = absurd (omega (arith, h, g))
show_digits-LeadsNonZero (suc fuel) n h g =
    if_cases LeadsNonZero (ltb n 10) ((b'0' + n) ∷ [])
      (show_digits fuel (n / 10) ++ (b'0' + n % 10) ∷ []) (λ e. ground (arith, h))
      (λ e.
        let large : 10 ≤ n = ground (arith, e) in
        LeadsNonZero-append (show_digits fuel (n / 10)) ((b'0' + n % 10) ∷ [])
          (show_digits-LeadsNonZero fuel (n / 10) (omega (arith, large)) (omega (arith, g))))

split_base-decimal : (s : Bytes) → LeadsNonZero s → split_base s ≡ (10, s)
unfolding split_base
split_base-decimal [] h = absurd h
split_base-decimal (a ∷ []) h = rw h refl
split_base-decimal (a ∷ b ∷ []) h = rw h refl
split_base-decimal (a ∷ b ∷ c ∷ s) h = rw h refl

-- magnitude behind the split
abbrev of_split : ℕ × Bytes → Option ℕ
of_split (base, rest) =
    let digits = take_while (in_base base) rest in
    if is_empty digits then none else some (value_of base 0 digits)

magnitude-decimal :
    (s : Bytes) → Every is_digit s → LeadsNonZero s → magnitude s ≡ some (decimal_value 0 s)
unfolding magnitude
magnitude-decimal [] h g = absurd g
magnitude-decimal (c ∷ s) h g =
    let all : take_while (in_base 10) (c ∷ s) ≡ c ∷ s =
      ap (take_while (in_base 10)) (sym (append-nil (c ∷ s)))
      ∙ take_while-stop (in_base 10) (c ∷ s) [] (digits-in_base (c ∷ s) h) tt in
    ap of_split (split_base-decimal (c ∷ s) g) ∙ rw all (ap some (value_of-digits 0 (c ∷ s) h))

magnitude-show : (n : ℕ) → n < 2 ^ 64 → magnitude (show_digits 20 n) ≡ some n
magnitude-show n h = elim (ℕ-cases n) [
  | inl z ↦ rw z (
      unfold magnitude in
      unfold show_digits in
      unfold split_base in unfold take_while in unfold value_of in unfold digit_value in refl)
  | inr (m, e) ↦
      magnitude-decimal (show_digits 20 n) (show_digits-Every 20 n)
        (show_digits-LeadsNonZero 20 n (omega (arith, e)) (omega (arith, h)))
      ∙ ap some (decimal_value-show_digits 20 n (omega (arith, h)))
]

-- A digit at the start is no sign.
unsigned :
    (s : Bytes)
    → Every is_digit s
    → 1 ≤ length s
    → signed_number s ≡ Option.map (bounded false) (magnitude s)
unfolding signed_number
unsigned [] h g = absurd (omega arith)
unsigned (c ∷ s) h g =
    let no_minus : (c == b'-') ≡ false = ground (arith, h.0) in
    let no_plus : (c == b'+') ≡ false = ground (arith, h.0) in rw (no_minus, no_plus) refl

-- A long.
unfoldable pub IsLong : ℤ → Type 0
IsLong (pos n) = n < 2 ^ 63
IsLong (negsuc n) = n < 2 ^ 63

minus : (t : Bytes) → signed_number (b'-' ∷ t) ≡ Option.map (bounded true) (magnitude t)
unfolding signed_number
minus t = refl

signed_number-show : (i : ℤ) → IsLong i → signed_number (show_int i) ≡ some i
unfolding IsLong show_int
signed_number-show (pos n) h =
    unsigned (show_digits 20 n) (show_digits-Every 20 n) (length-show_digits 19 n)
    ∙ ap (Option.map (bounded false)) (magnitude-show n (omega (arith, h)))
    ∙ ap (λ k. some (pos k)) (omega (arith, h))
signed_number-show (negsuc n) h =
    let e : n + 1 ≡ suc n = omega arith in
    minus (show_digits 20 (n + 1))
    ∙ ap (Option.map (bounded true)) (magnitude-show (n + 1) (omega (arith, h)))
    ∙ ap (λ k. some (bounded true k)) e
    ∙ ap (λ k. some (negsuc k)) (omega (arith, h))

-- The bytes of a printed number.
abbrev in_number : ℕ → Bool
in_number c = is_digit c || c == b'-'

digits-in_number : (s : Bytes) → Every is_digit s → Every in_number s
digits-in_number [] h = tt
digits-in_number (c ∷ s) h = (ground (arith, h.0), digits-in_number s h.1)

show_int-in_number : (i : ℤ) → Every in_number (show_int i)
unfolding show_int
show_int-in_number (pos n) = digits-in_number (show_digits 20 n) (show_digits-Every 20 n)
show_int-in_number (negsuc n) =
    (refl, digits-in_number (show_digits 20 (n + 1)) (show_digits-Every 20 (n + 1)))

number-Stops : (s : Bytes) → Every in_number s → Stops is_space s
number-Stops [] h = tt
number-Stops (c ∷ s) h = unfold is_space in ground (arith, h.0)

no_spaces : (i : ℤ) → drop_while is_space (show_int i) ≡ show_int i
no_spaces i =
    drop_while-stop is_space [] (show_int i) tt (number-Stops (show_int i) (show_int-in_number i))

number-not_zero : (s : Bytes) → Every in_number s → Every (is_not 0) s
number-not_zero [] h = tt
number-not_zero (c ∷ s) h = (ground (arith, h.0), number-not_zero s h.1)

no_zeros : (i : ℤ) → c_string (show_int i) ≡ show_int i
unfolding c_string
no_zeros i =
    ap (take_while (is_not 0)) (sym (append-nil (show_int i)))
    ∙ take_while-stop (is_not 0) (show_int i) []
        (number-not_zero (show_int i) (show_int-in_number i)) tt

-- getInteger of a value that is a long in decimal, as %ld prints it, is this number, whatever the
-- default value is.
pub get_integer-show :
    (i : ℤ) (values : Values) (section name : Bytes) (default_value : ℤ)
    → IsLong i
    → get values section name [] ≡ show_int i
    → get_integer values section name default_value ≡ i
unfolding get_integer strtol or_default
get_integer-show i values section name default_value h e =
    ap (λ s. or_default default_value (signed_number (drop_while is_space (c_string s)))) e
    ∙ ap (λ s. or_default default_value (signed_number (drop_while is_space s))) (no_zeros i)
    ∙ ap (λ s. or_default default_value (signed_number s)) (no_spaces i)
    ∙ ap (or_default default_value) (signed_number-show i h)
