-- ===== src/Conf/Integers.antt =====
-- handy/conf.cc: getInteger, which is strtol with the base 0: the base is 16 behind 0x, 8 behind 0, and
-- 10 otherwise.
use mathlib.Core.Option
use handy.Base.{
  ℕ, zero, suc, ◌+◌, ◌-◌, ◌*◌, ◌^◌, min, Bool, true, false, ◌&&◌, ◌||◌, Option, none, some, [], ◌∷◌,
  ltb, leb, ◌==◌, if◌then◌else◌, Bytes,
}
use handy.Base.Scan.{take_while, drop_while}
use handy.Base.Int.{ℤ, pos, negsuc}
use handy.Slice.{is_space}
use handy.Conf.{Values, get, is_empty, c_string}

-- A digit's value in bases up to 36; 36 where it is none.
unfoldable pub digit_value : ℕ → ℕ
digit_value c =
    if leb b'0' c && leb c b'9'
    then c - b'0'
    else if leb b'a' c && leb c b'z'
    then c - b'a' + 10
    else if leb b'A' c && leb c b'Z'
    then c - b'A' + 10
    else 36

abbrev pub in_base : ℕ → ℕ → Bool
in_base base c = ltb (digit_value c) base

unfoldable pub value_of : ℕ → ℕ → Bytes → ℕ
unfolding digit_value
value_of base acc [] = acc
value_of base acc (c ∷ cs) = value_of base (base * acc + digit_value c) cs

-- (char)tolower(c) == 'x'
abbrev pub is_x : ℕ → Bool
is_x c = c == b'x' || c == b'X'

-- The base and the digits; of 0x without a digit of base 16 behind it, the digit is the 0.
unfoldable pub split_base : Bytes → ℕ × Bytes
unfolding digit_value
split_base [] = (10, [])
split_base (a ∷ []) = (if a == b'0' then 8 else 10, a ∷ [])
split_base (a ∷ b ∷ []) = (if a == b'0' then 8 else 10, a ∷ b ∷ [])
split_base (a ∷ b ∷ c ∷ cs) =
    if (a == b'0') && (is_x b && in_base 16 c)
    then (16, c ∷ cs)
    else (if a == b'0' then 8 else 10, a ∷ b ∷ c ∷ cs)

-- The number, where there is a digit.
unfoldable pub magnitude : Bytes → Option ℕ
unfolding split_base value_of take_while
magnitude s =
    let (base, rest) = split_base s in
    let digits = take_while (in_base base) rest in
    if is_empty digits then none else some (value_of base 0 digits)

-- The long that strtol gives for a sign and a number, which it keeps within the bounds.
abbrev pub bounded : Bool → ℕ → ℤ
bounded true zero = pos 0
bounded true (suc n) = negsuc (min n (2 ^ 63 - 1))
bounded false n = pos (min n (2 ^ 63 - 1))

-- Behind the spaces.
unfoldable pub signed_number : Bytes → Option ℤ
unfolding magnitude
signed_number [] = none
signed_number (c ∷ cs) =
    if c == b'-'
    then Option.map (bounded true) (magnitude cs)
    else if c == b'+'
    then Option.map (bounded false) (magnitude cs)
    else Option.map (bounded false) (magnitude (c ∷ cs))

-- strtol(value, &end, 0), where end > value
unfoldable pub strtol : Bytes → Option ℤ
unfolding signed_number drop_while is_space
strtol s = signed_number (drop_while is_space s)

unfoldable pub or_default : ℤ → Option ℤ → ℤ
or_default d none = d
or_default d (some n) = n

unfoldable pub get_integer : Values → Bytes → Bytes → ℤ → ℤ
unfolding strtol c_string or_default
get_integer values section name default_value =
    or_default default_value (strtol (c_string (get values section name [])))
