-- ===== src/Conf.antt =====
-- handy/conf.h and handy/conf.cc: `Conf`, a file of sections and names. The file is its bytes, and
-- `none` where it cannot be opened; a C string is the bytes before its NUL. `values_` is a list of
-- keys and their values, of which the order is never looked at.
pub mod Values
pub mod Lines
pub mod Integers
pub mod Printed
use handy.Base.{
  ℕ, zero, suc, ◌+◌, ◌-◌, ◌*◌, Bool, true, false, not, ◌&&◌, ◌||◌, Option, none, some, List, [],
  ◌∷◌, ◌++◌, Bytes, map, drop, length, ltb, leb, ◌==◌, if◌then◌else◌, same_bytes,
}
use handy.Base.Scan.{take_while, drop_while}
use handy.Base.Int.{ℤ, pos, negsuc}
use handy.Slice.{is_space, drop_last_spaces}

abbrev pub Values : Type 0
Values = List (Bytes × List Bytes)

unfoldable pub to_lower : ℕ → ℕ
to_lower c = if leb b'A' c && leb c b'Z' then c + 32 else c

pub make_key : Bytes → Bytes → Bytes
unfolding to_lower
make_key section name = map to_lower (section ++ b'.' ∷ name)

-- values_.find(key)
pub find : Bytes → Values → Option (List Bytes)
find key [] = none
find key ((k, vs) ∷ rest) = if same_bytes key k then some vs else find key rest

-- values_[key].push_back(value)
pub push_value : Bytes → Bytes → Values → Values
push_value key value [] = (key, value ∷ []) ∷ []
push_value key value ((k, vs) ∷ rest) =
    let pushed = push_value key value rest in
    if same_bytes key k then (k, vs ++ value ∷ []) ∷ rest else (k, vs) ∷ pushed

-- back() of a list of values, which is never empty
pub back : List Bytes → Bytes
back [] = []
back (v ∷ []) = v
back (v ∷ w ∷ vs) = back (w ∷ vs)

pub get_or : Bytes → Option (List Bytes) → Bytes
unfolding back
get_or default_value none = default_value
get_or default_value (some vs) = back vs

unfoldable pub get : Values → Bytes → Bytes → Bytes → Bytes
unfolding get_or find make_key
get values section name default_value = get_or default_value (find (make_key section name) values)

unfoldable pub get_strings : Values → Bytes → Bytes → List Bytes
unfolding find make_key
get_strings values section name = elim (find (make_key section name) values) [
  | none ↦ []
  | some vs ↦ vs
]

unfoldable pub get_boolean : Values → Bytes → Bytes → Bool → Bool
unfolding get to_lower
get_boolean values section name default_value =
    let v = map to_lower (get values section name []) in
    let says = λ (w : Bytes). same_bytes v w in
    if says (b't' ∷ b'r' ∷ b'u' ∷ b'e' ∷ [])
      || says (b'y' ∷ b'e' ∷ b's' ∷ [])
      || says (b'o' ∷ b'n' ∷ [])
      || says (b'1' ∷ [])
    then true
    else if says (b'f' ∷ b'a' ∷ b'l' ∷ b's' ∷ b'e' ∷ [])
        || says (b'n' ∷ b'o' ∷ [])
        || says (b'o' ∷ b'f' ∷ b'f' ∷ [])
        || says (b'0' ∷ [])
    then false
    else default_value

-- LineScanner: `p` is the C string from the pointer p on.
pub record Scanner : Type 0 where
  pub p : Bytes
  pub err : Bool

pub skip_spaces : Scanner → Scanner
skip_spaces s = if s.err then s else record s { p = drop_while is_space s.p }

-- *p
abbrev pub head_or_nul : Bytes → ℕ
head_or_nul [] = 0
head_or_nul (c ∷ cs) = c

pub peek_char : Scanner → ℕ × Scanner
unfolding skip_spaces
peek_char s = (head_or_nul (skip_spaces s).p, skip_spaces s)

pub skip : ℕ → Scanner → Scanner
skip i s = record s { p = drop i s.p }

-- `match`
pub match_char : ℕ → Scanner → Scanner
unfolding skip_spaces
match_char c s =
    let t = skip_spaces s in record t { p = drop 1 t.p; err = not (head_or_nul t.p == c) }

abbrev pub is_not : ℕ → ℕ → Bool
is_not c x = not (x == c)

-- The loop of consumeTill has no step once there is an error.
pub consume_till : ℕ → Scanner → Bytes × Scanner
unfolding skip_spaces
consume_till c s =
    let t = skip_spaces s in
    let passed = if t.err then [] else take_while (is_not c) t.p in
    let e = if t.err then t.p else drop_while (is_not c) t.p in
    if head_or_nul e == c
    then (drop_last_spaces passed, record t { p = e })
    else ([], record t { err = true })

-- *e && *e != ';' && *e != '#'
abbrev pub in_value : ℕ → Bool
in_value c = not (c == b';') && not (c == b'#')

-- The loop of consumeTillEnd: what e passes, and what is left.
pub value_loop : Bool → Bytes → Bytes × Bytes
value_loop was_space [] = ([], [])
value_loop was_space (c ∷ cs) =
    let (v, rest) = value_loop (is_space c) cs in
    if in_value c && not was_space then (c ∷ v, rest) else ([], c ∷ cs)

pub consume_till_end : Scanner → Bytes × Scanner
unfolding skip_spaces value_loop
consume_till_end s =
    let t = skip_spaces s in
    let (v, rest) = value_loop false t.p in
    if t.err then ([], t) else (drop_last_spaces v, record t { p = rest })

-- What the loop of parse keeps.
pub record Parser : Type 0 where
  pub section : Bytes
  pub key : Bytes
  pub bad : Bool
  pub values : Values

-- values_[makeKey(section, key)].push_back(value)
pub add_value : Bytes → Parser → Parser
unfolding push_value make_key
add_value value ps = record ps { values = push_value (make_key ps.section ps.key) value ps.values }

pub parse_section : Scanner → Parser → Parser
unfolding skip consume_till match_char
parse_section ls ps =
    let (name, l2) = consume_till b']' (skip 1 ls) in
    record ps { section = name; bad = (match_char b']' l2).err; key = [] }

abbrev pub is_empty : Bytes → Bool
is_empty [] = true
is_empty (c ∷ cs) = false

-- A line that begins with a space: one more value of the key before it.
pub parse_continuation : Scanner → Parser → Parser
unfolding consume_till add_value
parse_continuation ls ps =
    if is_empty ps.key then record ps { bad = true } else add_value (consume_till 0 ls).0 ps

-- `name = value`, with the scanner at the `=`
pub pair_equals : Bytes → Scanner → Parser → Parser
unfolding skip consume_till_end add_value
pair_equals name ls ps = add_value (consume_till_end (skip 1 ls)).0 (record ps { key = name })

-- `name: value`, with the scanner where the name begins
pub pair_colon : Scanner → Parser → Parser
unfolding consume_till match_char consume_till_end add_value
pair_colon ls ps =
    let r = consume_till b':' ls in
    let l4 = match_char b':' r.1 in
    add_value (consume_till_end l4).0 (record ps { key = r.0; bad = l4.err })

pub parse_pair : Scanner → Parser → Parser
unfolding consume_till peek_char pair_equals pair_colon
parse_pair ls ps =
    let r = consume_till b'=' ls in
    let q = peek_char r.1 in if q.0 == b'=' then pair_equals r.0 q.1 ps else pair_colon ls ps

-- The body of the loop of parse, on a line as a C string.
pub parse_line : Bytes → Parser → Parser
unfolding peek_char parse_section parse_continuation parse_pair
parse_line ln ps =
    let (c, ls) = peek_char (record { p = ln; err = false }) in
    if c == b';' || c == b'#' || c == 0
    then ps
    else if c == b'['
    then parse_section ls ps
    else if is_space (head_or_nul ln)
    then parse_continuation ls ps
    else parse_pair ls ps

-- The line as a C string.
pub c_string : Bytes → Bytes
c_string bs = take_while (is_not 0) bs

-- fgets of at most `n` bytes: a line with its newline, and what is left of the file.
pub gets : ℕ → Bytes → Bytes × Bytes
gets zero bs = ([], bs)
gets (suc n) [] = ([], [])
gets (suc n) (c ∷ cs) =
    let (ln, rest) = gets n cs in if c == b'\n' then (c ∷ [], cs) else (c ∷ ln, rest)

-- MAX_LINE - 1
abbrev pub max_line : ℕ
max_line = 16383

-- The loop of parse, on fuel: its result, and the values.
pub parse_loop : ℕ → ℕ → Parser → Bytes → ℤ × Parser
unfolding gets c_string parse_line
parse_loop fuel lineno ps [] = (pos (if ps.bad then lineno else 0), ps)
parse_loop zero lineno ps (c ∷ cs) = (pos (if ps.bad then lineno else 0), ps)
parse_loop (suc fuel) lineno ps (c ∷ cs) =
    let (ln, rest) = gets max_line (c ∷ cs) in
    let r = parse_loop fuel (lineno + 1) (parse_line (c_string ln) ps) rest in
    if ps.bad then (pos lineno, ps) else r

pub parse : Option Bytes → Values → ℤ × Values
unfolding parse_loop
parse none values = (negsuc 0, values)
parse (some file) values =
    let (r, ps) =
      parse_loop (length file) 0 (record { section = []; key = []; bad = false; values = values })
        file in
    (r, ps.values)
