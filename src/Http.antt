-- ===== src/Http.antt =====
-- handy/http.h and handy/http.cc: messages of HTTP. A std::map of strings is the list of its pairs in
-- the order of the keys. A decoded message's slices are the bytes they stand for; that tryDecode_
-- also writes the lower case of a header's name into the buffer is not seen here.
pub mod Request
pub mod Numbers
pub mod Headers
pub mod Scanning
pub mod Whole
pub mod RoundTrip
pub mod Decoding
use handy.Base.{
  ℕ, zero, suc, ◌+◌, ◌-◌, ◌*◌, ◌%◌, ◌/◌, min, Bool, true, false, not, ◌&&◌, ◌||◌, Option, none,
  some, List, [], ◌∷◌, ◌++◌, Bytes, map, take, drop, length, ltb, leb, ◌==◌, if◌then◌else◌,
  same_bytes, ◌^◌,
}
use handy.Base.Scan.{take_while, drop_while}
use handy.Base.Sizes.{size_mod}
use handy.Base.Int.{ℤ, pos, negsuc, as_int, as_size_t}
use handy.Conf.{to_lower, is_empty}
use handy.Slice.{is_space, less, starts_with, eat_line, eat_word, trim_space}

abbrev pub Pairs : Type 0
Pairs = List (Bytes × Bytes)

-- m[key] = value
unfoldable pub assign : Bytes → Bytes → Pairs → Pairs
assign key value [] = (key, value) ∷ []
assign key value ((k, v) ∷ rest) =
    let later = assign key value rest in
    if same_bytes key k
    then (k, value) ∷ rest
    else if less key k
    then (key, value) ∷ (k, v) ∷ rest
    else (k, v) ∷ later

-- getValueFromMap_
unfoldable pub get_value : Pairs → Bytes → Bytes
get_value [] n = []
get_value ((k, v) ∷ rest) n = if same_bytes n k then v else get_value rest n

-- `throws` is no value of the enum: it stands for the std::length_error of body.assign.
pub data Result : Type 0 where
  error complete not_complete continue100 throws : Result

pub record HttpMsg : Type 0 where
  pub headers : Pairs
  pub version : Bytes
  pub body : Bytes
  pub body2 : Bytes
  pub done : Bool
  pub content_len : ℕ
  pub scanned : ℕ

abbrev pub http_1_1 : Bytes
http_1_1 = b'H' ∷ b'T' ∷ b'T' ∷ b'P' ∷ b'/' ∷ b'1' ∷ b'.' ∷ b'1' ∷ []

abbrev pub crlf : Bytes
crlf = b'\r' ∷ b'\n' ∷ []

abbrev pub content_length : Bytes
content_length =
    b'c' ∷ b'o' ∷ b'n' ∷ b't' ∷ b'e' ∷ b'n' ∷ b't' ∷ b'-' ∷ b'l' ∷ b'e' ∷ b'n' ∷ b'g' ∷ b't' ∷ b'h'
    ∷ []

abbrev pub expect : Bytes
expect = b'E' ∷ b'x' ∷ b'p' ∷ b'e' ∷ b'c' ∷ b't' ∷ []

-- HttpMsg::clear
unfoldable pub clear : HttpMsg
clear = record {
  headers = [];
  version = http_1_1;
  body = [];
  body2 = [];
  done = false;
  content_len = 0;
  scanned = 0;
}

unfoldable pub get_body : HttpMsg → Bytes
get_body m = if is_empty m.body2 then m.body else m.body2

-- The loop that looks for the empty line: `rest` is the buffer from scanned_ on. Where it stops, and
-- whether it found the line.
unfoldable pub scan : ℕ → Bytes → ℕ × Bool
scan n [] = (n, false)
scan n (c ∷ cs) =
    let further = scan (n + 1) cs in
    if leb 4 (length (c ∷ cs))
    then (if starts_with (c ∷ cs) (crlf ++ crlf) then (n, true) else further)
    else (n, false)

-- k.size() && ln.size() && k.back() == ':'
pub ends_colon : Bytes → Bool
ends_colon [] = false
ends_colon (c ∷ []) = c == b':'
ends_colon (c ∷ d ∷ cs) = ends_colon (d ∷ cs)

-- The loop over the lines of a header, on fuel: false for Error. Of a single byte that is left,
-- eat(2) runs past the end, where no test of the loop can hold, so that it comes to Error.
pub header_loop : ℕ → Pairs → Bytes → Pairs × Bool
unfolding ends_colon
header_loop fuel headers [] = (headers, true)
header_loop zero headers (a ∷ req) = (headers, true)
header_loop (suc fuel) headers (a ∷ []) = (headers, false)
header_loop (suc fuel) headers (a ∷ b ∷ req) =
    let (line, rest) = eat_line req in
    let (k, value) = eat_word line in
    let ln = trim_space value in
    let name = map to_lower (take (length k - 1) k) in
    let more = header_loop fuel (assign name ln headers) rest in
    if not (is_empty ln) && ends_colon k
    then more
    else (headers, is_empty k && is_empty ln && is_empty rest)

abbrev pub is_digit : ℕ → Bool
is_digit c = leb b'0' c && leb c b'9'

unfoldable pub decimal_value : ℕ → Bytes → ℕ
decimal_value acc [] = acc
decimal_value acc (c ∷ cs) = decimal_value (10 * acc + (c - b'0')) cs

-- atoi behind the spaces
abbrev pub atoi_word : Bytes → ℤ
atoi_word [] = pos 0
atoi_word (c ∷ cs) =
    let digits = decimal_value 0 (take_while is_digit cs) in
    if c == b'-'
    then as_int (size_mod - min digits (2 ^ 63))
    else if c == b'+'
    then as_int (min digits (2 ^ 63 - 1))
    else as_int (min (decimal_value 0 (take_while is_digit (c ∷ cs))) (2 ^ 63 - 1))

-- atoi, which is strtol and a conversion to int
unfoldable pub atoi : Bytes → ℤ
unfolding drop_while is_space
atoi s = atoi_word (drop_while is_space s)

-- The last test of tryDecode_: whether the body is there.
pub take_body : Bytes → Bool → HttpMsg → Result × HttpMsg
take_body buf copy_body m =
    if leb ((m.content_len + m.scanned) % size_mod) (length buf)
    then (let bytes = take m.content_len (drop m.scanned buf) in
        if copy_body && leb (2 ^ 63) m.content_len then (throws, m) else (
          complete,
          record m {
            body = if copy_body then bytes else m.body;
            body2 = if copy_body then m.body2 else bytes;
            done = true;
            scanned = (m.scanned + m.content_len) % size_mod;
          },
        ))
    else (not_complete, m)

-- Behind the header: its length is known.
pub header_done : Bytes → Bool → Pairs → HttpMsg → Result × HttpMsg
unfolding take_body atoi get_value
header_done buf copy_body headers m =
    let d = record m {
      headers = headers;
      scanned = m.scanned + 4;
      content_len = as_size_t (atoi (get_value headers content_length));
    } in
    if ltb (length buf) ((d.content_len + d.scanned) % size_mod)
      && not (is_empty (get_value headers expect))
    then (continue100, d)
    else take_body buf copy_body d

-- The lines of a header that has been found, `req`: the first line is a result.
pub take_header : Bytes → Bool → Bytes → HttpMsg → (Result × HttpMsg) × Bytes
unfolding header_loop header_done
take_header buf copy_body req m =
    let (line1, rest) = eat_line req in
    let (headers, ok) = header_loop (length rest) m.headers rest in
    if ok
    then (header_done buf copy_body headers m, line1)
    else ((error, record m { headers = headers }), line1)

-- tryDecode_, with *line1
pub try_decode_msg : Bytes → Bool → HttpMsg → (Result × HttpMsg) × Bytes
unfolding scan take_header take_body
try_decode_msg buf copy_body m =
    if m.done
    then ((complete, m), [])
    else if not (m.content_len == 0)
    then (take_body buf copy_body m, [])
    else (let (n, found) = scan m.scanned (drop m.scanned buf) in
        let d = record m { scanned = n } in
        if found && not (n == 0)
        then take_header buf copy_body (take n buf) d
        else ((not_complete, d), []))
