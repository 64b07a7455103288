-- ===== src/Tests/Files.antt =====
-- Configuration files and messages of HTTP.
use handy.Base.Scan.{Every}
use handy.Base.{
  ℕ, zero, suc, ◌+◌, ◌-◌, ◌*◌, ◌/◌, ◌%◌, ◌^◌, ◌≤◌, ◌<◌, min, max, ◌≡◌, ◌≢◌, ◌↔◌, ◌⊎◌, inl, inr,
  refl, sym, ap, ◌∙◌, subst, Bool, true, false, not, ◌&&◌, ◌||◌, Option, none, some, List, [], ◌∷◌,
  ◌++◌, map, reverse, append-nil, append_assoc, arith, ltb, leb, ◌==◌, if◌then◌else◌, ltb→lt,
  lt→ltb, leb→le, ==_iff, ==_self, Bool-cases, Option-cases, if_cases, Bytes, codes, length, take,
  drop, get_elem?, All, length-append, length-take, length-drop, take-append-drop, take-all,
  drop-all, take-append, drop-append, take-append_le, drop-append_le, take-append_ge, drop-drop,
  take-drop, same_bytes, same_bytes_iff,
}
use handy.Conf.{Parser, parse_line, get, get_strings, get_boolean, to_lower}
use handy.Conf.Lines.{in_name, in_word, parse_line-get}
use handy.Slice.{is_space}
use handy.Http.{
  HttpMsg, Result, complete, not_complete, throws, clear, scan, take_body, header_done,
  try_decode_msg, atoi, get_value, content_length, Pairs,
}
use handy.Http.Request.{
  clear_request, clear_response, set_not_found, encode_request, encode_response, try_decode_request,
  try_decode_response, calls_back, on_request, on_response, clear_data, route,
}
use handy.Http.Decoding.{try_decode_msg-resume, header_done_negative}
use handy.Base.Int.{ℤ, pos, negsuc, as_int}

-- "[s]", "n=x y"
abbrev file : Bytes
file = b'[' ∷ b's' ∷ b']' ∷ b'\n' ∷ b'n' ∷ b'=' ∷ b'x' ∷ b' ' ∷ b'y' ∷ b'\n' ∷ []

abbrev in_section : Parser
in_section = record { section = b's' ∷ []; key = []; bad = false; values = [] }

letter_ne : (c : ℕ) (cs : Bytes) → c ∷ cs ≢ []
letter_ne c cs e = let f : length (c ∷ cs) ≡ 0 = ap length e in omega (arith, f)

blank : is_space b' ' ≡ true
unfolding is_space
blank = refl

n_is_a_name : Every in_name (b'n' ∷ [])
unfolding is_space
n_is_a_name = (refl, tt)

x_is_a_word : Every in_word (b'x' ∷ [])
unfolding is_space
x_is_a_word = (refl, tt)

parse_line-get_example :
    get
      (parse_line (b'n' ∷ b'=' ∷ b'x' ∷ b' ' ∷ b'y' ∷ []) in_section).values
      (b's' ∷ [])
      (b'n' ∷ [])
      []
    ≡ b'x' ∷ []
parse_line-get_example =
    parse_line-get (b'n' ∷ []) (b'x' ∷ []) (b'y' ∷ []) [] b' ' in_section (letter_ne b'n' [])
      n_is_a_name refl (letter_ne b'x' []) x_is_a_word blank

says_on : get_boolean ((b'.' ∷ b'n' ∷ [], (b'O' ∷ b'n' ∷ []) ∷ []) ∷ []) [] (b'n' ∷ []) false ≡ true
unfolding get_boolean same_bytes
says_on = refl

all_of_them :
    get_strings ((b'.' ∷ b'n' ∷ [], (b'x' ∷ []) ∷ (b'y' ∷ []) ∷ []) ∷ []) [] (b'N' ∷ [])
    ≡ (b'x' ∷ []) ∷ (b'y' ∷ []) ∷ []
unfolding get_strings same_bytes
all_of_them = refl

-- "GET /a?k=v H", and a message without a body
abbrev half_request : Bytes
half_request =
    b'G' ∷ b' ' ∷ b'/' ∷ b'a' ∷ b'?' ∷ b'k' ∷ b'=' ∷ b'v' ∷ b' ' ∷ b'H' ∷ b'\r' ∷ b'\n' ∷ []

abbrev other_half : Bytes
other_half = b'\r' ∷ b'\n' ∷ []

not_found_yet : (scan 0 (drop 0 half_request)).1 ≡ false
unfolding scan handy.Slice.starts_with same_bytes
not_found_yet = refl

fresh-done : clear.done ≡ false
unfolding clear
fresh-done = refl

fresh-content_len : clear.content_len ≡ 0
unfolding clear
fresh-content_len = refl

try_decode_msg-resume_example :
    let d = record clear { scanned = (scan clear.scanned (drop clear.scanned half_request)).0 } in
    (try_decode_msg half_request true clear ≡ ((not_complete, d), []))
    × (try_decode_msg (half_request ++ other_half) true d
        ≡ try_decode_msg (half_request ++ other_half) true clear)
unfolding clear
try_decode_msg-resume_example =
    try_decode_msg-resume half_request other_half true clear fresh-done fresh-content_len
      (omega arith) not_found_yet

abbrev known_length : HttpMsg
known_length = record {
  headers = [];
  version = [];
  body = [];
  body2 = [];
  done = false;
  content_len = 2;
  scanned = 1;
}

abbrev minus_one : Pairs
minus_one = (content_length, b'-' ∷ b'1' ∷ []) ∷ []

reads_minus_one : atoi (get_value minus_one content_length) ≡ negsuc 0
unfolding atoi get_value handy.Base.Scan.drop_while same_bytes handy.Slice.is_space as_int
    handy.Base.Scan.take_while handy.Http.decimal_value
reads_minus_one = refl

header_done_negative_example : (header_done half_request true minus_one known_length).0 ≡ throws
header_done_negative_example =
    header_done_negative half_request minus_one known_length 0 reads_minus_one (omega arith)
      (omega arith) (omega arith) (omega arith)

request_uri :
    (try_decode_request (half_request ++ other_half) true clear_request).1.uri ≡ b'/' ∷ b'a' ∷ []
unfolding try_decode_request clear_request handy.Slice.starts_with same_bytes handy.Slice.eat_line
    handy.Base.Scan.drop_while handy.Slice.in_line handy.Base.Scan.take_while handy.Slice.eat_word
    handy.Slice.is_space
request_uri = refl

request_routed :
    route {C = ℕ}
      ((b'G' ∷ [], (b'/' ∷ b'a' ∷ [], 1) ∷ []) ∷ [])
      0
      (try_decode_request (half_request ++ other_half) true clear_request).1
    ≡ 1
unfolding route try_decode_request clear_request same_bytes handy.Slice.starts_with
    handy.Slice.eat_line handy.Base.Scan.drop_while handy.Slice.in_line handy.Base.Scan.take_while
    handy.Slice.eat_word handy.Slice.is_space
request_routed = refl

request_cleared :
    (clear_data
      (half_request ++ other_half)
      (try_decode_request (half_request ++ other_half) true clear_request).1).0
    ≡ []
unfolding clear_data try_decode_request clear_request handy.Slice.starts_with same_bytes
    handy.Slice.eat_line handy.Base.Scan.drop_while handy.Slice.in_line handy.Base.Scan.take_while
    handy.Slice.eat_word handy.Slice.is_space handy.Base.Int.as_size_t
request_cleared = refl

request_answered :
    on_request (try_decode_request (half_request ++ other_half) true clear_request).0 ≡ calls_back
unfolding on_request try_decode_request clear_request handy.Slice.starts_with same_bytes
    handy.Slice.eat_line handy.Base.Scan.drop_while handy.Slice.in_line handy.Base.Scan.take_while
    handy.Slice.eat_word handy.Slice.is_space handy.Base.Int.as_size_t
request_answered = refl

-- a response is read back by the client
response_status :
    (try_decode_response
      (encode_response (set_not_found clear_response))
      true
      clear_response).1.status
    ≡ pos 404
unfolding try_decode_response encode_response set_not_found clear_response
    handy.Base.Scan.take_while handy.Slice.starts_with same_bytes handy.Slice.eat_line
    handy.Base.Scan.drop_while handy.Slice.in_line handy.Slice.trim_space handy.Slice.eat_word
    handy.Slice.is_space as_int handy.Http.decimal_value
response_status = refl

response_taken :
    on_response
      (try_decode_response (encode_response (set_not_found clear_response)) true clear_response).0
    ≡ calls_back
unfolding on_response try_decode_response encode_response set_not_found clear_response
    handy.Base.Scan.take_while handy.Slice.starts_with same_bytes handy.Slice.eat_line
    handy.Base.Scan.drop_while handy.Slice.in_line handy.Slice.trim_space handy.Slice.eat_word
    handy.Slice.is_space handy.Base.Int.as_size_t handy.Http.assign to_lower handy.Slice.less as_int
    handy.Http.decimal_value
response_taken = refl

request_length : length (encode_request clear_request) ≡ 60
unfolding encode_request clear_request handy.Base.Scan.take_while
request_length = refl
