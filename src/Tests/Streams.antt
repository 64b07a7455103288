-- ===== src/Tests/Streams.antt =====
-- The codecs and the loop of onMsg on short streams.
use handy.Base.{
  ◌^◌, ◌<◌, ◌≡◌, ◌≢◌, refl, ap, false, some, [], ◌∷◌, ◌++◌, arith, Bytes, length, same_bytes,
}
use handy.Codec.{
  View, line_codec, length_codec, bracket_codec, try_decode, encode, bytes_of, decode_length,
  decode_line, decode_bracket, length_field, magic, encode_bracket, encode_length,
}
use handy.Codec.Stable.{try_decode-encode, try_decode-append}
use handy.Dispatch.{Outcome, on_msg_loop}
use handy.Dispatch.Inside.{line-StaysInside}
use handy.Dispatch.Streams.{
  on_msg_loop_total, encode_all, on_msg_loop-encode_all, resume, on_msg_loop-append,
}
use handy.Endian.{load32, store32, htobe32}
use handy.Base.Int.{pos, negsuc, as_int, as_size_t}

-- "a", a line end, and the "b" of a message that is not complete
abbrev first_read : Bytes
first_read = b'a' ∷ b'\n' ∷ b'b' ∷ []

abbrev second_read : Bytes
second_read = b'c' ∷ b'\n' ∷ []

abbrev after_first : Outcome
after_first = record { messages = (b'a' ∷ []) ∷ []; input = b'b' ∷ []; closed = false }

abbrev after_second : Outcome
after_second = record { messages = (b'b' ∷ b'c' ∷ []) ∷ []; input = []; closed = false }

first_runs : on_msg_loop 3 line_codec first_read ≡ some after_first
unfolding on_msg_loop try_decode decode_line as_int bytes_of
first_runs = refl

second_runs : on_msg_loop 3 line_codec (b'b' ∷ second_read) ≡ some after_second
unfolding on_msg_loop try_decode decode_line as_int bytes_of
second_runs = refl

on_msg_loop-append_example :
    on_msg_loop 6 line_codec (first_read ++ second_read) ≡ some (resume after_first after_second)
on_msg_loop-append_example =
    on_msg_loop-append line_codec 3 3 6 first_read second_read after_first after_second
      (refl, (refl, (refl, tt))) (line-StaysInside first_read (omega arith)) (omega arith)
      first_runs refl second_runs (omega arith)

nothing_yet : try_decode bracket_codec (b'{' ∷ []) ≡ (pos 0, record { from = 0; size = 0 })
unfolding try_decode decode_bracket
nothing_yet = refl

short_brackets : length (encode_all bracket_codec ((b'x' ∷ []) ∷ []) ++ b'{' ∷ []) < 2 ^ 31
unfolding encode_all encode encode_bracket
short_brackets = omega arith

on_msg_loop-encode_all_example :
    on_msg_loop 2 bracket_codec (encode_all bracket_codec ((b'x' ∷ []) ∷ []) ++ b'{' ∷ [])
    ≡ some (record { messages = (b'x' ∷ []) ∷ []; input = b'{' ∷ []; closed = false })
on_msg_loop-encode_all_example =
    on_msg_loop-encode_all bracket_codec ((b'x' ∷ []) ∷ []) (b'{' ∷ [])
      (record { from = 0; size = 0 }) 2 (((refl, tt), omega arith), tt) nothing_yet short_brackets
      (omega arith)

on_msg_loop_total_example : (o : Outcome) × (on_msg_loop 4 line_codec first_read ≡ some o)
on_msg_loop_total_example = on_msg_loop_total line_codec 4 first_read (omega arith)

short_length : length (encode length_codec (b'h' ∷ b'i' ∷ []) ++ b'!' ∷ []) < 2 ^ 31
unfolding encode encode_length htobe32 store32
short_length = omega arith

try_decode-encode_example :
    (v : View) × (try_decode length_codec (encode length_codec (b'h' ∷ b'i' ∷ []) ++ b'!' ∷ [])
      ≡ (pos (length (encode length_codec (b'h' ∷ b'i' ∷ []))), v))
    × (bytes_of (encode length_codec (b'h' ∷ b'i' ∷ []) ++ b'!' ∷ []) v ≡ b'h' ∷ b'i' ∷ [])
try_decode-encode_example =
    try_decode-encode length_codec (b'h' ∷ b'i' ∷ []) (b'!' ∷ []) (omega arith) short_length

decided : (try_decode line_codec first_read).0 ≢ pos 0
unfolding try_decode decode_line as_int as_size_t
decided e = let f : 2 ≡ 0 = ap as_size_t e in omega (arith, f)

try_decode-append_example :
    try_decode line_codec (first_read ++ second_read) ≡ try_decode line_codec first_read
try_decode-append_example =
    try_decode-append line_codec first_read second_read (refl, (refl, (refl, tt))) decided
      (omega arith)

line_decodes : decode_line first_read ≡ (pos 2, record { from = 0; size = 1 })
unfolding decode_line as_int
line_decodes = refl

abbrev bracketed : Bytes
bracketed = b'{' ∷ b'x' ∷ b'}' ∷ b'{' ∷ []

bracket_decodes : decode_bracket bracketed ≡ (pos 3, record { from = 1; size = 1 })
unfolding decode_bracket as_int
bracket_decodes = refl

-- the length 1 and its byte
abbrev with_length : Bytes
with_length = magic ++ 0 ∷ 0 ∷ 0 ∷ 1 ∷ b'x' ∷ []

length_decodes : decode_length with_length ≡ (pos 9, record { from = 8; size = 1 })
unfolding decode_length length_field as_int as_size_t htobe32 load32 same_bytes
length_decodes = refl

-- "mBdT" and the length -1
abbrev negative_length : Bytes
negative_length = magic ++ 255 ∷ 255 ∷ 255 ∷ 255 ∷ []

field_reads : length_field negative_length ≡ negsuc 0
unfolding length_field as_int htobe32 load32
field_reads = refl
