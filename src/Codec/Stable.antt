-- ===== src/Codec/Stable.antt =====
-- What every codec promises to the loop that calls it.
use handy.Base.{
  zero, ℕ, suc, ◌^◌, ◌≤◌, ◌<◌, ◌≡◌, ◌≢◌, refl, Bool, false, [], ◌∷◌, ◌++◌, Bytes, length, take,
  drop, arith, ap, ◌∙◌, take-append, append_assoc, length-append, codes, not, ◌==◌,
}
use handy.Base.Int.{pos}
use handy.Base.Scan.{Every}
use handy.Codec.{
  View, bytes_of, Codec, line_codec, length_codec, bracket_codec, try_decode, encode, is_eot,
  encode_line, encode_bracket, encode_length, store32, decode_line, decode_length, decode_bracket,
}
use handy.Endian.{store32}
use handy.Codec.Line.{in_body, decode-encode_line, decode_line-append}
use handy.Codec.Bracket.{in_brackets, decode-encode_bracket, decode_bracket-append}
use handy.Codec.Length.{max_length, decode-encode_length, decode_length-append}

-- The messages that a codec can carry.
abbrev pub IsEncodable : Codec → Bytes → Type 0
IsEncodable line_codec msg = Every in_body msg
IsEncodable length_codec msg = length msg ≤ max_length
IsEncodable bracket_codec msg = Every in_brackets msg × (0 < length msg)

-- No byte of the stream is an end of transmission, where the codec gives that byte, alone in the
-- buffer, a meaning of its own.
abbrev pub no_eot : ℕ → Bool
no_eot c = not (c == 4)

abbrev pub LacksEot : Codec → Bytes → Type 0
LacksEot length_codec s = Unit
LacksEot line_codec s = Every no_eot s
LacksEot bracket_codec s = Every no_eot s

is_eot-false : (s : Bytes) → Every no_eot s → is_eot s ≡ false
is_eot-false [] h = refl
is_eot-false (c ∷ []) h = ground arith
is_eot-false (c ∷ d ∷ s) h = refl

Every-drop : (n : ℕ) (s : Bytes) → Every no_eot s → Every no_eot (drop n s)
Every-drop zero s h = h
Every-drop (suc n) [] h = tt
Every-drop (suc n) (c ∷ s) h = Every-drop n s h.1

pub LacksEot-drop : (k : Codec) (n : ℕ) (s : Bytes) → LacksEot k s → LacksEot k (drop n s)
LacksEot-drop length_codec n s h = tt
LacksEot-drop line_codec n s h = Every-drop n s h
LacksEot-drop bracket_codec n s h = Every-drop n s h

-- Once a codec has decided, for a message or for an error, more bytes change nothing, below 2 ^ 31 bytes
-- in all, and for the line and the bracket codec where what has come holds no byte 4, which ends the
-- transmission where it is alone.
pub try_decode-append :
    (k : Codec) (s t : Bytes)
    → LacksEot k s
    → (try_decode k s).0 ≢ pos 0
    → length (s ++ t) < 2 ^ 31
    → try_decode k (s ++ t) ≡ try_decode k s
unfolding try_decode
try_decode-append line_codec s t e h small = decode_line-append s t (is_eot-false s e) h
try_decode-append length_codec s t e h small = decode_length-append s t h small
try_decode-append bracket_codec s t e h small = decode_bracket-append s t (is_eot-false s e) h

-- An encoded message is decoded from the front of a stream below 2 ^ 31 bytes: all of its encoding is
-- consumed, and the slice handed on holds its bytes, for a message that the codec can carry: for a line
-- codec one without a line feed, for a length codec one of at most 1 MiB, for a bracket codec one without
-- a closing brace that is not empty.
pub try_decode-encode :
    (k : Codec) (msg rest : Bytes)
    → IsEncodable k msg
    → length (encode k msg ++ rest) < 2 ^ 31
    → (v : View) × (try_decode k (encode k msg ++ rest) ≡ (pos (length (encode k msg)), v))
      × (bytes_of (encode k msg ++ rest) v ≡ msg)
unfolding try_decode encode bytes_of
try_decode-encode line_codec msg rest h small = (
  _,
  decode-encode_line msg rest h small,
  unfold encode_line in
      (ap (take (length msg)) (append_assoc msg _ rest) ∙ take-append (length msg) msg _ refl),
)
try_decode-encode length_codec msg rest h small = (
  _,
  decode-encode_length msg rest h small,
  unfold encode_length store32 in take-append (length msg) msg rest refl,
)
try_decode-encode bracket_codec msg rest h small = (
  _,
  decode-encode_bracket msg rest h.0 (omega arith) small,
  unfold encode_bracket in
      (ap (take (length msg)) (append_assoc msg _ rest) ∙ take-append (length msg) msg _ refl),
)

-- Nothing is decoded from nothing.
pub try_decode-nil : (k : Codec) → (try_decode k []).0 ≡ pos 0
unfolding try_decode
try_decode-nil line_codec = unfold decode_line in refl
try_decode-nil length_codec = unfold decode_length in refl
try_decode-nil bracket_codec = unfold decode_bracket in refl

pub encode-pos : (k : Codec) (msg : Bytes) → 0 < length (encode k msg)
unfolding encode
encode-pos line_codec msg = unfold encode_line in omega (arith, length-append msg (codes "\r\n"))
encode-pos length_codec msg = unfold encode_length in omega arith
encode-pos bracket_codec msg = unfold encode_bracket in omega arith
