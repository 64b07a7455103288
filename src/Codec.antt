-- ===== src/Codec.antt =====
-- handy/codec.h and handy/codec.cc: LineCodec, LengthCodec and BracketCodec. tryDecode returns its
-- int and the slice that it sets `msg` to, as the place in `data` where it begins and its size_t;
-- encode returns the bytes that it appends to the buffer.
pub mod Line
pub mod Bracket
pub mod Length
pub mod Stable
use handy.Base.{
  ℕ, suc, ◌+◌, ◌-◌, ◌*◌, Bool, true, false, not, ◌&&◌, ◌||◌, List, [], ◌∷◌, ◌++◌, Option, none,
  some, Bytes, length, take, drop, codes, leb, ltb, ◌==◌, if◌then◌else◌, same_bytes,
}
use handy.Base.Int.{ℤ, pos, negsuc, ◌+ℤ◌, leb_ℤ, as_int, as_size_t}
use handy.Endian.{htobe32, store32, load32}

-- Slice(data.data() + from, size)
pub record View : Type 0 where
  pub from : ℕ
  pub size : ℕ

-- Slice()
abbrev pub no_view : View
no_view = record { from = 0; size = 0 }

-- The bytes of a view that lies within the data.
unfoldable pub bytes_of : Bytes → View → Bytes
bytes_of s v = take v.size (drop v.from s)

pub data Codec : Type 0 where
  line_codec length_codec bracket_codec : Codec

-- data.size() == 1 && data[0] == 0x04
abbrev pub is_eot : Bytes → Bool
is_eot (c ∷ []) = c == 4
is_eot _ = false

abbrev pub ends_line : Option ℕ → Bool
ends_line none = false
ends_line (some c) = c == b'\r'

-- The loop of LineCodec::tryDecode from `i` on; `before` is data[i - 1].
pub line_loop : ℕ → Option ℕ → Bytes → ℤ × View
line_loop i before [] = (pos 0, no_view)
line_loop i before (c ∷ cs) = elim (c == b'\n') [
  | true ↦ (as_int (i + 1), record { from = 0; size = if ends_line before then i - 1 else i })
  | false ↦ line_loop (i + 1) (some c) cs
]

unfoldable pub decode_line : Bytes → ℤ × View
unfolding line_loop
decode_line s = if is_eot s then (pos 1, record { from = 0; size = 1 }) else line_loop 0 none s

unfoldable pub encode_line : Bytes → Bytes
encode_line msg = msg ++ codes "\r\n"

-- The loop of BracketCodec::tryDecode from `i` on.
pub bracket_loop : ℕ → Bytes → ℤ × View
bracket_loop i [] = (pos 0, no_view)
bracket_loop i (c ∷ cs) = elim (c == b'}') [
  | true ↦ (as_int (i + 1), record { from = 1; size = i - 1 })
  | false ↦ bracket_loop (i + 1) cs
]

-- data[0] == '{'
abbrev pub opens : Bytes → Bool
opens [] = false
opens (c ∷ cs) = c == b'{'

unfoldable pub decode_bracket : Bytes → ℤ × View
unfolding bracket_loop
decode_bracket s =
    if is_eot s
    then (pos 1, record { from = 0; size = 1 })
    else if leb (length s) 2
    then (pos 0, no_view)
    else if not (opens s)
    then (pos 0, no_view)
    else bracket_loop 0 s

unfoldable pub encode_bracket : Bytes → Bytes
encode_bracket msg = b'{' ∷ (msg ++ b'}' ∷ [])

abbrev pub magic : Bytes
magic = codes "mBdT"

-- LengthCodec::tryDecode behind its first test, with the int that bytes 4 to 7 give
pub decode_sized : Bytes → ℤ → ℤ × View
decode_sized s len =
    if not (leb_ℤ len (pos (1024 * 1024))) || not (same_bytes (take 4 s) magic)
    then (negsuc 0, no_view)
    else if leb_ℤ (len +ℤ pos 8) (as_int (length s))
    then (len +ℤ pos 8, record { from = 8; size = as_size_t len })
    else (pos 0, no_view)

-- net::ntoh(*(int32_t *) (data.data() + 4))
unfoldable pub length_field : Bytes → ℤ
length_field (_ ∷ _ ∷ _ ∷ _ ∷ a ∷ b ∷ c ∷ d ∷ _) = as_int (htobe32 (load32 a b c d))
length_field _ = pos 0

unfoldable pub decode_length : Bytes → ℤ × View
unfolding decode_sized length_field
decode_length s = if ltb (length s) 8 then (pos 0, no_view) else decode_sized s (length_field s)

unfoldable pub encode_length : Bytes → Bytes
encode_length msg = magic ++ (store32 (htobe32 (length msg)) ++ msg)

-- the virtual calls
unfoldable pub try_decode : Codec → Bytes → ℤ × View
try_decode line_codec = decode_line
try_decode length_codec = decode_length
try_decode bracket_codec = decode_bracket

unfoldable pub encode : Codec → Bytes → Bytes
encode line_codec = encode_line
encode length_codec = encode_length
encode bracket_codec = encode_bracket

-- BracketCodec::clone makes a LineCodec.
pub clone : Codec → Codec
clone line_codec = line_codec
clone length_codec = length_codec
clone bracket_codec = line_codec
