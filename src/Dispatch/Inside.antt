-- ===== src/Dispatch/Inside.antt =====
-- handy/conn.cc: where the messages of the codecs lie in the input.
use handy.Codec.Line.{decode_line_bounds}
use handy.Codec.Bracket.{decode_bracket_bounds}
use handy.Codec.Length.{decode_length_bounds}
use handy.Base.{
  ℕ, suc, ◌+◌, ◌^◌, ◌≤◌, ◌<◌, ◌≡◌, ◌≢◌, Bytes, length, drop, arith, length-drop, inl, drop-drop,
  inr,
}
use handy.Base.Int.{pos, negsuc}
use handy.Codec.{View, Codec, line_codec, length_codec, bracket_codec, try_decode, length_field}

-- Every message lies within the input that it is decoded from, wherever decoding starts.
abbrev pub StaysInside : Codec → Bytes → Type 0
StaysInside k s =
    (m n : ℕ) (v : View)
    → try_decode k (drop m s) ≡ (pos (suc n), v)
    → (suc n ≤ length (drop m s)) × (v.from + v.size ≤ length (drop m s))

-- So it is with the codecs that look for a byte, and with LengthCodec where no length is negative.
pub line-StaysInside : (s : Bytes) → length s < 2 ^ 31 → StaysInside line_codec s
line-StaysInside s small m n v e =
    let b =
      decode_line_bounds (drop m s) n v (omega (arith, length-drop m s)) (unfold try_decode in e) in
    omega arith

pub bracket-StaysInside : (s : Bytes) → length s < 2 ^ 31 → StaysInside bracket_codec s
bracket-StaysInside s small m n v e =
    let b =
      decode_bracket_bounds (drop m s) n v (omega (arith, length-drop m s))
        (unfold try_decode in e) in
    omega arith

pub length-StaysInside :
    (s : Bytes)
    → length s < 2 ^ 31
    → ((m j : ℕ) → length_field (drop m s) ≢ negsuc j)
    → StaysInside length_codec s
length-StaysInside s small positive m n v e =
    let b =
      decode_length_bounds (drop m s) n v (omega (arith, length-drop m s))
        (unfold try_decode in e) in
    (b.0, elim b.1 [ inl q ↦ omega (arith, b.0) | inr (j, z, _) ↦ absurd (positive m j z) ])

pub StaysInside-drop : (k : Codec) (n : ℕ) (s : Bytes) → StaysInside k s → StaysInside k (drop n s)
StaysInside-drop k n s i m j v e = rw (drop-drop m n s) (i (n + m) j v (rw (drop-drop m n s) at e))
