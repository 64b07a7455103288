-- ===== src/Proto/RoundTrip.antt =====
-- protobuf/proto_msg.cc: encode against decode.
use handy.Base.{
  ℕ, ◌+◌, ◌-◌, ◌*◌, ◌%◌, ◌^◌, ◌≤◌, ◌<◌, ◌≡◌, refl, sym, ap, ◌∙◌, true, false, some, [], ◌++◌,
  append_assoc, arith, ltb, Bytes, length, take, drop, length-append, take-append, drop-append,
  drop-drop,
}
use handy.Base.Int.{pos, as_int}
use handy.Endian.{store32}
use handy.Status.{read_word}
use handy.Status.Copies.{read_word-store32}
use handy.Proto.{
  Library, decoded, reads_outside, after_parse, parse_msg, decode_typed, decode, encode,
  msg_complete,
}

-- What the library does: it knows the types of the messages that it holds, and parses what it has
-- serialized.
pub record IsFaithful {ℓ} {M : Type ℓ} (lib : Library M) : Type ℓ where
  pub knows : (m : M) → lib.has_type (lib.full_name m) ≡ true
  pub parses : (m : M) → lib.parse (lib.full_name m) (lib.serialize m) ≡ some m

-- the bytes behind the total length of a frame
frame : Bytes → Bytes → Bytes
unfolding store32
frame name body =
    store32 (8 + length name + length body) ++ (store32 (length name) ++ (name ++ body))

length-frame : (name body : Bytes) → length (frame name body) ≡ 8 + length name + length body
unfolding frame store32
length-frame name body = omega (arith, length-append name body)

frame-total :
    (name body rest : Bytes)
    → length name + length body + 8 < 2 ^ 32
    → read_word (frame name body ++ rest) ≡ 8 + length name + length body
unfolding frame store32
frame-total name body rest h =
    read_word-store32 (8 + length name + length body)
      ((store32 (length name) ++ (name ++ body)) ++ rest) (omega (arith, h))

complete-frame :
    (name body rest : Bytes)
    → length name + length body + 8 < 2 ^ 32
    → msg_complete (frame name body ++ rest) ≡ true
unfolding msg_complete
complete-frame name body rest h =
    let total = frame-total name body rest h in
    let len = length-append (frame name body) rest in
    rw total (ground (arith, len, length-frame name body))

module _ {ℓ} {M : Type ℓ} (lib : Library M) where
  encode-frame :
      (m : M) (buf : Bytes)
      → length (lib.full_name m) + length (lib.serialize m) + 8 < 2 ^ 32
      → encode lib m buf ≡ buf ++ frame (lib.full_name m) (lib.serialize m)
  unfolding encode frame
  encode-frame m buf h =
      let name = lib.full_name m in
      let body = lib.serialize m in
      let n : length name % 2 ^ 32 ≡ length name = omega (arith, h) in
      let t : (4 + length (store32 (length name % 2 ^ 32) ++ (name ++ body))) % 2 ^ 32
          ≡ 8 + length name + length body =
        unfold store32 in omega (arith, h, length-append name body) in
      rw (t, n) refl

  parse-parts :
      (s body rest : Bytes) (msglen namelen n : ℕ)
      → length s ≡ 8 + namelen + n + length rest
      → take n (drop (8 + namelen) s) ≡ body
      → drop msglen s ≡ rest
      → parse_msg lib s msglen namelen (pos n)
        ≡ after_parse lib (lib.parse (take namelen (drop 8 s)) body) rest
  unfolding parse_msg
  parse-parts s body rest msglen namelen n len takes left =
      let inside : ltb (length s) (8 + namelen + n) ≡ false = ground (arith, len) in
      rw (inside, takes, left) refl

  typed-parts :
      (s name body rest : Bytes)
      → length name + length body + 8 < 2 ^ 31
      → length s ≡ 8 + length name + length body + length rest
      → take (length name) (drop 8 s) ≡ name
      → take (length body) (drop (8 + length name) s) ≡ body
      → drop (8 + length name + length body) s ≡ rest
      → lib.has_type name ≡ true
      → decode_typed lib s (8 + length name + length body) (length name)
        ≡ after_parse lib (lib.parse name body) rest
  unfolding decode_typed
  typed-parts s name body rest h len names takes left known =
      let total = 8 + length name + length body in
      let inside : ltb (length s) (8 + length name) ≡ false = ground (arith, len) in
      let size : as_int (total + 2 ^ 32 * 2 - 8 - length name) ≡ pos (length body) =
        unfold as_int in ground (arith, h) in
      let parsed = parse-parts s body rest total (length name) (length body) len takes left in
      rw (inside, names, known, size)
        (parsed ∙ ap (λ x. after_parse lib (lib.parse x body) rest) names)

  decode-parts :
      (s name body rest : Bytes)
      → length name + length body + 8 < 2 ^ 31
      → length s ≡ 8 + length name + length body + length rest
      → read_word s ≡ 8 + length name + length body
      → read_word (drop 4 s) ≡ length name
      → decode lib s ≡ decode_typed lib s (8 + length name + length body) (length name)
  unfolding decode
  decode-parts s name body rest h len total namelen =
      let enough : ltb (length s) 8 ≡ false = ground (arith, len) in
      let inside : ltb (length s) (8 + length name + length body) ≡ false = ground (arith, len) in
      let named : ltb (length s) ((4 + length name) % 2 ^ 32) ≡ false = ground (arith, len, h) in
      rw (total, namelen, enough, inside, named) refl

  decode-frame :
      (name body rest : Bytes)
      → length name + length body + 8 < 2 ^ 31
      → lib.has_type name ≡ true
      → decode lib (frame name body ++ rest) ≡ after_parse lib (lib.parse name body) rest
  decode-frame name body rest h known =
      let s = frame name body ++ rest in
      let total = 8 + length name + length body in
      let len : length s ≡ total + length rest =
        omega (arith, length-append (frame name body) rest, length-frame name body) in
      let behind : drop 8 s ≡ name ++ (body ++ rest) =
        unfold frame store32 in append_assoc name body rest in
      let names =
        ap (take (length name)) behind ∙ take-append (length name) name (body ++ rest) refl in
      let bodies =
        ap (take (length body)) (
          sym (drop-drop (length name) 8 s)
          ∙ ap (drop (length name)) behind
          ∙ drop-append (length name) name (body ++ rest) refl)
        ∙ take-append (length body) body rest refl in
      let left = drop-append total (frame name body) rest (sym (length-frame name body)) in
      let total_read : read_word s ≡ total = frame-total name body rest (omega (arith, h)) in
      let namelen_read : read_word (drop 4 s) ≡ length name =
        unfold frame store32 in
        read_word-store32 (length name) ((name ++ body) ++ rest) (omega (arith, h)) in
      decode-parts s name body rest h len total_read namelen_read
      ∙ typed-parts s name body rest h len names bodies left known

  -- A message that the library holds, encoded behind the bytes of a buffer that is read from there on: where
  -- its name, its bytes and 8 more are below 2 ^ 31 together, what the encoder appends is a complete
  -- message, and decode gives the message and leaves exactly the bytes behind it.
  pub decode-encode :
      IsFaithful lib
      → (m : M) (rest : Bytes) → length (lib.full_name m) + length (lib.serialize m) + 8 < 2 ^ 31
      → (msg_complete (encode lib m [] ++ rest) ≡ true)
        × (decode lib (encode lib m [] ++ rest) ≡ decoded m rest)
  decode-encode faithful m rest h =
      let name = lib.full_name m in
      let body = lib.serialize m in
      let framed = ap (λ s. s ++ rest) (encode-frame m [] (omega (arith, h))) in
      (
        ap msg_complete framed ∙ complete-frame name body rest (omega (arith, h)),
        ap (decode lib) framed
            ∙ decode-frame name body rest h (faithful.knows m)
            ∙ (unfold after_parse in ap (λ r. after_parse lib r rest) (faithful.parses m)),
      )

  -- Where the whole buffer is shorter than 8 bytes and the name that it announces, but not than 4 bytes
  -- and the name, decode reads the name from behind the buffer.
  pub decode_outside :
      (s : Bytes)
      → 8 ≤ length s
      → read_word s ≤ length s
      → (4 + read_word (drop 4 s)) % 2 ^ 32 ≤ length s
      → length s < 8 + read_word (drop 4 s)
      → decode lib s ≡ reads_outside
  unfolding decode decode_typed
  decode_outside s enough total name short =
      let a : ltb (length s) 8 ≡ false = ground (arith, enough) in
      let b : ltb (length s) (read_word s) ≡ false = ground (arith, total) in
      let c : ltb (length s) ((4 + read_word (drop 4 s)) % 2 ^ 32) ≡ false = ground (arith, name) in
      let d : ltb (length s) (8 + read_word (drop 4 s)) ≡ true = ground (arith, short) in
      rw (a, b, c, d) refl
