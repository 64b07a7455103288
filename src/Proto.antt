-- ===== src/Proto.antt =====
-- protobuf/proto_msg.h and protobuf/proto_msg.cc: messages of the protobuf library on a stream. The
-- library is a parameter; a buffer is its bytes, and a number in it is four bytes, the lowest first.
pub mod RoundTrip
use mathlib.Core.Option
use mathlib.Core.Path.{ap₂}
use handy.Base.{
  ℕ, zero, suc, ◌+◌, ◌-◌, ◌*◌, ◌/◌, ◌%◌, ◌^◌, ◌≤◌, ◌<◌, min, max, ◌≡◌, ◌≢◌, ◌↔◌, ◌⊎◌, inl, inr,
  refl, sym, ap, ◌∙◌, subst, Bool, true, false, not, ◌&&◌, ◌||◌, Option, none, some, List, [], ◌∷◌,
  ◌++◌, map, reverse, append-nil, append_assoc, arith, ltb, leb, ◌==◌, if◌then◌else◌, ltb→lt,
  lt→ltb, leb→le, ==_iff, ==_self, Bool-cases, ℕ-cases, List-cases, Option-cases, if_cases, Bytes,
  codes, length, take, drop, get_elem?, All, length-append, length-take, length-drop,
  take-append-drop, take-all, drop-all, take-append, drop-append, take-append_le, drop-append_le,
  take-append_ge, drop-drop, take-drop, same_bytes, same_bytes_iff,
}
use handy.Base.Int.{ℤ, pos, negsuc, as_int}
use handy.Endian.{store32, load32}
use handy.Status.{read_word}

-- What the codec uses of the library: the full name of a message's type, SerializeToArray, whether
-- there is a prototype for a name, and ParseFromArray on a new message of that type.
pub record Library {ℓ} (M : Type ℓ) : Type ℓ where
  pub full_name : M → Bytes
  pub serialize : M → Bytes
  pub has_type : Bytes → Bool
  pub parse : Bytes → Bytes → Option M

-- What decode comes to: NULL for four reasons, a read behind the buffer, or a message and the bytes
-- that are left.
pub data Decoded {ℓ} (M : Type ℓ) : Type ℓ where
  too_small bad_format reads_outside unknown_type bad_msg : Decoded M
  decoded : M → Bytes → Decoded M

module _ {ℓ} {M : Type ℓ} (lib : Library M) where
  -- Behind ParseFromArray.
  pub after_parse : Option M → Bytes → Decoded M
  after_parse none rest = bad_msg
  after_parse (some m) rest = decoded m rest

  -- msg->ParseFromArray(p + 8 + namelen, size) and s.consume(msglen)
  pub parse_msg : Bytes → ℕ → ℕ → ℤ → Decoded M
  unfolding after_parse
  parse_msg s msglen namelen (negsuc n) = reads_outside
  parse_msg s msglen namelen (pos n) =
      if ltb (length s) (8 + namelen + n)
      then reads_outside
      else after_parse (lib.parse (take namelen (drop 8 s)) (take n (drop (8 + namelen) s)))
          (drop msglen s)

  -- The type's name, and what follows; msglen - 8 - namelen is a uint32_t and then an int.
  pub decode_typed : Bytes → ℕ → ℕ → Decoded M
  unfolding parse_msg as_int
  decode_typed s msglen namelen =
      if ltb (length s) (8 + namelen)
      then reads_outside
      else if lib.has_type (take namelen (drop 8 s))
      then parse_msg s msglen namelen (as_int (msglen + 2 ^ 32 * 2 - 8 - namelen))
      else unknown_type

  -- ProtoMsgCodec::decode; 4 + namelen is a uint32_t
  unfoldable pub decode : Bytes → Decoded M
  unfolding decode_typed read_word
  decode s =
      let msglen = read_word s in
      let namelen = read_word (drop 4 s) in
      if ltb (length s) 8
      then too_small
      else if ltb (length s) msglen || ltb (length s) ((4 + namelen) % 2 ^ 32)
      then bad_format
      else decode_typed s msglen namelen

  -- ProtoMsgCodec::encode
  unfoldable pub encode : M → Bytes → Bytes
  unfolding store32
  encode m buf =
      let name = lib.full_name m in
      let body = store32 (length name % 2 ^ 32) ++ (name ++ lib.serialize m) in
      buf ++ (store32 ((4 + length body) % 2 ^ 32) ++ body)

-- ProtoMsgCodec::msgComplete
unfoldable pub msg_complete : Bytes → Bool
unfolding read_word
msg_complete s = leb 4 (length s) && leb (read_word s) (length s)

-- protocbs_, by the full name of the descriptor; a callback is a number
abbrev pub Callbacks : Type 0
Callbacks = List (Bytes × ℕ)

-- ProtoMsgDispatcher::onMsg
unfoldable pub set_callback : Bytes → ℕ → Callbacks → Callbacks
unfolding same_bytes
set_callback name cb [] = (name, cb) ∷ []
set_callback name cb (x ∷ xs) =
    let rest = set_callback name cb xs in if same_bytes x.0 name then (name, cb) ∷ xs else x ∷ rest

-- ProtoMsgDispatcher::handle: the callback that is called; `none` for an unknown type
unfoldable pub find_callback : Bytes → Callbacks → Option ℕ
unfolding same_bytes
find_callback name [] = none
find_callback name (x ∷ xs) =
    let rest = find_callback name xs in if same_bytes x.0 name then some x.1 else rest

module _ {ℓ} {M : Type ℓ} (lib : Library M) where
  unfoldable pub handle : Callbacks → M → Option ℕ
  unfolding find_callback
  handle cbs m = find_callback (lib.full_name m) cbs
