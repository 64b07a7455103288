-- ===== src/Conn/Reading.antt =====
-- handy/conn.cc, the receiving half: handleRead.
use handy.Base.{
  ◌≡◌, refl, sym, Bool, true, false, not, ◌&&◌, List, [], ◌∷◌, ◌++◌, append-nil, append_assoc,
  if◌then◌else◌, Bytes,
}
use handy.Conn.{
  Conn, updates_idles, ReadResult, got, read_blocks, read_interrupted, read_ends, read_fails,
  effect, is_empty, call_if, read_loop, cleanup,
}

-- The bytes of what the reads returned up to the first that is not bytes or an interruption.
pub gathered : List ReadResult → Bytes
gathered [] = []
gathered (got bs ∷ rs) = bs ++ gathered rs
gathered (read_interrupted ∷ rs) = gathered rs
gathered (read_blocks ∷ rs) = []
gathered (read_ends ∷ rs) = []
gathered (read_fails ∷ rs) = []

-- Whether the reads end because the peer has, or by an error.
pub ends : List ReadResult → Bool
ends [] = false
ends (got bs ∷ rs) = ends rs
ends (read_interrupted ∷ rs) = ends rs
ends (read_blocks ∷ rs) = false
ends (read_ends ∷ rs) = true
ends (read_fails ∷ rs) = true

-- What handleRead comes to behind its reads.
pub finish : (on_read on_writable on_state : Conn → Conn) → Bool → Conn → Conn
unfolding cleanup call_if effect
finish f g k over c =
    if over
    then cleanup f g k c
    else call_if f g k (c.has_read && not (is_empty c.input)) f (effect updates_idles c)

-- The loop of handleRead: all the bytes that the reads return stand in the input, in order, before the
-- user's callback sees them, once; then the connection is cleaned up exactly where the stream ended.
pub read_loop_lem :
    (on_read on_writable on_state : Conn → Conn) (rs : List ReadResult) (c : Conn)
    → read_loop on_read on_writable on_state rs c
      ≡ finish on_read on_writable on_state (ends rs) (record c { input = c.input ++ gathered rs })
unfolding read_loop finish gathered ends
read_loop_lem f g k [] c = rw (append-nil c.input) refl
read_loop_lem f g k (got bs ∷ rs) c =
    rw (sym (append_assoc c.input bs (gathered rs)))
      (read_loop_lem f g k rs (record c { input = c.input ++ bs }))
read_loop_lem f g k (read_interrupted ∷ rs) c = read_loop_lem f g k rs c
read_loop_lem f g k (read_blocks ∷ rs) c = rw (append-nil c.input) refl
read_loop_lem f g k (read_ends ∷ rs) c = rw (append-nil c.input) refl
read_loop_lem f g k (read_fails ∷ rs) c = rw (append-nil c.input) refl
