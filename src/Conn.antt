-- ===== src/Conn.antt =====
-- handy/conn.h, handy/conn.cc and the end of handy/event_base.cc: a `TcpConn`. The buffers are their
-- bytes (Buffer/Refinement says why). What the kernel answers is an argument: the results of
-- successive reads and writes, where no further result is a call that would block, and whether poll
-- finds the socket writable. What the connection asks of the event loop is recorded.
pub mod Sending
pub mod Reading
pub mod Lifecycle
pub mod Stages
pub mod Sends
pub mod Moves
use mathlib.Core.Option
use handy.Base.{
  ℕ, zero, suc, ◌+◌, Bool, true, false, not, ◌&&◌, ◌||◌, Option, none, some, List, [], ◌∷◌, ◌++◌,
  Bytes, take, drop, length, ltb, ◌==◌, if◌then◌else◌,
}
use handy.Base.Int.{ℤ, pos, negsuc}

pub data State : Type 0 where
  invalid handshaking connected closed failed : State

-- A channel: whether its descriptor is open, and what it listens for.
pub record Channel : Type 0 where
  pub open_fd : Bool
  pub reads : Bool
  pub writes : Bool

-- `calls_null` is a method that is called through channel_ where it is NULL: the program crashes there, and
-- the model goes on with the note of it.
pub data Effect : Type 0 where
  cancels_timeout updates_idles unregisters_idles registers_idle closes_fd : Effect
  opens_socket starts_connect calls_null : Effect
  reconnects_in : ℕ → Effect
  sets_timeout : ℤ → Effect

pub data ReadResult : Type 0 where
  got : Bytes → ReadResult
  read_interrupted read_blocks read_ends read_fails : ReadResult

-- `write_lost` is ECONNRESET, ETIMEDOUT or EPIPE.
pub data WriteResult : Type 0 where
  wrote : ℕ → WriteResult
  write_interrupted write_blocks write_lost write_fails : WriteResult

-- destHost_, destPort_, connectTimeout_ and localIp_; the port is -1 where there is no destination
pub record Target : Type 0 where
  pub host : Bytes
  pub port : ℤ
  pub timeout : ℤ
  pub local_ip : Bytes

-- `wire` is all that the kernel has taken. `has_…` says that a callback is set.
pub record Conn : Type 0 where
  pub state : State
  pub channel : Option Channel
  pub input : Bytes
  pub output : Bytes
  pub wire : Bytes
  pub has_read : Bool
  pub has_writable : Bool
  pub has_state : Bool
  pub reconnect_interval : ℤ
  pub exited : Bool
  pub target : Target
  pub effects : List Effect

abbrev pub is_empty : Bytes → Bool
is_empty [] = true
is_empty (c ∷ cs) = false

abbrev pub is_connected : State → Bool
is_connected connected = true
is_connected _ = false

abbrev pub is_handshaking : State → Bool
is_handshaking handshaking = true
is_handshaking _ = false

abbrev pub write_enabled : Option Channel → Bool
write_enabled none = false
write_enabled (some ch) = ch.writes

abbrev pub fd_open : Option Channel → Bool
fd_open none = false
fd_open (some ch) = ch.open_fd

-- channel_->enableWrite(on)
abbrev pub enable_write : Bool → Option Channel → Option Channel
enable_write on none = none
enable_write on (some ch) = some (record ch { writes = on })

pub effect : Effect → Conn → Conn
effect e c = record c { effects = c.effects ++ e ∷ [] }

-- interval > 0 ? interval : 0
abbrev pub interval_of : ℤ → ℕ
interval_of (pos n) = n
interval_of (negsuc n) = 0

abbrev pub wants_reconnect : ℤ → Bool
wants_reconnect (pos n) = true
wants_reconnect (negsuc n) = false

-- Channel::close() on a channel whose connection is closed or failed: handleRead, which it calls
-- then, does nothing in these states.
pub close_channel : Option Channel → Conn → Conn
unfolding effect
close_channel ch c = if fd_open ch then effect closes_fd c else c

-- channel_->close() where nothing has asked whether there is a channel
pub close_unchecked : Option Channel → Conn → Conn
unfolding effect close_channel
close_unchecked none c = effect calls_null c
close_unchecked (some ch) c = close_channel (some ch) c

-- TcpConn::reconnect: the timer that it sets calls connect again
pub reconnect : Conn → Conn
unfolding effect close_unchecked
reconnect c =
    let d = effect (reconnects_in (interval_of c.reconnect_interval)) c in
    record (close_unchecked c.channel d) { channel = none }

-- the state that cleanup leaves
abbrev pub end_state : State → State
end_state handshaking = failed
end_state _ = closed

-- Behind the callbacks of cleanup, without reconnecting: everything is let go.
pub let_go : Conn → Conn
unfolding effect close_channel
let_go c = close_channel c.channel (record (effect unregisters_idles c) {
  has_read = false;
  has_writable = false;
  has_state = false;
  channel = none;
})

-- Behind the callbacks of cleanup.
pub release : Conn → Conn
unfolding reconnect let_go
release c = if wants_reconnect c.reconnect_interval && not c.exited then reconnect c else let_go c

-- What isend returns, and what becomes of the bytes and of the interest in writing.
pub record Sent : Type 0 where
  pub lost : Bool
  pub sent : Bytes
  pub left : Bytes
  pub wants_write : Bool

-- The loop of isend on the bytes that are left: -1 is `lost`. A write of no byte, like an error that
-- is not one of the three, ends the loop.
unfoldable pub isend : List WriteResult → Bytes → Sent
isend ws [] = record { lost = false; sent = []; left = []; wants_write = false }
isend [] (b ∷ bs) = record { lost = false; sent = []; left = b ∷ bs; wants_write = true }
isend (wrote zero ∷ ws) (b ∷ bs) = record {
  lost = false;
  sent = [];
  left = b ∷ bs;
  wants_write = false;
}
isend (wrote (suc n) ∷ ws) (b ∷ bs) =
    let r = isend ws (drop n bs) in record r { sent = b ∷ (take n bs ++ r.sent) }
isend (write_interrupted ∷ ws) (b ∷ bs) = isend ws (b ∷ bs)
isend (write_blocks ∷ ws) (b ∷ bs) = record {
  lost = false;
  sent = [];
  left = b ∷ bs;
  wants_write = true;
}
isend (write_lost ∷ ws) (b ∷ bs) = record {
  lost = true;
  sent = [];
  left = b ∷ bs;
  wants_write = false;
}
isend (write_fails ∷ ws) (b ∷ bs) = record {
  lost = false;
  sent = [];
  left = b ∷ bs;
  wants_write = false;
}

-- if (!channel_->writeEnabled()) channel_->enableWrite(true), where isend came to that
abbrev pub watch : Bool → Option Channel → Option Channel
watch true ch = enable_write true ch
watch false ch = ch

abbrev pub after_isend : Conn → Sent → Conn
after_isend c r = record c { wire = c.wire ++ r.sent; channel = watch r.wants_write c.channel }

-- `if (buf.size())` behind isend: what is left goes to the output, and writing is watched
abbrev pub keep_rest : Conn → Bytes → Conn
keep_rest c [] = c
keep_rest c (b ∷ bs) = record c {
  output = c.output ++ (b ∷ bs);
  channel = enable_write true c.channel;
}

-- if (channel_->writeEnabled()) channel_->enableWrite(false)
pub unwatch : Option Channel → Conn → Conn
unfolding effect
unwatch none c = effect calls_null c
unwatch (some ch) c =
    if ch.writes then record c { channel = some (record ch { writes = false }) } else c

-- What the user's callbacks do to the connection.
module _ (on_read on_writable on_state : Conn → Conn) where
  pub call_if : Bool → (Conn → Conn) → Conn → Conn
  call_if true f c = f c
  call_if false f c = c

  pub cleanup : Conn → Conn
  unfolding call_if effect release
  cleanup c =
      let c1 = call_if (c.has_read && not (is_empty c.input)) on_read c in
      let c2 = effect cancels_timeout (record c1 { state = end_state c1.state }) in
      let c3 = call_if c2.has_state on_state c2 in release c3

  -- handleHandshake; `writable` says that poll finds POLLOUT and nothing else. The flag is its
  -- result, true for -1.
  pub handle_handshake : Bool → Conn → Conn × Bool
  unfolding cleanup call_if
  handle_handshake writable c =
      if writable
      then (
        call_if c.has_state on_state (record c {
          state = connected;
          channel =
              Option.map (λ (ch : Channel). record ch { reads = true; writes = false }) c.channel;
        }),
        false,
      )
      else (cleanup c, true)

  -- The loop of handleRead, with an open descriptor.
  pub read_loop : List ReadResult → Conn → Conn
  unfolding cleanup effect call_if
  read_loop [] c = call_if (c.has_read && not (is_empty c.input)) on_read (effect updates_idles c)
  read_loop (got bs ∷ rs) c = read_loop rs (record c { input = c.input ++ bs })
  read_loop (read_interrupted ∷ rs) c = read_loop rs c
  read_loop (read_blocks ∷ rs) c =
      call_if (c.has_read && not (is_empty c.input)) on_read (effect updates_idles c)
  read_loop (read_ends ∷ rs) c = cleanup c
  read_loop (read_fails ∷ rs) c = cleanup c

  -- while (state_ == State::Connected); a closed descriptor is taken for the end of the stream
  pub read_connected : List ReadResult → Conn → Conn
  unfolding read_loop cleanup
  read_connected rs c =
      if is_connected c.state then (if fd_open c.channel then read_loop rs c else cleanup c) else c

  pub after_handshake : List ReadResult → Conn × Bool → Conn
  unfolding read_connected
  after_handshake rs (c, true) = c
  after_handshake rs (c, false) = read_connected rs c

  pub handle_read : Bool → List ReadResult → Conn → Conn
  unfolding handle_handshake after_handshake read_connected
  handle_read writable rs c =
      if is_handshaking c.state
      then after_handshake rs (handle_handshake writable c)
      else read_connected rs c

  -- Behind isend in handleWrite.
  pub after_write : Sent → Conn → Conn
  unfolding cleanup call_if unwatch
  after_write r c =
      if r.lost
      then cleanup (after_isend c r)
      else (let c1 = record (after_isend c r) { output = r.left } in
          let c2 = call_if (is_empty c1.output && c1.has_writable) on_writable c1 in
          if is_empty c2.output then unwatch c2.channel c2 else c2)

  pub handle_write : Bool → List WriteResult → Conn → Conn
  unfolding handle_handshake after_write isend
  handle_write writable ws c =
      if is_handshaking c.state
      then (handle_handshake writable c).0
      else if is_connected c.state
      then after_write (isend ws c.output) c
      else c

  -- Behind the first isend of send(Buffer &) and of send(const char *, size_t).
  pub after_send : Sent → Conn → Conn
  unfolding cleanup
  after_send r c = if r.lost then cleanup (after_isend c r) else keep_rest (after_isend c r) r.left

  pub after_raw_send : Sent → Conn → Conn
  unfolding cleanup
  after_raw_send r c =
      if r.lost
      then cleanup (after_isend c r)
      else record (after_isend c r) { output = (after_isend c r).output ++ r.left }

  -- send(Buffer &msg), of a buffer that is not the output: `msg` is absorbed where writing is watched
  pub send_buffer : List WriteResult → Bytes → Conn → Conn
  unfolding after_send isend
  send_buffer ws msg c = elim c.channel [
    | none ↦ c
    | some ch ↦
        if ch.writes then record c { output = c.output ++ msg } else after_send (isend ws msg) c
  ]

  -- sendOutput(): send(output_), where absorbing is of the buffer itself and does nothing, so that the
  -- write follows whether or not writing is watched, and
  -- `buf.consume(sended)` leaves in the output what isend has left
  pub send_output : List WriteResult → Conn → Conn
  unfolding cleanup isend
  send_output ws c = elim c.channel [
    | none ↦ c
    | some ch ↦
        let r = isend ws c.output in
        let d = after_isend c r in
        if r.lost then cleanup d else record d {
          output = r.left;
          channel = if is_empty r.left then d.channel else enable_write true d.channel;
        }
  ]

  -- send(const char *buf, size_t len)
  pub send_bytes : List WriteResult → Bytes → Conn → Conn
  unfolding after_raw_send isend
  send_bytes ws msg c = elim c.channel [
    | none ↦ c
    | some ch ↦
        if is_empty c.output
        then after_raw_send (isend ws msg) c
        else record c { output = c.output ++ msg }
  ]
