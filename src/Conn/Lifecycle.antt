-- ===== src/Conn/Lifecycle.antt =====
-- handy/conn.cc: how a connection gets its channel, and how the user closes it or sends a message.
use mathlib.Core.Option
use handy.Base.{
  zero, Bool, true, false, not, ◌&&◌, ◌||◌, Option, none, some, List, [], ◌++◌, if◌then◌else◌,
  Bytes,
}
use handy.Base.Int.{ℤ, pos, leb_ℤ, negsuc}
use handy.Codec.{Codec, encode}
use handy.Conn.{
  State, handshaking, invalid, Conn, closes_fd, effect, WriteResult, handle_read, send_output,
  is_handshaking, Target, sets_timeout, registers_idle, opens_socket, starts_connect,
}

abbrev pub is_invalid : State → Bool
is_invalid invalid = true
is_invalid _ = false

-- TcpConn::TcpConn: no reconnecting, which is an interval of -1
unfoldable pub new_conn : Conn
new_conn = record {
  state = invalid;
  channel = none;
  input = [];
  output = [];
  wire = [];
  has_read = false;
  has_writable = false;
  has_state = false;
  reconnect_interval = negsuc 0;
  exited = false;
  target = record { host = []; port = negsuc 0; timeout = pos 0; local_ip = [] };
  effects = [];
}

-- state_ != State::Invalid && state_ != State::Closed && state_ != State::Failed
abbrev pub is_live : State → Bool
is_live State.handshaking = true
is_live State.connected = true
is_live _ = false

-- connect behind its fatalif; `bound` says that no local address is asked for or that bind has
-- taken it. Whatever ::connect returns, the handshake is waited for.
abbrev pub begin_connect : Target → Bool → Conn → Conn
begin_connect target bound c =
    let d = effect opens_socket (record c { target = target }) in
    record (if bound then effect starts_connect d else d) { state = handshaking }

abbrev pub set_timeout : ℤ → Conn → Conn
set_timeout (pos zero) c = c
set_timeout timeout c = effect (sets_timeout timeout) c

-- addIdleCB
unfoldable pub add_idle_cb : Conn → Conn
unfolding effect
add_idle_cb c = elim c.channel [ none ↦ c | some ch ↦ effect registers_idle c ]

module _ (on_read on_writable on_state : Conn → Conn) where
  -- The task that close() posts, which is what closeNow() does: Channel::close calls handleRead with
  -- the descriptor closed, where poll finds nothing.
  unfoldable pub close_now : Conn → Conn
  unfolding handle_read effect
  close_now c = elim c.channel [
    | none ↦ c
    | some ch ↦
        if ch.open_fd
        then handle_read on_read on_writable on_state false []
            (effect closes_fd (record c { channel = some (record ch { open_fd = false }) }))
        else c
  ]

  unfoldable pub send_msg : Codec → List WriteResult → Bytes → Conn → Conn
  unfolding encode send_output
  send_msg k ws msg c =
      send_output on_read on_writable on_state ws (record c { output = c.output ++ encode k msg })

  -- `none` is fatalif: the connection is in a wrong state for its destPort_. A channel that is
  -- still there is deleted, and closed by that.
  unfoldable pub attach : Conn → Option Conn
  unfolding close_now
  attach c =
      if leb_ℤ c.target.port (pos 0) && not (is_invalid c.state)
        || leb_ℤ (pos 0) c.target.port && not (is_handshaking c.state)
      then none
      else some (record (close_now (record c { state = handshaking })) {
        channel = some (record { open_fd = true; reads = true; writes = true });
      })

  -- connect; `none` is one of the two fatalif. The port is an unsigned short.
  unfoldable pub connect : Target → Bool → Conn → Option Conn
  unfolding attach effect
  connect target bound c =
      if is_live c.state
      then none
      else Option.map (set_timeout target.timeout) (attach (begin_connect target bound c))

  -- The task of the timer that connect sets.
  unfoldable pub time_out : Conn → Conn
  unfolding close_now
  time_out c = if is_handshaking c.state then close_now c else c

  -- The task of the timer that reconnect sets.
  unfoldable pub connect_again : Bool → Conn → Option Conn
  unfolding connect
  connect_again bound c = connect c.target bound c
