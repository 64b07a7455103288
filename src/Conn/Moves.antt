-- ===== src/Conn/Moves.antt =====
-- handy/conn.cc: what may be done to a connection, in any order.
use mathlib.Core.Option
use handy.Base.{
  zero, suc, ◌≡◌, ◌⊎◌, inl, inr, refl, sym, ap, ◌∙◌, subst, Bool, true, false, Option, none, some,
  List, [], if◌then◌else◌, if_cases, Bytes,
}
use handy.Base.Int.{ℤ, pos, negsuc}
use handy.Codec.{Codec}
use handy.Conn.{
  State, Channel, Conn, Target, ReadResult, WriteResult, effect, closes_fd, registers_idle, fd_open,
  is_handshaking, handle_handshake, handle_read, read_connected, after_handshake, handle_write,
  send_buffer, send_output, send_bytes,
}
use handy.Conn.Lifecycle.{
  is_live, new_conn, attach, begin_connect, set_timeout, connect, close_now, time_out,
  connect_again, send_msg, add_idle_cb,
}
use handy.Conn.Stages.{
  has_channel, IsStaged, IsTame, IsOver, over-IsStaged, cleanup-IsOver, handle_read-IsStaged,
}
use handy.Conn.Sends.{
  on_channel, send_buffer-IsStaged, send_bytes-IsStaged, handle_write-IsStaged,
  send_output-IsStaged,
}

module _ (f g k : Conn → Conn) where
  -- What is done to a connection. The poller finds its descriptor readable or writable, the
  -- user sets callbacks and the interval for reconnecting, sends, closes, connects or adds a callback for
  -- idleness, the base is told to exit, or a timer is over. A server attaches connections that have no
  -- channel.
  pub data Move (c : Conn) : Conn → Type 0 where
    reads : (writable : Bool) (rs : List ReadResult) → Move c (handle_read f g k writable rs c)
    writes : (writable : Bool) (ws : List WriteResult) → Move c (handle_write f g k writable ws c)
    sends : (ws : List WriteResult) (msg : Bytes) → Move c (send_buffer f g k ws msg c)
    sends_bytes : (ws : List WriteResult) (msg : Bytes) → Move c (send_bytes f g k ws msg c)
    sends_output : (ws : List WriteResult) → Move c (send_output f g k ws c)
    sends_msg :
        (codec : Codec) (ws : List WriteResult) (msg : Bytes)
        → Move c (send_msg f g k codec ws msg c)
    closes : Move c (close_now f g k c)
    times_out : Move c (time_out f g k c)
    adds_idle_cb : Move c (add_idle_cb c)
    sets_callbacks :
        (read writable state : Bool)
        → Move c (record c { has_read = read; has_writable = writable; has_state = state })
    sets_reconnect : (interval : ℤ) → Move c (record c { reconnect_interval = interval })
    base_exits : Move c (record c { exited = true })
    attaches : (d : Conn) → is_live c.state ≡ false → attach f g k c ≡ some d → Move c d
    connects :
        (target : Target) (bound : Bool) (d : Conn)
        → connect f g k target bound c ≡ some d
        → Move c d
    connects_again : (bound : Bool) (d : Conn) → connect_again f g k bound c ≡ some d → Move c d

  pub data Moves : Conn → Conn → Type 0 where
    no_move : {c : Conn} → Moves c c
    move : {c d e : Conn} → Moves c d → Move d e → Moves c e

live_cases : (s : State) → is_live s ≡ true → (s ≡ State.handshaking) ⊎ (s ≡ State.connected)
live_cases State.invalid e = absurd cc
live_cases State.handshaking e = inl refl
live_cases State.connected e = inr refl
live_cases State.closed e = absurd cc
live_cases State.failed e = absurd cc

unguarded : {A : Type 0} (b : Bool) (x d : A) → (if b then none else some x) ≡ some d → d ≡ x
unguarded true x d e = absurd cc
unguarded false x d e = cc

unguarded_test :
    {A : Type 0} (b : Bool) (o : Option A) (d : A) → (if b then none else o) ≡ some d → b ≡ false
unguarded_test true o d e = absurd cc
unguarded_test false o d e = refl

mapped :
    {A : Type 0} (b : Bool) (h : A → A) (o : Option A) (d : A)
    → (if b then none else Option.map h o) ≡ some d
    → (x : A) × (o ≡ some x) × (d ≡ h x)
mapped true h o d e = absurd cc
mapped false h none d e = absurd cc
mapped false h (some x) d e = (x, refl, cc)

module _ (f g k : Conn → Conn) (tame : IsTame f g k) where
  -- Channel::close calls handleRead with the descriptor closed, which ends the connection.
  closed-IsOver :
      (rs : List ReadResult) (d : Conn)
      → fd_open d.channel ≡ false
      → is_live d.state ≡ true
      → IsOver (handle_read f g k false rs d)
  unfolding handle_read after_handshake handle_handshake read_connected
  closed-IsOver rs d shut live = elim (live_cases d.state live) [
    | inl e ↦ rw e (cleanup-IsOver f g k tame (record d { state = State.handshaking }))
    | inr e ↦ rw (e, shut) (cleanup-IsOver f g k tame (record d { state = State.connected }))
  ]

  shut : Conn → Channel → Conn
  unfolding effect
  shut c ch = effect closes_fd (record c { channel = some (record ch { open_fd = false }) })

  close_now-on :
      (c : Conn) (o : Option Channel)
      → c.channel ≡ o
      → fd_open o ≡ is_live c.state
      → has_channel o ≡ is_live c.state
      → IsOver (elim o [
        | none ↦ c
        | some ch ↦ if ch.open_fd then handle_read f g k false [] (shut c ch) else c
      ])
  unfolding IsOver shut effect
  close_now-on c none e fd has = (sym has, e)
  close_now-on c (some ch) e fd has =
      if_cases IsOver ch.open_fd (handle_read f g k false [] (shut c ch)) c
        (λ h. closed-IsOver [] (shut c ch) refl (sym has)) (λ h. absurd (cc (h, fd, has)))

  -- Closing a connection of which channel and state are in step ends it, whatever the callbacks do.
  pub close_now-IsOver : (c : Conn) → IsStaged c → IsOver (close_now f g k c)
  unfolding close_now shut effect
  close_now-IsOver c (fd, has) = close_now-on c c.channel refl fd has

  close_now-IsStaged : (c : Conn) → IsStaged c → IsStaged (close_now f g k c)
  close_now-IsStaged c staged = over-IsStaged (close_now f g k c) (close_now-IsOver c staged)

  time_out-IsStaged : (c : Conn) → IsStaged c → IsStaged (time_out f g k c)
  unfolding time_out
  time_out-IsStaged c staged =
      if_cases IsStaged (is_handshaking c.state) (close_now f g k c) c
        (λ e. close_now-IsStaged c staged) (λ e. staged)

  close_now-none : (c : Conn) → c.channel ≡ none → close_now f g k c ≡ c
  unfolding close_now
  close_now-none c e = rw e refl

  attached : Conn → Conn
  attached c = record c {
    state = State.handshaking;
    channel = some (record { open_fd = true; reads = true; writes = true });
  }

  attach-none : (c d : Conn) → c.channel ≡ none → attach f g k c ≡ some d → d ≡ attached c
  unfolding attach attached
  attach-none c d gone e =
      let opened : Option Channel = some (record { open_fd = true; reads = true; writes = true }) in
      let shaking : Conn = record c { state = State.handshaking } in
      unguarded _ (record (close_now f g k shaking) { channel = opened }) d e
      ∙ ap (λ (x : Conn). record x { channel = opened }) (close_now-none shaking gone)

  set_timeout-IsStaged : (timeout : ℤ) (c : Conn) → IsStaged c → IsStaged (set_timeout timeout c)
  unfolding effect
  set_timeout-IsStaged (pos zero) c staged = staged
  set_timeout-IsStaged (pos (suc n)) c staged = staged
  set_timeout-IsStaged (negsuc n) c staged = staged

  begin_connect-channel :
      (target : Target) (bound : Bool) (c : Conn)
      → (begin_connect target bound c).channel ≡ c.channel
  unfolding effect
  begin_connect-channel target true c = refl
  begin_connect-channel target false c = refl

  connect-IsStaged :
      (target : Target) (bound : Bool) (c d : Conn)
      → c.channel ≡ none
      → connect f g k target bound c ≡ some d
      → IsStaged d
  unfolding connect attached
  connect-IsStaged target bound c d gone e =
      let begun = begin_connect target bound c in
      let (x, gives, same) =
        mapped (is_live c.state) (set_timeout target.timeout) (attach f g k begun) d e in
      let shakes = attach-none begun x (begin_connect-channel target bound c ∙ gone) gives in
      subst IsStaged (sym same)
        (set_timeout-IsStaged target.timeout x (subst IsStaged (sym shakes) (refl, refl)))

  no_channel : (o : Option Channel) → has_channel o ≡ false → o ≡ none
  no_channel none e = refl
  no_channel (some ch) e = absurd cc

  begins :
      (target : Target) (bound : Bool) (c d : Conn)
      → IsStaged c
      → connect f g k target bound c ≡ some d
      → IsStaged d
  unfolding connect
  begins target bound c d (fd, has) e =
      let over = unguarded_test (is_live c.state) _ d e in
      connect-IsStaged target bound c d (no_channel c.channel (has ∙ over)) e

  Move-IsStaged : {c d : Conn} → Move f g k c d → IsStaged c → IsStaged d
  unfolding send_msg add_idle_cb effect connect_again attached
  Move-IsStaged {c} (reads writable rs) staged =
      handle_read-IsStaged f g k tame writable rs c staged
  Move-IsStaged {c} (writes writable ws) staged =
      handle_write-IsStaged f g k tame writable ws c staged
  Move-IsStaged {c} (sends ws msg) staged = send_buffer-IsStaged f g k tame ws msg c staged
  Move-IsStaged {c} (sends_bytes ws msg) staged = send_bytes-IsStaged f g k tame ws msg c staged
  Move-IsStaged {c} (sends_output ws) staged = send_output-IsStaged f g k tame ws c staged
  Move-IsStaged {c} (sends_msg codec ws msg) staged = send_output-IsStaged f g k tame ws _ staged
  Move-IsStaged {c} closes staged = close_now-IsStaged c staged
  Move-IsStaged {c} times_out staged = time_out-IsStaged c staged
  Move-IsStaged {c} adds_idle_cb staged =
      on_channel c c (λ ch. effect registers_idle c) staged (λ ch. staged) c.channel
  Move-IsStaged {c} (sets_callbacks read writable state) staged = staged
  Move-IsStaged {c} (sets_reconnect interval) staged = staged
  Move-IsStaged {c} base_exits staged = staged
  Move-IsStaged {c} (attaches d over e) (fd, has) =
      subst IsStaged (sym (attach-none c d (no_channel c.channel (has ∙ over)) e)) (refl, refl)
  Move-IsStaged {c} (connects target bound d e) staged = begins target bound c d staged e
  Move-IsStaged {c} (connects_again bound d e) staged = begins c.target bound c d staged e

  -- A new connection, after anything that the poller, the user and the timers have done to it, with any
  -- callbacks and any interval for reconnecting set on the way, for callbacks that keep channel and state in
  -- step and do not connect from the callback for an end: it has a channel, with an open descriptor,
  -- exactly while it shakes hands or is connected.
  pub Moves-IsStaged : {c : Conn} → Moves f g k new_conn c → IsStaged c
  unfolding new_conn
  Moves-IsStaged no_move = (refl, refl)
  Moves-IsStaged (move ms m) = Move-IsStaged m (Moves-IsStaged ms)
