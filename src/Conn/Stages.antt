-- ===== src/Conn/Stages.antt =====
-- handy/conn.cc: the state of a connection against its channel, in what is read and in cleanup.
use mathlib.Core.Option
use handy.Base.{
  ◌≡◌, refl, sym, ap, ◌∙◌, Bool, true, false, not, ◌&&◌, Option, none, some, List, [], ◌∷◌,
  if◌then◌else◌, if_cases,
}
use handy.Conn.{
  State, Channel, Conn, ReadResult, got, updates_idles, cancels_timeout, read_interrupted,
  read_blocks, read_ends, read_fails, effect, fd_open, is_empty, is_connected, is_handshaking,
  call_if, cleanup, release, let_go, wants_reconnect, reconnect, close_channel, close_unchecked,
  end_state, handle_handshake, after_handshake, read_loop, read_connected, handle_read,
}
use handy.Conn.Lifecycle.{is_live}

abbrev pub has_channel : Option Channel → Bool
has_channel none = false
has_channel (some ch) = true

abbrev pub IsStaged : Conn → Type 0
IsStaged c = (fd_open c.channel ≡ is_live c.state) × (has_channel c.channel ≡ is_live c.state)

-- What the callbacks leave as it is: they may read, send and close, but a callback for a state that
-- has ended does not connect again.
pub record IsTame (on_read on_writable on_state : Conn → Conn) : Type 0 where
  pub read_stays : (c : Conn) → IsStaged c → IsStaged (on_read c)
  pub writable_stays : (c : Conn) → IsStaged c → IsStaged (on_writable c)
  pub state_stays : (c : Conn) → IsStaged c → IsStaged (on_state c)
  pub state_ends : (c : Conn) → is_live c.state ≡ false → is_live (on_state c).state ≡ false

unfoldable pub IsOver : Conn → Type 0
IsOver c = (is_live c.state ≡ false) × (c.channel ≡ none)

pub over-IsStaged : (c : Conn) → IsOver c → IsStaged c
unfolding IsOver
over-IsStaged c (ended, gone) = (ap fd_open gone ∙ sym ended, ap has_channel gone ∙ sym ended)

pub handshaking_state : (s : State) → is_handshaking s ≡ true → s ≡ State.handshaking
handshaking_state State.invalid e = absurd cc
handshaking_state State.handshaking e = refl
handshaking_state State.connected e = absurd cc
handshaking_state State.closed e = absurd cc
handshaking_state State.failed e = absurd cc

end_state-is_live : (s : State) → is_live (end_state s) ≡ false
end_state-is_live State.invalid = refl
end_state-is_live State.handshaking = refl
end_state-is_live State.connected = refl
end_state-is_live State.closed = refl
end_state-is_live State.failed = refl

close_channel-state : (ch : Option Channel) (c : Conn) → (close_channel ch c).state ≡ c.state
unfolding close_channel effect
close_channel-state ch c =
    if_cases {A = Conn} (λ d. d.state ≡ c.state) (fd_open ch) _ c (λ e. refl) (λ e. refl)

close_channel-channel : (ch : Option Channel) (c : Conn) → (close_channel ch c).channel ≡ c.channel
unfolding close_channel effect
close_channel-channel ch c =
    if_cases {A = Conn} (λ d. d.channel ≡ c.channel) (fd_open ch) _ c (λ e. refl) (λ e. refl)

close_unchecked-state : (ch : Option Channel) (c : Conn) → (close_unchecked ch c).state ≡ c.state
unfolding close_unchecked effect
close_unchecked-state none c = refl
close_unchecked-state (some ch) c = close_channel-state (some ch) c

module _ (f g k : Conn → Conn) (tame : IsTame f g k) where
  reconnect-IsOver : (c : Conn) → is_live c.state ≡ false → IsOver (reconnect c)
  unfolding IsOver reconnect effect
  reconnect-IsOver c ended = (ap is_live (close_unchecked-state c.channel _) ∙ ended, refl)

  let_go-IsOver : (c : Conn) → is_live c.state ≡ false → IsOver (let_go c)
  unfolding IsOver let_go effect
  let_go-IsOver c ended =
      (ap is_live (close_channel-state c.channel _) ∙ ended, close_channel-channel c.channel _)

  release-IsOver : (c : Conn) → is_live c.state ≡ false → IsOver (release c)
  unfolding release
  release-IsOver c ended =
      if_cases IsOver (wants_reconnect c.reconnect_interval && not c.exited) (reconnect c)
        (let_go c) (λ e. reconnect-IsOver c ended) (λ e. let_go-IsOver c ended)

  call_state-ends :
      (b : Bool) (c : Conn) → is_live c.state ≡ false → is_live (call_if f g k b k c).state ≡ false
  unfolding call_if
  call_state-ends true c ended = tame.state_ends c ended
  call_state-ends false c ended = ended

  pub cleanup-IsOver : (c : Conn) → IsOver (cleanup f g k c)
  unfolding cleanup effect
  cleanup-IsOver c =
      let c1 = call_if f g k (c.has_read && not (is_empty c.input)) f c in
      let c2 : Conn = effect cancels_timeout (record c1 { state = end_state c1.state }) in
      release-IsOver (call_if f g k c2.has_state k c2)
        (call_state-ends c2.has_state c2 (end_state-is_live c1.state))

  pub cleanup-IsStaged : (c : Conn) → IsStaged (cleanup f g k c)
  cleanup-IsStaged c = over-IsStaged _ (cleanup-IsOver c)

  pub call-IsStaged :
      (b : Bool) (h : Conn → Conn) (c : Conn)
      → ((d : Conn) → IsStaged d → IsStaged (h d))
      → IsStaged c
      → IsStaged (call_if f g k b h c)
  unfolding call_if
  call-IsStaged true h c stays staged = stays c staged
  call-IsStaged false h c stays staged = staged

  finish_read-IsStaged :
      (c : Conn)
      → IsStaged c
      → IsStaged (call_if f g k (c.has_read && not (is_empty c.input)) f (effect updates_idles c))
  unfolding effect
  finish_read-IsStaged c staged = call-IsStaged _ f _ tame.read_stays staged

  read_loop-IsStaged :
      (rs : List ReadResult) (c : Conn) → IsStaged c → IsStaged (read_loop f g k rs c)
  unfolding read_loop
  read_loop-IsStaged [] c staged = finish_read-IsStaged c staged
  read_loop-IsStaged (got bs ∷ rs) c staged = read_loop-IsStaged rs _ staged
  read_loop-IsStaged (read_interrupted ∷ rs) c staged = read_loop-IsStaged rs c staged
  read_loop-IsStaged (read_blocks ∷ rs) c staged = finish_read-IsStaged c staged
  read_loop-IsStaged (read_ends ∷ rs) c staged = cleanup-IsStaged c
  read_loop-IsStaged (read_fails ∷ rs) c staged = cleanup-IsStaged c

  open_read-IsStaged :
      (rs : List ReadResult) (c : Conn)
      → IsStaged c
      → IsStaged (if fd_open c.channel then read_loop f g k rs c else cleanup f g k c)
  open_read-IsStaged rs c staged =
      if_cases IsStaged (fd_open c.channel) (read_loop f g k rs c) (cleanup f g k c)
        (λ e. read_loop-IsStaged rs c staged) (λ e. cleanup-IsStaged c)

  pub read_connected-IsStaged :
      (rs : List ReadResult) (c : Conn) → IsStaged c → IsStaged (read_connected f g k rs c)
  unfolding read_connected
  read_connected-IsStaged rs c staged =
      if_cases IsStaged (is_connected c.state)
        (if fd_open c.channel then read_loop f g k rs c else cleanup f g k c) c
        (λ on. open_read-IsStaged rs c staged) (λ off. staged)

  pub handshake-IsStaged :
      (writable : Bool) (c : Conn)
      → c.state ≡ State.handshaking
      → IsStaged c
      → IsStaged (handle_handshake f g k writable c).0
  unfolding handle_handshake
  handshake-IsStaged true c shaking (fd, channel) =
      call-IsStaged c.has_state k _ tame.state_stays
        (opened c.channel (fd ∙ ap is_live shaking) (channel ∙ ap is_live shaking))
    where
      opened :
          (ch : Option Channel)
          → fd_open ch ≡ true
          → has_channel ch ≡ true
          → (fd_open (Option.map (λ (x : Channel). record x { reads = true; writes = false }) ch)
              ≡ true)
            × (has_channel
                  (Option.map (λ (x : Channel). record x { reads = true; writes = false }) ch)
                ≡ true)
      opened none e h = (e, h)
      opened (some x) e h = (e, h)
  handshake-IsStaged false c shaking staged = cleanup-IsStaged c

  after_handshake-IsStaged :
      (rs : List ReadResult) (r : Conn × Bool)
      → IsStaged r.0
      → IsStaged (after_handshake f g k rs r)
  unfolding after_handshake
  after_handshake-IsStaged rs (c, true) staged = staged
  after_handshake-IsStaged rs (c, false) staged = read_connected-IsStaged rs c staged

  pub handle_read-IsStaged :
      (writable : Bool) (rs : List ReadResult) (c : Conn)
      → IsStaged c
      → IsStaged (handle_read f g k writable rs c)
  unfolding handle_read
  handle_read-IsStaged writable rs c staged =
      if_cases IsStaged (is_handshaking c.state)
        (after_handshake f g k rs (handle_handshake f g k writable c)) (read_connected f g k rs c)
        (λ e.
          after_handshake-IsStaged rs (handle_handshake f g k writable c)
            (handshake-IsStaged writable c (handshaking_state c.state e) staged))
        (λ e. read_connected-IsStaged rs c staged)
