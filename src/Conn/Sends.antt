-- ===== src/Conn/Sends.antt =====
-- handy/conn.cc: the state of a connection against its channel, in what writes.
use handy.Base.{
  ◌≡◌, inl, inr, refl, sym, ap, ◌∙◌, Bool, true, false, ◌&&◌, Option, none, some, List, [], ◌∷◌,
  ◌++◌, if◌then◌else◌, Bool-cases, if_cases, Bytes,
}
use handy.Conn.{
  Channel, Conn, effect, unwatch, WriteResult, Sent, isend, watch, enable_write, fd_open, is_empty,
  is_connected, is_handshaking, call_if, after_isend, cleanup, handle_handshake, after_write,
  handle_write, after_send, after_raw_send, send_buffer, send_output, send_bytes, keep_rest,
}
use handy.Conn.Lifecycle.{is_live}
use handy.Conn.Stages.{
  has_channel, IsStaged, IsTame, cleanup-IsStaged, call-IsStaged, handshake-IsStaged,
  handshaking_state,
}

-- What changes neither the state nor whether there is a channel.
enable_write-stays :
    (on : Bool) (ch : Option Channel)
    → (fd_open (enable_write on ch) ≡ fd_open ch)
      × (has_channel (enable_write on ch) ≡ has_channel ch)
enable_write-stays on none = (refl, refl)
enable_write-stays on (some x) = (refl, refl)

enabled-IsStaged :
    (on : Bool) (c d : Conn)
    → d.state ≡ c.state
    → d.channel ≡ enable_write on c.channel
    → IsStaged c
    → IsStaged d
enabled-IsStaged on c d same channel (fd, has) =
    let (fd_stays, has_stays) = enable_write-stays on c.channel in
    (
      ap fd_open channel ∙ fd_stays ∙ fd ∙ sym (ap is_live same),
      ap has_channel channel ∙ has_stays ∙ has ∙ sym (ap is_live same),
    )

after_isend-IsStaged : (c : Conn) (r : Sent) → IsStaged c → IsStaged (after_isend c r)
after_isend-IsStaged c r staged = elim (Bool-cases r.wants_write) [
  | inl e ↦ enabled-IsStaged true c (after_isend c r) refl (ap (λ w. watch w c.channel) e) staged
  | inr e ↦ rw e staged
]

keep_rest-IsStaged : (c : Conn) (bs : Bytes) → IsStaged c → IsStaged (keep_rest c bs)
keep_rest-IsStaged c [] staged = staged
keep_rest-IsStaged c (b ∷ bs) staged =
    enabled-IsStaged true c (keep_rest c (b ∷ bs)) refl refl staged

-- A split on a channel that the rest of the goal still names.
pub on_channel :
    (c n : Conn) (s : Channel → Conn)
    → IsStaged n
    → ((ch : Channel) → IsStaged (s ch))
    → (o : Option Channel) → IsStaged (elim o [ none ↦ n | some ch ↦ s ch ])
on_channel c n s absent present none = absent
on_channel c n s absent present (some ch) = present ch

module _ (f g k : Conn → Conn) (tame : IsTame f g k) where
  after_send-IsStaged : (r : Sent) (c : Conn) → IsStaged c → IsStaged (after_send f g k r c)
  unfolding after_send
  after_send-IsStaged r c staged =
      if_cases IsStaged r.lost (cleanup f g k (after_isend c r))
        (keep_rest (after_isend c r) r.left) (λ e. cleanup-IsStaged f g k tame (after_isend c r))
        (λ e. keep_rest-IsStaged (after_isend c r) r.left (after_isend-IsStaged c r staged))

  after_raw_send-IsStaged : (r : Sent) (c : Conn) → IsStaged c → IsStaged (after_raw_send f g k r c)
  unfolding after_raw_send
  after_raw_send-IsStaged r c staged =
      if_cases IsStaged r.lost (cleanup f g k (after_isend c r))
        (record (after_isend c r) { output = (after_isend c r).output ++ r.left })
        (λ e. cleanup-IsStaged f g k tame (after_isend c r)) (λ e. after_isend-IsStaged c r staged)

  pub send_buffer-IsStaged :
      (ws : List WriteResult) (msg : Bytes) (c : Conn)
      → IsStaged c
      → IsStaged (send_buffer f g k ws msg c)
  unfolding send_buffer
  send_buffer-IsStaged ws msg c staged =
      let direct = after_send f g k (isend ws msg) c in
      on_channel c c (λ ch. if ch.writes then record c { output = c.output ++ msg } else direct)
        staged
        (λ ch.
          if_cases IsStaged ch.writes (record c { output = c.output ++ msg }) direct (λ e. staged)
            (λ e. after_send-IsStaged (isend ws msg) c staged))
        c.channel

  pub send_bytes-IsStaged :
      (ws : List WriteResult) (msg : Bytes) (c : Conn)
      → IsStaged c
      → IsStaged (send_bytes f g k ws msg c)
  unfolding send_bytes
  send_bytes-IsStaged ws msg c staged =
      let direct = after_raw_send f g k (isend ws msg) c in
      on_channel c c
        (λ ch. if is_empty c.output then direct else record c { output = c.output ++ msg }) staged
        (λ ch.
          if_cases IsStaged (is_empty c.output) direct (record c { output = c.output ++ msg })
            (λ e. after_raw_send-IsStaged (isend ws msg) c staged) (λ e. staged))
        c.channel

  kept_output-IsStaged :
      (c : Conn) (r : Sent)
      → IsStaged c
      → IsStaged (record c {
        output = r.left;
        channel = if is_empty r.left then c.channel else enable_write true c.channel;
      })
  kept_output-IsStaged c r staged = elim (Bool-cases (is_empty r.left)) [
    | inl e ↦ rw e staged
    | inr e ↦ rw e (
        enabled-IsStaged true c
          (record c { output = r.left; channel = enable_write true c.channel }) refl refl staged)
  ]

  pub send_output-IsStaged :
      (ws : List WriteResult) (c : Conn) → IsStaged c → IsStaged (send_output f g k ws c)
  unfolding send_output
  send_output-IsStaged ws c staged =
      let r = isend ws c.output in
      let d = after_isend c r in
      let kept : Conn = record d {
        output = r.left;
        channel = if is_empty r.left then d.channel else enable_write true d.channel;
      } in
      on_channel c c (λ ch. if r.lost then cleanup f g k d else kept) staged
        (λ ch.
          if_cases IsStaged r.lost (cleanup f g k d) kept (λ e. cleanup-IsStaged f g k tame d)
            (λ e. kept_output-IsStaged d r (after_isend-IsStaged c r staged)))
        c.channel

  unwatch-IsStaged :
      (o : Option Channel) (c : Conn) → c.channel ≡ o → IsStaged c → IsStaged (unwatch o c)
  unfolding unwatch effect
  unwatch-IsStaged none c e staged = staged
  unwatch-IsStaged (some ch) c e staged =
      if_cases IsStaged ch.writes (record c { channel = some (record ch { writes = false }) }) c
        (λ h.
          enabled-IsStaged false c (record c { channel = some (record ch { writes = false }) }) refl
            (ap (enable_write false) (sym e)) staged)
        (λ h. staged)

  written-IsStaged :
      (c : Conn) → IsStaged c → IsStaged (if is_empty c.output then unwatch c.channel c else c)
  written-IsStaged c staged =
      if_cases IsStaged (is_empty c.output) (unwatch c.channel c) c
        (λ e. unwatch-IsStaged c.channel c refl staged) (λ e. staged)

  after_write-IsStaged : (r : Sent) (c : Conn) → IsStaged c → IsStaged (after_write f g k r c)
  unfolding after_write
  after_write-IsStaged r c staged =
      let c1 : Conn = record (after_isend c r) { output = r.left } in
      let c2 = call_if f g k (is_empty c1.output && c1.has_writable) g c1 in
      if_cases IsStaged r.lost (cleanup f g k (after_isend c r))
        (if is_empty c2.output then unwatch c2.channel c2 else c2)
        (λ e. cleanup-IsStaged f g k tame (after_isend c r))
        (λ e. written-IsStaged c2 (
          call-IsStaged f g k tame (is_empty c1.output && c1.has_writable) g c1 tame.writable_stays
            (after_isend-IsStaged c r staged)))

  pub handle_write-IsStaged :
      (writable : Bool) (ws : List WriteResult) (c : Conn)
      → IsStaged c
      → IsStaged (handle_write f g k writable ws c)
  unfolding handle_write
  handle_write-IsStaged writable ws c staged =
      let written = after_write f g k (isend ws c.output) c in
      if_cases IsStaged (is_handshaking c.state) (handle_handshake f g k writable c).0
        (if is_connected c.state then written else c)
        (λ e. handshake-IsStaged f g k tame writable c (handshaking_state c.state e) staged)
        (λ e.
          if_cases IsStaged (is_connected c.state) written c
            (λ h. after_write-IsStaged (isend ws c.output) c staged) (λ h. staged))
