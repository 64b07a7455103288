-- ===== src/Conn/Sending.antt =====
-- handy/conn.cc, the sending half: isend, handleWrite and the two `send`s.
use handy.Base.{
  ℕ, zero, suc, ◌≡◌, ◌⊎◌, inl, inr, refl, sym, ap, ◌∙◌, subst, Bool, true, false, ◌&&◌, ◌||◌,
  Option, none, some, List, [], ◌∷◌, ◌++◌, append-nil, append_assoc, arith, if◌then◌else◌, if_cases,
  Bytes, take, drop, take-append-drop,
}
use handy.Conn.{
  State, Channel, Conn, Effect, calls_null, unwatch, WriteResult, wrote, write_interrupted,
  write_blocks, write_lost, write_fails, Sent, isend, watch, after_isend, keep_rest, enable_write,
  write_enabled, is_empty, is_connected, call_if, after_write, handle_write, after_send,
  after_raw_send, send_buffer, send_bytes, is_handshaking, effect,
}

-- Bytes that wait for the socket have somebody who watches it.
unfoldable pub IsFlowing : Conn → Type 0
IsFlowing c = is_empty c.output || write_enabled c.channel ≡ true

-- What isend has sent and what it has left are together what it was given, in order.
pub isend_splits :
    (ws : List WriteResult) (bs : Bytes) → (isend ws bs).sent ++ (isend ws bs).left ≡ bs
unfolding isend
isend_splits ws [] = refl
isend_splits [] (b ∷ bs) = refl
isend_splits (wrote zero ∷ ws) (b ∷ bs) = refl
isend_splits (wrote (suc n) ∷ ws) (b ∷ bs) =
    ap (λ l. b ∷ l)
      (append_assoc (take n bs) (isend ws (drop n bs)).sent (isend ws (drop n bs)).left
        ∙ ap (λ l. take n bs ++ l) (isend_splits ws (drop n bs))
        ∙ take-append-drop n bs)
isend_splits (write_interrupted ∷ ws) (b ∷ bs) = isend_splits ws (b ∷ bs)
isend_splits (write_blocks ∷ ws) (b ∷ bs) = refl
isend_splits (write_lost ∷ ws) (b ∷ bs) = refl
isend_splits (write_fails ∷ ws) (b ∷ bs) = refl

-- What a sending operation promises: nothing is lost, nothing changes its order, and what waits is
-- watched.
pub Sends : Bytes → Conn → Conn → Type 0
Sends msg c d = (d.wire ++ d.output ≡ (c.wire ++ c.output) ++ msg) × IsFlowing d

rest_watched :
    (w : Bool) (o : Option Channel) (ch : Channel)
    → o ≡ some ch
    → write_enabled (enable_write true (watch w o)) ≡ true
rest_watched true o ch h = rw h refl
rest_watched false o ch h = rw h refl

keep_rest-IsFlowing :
    (c : Conn) (ch : Channel) (r : Sent) (left : Bytes)
    → c.channel ≡ some ch
    → c.output ≡ []
    → IsFlowing (keep_rest (after_isend c r) left)
unfolding IsFlowing
keep_rest-IsFlowing c ch r [] hc ho = rw ho refl
keep_rest-IsFlowing c ch r (b ∷ bs) hc ho = rw (rest_watched r.wants_write c.channel ch hc, ho) refl

keep_rest_stream :
    (c : Conn) (r : Sent) (left : Bytes)
    → c.output ≡ []
    → (keep_rest (after_isend c r) left).wire ++ (keep_rest (after_isend c r) left).output
      ≡ (c.wire ++ c.output) ++ (r.sent ++ left)
keep_rest_stream c r [] ho =
    rw (ho, append-nil (c.wire ++ r.sent), append-nil c.wire, append-nil r.sent) refl
keep_rest_stream c r (b ∷ bs) ho = rw (ho, append-nil c.wire) (append_assoc c.wire r.sent (b ∷ bs))

or-true : (a : Bool) → a || true ≡ true
or-true true = refl
or-true false = refl

idle-IsEmpty : (o : Bytes) (w : Bool) → is_empty o || w ≡ true → w ≡ false → o ≡ []
idle-IsEmpty [] w h e = refl
idle-IsEmpty (b ∷ bs) w h e = absurd (ground arith)

-- send(Buffer &) on a connection that has its channel, where the write does not find the peer gone:
-- the message goes behind all that was sent before, and what the kernel does not take is watched.
pub send_buffer-Sends :
    (on_read on_writable on_state : Conn → Conn) (ws : List WriteResult) (msg : Bytes) (c : Conn)
    (ch : Channel)
    → c.channel ≡ some ch
    → IsFlowing c
    → (isend ws msg).lost ≡ false
    → Sends msg c (send_buffer on_read on_writable on_state ws msg c)
unfolding send_buffer Sends after_send IsFlowing isend
send_buffer-Sends f g k ws msg c ch hc hf hl =
    subst
      (λ o. Sends msg c (elim o [
        | none ↦ c
        | some h ↦
            if h.writes
            then record c { output = c.output ++ msg }
            else after_send f g k (isend ws msg) c
      ]))
      (sym hc)
      (if_cases (λ d. Sends msg c d) ch.writes (record c { output = c.output ++ msg })
        (after_send f g k (isend ws msg) c)
        (λ e. (
          sym (append_assoc c.wire c.output msg),
          rw (hc, e) (or-true (is_empty (c.output ++ msg))),
        ))
        (λ e.
          let ho =
            idle-IsEmpty c.output ch.writes
              (subst (λ o. is_empty c.output || write_enabled o ≡ true) hc hf) e in
          let r = isend ws msg in
          rw hl (
            keep_rest_stream c r r.left ho
                ∙ ap (λ l. (c.wire ++ c.output) ++ l) (isend_splits ws msg),
            keep_rest-IsFlowing c ch r r.left hc ho,
          )))

watch_kept :
    (w : Bool) (o : Option Channel) → write_enabled o ≡ true → write_enabled (watch w o) ≡ true
watch_kept true none h = h
watch_kept true (some ch) h = refl
watch_kept false o h = h

-- Nothing is left of nothing.
isend-left_nil :
    (ws : List WriteResult) (o : Option Channel) (out : Bytes)
    → is_empty out || write_enabled o ≡ true
    → is_empty (isend ws out).left || write_enabled (watch (isend ws out).wants_write o) ≡ true
unfolding isend
isend-left_nil ws o [] h = refl
isend-left_nil ws o (b ∷ bs) h =
    rw (watch_kept (isend ws (b ∷ bs)).wants_write o h)
      (or-true (is_empty (isend ws (b ∷ bs)).left))

call_if-IsFlowing :
    (p q k : Conn → Conn) (b : Bool) (f : Conn → Conn) (c : Conn)
    → ((d : Conn) → IsFlowing d → IsFlowing (f d))
    → IsFlowing c
    → IsFlowing (call_if p q k b f c)
unfolding call_if
call_if-IsFlowing p q k true f c keep h = keep c h
call_if-IsFlowing p q k false f c keep h = h

-- There is a channel, or the last that was done was to call a method through none.
unfoldable pub HasChannelOrFaults : Conn → Type 0
HasChannelOrFaults c =
    ((ch : Channel) × (c.channel ≡ some ch))
    ⊎ ((before : List Effect) × (c.effects ≡ before ++ calls_null ∷ []))

unwatch_lem :
    (c : Conn) (o : Option Channel)
    → c.channel ≡ o
    → is_empty c.output ≡ true
    → IsFlowing (unwatch o c) × HasChannelOrFaults (unwatch o c)
unfolding IsFlowing HasChannelOrFaults unwatch effect
unwatch_lem c none e empty = (rw empty refl, inr (c.effects, refl))
unwatch_lem c (some ch) e empty =
    if_cases (λ d. (is_empty d.output || write_enabled d.channel ≡ true) × HasChannelOrFaults d)
      ch.writes (record c { channel = some (record ch { writes = false }) }) c
      (λ _. (rw empty refl, inl (_, refl))) (λ _. (rw empty refl, inl (ch, e)))

watched-HasChannel : (o : Option Channel) → write_enabled o ≡ true → (ch : Channel) × (o ≡ some ch)
watched-HasChannel none h = absurd cc
watched-HasChannel (some ch) h = (ch, refl)

stop_writing_lem :
    (c : Conn)
    → IsFlowing c
    → let d = if is_empty c.output then unwatch c.channel c else c in
      IsFlowing d × HasChannelOrFaults d
stop_writing_lem c h =
    if_cases (λ d. IsFlowing d × HasChannelOrFaults d) (is_empty c.output) (unwatch c.channel c) c
      (λ e. unwatch_lem c c.channel refl e)
      (λ e. (
        h,
        unfold HasChannelOrFaults in
            inl (
              watched-HasChannel c.channel
                (ap (λ b. b || write_enabled c.channel) (sym e) ∙ (unfold IsFlowing in h))),
      ))

after_write_lem :
    (on_read on_writable on_state : Conn → Conn)
    → ((d : Conn) → IsFlowing d → IsFlowing (on_writable d))
    → (r : Sent) (c : Conn) → r.lost ≡ false
    → is_empty r.left || write_enabled (watch r.wants_write c.channel) ≡ true
    → let d = after_write on_read on_writable on_state r c in IsFlowing d × HasChannelOrFaults d
unfolding after_write
after_write_lem f g k hg r c hl hf =
    let c1 = record (after_isend c r) { output = r.left } in
    let b = is_empty r.left && c.has_writable in
    rw hl (
      stop_writing_lem (call_if f g k b g c1)
        (call_if-IsFlowing f g k b g c1 hg (unfold IsFlowing in hf)))

-- handleWrite of a connected connection, where the writes do not find the peer gone and the callback
-- for a drained output leaves nothing that waits unwatched: neither does handleWrite then, whatever the
-- writes return, and there is a channel at its end, unless the callback has left none: handleWrite
-- calls writeEnabled() through NULL then.
pub handle_write-IsFlowing :
    (on_read on_writable on_state : Conn → Conn)
    → ((d : Conn) → IsFlowing d → IsFlowing (on_writable d))
    → (writable : Bool) (ws : List WriteResult) (c : Conn) → c.state ≡ State.connected
    → IsFlowing c
    → (isend ws c.output).lost ≡ false
    → let d = handle_write on_read on_writable on_state writable ws c in
      IsFlowing d × HasChannelOrFaults d
unfolding handle_write
handle_write-IsFlowing f g k hg w ws c hc hf hl =
    let e1 : is_handshaking c.state ≡ false = ap is_handshaking hc in
    let e2 : is_connected c.state ≡ true = ap is_connected hc in
    rw (e1, e2)
      (after_write_lem f g k hg (isend ws c.output) c hl
        (isend-left_nil ws c.channel c.output (unfold IsFlowing in hf)))

-- send(const char *, size_t) where nothing waits: an error that does not end the connection leaves
-- the message waiting, and nobody watches.
pub send_bytes_stuck :
    (on_read on_writable on_state : Conn → Conn) (ws : List WriteResult) (b : ℕ) (bs : Bytes)
    (c : Conn) (ch : Channel)
    → c.channel ≡ some ch
    → ch.writes ≡ false
    → c.output ≡ []
    → let d = send_bytes on_read on_writable on_state (write_fails ∷ ws) (b ∷ bs) c in
      (d.output ≡ b ∷ bs) × (d.wire ≡ c.wire) × (write_enabled d.channel ≡ false)
unfolding send_bytes after_raw_send isend
send_bytes_stuck f g k ws b bs c ch hc hw ho = rw (hc, ho) (refl, append-nil c.wire, hw)
