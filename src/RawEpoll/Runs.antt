-- ===== src/RawEpoll/Runs.antt =====
-- raw-examples/epoll.cc: the reads and all events of a connection.
use handy.Base.{
  ◌<◌, ◌≡◌, ◌⊎◌, inl, inr, refl, Bool, true, false, ◌&&◌, none, some, List, [], ◌∷◌, ◌++◌, arith,
  if◌then◌else◌, if_cases, Bytes, length,
}
use handy.Base.Sizes.{size_mod}
use handy.RawEpoll.{
  new_con, Peer, new_peer, con_of, send_res, is_request, Round, read_round, read_loop, handle_read,
  Event, readable, writable, handle, run,
}
use handy.RawEpoll.Responses.{
  IsGoing, IsOver, IsWhole, MayWrite, unfold_whole, send_res-IsWhole, copies,
}

got_bytes-IsGoing :
    (res readed : Bytes) (p : Peer)
    → IsGoing res p
    → IsGoing res (record p { con = some (record (con_of p) { readed = readed }) })
unfolding IsGoing con_of
got_bytes-IsGoing res readed p h = h

IsWhole-if :
    (res : Bytes) (b : Bool) (p q : Peer)
    → IsWhole res p
    → IsWhole res q
    → IsWhole res (if b then p else q)
IsWhole-if res true p q h g = h
IsWhole-if res false p q h g = g

read_round-IsWhole :
    (res : Bytes) (r : Round) (p : Peer)
    → length res < size_mod
    → IsGoing res p
    → MayWrite res p r.counts
    → IsWhole res (read_round res r p)
unfolding read_round
read_round-IsWhole res r p small h may =
    let c = con_of p in
    let readed = c.readed ++ r.bytes in
    let q = record p { con = some (record c { readed = readed }) } in
    let going = got_bytes-IsGoing res readed p h in
    IsWhole-if res (is_request readed) (send_res res r.counts r.last q) q
      (send_res-IsWhole res r.counts r.last q small going (unfold con_of in may))
      (unfold IsWhole in inl going)

-- The writes of a call of handleRead, and those of a series of events.
abbrev pub MayRead : Bytes → List Round → Peer → Type 0
MayRead res [] p = Unit
MayRead res (r ∷ rounds) p = MayWrite res p r.counts × MayRead res rounds (read_round res r p)

abbrev pub MayHandle : Bytes → Event → Peer → Type 0
MayHandle res (readable rounds blocked) p = MayRead res rounds p
MayHandle res (writable counts last) p = MayWrite res p counts

abbrev pub MayRun : Bytes → List Event → Peer → Type 0
MayRun res [] p = Unit
MayRun res (e ∷ events) p = MayHandle res e p × MayRun res events (handle res e p)

IsGoing-is_open : (res : Bytes) (p : Peer) → IsGoing res p → p.is_open ≡ true
unfolding IsGoing
IsGoing-is_open res p (is_open, more) = is_open

IsOver-closed : (res : Bytes) (p : Peer) → IsOver res p → p.is_open ≡ false
unfolding IsOver
IsOver-closed res p (closed, more) = closed

read_loop-IsWhole :
    (res : Bytes) (rounds : List Round) (p : Peer)
    → length res < size_mod
    → IsGoing res p
    → MayRead res rounds p
    → IsWhole res (read_loop res rounds p)
unfolding read_loop
read_loop-IsWhole res [] p small h may = unfold IsWhole in inl h
read_loop-IsWhole res (r ∷ rounds) p small h (may, later) =
    let q = read_round res r p in
    let whole : IsGoing res q ⊎ IsOver res q =
      unfold_whole res q (read_round-IsWhole res r p small h may) in
    elim whole [
      | inl g ↦ rw (IsGoing-is_open res q g) (read_loop-IsWhole res rounds q small g later)
      | inr o ↦ rw (IsOver-closed res q o) (unfold IsWhole in inr o)
    ]

open-IsGoing : (res : Bytes) (p : Peer) → IsWhole res p → p.is_open ≡ true → IsGoing res p
open-IsGoing res p h is_open = elim (unfold_whole res p h) [
  | inl g ↦ g
  | inr o ↦ let closed = IsOver-closed res p o in absurd cc
]

closes-IsOver :
    (res : Bytes) (p : Peer) → IsWhole res p → IsOver res (record p { con = none; is_open = false })
unfolding IsWhole IsGoing IsOver
closes-IsOver res p (inl (is_open, (k, (sent, more)))) = (refl, (k, ((con_of p).written, sent)))
closes-IsOver res p (inr (closed, more)) = (refl, more)

handle_read-IsWhole :
    (res : Bytes) (rounds : List Round) (blocked : Bool) (p : Peer)
    → length res < size_mod
    → IsGoing res p
    → MayRead res rounds p
    → IsWhole res (handle_read res rounds blocked p)
unfolding handle_read
handle_read-IsWhole res rounds blocked p small h may =
    let q = read_loop res rounds p in
    let whole = read_loop-IsWhole res rounds p small h may in
    IsWhole-if res (q.is_open && blocked) q (record q { con = none; is_open = false }) whole
      (unfold IsWhole in inr (closes-IsOver res q whole))

handle-IsWhole :
    (res : Bytes) (e : Event) (p : Peer)
    → length res < size_mod
    → IsGoing res p
    → MayHandle res e p
    → IsWhole res (handle res e p)
unfolding handle
handle-IsWhole res (readable rounds blocked) p small h may =
    handle_read-IsWhole res rounds blocked p small h may
handle-IsWhole res (writable counts last) p small h may =
    send_res-IsWhole res counts last p small h may

run-IsWhole_from :
    (res : Bytes) (events : List Event) (p : Peer)
    → length res < size_mod
    → IsWhole res p
    → MayRun res events p
    → IsWhole res (run res events p)
unfolding run
run-IsWhole_from res [] p small h may = h
run-IsWhole_from res (e ∷ events) p small h (may, later) =
    if_cases {A = Peer} (IsWhole res) p.is_open (run res events (handle res e p)) p
      (λ is_open.
        run-IsWhole_from res events (handle res e p) small
          (handle-IsWhole res e p small (open-IsGoing res p h is_open) may) later)
      (λ closed. h)

new_peer-IsGoing : (res : Bytes) → IsGoing res new_peer
unfolding IsGoing new_peer con_of copies new_con
new_peer-IsGoing res = (refl, (0, (refl, (omega arith, (refl, inr refl)))))

-- Whatever events come to a connection that has been accepted, and however the writes are cut short or
-- fail: what it has been sent is a number of whole responses and the start of one more. While it is
-- open, `written` says how long this start is, EPOLLOUT is registered where writeEnabled says so, and a
-- response that has been started waits for EPOLLOUT. No write returns more than it was given.
pub run-IsWhole :
    (res : Bytes) (events : List Event)
    → length res < size_mod
    → MayRun res events new_peer
    → IsWhole res (run res events new_peer)
run-IsWhole res events small may =
    run-IsWhole_from res events new_peer small (unfold IsWhole in inl (new_peer-IsGoing res)) may
