-- ===== src/RawEpoll.antt =====
-- raw-examples/epoll.cc: a server over epoll without the library, as it treats one connection. That a
-- call of epoll_ctl, accept or fcntl fails ends the program.
pub mod Responses
pub mod Runs
use mathlib.Core.Option
use mathlib.Core.Path.{ap₂}
use handy.Base.{
  ℕ, zero, suc, ◌+◌, ◌-◌, ◌*◌, ◌/◌, ◌%◌, ◌^◌, ◌≤◌, ◌<◌, min, max, ◌≡◌, ◌≢◌, ◌↔◌, ◌⊎◌, inl, inr,
  refl, sym, ap, ◌∙◌, subst, Bool, true, false, not, ◌&&◌, ◌||◌, Option, none, some, List, [], ◌∷◌,
  ◌++◌, map, reverse, append-nil, append_assoc, arith, ltb, leb, ◌==◌, if◌then◌else◌, ltb→lt,
  lt→ltb, leb→le, ==_iff, ==_self, Bool-cases, ℕ-cases, List-cases, Option-cases, if_cases, Bytes,
  codes, length, take, drop, get_elem?, All, length-append, length-take, length-drop,
  take-append-drop, take-all, drop-all, take-append, drop-append, take-append_le, drop-append_le,
  take-append_ge, drop-drop, take-drop, same_bytes, same_bytes_iff,
}
use handy.Base.Sizes.{size_mod, sub_size_t}

pub record Con : Type 0 where
  pub readed : Bytes
  pub written : ℕ
  pub write_enabled : Bool

unfoldable pub new_con : Con
new_con = record { readed = []; written = 0; write_enabled = false }

-- What ends the loop of writes: 0, EAGAIN or EWOULDBLOCK, or another error.
pub data Last : Type 0 where
  writes_none blocks breaks : Last

-- The loop of writes has ended.
pub record LoopEnd : Type 0 where
  pub written : ℕ
  pub left : ℕ
  pub last : Last
  pub out : Bytes

-- while ((wd = ::write(fd, httpRes.data() + con.written, left)) > 0), of the counts that write returns
-- and what it returns then; `out` is what has been written.
unfoldable pub write_loop : Bytes → ℕ → ℕ → List ℕ → Last → LoopEnd
write_loop res written left [] last = record {
  written = written;
  left = left;
  last = last;
  out = [];
}
write_loop res written left (zero ∷ counts) last = record {
  written = written;
  left = left;
  last = writes_none;
  out = [];
}
write_loop res written left (suc n ∷ counts) last =
    let later = write_loop res (written + suc n) (sub_size_t left (suc n)) counts last in
    record later { out = take (suc n) (drop written res) ++ later.out }

-- What there is of a connection: its entry in `cons`, whether its descriptor is open and registered for
-- EPOLLOUT, and all that has been written to it.
pub record Peer : Type 0 where
  pub con : Option Con
  pub is_open : Bool
  pub wants_write : Bool
  pub sent : Bytes

-- handleAccept
unfoldable pub new_peer : Peer
new_peer = record { con = none; is_open = true; wants_write = false; sent = [] }

-- cons[fd]
unfoldable pub con_of : Peer → Con
unfolding new_con
con_of p = elim p.con [ none ↦ new_con | some c ↦ c ]

-- sendRes behind its loop, where something is left
unfoldable pub stopped : Last → Con → ℕ → Peer → Peer
stopped blocks c written p = record p {
  con = some (record c { written = written; write_enabled = true });
  wants_write = if c.write_enabled then p.wants_write else true;
}
stopped writes_none c written p = record p { con = none; is_open = false }
stopped breaks c written p = record p { con = none; is_open = false }

-- sendRes behind its loop
unfoldable pub loop_ended : Con → LoopEnd → Peer → Peer
unfolding stopped
loop_ended c e p =
    let q = record p { sent = p.sent ++ e.out } in
    let unfinished = stopped e.last c e.written q in
    if e.left == 0
    then record q { con = none; wants_write = if c.write_enabled then false else p.wants_write }
    else unfinished

-- sendRes
unfoldable pub send_res : Bytes → List ℕ → Last → Peer → Peer
unfolding write_loop loop_ended con_of
send_res res counts last p =
    let c = con_of p in
    loop_ended c (write_loop res c.written (sub_size_t (length res) c.written) counts last) p

-- readed.substr(readed.length() - 2, 2) == "\n\n" or the last four bytes "\r\n\r\n", behind the test of
-- the length
unfoldable pub is_request : Bytes → Bool
unfolding same_bytes
is_request readed =
    ltb 4 (length readed)
    && (same_bytes (drop (length readed - 2) readed) (b'\n' ∷ b'\n' ∷ [])
        || same_bytes (drop (length readed - 4) readed) (b'\r' ∷ b'\n' ∷ b'\r' ∷ b'\n' ∷ []))

-- What one read gives, and the writes that follow it where sendRes is called.
pub record Round : Type 0 where
  pub bytes : Bytes
  pub counts : List ℕ
  pub last : Last

-- The body of the loop of handleRead.
unfoldable pub read_round : Bytes → Round → Peer → Peer
unfolding send_res is_request con_of
read_round res r p =
    let c = con_of p in
    let readed = c.readed ++ r.bytes in
    let q = record p { con = some (record c { readed = readed }) } in
    if is_request readed then send_res res r.counts r.last q else q

-- The loop of handleRead; a read of a descriptor that sendRes has closed fails.
unfoldable pub read_loop : Bytes → List Round → Peer → Peer
unfolding read_round
read_loop res [] p = p
read_loop res (r ∷ rounds) p =
    let q = read_round res r p in
    let later = read_loop res rounds q in if q.is_open then later else q

-- handleRead, where the last read gives EAGAIN or EWOULDBLOCK, or the end of input or another error
unfoldable pub handle_read : Bytes → List Round → Bool → Peer → Peer
unfolding read_loop
handle_read res rounds blocked p =
    let q = read_loop res rounds p in
    if q.is_open && blocked then q else record q { con = none; is_open = false }

-- The events of a connection: EPOLLIN or EPOLLERR, and EPOLLOUT without them.
pub data Event : Type 0 where
  readable : List Round → Bool → Event
  writable : List ℕ → Last → Event

-- The body of the loop of loop_once, for a connection.
unfoldable pub handle : Bytes → Event → Peer → Peer
unfolding handle_read send_res
handle res (readable rounds blocked) p = handle_read res rounds blocked p
handle res (writable counts last) p = send_res res counts last p

-- loop_once again and again, for a connection; one that is closed has no more events.
unfoldable pub run : Bytes → List Event → Peer → Peer
unfolding handle
run res [] p = p
run res (e ∷ events) p =
    let later = run res events (handle res e p) in if p.is_open then later else p
