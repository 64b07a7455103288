-- ===== src/Server.antt =====
-- handy/conn.cc: `TcpServer`, which accepts connections and deals them out to the bases. What the
-- kernel answers is an argument. The bases are numbers.
pub mod Accepting
use mathlib.Core.Option
use mathlib.Core.Path.{ap₂}
use handy.Base.{
  ℕ, zero, suc, ◌+◌, ◌-◌, ◌*◌, ◌/◌, ◌%◌, ◌^◌, ◌≤◌, ◌<◌, min, max, ◌≡◌, ◌≢◌, ◌↔◌, ◌⊎◌, inl, inr,
  refl, sym, ap, ◌∙◌, subst, Bool, true, false, not, ◌&&◌, ◌||◌, Option, none, some, List, [], ◌∷◌,
  ◌++◌, map, reverse, append-nil, append_assoc, arith, ltb, leb, ◌==◌, if◌then◌else◌, ltb→lt,
  lt→ltb, leb→le, ==_iff, ==_self, Bool-cases, ℕ-cases, List-cases, Option-cases, if_cases, Bytes,
  codes, length, take, drop, get_elem?, All, length-append, length-take, length-drop,
  take-append-drop, take-all, drop-all, take-append, drop-append, take-append_le, drop-append_le,
  take-append_ge, drop-drop, take-drop, same_bytes, same_bytes_iff,
}
use handy.EventLoop.{alloc_base}
use handy.Conn.{Conn}
use handy.Conn.Lifecycle.{new_conn, attach}

-- A successful accept: the descriptor, and whether getpeername and getsockname succeed.
pub record Accept : Type 0 where
  pub fd : ℕ
  pub has_peer : Bool
  pub has_local : Bool

-- The number of bases (1 for a plain EventBase), the server's own base, the next id_ of the bases, an
-- int given by its 32 bits, whether it listens, and the callbacks that are set. A descriptor is attached at once, or by a task posted to its base, or it is
-- passed over, and is open then with nobody to close it.
pub record TcpServer : Type 0 where
  pub bases : ℕ
  pub base : ℕ
  pub id : ℕ
  pub listens : Bool
  pub has_state : Bool
  pub has_read : Bool
  pub attached : List (ℕ × ℕ)
  pub posted : List (ℕ × ℕ)
  pub passed_over : List ℕ

-- TcpServer::TcpServer
unfoldable pub new_server : ℕ → ℕ → TcpServer
unfolding alloc_base
new_server bases id = record {
  bases = bases;
  base = (alloc_base bases id).0;
  id = (alloc_base bases id).1;
  listens = false;
  has_state = false;
  has_read = false;
  attached = [];
  posted = [];
  passed_over = [];
}

-- What ::bind comes to; a failure with the errno that is left when the socket is closed and the
-- failure is logged.
pub data BindResult : Type 0 where
  bind_succeeds : BindResult
  bind_fails : ℕ → BindResult

-- TcpServer::bind
unfoldable pub bind : BindResult → TcpServer → TcpServer × ℕ
bind bind_succeeds s = (record s { listens = true }, 0)
bind (bind_fails errno) s = (s, errno)

-- TcpServer::startServer
unfoldable pub start_server : ℕ → ℕ → BindResult → Option TcpServer
unfolding bind new_server
start_server bases id r =
    let b = bind r (new_server bases id) in if b.1 == 0 then some b.0 else none

-- `addcon`: the new connection, where no connection callback, channel or codec is set yet; `none` is
-- the fatalif of attach
unfoldable pub add_con : TcpServer → Option Conn
unfolding attach
add_con s = elim (attach (λ c. c) (λ c. c) (λ c. c) new_conn) [
  | none ↦ none
  | some c ↦ some (record c { has_state = s.has_state; has_read = s.has_read })
]

-- bases_->allocBase() and what follows
unfoldable pub place : ℕ → TcpServer → TcpServer
unfolding alloc_base
place fd s =
    let b = alloc_base s.bases s.id in
    if b.0 == s.base
    then record s { id = b.1; attached = s.attached ++ (fd, b.0) ∷ [] }
    else record s { id = b.1; posted = s.posted ++ (fd, b.0) ∷ [] }

unfoldable pub accept_one : Accept → TcpServer → TcpServer
unfolding place
accept_one a s =
    if a.has_peer && a.has_local
    then place a.fd s
    else record s { passed_over = s.passed_over ++ a.fd ∷ [] }

-- TcpServer::handleAccept, on the accepts that succeed before one fails
unfoldable pub handle_accept : List Accept → TcpServer → TcpServer
unfolding accept_one
handle_accept [] s = s
handle_accept (a ∷ rest) s = handle_accept rest (accept_one a s)
