-- ===== src/Udp.antt =====
-- handy/udp.h and handy/udp.cc: `UdpServer` and `UdpConn`. What the kernel answers is an argument.
-- What the user's callback is handed and what the kernel takes is recorded.
pub mod Packets
use mathlib.Core.Option
use mathlib.Core.Path.{ap₂}
use handy.Base.{
  ℕ, zero, suc, ◌+◌, ◌-◌, ◌*◌, ◌/◌, ◌%◌, ◌^◌, ◌≤◌, ◌<◌, min, max, ◌≡◌, ◌≢◌, ◌↔◌, ◌⊎◌, inl, inr,
  refl, sym, ap, ◌∙◌, subst, Bool, true, false, not, ◌&&◌, ◌||◌, Option, none, some, List, [], ◌∷◌,
  ◌++◌, map, reverse, append-nil, append_assoc, arith, ltb, leb, ◌==◌, if◌then◌else◌, ltb→lt,
  lt→ltb, leb→le, ==_iff, ==_self, Bool-cases, ℕ-cases, List-cases, Option-cases, if_cases, Bytes,
  codes, length, take, drop, get_elem?, All, length-append, length-take, length-drop,
  take-append-drop, take-all, drop-all, take-append, drop-append, take-append_le, drop-append_le,
  take-append_ge, drop-drop, take-drop, same_bytes, same_bytes_iff,
}
use handy.Base.Int.{ℤ}

-- `channel_`, NULL where it is absent; whether its descriptor is open. An address is a number.
pub record UdpServer : Type 0 where
  pub channel : Option Bool
  pub handed : List (Bytes × ℕ)
  pub sent : List (Bytes × ℕ)

-- What recvfrom takes from the socket: a packet and its sender.
pub data Recv : Type 0 where
  packet : Bytes → ℕ → Recv
  recv_fails : Recv

-- kUdpPacketSize
abbrev pub packet_size : ℕ
packet_size = 4096

-- !(!channel_ || channel_->fd() < 0)
abbrev pub is_open : Option Bool → Bool
is_open none = false
is_open (some fd) = fd

-- A server behind UdpServer::bind, or before it.
unfoldable pub bound : Bool → UdpServer
bound true = record { channel = some true; handed = []; sent = [] }
bound false = record { channel = none; handed = []; sent = [] }

-- The callback that bind sets: a packet longer than kUdpPacketSize is cut by recvfrom.
unfoldable pub read_server : Recv → UdpServer → UdpServer
read_server recv_fails s = s
read_server (packet bs from) s =
    if is_open s.channel
    then record s { handed = s.handed ++ (take packet_size bs, from) ∷ [] }
    else s

-- UdpServer::sendTo; the flag says that ::sendto does not fail
unfoldable pub send_to : Bytes → ℕ → Bool → UdpServer → UdpServer
send_to bs to taken s =
    if is_open s.channel && taken then record s { sent = s.sent ++ (bs, to) ∷ [] } else s

-- `deletes` counts the tasks that delete a channel and wait in the loop.
pub record UdpConn : Type 0 where
  pub channel : Option Bool
  pub deletes : ℕ
  pub handed : List Bytes
  pub sent : List Bytes

-- createConnection; `none` where ::connect fails otherwise than by EINPROGRESS
unfoldable pub create_connection : Bool → Option UdpConn
create_connection true = some (record { channel = some true; deletes = 0; handed = []; sent = [] })
create_connection false = none

-- UdpConn::close
unfoldable pub close : UdpConn → UdpConn
close c = elim c.channel [
  | none ↦ c
  | some fd ↦ record c { channel = none; deletes = c.deletes + 1 }
]

-- The callback that createConnection sets; `none` is a read that fails.
unfoldable pub read_conn : Option Bytes → UdpConn → UdpConn
unfolding close
read_conn r c =
    if is_open c.channel
    then elim r [ none ↦ c | some bs ↦ record c { handed = c.handed ++ take packet_size bs ∷ [] } ]
    else close c

-- UdpConn::send
unfoldable pub send : Bytes → Bool → UdpConn → UdpConn
send bs taken c = if is_open c.channel && taken then record c { sent = c.sent ++ bs ∷ [] } else c
