-- ===== src/Udp/Packets.antt =====
-- handy/udp.cc: any calls on a connection.
use handy.Base.{
  ◌+◌, ◌≡◌, refl, sym, ap, ◌∙◌, Bool, true, false, Option, none, some, List, [], ◌∷◌, ◌++◌,
  append-nil, append_assoc, Bytes, take,
}
use handy.Udp.{UdpConn, packet_size, close, read_conn, send}

-- What is done to a connection.
pub data UdpCall : Type 0 where
  reads : Option Bytes → UdpCall
  sends : Bytes → Bool → UdpCall
  closes : UdpCall

unfoldable pub call : UdpCall → UdpConn → UdpConn
unfolding read_conn send close
call (reads r) c = read_conn r c
call (sends bs taken) c = send bs taken c
call closes c = close c

unfoldable pub calls : List UdpCall → UdpConn → UdpConn
unfolding call
calls [] c = c
calls (x ∷ xs) c = calls xs (call x c)

-- The packets that come in and the packets that are taken before the connection is closed.
unfoldable pub received : List UdpCall → List Bytes
received [] = []
received (reads none ∷ xs) = received xs
received (reads (some bs) ∷ xs) = take packet_size bs ∷ received xs
received (sends bs taken ∷ xs) = received xs
received (closes ∷ xs) = []

unfoldable pub taken_out : List UdpCall → List Bytes
taken_out [] = []
taken_out (reads r ∷ xs) = taken_out xs
taken_out (sends bs true ∷ xs) = bs ∷ taken_out xs
taken_out (sends bs false ∷ xs) = taken_out xs
taken_out (closes ∷ xs) = []

call-closed : (x : UdpCall) (c : UdpConn) → c.channel ≡ none → call x c ≡ c
unfolding call read_conn send close
call-closed (reads r) c e = rw e refl
call-closed (sends bs taken) c e = rw e refl
call-closed closes c e = rw e refl

calls-closed : (xs : List UdpCall) (c : UdpConn) → c.channel ≡ none → calls xs c ≡ c
unfolding calls
calls-closed [] c e = refl
calls-closed (x ∷ xs) c e = ap (calls xs) (call-closed x c e) ∙ calls-closed xs c e

-- Any calls on a connection that is open: it has handed on the packets that came in until it was
-- closed, each cut at kUdpPacketSize, and sent those that the kernel took until then, each of them once
-- and in order; what is done after the close changes nothing.
pub calls_lem :
    (xs : List UdpCall) (c : UdpConn)
    → c.channel ≡ some true
    → ((calls xs c).handed ≡ c.handed ++ received xs) × ((calls xs c).sent ≡ c.sent ++ taken_out xs)
unfolding calls call read_conn send close received taken_out
calls_lem [] c e = (sym (append-nil c.handed), sym (append-nil c.sent))
calls_lem (reads none ∷ xs) c e = rw e (calls_lem xs (record c { channel = some true }) refl)
calls_lem (reads (some bs) ∷ xs) c e =
    let d : UdpConn = record c {
      channel = some true;
      handed = c.handed ++ take packet_size bs ∷ [];
    } in
    let (handed, sent) = calls_lem xs d refl in
    rw e (handed ∙ append_assoc c.handed (take packet_size bs ∷ []) (received xs), sent)
calls_lem (sends bs true ∷ xs) c e =
    let d : UdpConn = record c { channel = some true; sent = c.sent ++ bs ∷ [] } in
    let (handed, sent) = calls_lem xs d refl in
    rw e (handed, sent ∙ append_assoc c.sent (bs ∷ []) (taken_out xs))
calls_lem (sends bs false ∷ xs) c e = rw e (calls_lem xs (record c { channel = some true }) refl)
calls_lem (closes ∷ xs) c e =
    let d : UdpConn = record c { channel = none; deletes = c.deletes + 1 } in
    let same = calls-closed xs d refl in
    rw (e, same) (sym (append-nil c.handed), sym (append-nil c.sent))
