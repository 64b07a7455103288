-- ===== src/Tests/Sockets.antt =====
-- A connection and a poller on short runs.
use handy.Base.{ℕ, ◌≡◌, refl, true, false, some, List, [], ◌∷◌, none}
use handy.Conn.{
  connected, Channel, Conn, WriteResult, wrote, write_blocks, ReadResult, got, read_ends, isend,
  read_loop, handle_write, send_buffer,
}
use handy.Conn.Sending.{
  IsFlowing, Sends, send_buffer-Sends, handle_write-IsFlowing, HasChannelOrFaults,
}
use handy.Conn.Reading.{gathered, ends, finish, read_loop_lem}
use handy.Conn.Lifecycle.{attach, close_now, send_msg}
use handy.Codec.{line_codec}
use handy.Conn.{closed}
use handy.Poller.{Events, Poller, remove_channel, loop_once}
use handy.Poller.Delivery.{Forgets, Distinct}
use handy.Base.Int.{negsuc, pos}

-- callbacks that do nothing
silent : Conn → Conn
silent c = c

abbrev quiet : Channel
quiet = record { open_fd = true; reads = true; writes = false }

abbrev open_conn : Conn
open_conn = record {
  state = connected;
  channel = some quiet;
  input = [];
  output = [];
  wire = 1 ∷ [];
  has_read = true;
  has_writable = true;
  has_state = false;
  target = record { host = []; port = negsuc 0; timeout = pos 0; local_ip = [] };
  reconnect_interval = negsuc 0;
  exited = false;
  effects = [];
}

open_conn-IsFlowing : IsFlowing open_conn
unfolding IsFlowing
open_conn-IsFlowing = refl

-- the kernel takes one byte and then would block
abbrev one_byte : List WriteResult
one_byte = wrote 1 ∷ write_blocks ∷ []

not_lost : (isend one_byte (2 ∷ 3 ∷ [])).lost ≡ false
unfolding isend
not_lost = refl

send_buffer-Sends_example :
    Sends (2 ∷ 3 ∷ []) open_conn (send_buffer silent silent silent one_byte (2 ∷ 3 ∷ []) open_conn)
send_buffer-Sends_example =
    send_buffer-Sends silent silent silent one_byte (2 ∷ 3 ∷ []) open_conn quiet refl
      open_conn-IsFlowing not_lost

abbrev waiting_conn : Conn
waiting_conn = record open_conn {
  channel = some (record quiet { writes = true });
  output = 2 ∷ 3 ∷ [];
}

waiting_conn-IsFlowing : IsFlowing waiting_conn
unfolding IsFlowing
waiting_conn-IsFlowing = refl

silent-IsFlowing : (d : Conn) → IsFlowing d → IsFlowing (silent d)
unfolding silent
silent-IsFlowing d h = h

handle_write-IsFlowing_example :
    IsFlowing (handle_write silent silent silent false one_byte waiting_conn)
    × HasChannelOrFaults (handle_write silent silent silent false one_byte waiting_conn)
handle_write-IsFlowing_example =
    handle_write-IsFlowing silent silent silent silent-IsFlowing false one_byte waiting_conn refl
      waiting_conn-IsFlowing not_lost

abbrev two_reads : List ReadResult
two_reads = got (1 ∷ []) ∷ got (2 ∷ []) ∷ read_ends ∷ []

read_loop_lem_example :
    read_loop silent silent silent two_reads open_conn
    ≡ finish silent silent silent (ends two_reads) (record open_conn { input = gathered two_reads })
read_loop_lem_example = read_loop_lem silent silent silent two_reads open_conn

abbrev readable : Events
readable = record { reads = true; writes = false; fails = false }

abbrev busy : Poller
busy = record {
  live = 3 ∷ 4 ∷ [];
  watched = (3, readable) ∷ (4, readable) ∷ [];
  active = (some 3, readable) ∷ (some 4, readable) ∷ [];
  exited = false;
  calls = [];
}

busy-Distinct : Distinct busy.active
unfolding Distinct Forgets
busy-Distinct = ((refl, tt), (tt, tt))

-- closes channel 4 when channel 3 is read
closes_other : ℕ → Poller → Poller
unfolding remove_channel
closes_other ch p = remove_channel 4 p

only_one_call : (loop_once closes_other closes_other busy.active busy).calls ≡ (3, false) ∷ []
unfolding loop_once closes_other
only_one_call = refl

-- a connection that is closed by the user comes to its end
closes_once : (close_now silent silent silent open_conn).state ≡ closed
unfolding close_now silent
closes_once = refl

sends_line :
    (send_msg silent silent silent line_codec one_byte (2 ∷ []) open_conn).output ≡ 13 ∷ 10 ∷ []
unfolding send_msg silent handy.Codec.encode_line
sends_line = refl

attach_refused : attach silent silent silent open_conn ≡ none
unfolding attach
attach_refused = refl
