-- ===== src/Tests/Services.antt =====
-- The log, statuses, datagrams and daemons on small inputs.
use handy.Http.Request.{show_digits}
use handy.Base.{
  same_bytes, ℕ, zero, suc, ◌+◌, ◌-◌, ◌*◌, ◌/◌, ◌%◌, ◌^◌, ◌≤◌, ◌<◌, min, max, ◌≡◌, ◌≢◌, ◌↔◌, ◌⊎◌,
  inl, inr, refl, sym, ap, ◌∙◌, subst, Bool, true, false, not, ◌&&◌, ◌||◌, Option, none, some, List,
  [], ◌∷◌, ◌++◌, map, reverse, append-nil, append_assoc, arith, ltb, leb, ◌==◌, if◌then◌else◌,
  ltb→lt, lt→ltb, leb→le, ==_iff, ==_self, Bool-cases, ℕ-cases, List-cases, Option-cases, if_cases,
  Bytes, codes, length, take, drop, get_elem?, All, length-append, length-take, length-drop,
  take-append-drop, take-all, drop-all, take-append, drop-append, take-append_le, drop-append_le,
  take-append_ge, drop-drop, take-drop, same_bytes, same_bytes_iff,
}
use handy.Base.Int.{ℤ, pos, negsuc}
use handy.Logger.{
  Logger, adjust_log_level, set_log_level_name, set_file_name, maybe_rotate, keeps_file, log_line,
  logv, to_fd, to_stdout,
}
use handy.Logger.Rotating.{log_at, changes, log_at-changes, IsInStep}
use handy.Status.{ok_status, new_status, from_format, copy, code, msg, ok}
use handy.Status.Copies.{from_format_lem, new_status_lem}
use handy.Proto.{
  Library, decoded, reads_outside, decode, encode, msg_complete, set_callback, handle,
}
use handy.Proto.RoundTrip.{IsFaithful, decode-encode}
use handy.StatServer.{StatServer, page, new_stat_server, on_info, respond, query_link}
use handy.Http.Request.{clear_request, clear_response}
use handy.Udp.{UdpConn, bound, packet, read_server, send_to, create_connection}
use handy.Udp.Packets.{UdpCall, reads, sends, closes, calls, received, taken_out, calls_lem}
use handy.Daemon.{
  write_pid_file, get_pid_from_file, killed, no_process, not_permitted, daemon_start, is_child,
  returns, exits, daemon_stop, daemon_restart, daemon_process,
}
use handy.Daemon.PidFile.{get_pid-write_pid}

abbrev logger : Logger
logger = record {
  fd = some 3;
  level = pos 5;
  last_rotate = 100;
  real_rotate = 100;
  rotate_interval = 60;
  filename = b'l' ∷ [];
}

debug_on : (set_log_level_name (codes "Debug") logger).level ≡ pos 6
unfolding set_log_level_name same_bytes handy.Conf.to_lower
debug_on = refl

unknown_name : (set_log_level_name (codes "loud") logger).level ≡ pos 5
unfolding set_log_level_name same_bytes handy.Conf.to_lower
unknown_name = refl

not_above_all : (adjust_log_level (pos 9) logger).level ≡ pos 8
unfolding adjust_log_level
not_above_all = refl

file_kept : set_file_name (b'k' ∷ []) none true logger ≡ some logger
unfolding set_file_name
file_kept = refl

rename_refused : (maybe_rotate (pos 0) 130 false true logger).1 ≡ keeps_file
unfolding maybe_rotate
rename_refused = refl

one_newline : log_line (b'a' ∷ []) (b'b' ∷ b'\n' ∷ b'\n' ∷ []) ≡ b'a' ∷ b'b' ∷ b'\n' ∷ []
unfolding log_line
one_newline = refl

info_line :
    (logv (pos 5) (b'a' ∷ []) (b'b' ∷ []) (pos 0) 110 true true logger).1
    ≡ to_fd 3 (b'a' ∷ b'b' ∷ b'\n' ∷ []) ∷ to_stdout (b'a' ∷ b'b' ∷ b'\n' ∷ []) ∷ []
unfolding logv log_line
info_line = refl

debug_left_out : (logv (pos 6) (b'a' ∷ []) (b'b' ∷ []) (pos 0) 110 true true logger).1 ≡ []
unfolding logv
debug_left_out = refl

logger-IsInStep : IsInStep (negsuc 3599) logger
logger-IsInStep = record { same_period = refl; has_file = refl }

log_at-changes_example :
    (log_at (negsuc 3599) (110 ∷ 130 ∷ 200 ∷ 201 ∷ []) logger).1
    ≡ changes (negsuc 3599) 60 100 (110 ∷ 130 ∷ 200 ∷ 201 ∷ [])
log_at-changes_example =
    log_at-changes (negsuc 3599) (110 ∷ 130 ∷ 200 ∷ 201 ∷ []) logger logger-IsInStep

two_rotations : (log_at (negsuc 3599) (110 ∷ 130 ∷ 200 ∷ 201 ∷ []) logger).1 ≡ 2
unfolding log_at
two_rotations = refl

success : ok ok_status ≡ true
unfolding ok ok_status
success = refl

new_status_lem_example :
    (code (new_status (pos 2) (b'n' ∷ b'o' ∷ [])) ≡ pos 2)
    × (msg (new_status (pos 2) (b'n' ∷ b'o' ∷ [])) ≡ none)
new_status_lem_example =
    new_status_lem (pos 2) (b'n' ∷ b'o' ∷ []) (unfold handy.Status.Copies.IsInt in omega arith)
      (unfold handy.Status.Copies.IsText in tt)

abbrev udp_conn : UdpConn
udp_conn = record { channel = some true; deletes = 0; handed = []; sent = [] }

connects : create_connection true ≡ some udp_conn
unfolding create_connection
connects = refl

server_reads :
    (send_to (2 ∷ []) 9 true (read_server (packet (1 ∷ []) 9) (bound true))).handed
    ≡ (1 ∷ [], 9) ∷ []
unfolding read_server send_to bound
server_reads = refl

abbrev some_calls : List UdpCall
some_calls = reads (some (1 ∷ [])) ∷ sends (2 ∷ []) true ∷ closes ∷ reads (some (3 ∷ [])) ∷ []

calls_lem_example :
    ((calls some_calls udp_conn).handed ≡ [] ++ received some_calls)
    × ((calls some_calls udp_conn).sent ≡ [] ++ taken_out some_calls)
calls_lem_example = calls_lem some_calls udp_conn refl

get_pid-write_pid_example :
    get_pid_from_file (write_pid_file true true (pos 4711) 5).1 (b'9' ∷ b'9' ∷ []) ≡ pos 4711
get_pid-write_pid_example =
    get_pid-write_pid 4711 5 (b'9' ∷ b'9' ∷ []) (omega arith)
      (unfold write_pid_file in unfold show_digits in refl)

-- A pid without a newline is read on into what the buffer held before.
stale_pid :
    get_pid_from_file (some (b'1' ∷ b'2' ∷ [])) (b'0' ∷ b'0' ∷ b'7' ∷ b'8' ∷ 0 ∷ []) ≡ pos 1278
unfolding get_pid_from_file handy.Base.Int.as_int handy.Http.decimal_value
stale_pid = refl

starts_child : daemon_start (negsuc 0) no_process false is_child (pos 0) true ≡ returns (pos 0)
unfolding daemon_start
starts_child = refl

stops : daemon_stop (pos 12) (killed ∷ killed ∷ []) ≡ (pos 0, true)
unfolding daemon_stop
stops = refl

restart_refused : daemon_restart (pos 12) not_permitted (pos 0) (exits 0) ≡ returns (negsuc 0)
unfolding daemon_restart
restart_refused = refl

stop_exits : daemon_process (some (codes "stop")) (exits 0) (pos 0) (exits 0) ≡ exits 0
unfolding daemon_process same_bytes
stop_exits = refl

-- a library with one type of message, which is its own bytes
abbrev one_type : Library Bytes
one_type = record {
  full_name = λ m. b'M' ∷ [];
  serialize = λ m. m;
  has_type = λ name. same_bytes name (b'M' ∷ []);
  parse = λ name bs. some bs;
}

one_type-IsFaithful : IsFaithful one_type
unfolding same_bytes
one_type-IsFaithful = record { knows = λ m. refl; parses = λ m. refl }

decode-encode_example :
    (msg_complete (encode one_type (5 ∷ 6 ∷ []) [] ++ 7 ∷ []) ≡ true)
    × (decode one_type (encode one_type (5 ∷ 6 ∷ []) [] ++ 7 ∷ []) ≡ decoded (5 ∷ 6 ∷ []) (7 ∷ []))
decode-encode_example =
    decode-encode one_type one_type-IsFaithful (5 ∷ 6 ∷ []) (7 ∷ []) (omega arith)

-- the name is said to be one byte longer than the buffer
name_outside : decode one_type (8 ∷ 0 ∷ 0 ∷ 0 ∷ 1 ∷ 0 ∷ 0 ∷ 0 ∷ []) ≡ reads_outside
unfolding decode
name_outside = refl

unknown_message : handle one_type (set_callback (b'N' ∷ []) 3 []) [] ≡ none
unfolding handle set_callback
unknown_message = refl

abbrev greeting : StatServer
greeting = on_info page (codes "hi") (codes "a page") (b'x' ∷ []) new_stat_server

greets :
    (respond greeting (record clear_request { uri = codes "/hi" }) clear_response).msg.body
    ≡ b'x' ∷ []
unfolding respond on_info new_stat_server clear_request clear_response
greets = refl

no_page :
    (respond greeting (record clear_request { uri = codes "/ho" }) clear_response).status ≡ pos 404
unfolding respond on_info new_stat_server clear_request clear_response
no_page = refl

abbrev name_link : Bytes
name_link = query_link (codes "hi")

links : length name_link ≡ 26
unfolding query_link handy.Base.Scan.take_while
links = refl
