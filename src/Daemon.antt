-- ===== src/Daemon.antt =====
-- handy/daemon.cc: the pid file, and starting, stopping and restarting a daemon. What the system
-- answers is an argument; a pid is an int.
pub mod PidFile
pub mod Stopping
pub mod Signals
use mathlib.Core.Option
use mathlib.Core.Path.{ap₂}
use handy.Base.{
  ℕ, zero, suc, ◌+◌, ◌-◌, ◌*◌, ◌/◌, ◌%◌, ◌^◌, ◌≤◌, ◌<◌, min, max, ◌≡◌, ◌≢◌, ◌↔◌, ◌⊎◌, inl, inr,
  refl, sym, ap, ◌∙◌, subst, Bool, true, false, not, ◌&&◌, ◌||◌, Option, none, some, List, [], ◌∷◌,
  ◌++◌, map, reverse, append-nil, append_assoc, arith, ltb, leb, ◌==◌, if◌then◌else◌, ltb→lt,
  lt→ltb, leb→le, ==_iff, ==_self, Bool-cases, ℕ-cases, List-cases, Option-cases, if_cases, Bytes,
  codes, length, take, drop, get_elem?, All, length-append, length-take, length-drop,
  take-append-drop, take-all, drop-all, take-append, drop-append, take-append_le, drop-append_le,
  take-append_ge, drop-drop, take-drop, same_bytes, same_bytes_iff,
}
use handy.Base.Int.{ℤ, pos, negsuc, leb_ℤ}
use handy.Base.Scan.{take_while}
use handy.Http.{atoi}
use handy.Http.Request.{show_int}

-- What writePidFile returns, and the bytes that it leaves in the file, where it has opened it.
unfoldable pub write_pid_file : Bool → Bool → ℤ → ℕ → ℤ × Option Bytes
unfolding show_int
write_pid_file opened locked pid written =
    let str = show_int pid ++ b'\n' ∷ [] in
    if not opened
    then (negsuc 0, none)
    else if not locked
    then (negsuc 0, some [])
    else if written == length str
    then (pos 0, some str)
    else (negsuc 0, some (take written str))

-- What the buffer of 64 bytes holds once its last byte is 0; `stale` is what it held before the read.
unfoldable pub pid_buffer : Bytes → Bytes → Bytes
pid_buffer contents stale =
    let got = take 64 contents in take 63 (got ++ drop (length got) stale) ++ 0 ∷ []

-- Up to the newline, or the byte that ends the string.
abbrev pub in_pid : ℕ → Bool
in_pid c = if c == b'\n' then false else not (c == 0)

-- getPidFromFile; the file's bytes, or that open fails
unfoldable pub get_pid_from_file : Option Bytes → Bytes → ℤ
unfolding pid_buffer atoi take_while
get_pid_from_file none stale = negsuc 0
get_pid_from_file (some []) stale = negsuc 0
get_pid_from_file (some (c ∷ cs)) stale = atoi (take_while in_pid (pid_buffer (c ∷ cs) stale))

-- What kill answers.
pub data Kill : Type 0 where
  killed not_permitted no_process : Kill

abbrev pub is_alive : Kill → Bool
is_alive killed = true
is_alive not_permitted = true
is_alive no_process = false

abbrev pub is_killed : Kill → Bool
is_killed killed = true
is_killed _ = false

-- pid > 0
abbrev pub is_pid : ℤ → Bool
is_pid (pos zero) = false
is_pid (pos (suc n)) = true
is_pid (negsuc n) = false

pub data Fork : Type 0 where
  fork_fails is_parent is_child : Fork

-- What becomes of the process.
pub data Fate : Type 0 where
  returns : ℤ → Fate
  exits : ℕ → Fate

-- daemonStart: the pid in the file, whether its process answers, whether the parent is init, what fork
-- gives, what writePidFile returns and whether /dev/null opens
unfoldable pub daemon_start : ℤ → Kill → Bool → Fork → ℤ → Bool → Fate
daemon_start pid probe by_init fork_fails wrote null_opens = returns (negsuc 0)
daemon_start pid probe by_init is_parent wrote null_opens =
    if is_pid pid && is_alive probe || by_init then returns (negsuc 0) else exits 0
daemon_start pid probe by_init is_child wrote null_opens =
    if is_pid pid && is_alive probe || by_init then returns (negsuc 0) else elim wrote [
      | pos zero ↦ if null_opens then returns (pos 0) else returns (negsuc 0)
      | pos (suc n) ↦ returns (pos (suc n))
      | negsuc n ↦ returns (negsuc n)
    ]

-- for (int i = 0; i < 300; i++): the kills that are answered, one in 10 ms; the first that fails says
-- that the process has ended
pub stop_loop : ℕ → List Kill → ℤ × Bool
stop_loop zero answers = (negsuc 0, false)
stop_loop (suc n) [] = (pos 0, true)
stop_loop (suc n) (a ∷ answers) =
    let rest = stop_loop n answers in if is_killed a then rest else (pos 0, true)

-- daemonStop: the result, and whether the pid file is removed. After the kills that are given the
-- process is gone.
unfoldable pub daemon_stop : ℤ → List Kill → ℤ × Bool
unfolding stop_loop
daemon_stop pid [] = (negsuc 0, false)
daemon_stop pid (a ∷ answers) =
    if not (is_pid pid)
    then (negsuc 0, false)
    else if is_killed a
    then stop_loop 300 answers
    else (negsuc 0, false)

-- daemonRestart; `stopped` is what daemonStop returns, `start` what daemonStart comes to
unfoldable pub daemon_restart : ℤ → Kill → ℤ → Fate → Fate
daemon_restart pid killed stopped start =
    if is_pid pid && not (leb_ℤ (pos 0) stopped) then returns stopped else start
daemon_restart pid not_permitted stopped start = if is_pid pid then returns (negsuc 0) else start
daemon_restart pid no_process stopped start = start

pub data Command : Type 0 where
  start_command stop_command restart_command bad_command : Command

-- if (r) exit(1);
abbrev pub exit_on_error : Fate → Fate
exit_on_error (returns (pos zero)) = returns (pos 0)
exit_on_error (returns (pos (suc n))) = exits 1
exit_on_error (returns (negsuc n)) = exits 1
exit_on_error (exits n) = exits n

-- cmd == NULL, or the words
unfoldable pub command : Option Bytes → Command
command none = start_command
command (some s) =
    if same_bytes s (codes "start")
    then start_command
    else if same_bytes s (codes "stop")
    then stop_command
    else if same_bytes s (codes "restart")
    then restart_command
    else bad_command

-- daemonProcess; the three results are what the functions come to
unfoldable pub daemon_process : Option Bytes → Fate → ℤ → Fate → Fate
unfolding command
daemon_process cmd start stop restart = elim (command cmd) [
  | start_command ↦ exit_on_error start
  | stop_command ↦ elim stop [ pos zero ↦ exits 0 | pos (suc n) ↦ exits 1 | negsuc n ↦ exits 1 ]
  | restart_command ↦ exit_on_error restart
  | bad_command ↦ exits 1
]
