-- ===== src/Load.antt =====
-- 10m/10m-svr.cc and 10m/10m-cli.cc: the load test. What the workers count, the line in which they
-- report it to the master, and how a client spreads its connections over timers. The arguments that are
-- numbers are not negative, and the first port is not above the last.
pub mod Reports
pub mod Clients
pub mod Creating
use mathlib.Core.Option
use mathlib.Core.Path.{ap₂}
use handy.Base.{
  ℕ, zero, suc, ◌+◌, ◌-◌, ◌*◌, ◌/◌, ◌%◌, ◌^◌, ◌≤◌, ◌<◌, min, max, ◌≡◌, ◌≢◌, ◌↔◌, ◌⊎◌, inl, inr,
  refl, sym, ap, ◌∙◌, subst, Bool, true, false, not, ◌&&◌, ◌||◌, Option, none, some, List, [], ◌∷◌,
  ◌++◌, map, reverse, append-nil, append_assoc, arith, ltb, leb, ◌==◌, if◌then◌else◌, ltb→lt,
  lt→ltb, leb→le, ==_iff, ==_self, Bool-cases, ℕ-cases, List-cases, Option-cases, if_cases, Bytes,
  codes, length, take, drop, get_elem?, All, length-append, length-take, length-drop,
  take-append-drop, take-all, drop-all, take-append, drop-append, take-append_le, drop-append_le,
  take-append_ge, drop-drop, take-drop, same_bytes, same_bytes_iff,
}
use handy.Base.Int.{ℤ, pos, negsuc, as_size_t}
use handy.Slice.{split}
use handy.Slice.Split.{join}
use handy.Http.{atoi}
use handy.Http.Request.{show_int}

-- The fields of a report, as they are joined by spaces: those of data() of the i-th field on, and what
-- follows the message in the buffer.
unfoldable pub from_field : ℕ → List Bytes → Bytes → Bytes
unfolding join
from_field i fs behind = join b' ' (drop i fs) ++ behind

-- Report of a worker of the server: unsigned long, long and unsigned long, in an order of its own
pub record ServerReport : Type 0 where
  pub connected : ℕ
  pub closed : ℕ
  pub recved : ℕ

-- util::format("%d, connected: %ld, closed: %ld, recved: %ld", ...)
unfoldable pub show_server_report : ℤ → ℤ → ℤ → ℤ → Bytes
unfolding show_int
show_server_report pid connected closed recved =
    show_int pid
    ++ (codes ", connected: "
        ++ (show_int connected
            ++ (codes ", closed: "
                ++ (show_int closed ++ (codes ", recved: " ++ show_int recved)))))

-- The callback of the master, from the fields on: the key in `subs` and what it is set to, or the error;
-- `behind` is what the buffer holds behind the message, where atoi reads on.
unfoldable pub take_server_report : List Bytes → Bytes → Option (ℤ × ServerReport)
unfolding atoi from_field as_size_t
take_server_report fs behind =
    if length fs == 7
    then some (
      atoi (from_field 0 fs behind),
      record {
        connected = as_size_t (atoi (from_field 2 fs behind));
        closed = as_size_t (atoi (from_field 4 fs behind));
        recved = as_size_t (atoi (from_field 6 fs behind));
      },
    )
    else none

unfoldable pub on_server_report : Bytes → Bytes → Option (ℤ × ServerReport)
unfolding take_server_report
on_server_report msg behind = take_server_report (split b' ' msg) behind

-- Report of a worker of the client
pub record ClientReport : Type 0 where
  pub connected : ℤ
  pub retry : ℤ
  pub sended : ℤ
  pub recved : ℤ

-- util::format("%d connected: %d, retry: %d, send: %d, recved: %d", ...)
unfoldable pub show_client_report : ℤ → ℤ → ℤ → ℤ → ℤ → Bytes
unfolding show_int
show_client_report pid connected retry send recved =
    show_int pid
    ++ (codes " connected: "
        ++ (show_int connected
            ++ (codes ", retry: "
                ++ (show_int retry
                    ++ (codes ", send: "
                        ++ (show_int send ++ (codes ", recved: " ++ show_int recved)))))))

unfoldable pub take_client_report : List Bytes → Bytes → Option (ℤ × ClientReport)
unfolding atoi from_field
take_client_report fs behind =
    if length fs == 9
    then some (
      atoi (from_field 0 fs behind),
      record {
        connected = atoi (from_field 2 fs behind);
        retry = atoi (from_field 4 fs behind);
        sended = atoi (from_field 6 fs behind);
        recved = atoi (from_field 8 fs behind);
      },
    )
    else none

unfoldable pub on_client_report : Bytes → Bytes → Option (ℤ × ClientReport)
unfolding take_client_report
on_client_report msg behind = take_client_report (split b' ' msg) behind

-- create_timer_cnt
unfoldable pub create_timer_cnt : ℕ → ℕ → ℕ
create_timer_cnt every concur = if every / concur == 0 then 1 else every / concur

-- The loop in a timer: what total_cnt is after it.
pub create_loop : ℕ → ℕ → ℕ → ℕ
create_loop zero total every = total
create_loop (suc n) total every =
    let further = create_loop n (total + 1) every in
    if leb every (total + 1) then total + 1 else further

-- So many timers, one after the other.
pub create_timers : ℕ → ℕ → ℕ → ℕ → ℕ
unfolding create_loop
create_timers zero concur total every = total
create_timers (suc k) concur total every =
    create_timers k concur (create_loop concur total every) every

-- The connections that a process of the client creates.
unfoldable pub created : ℕ → ℕ → ℕ
unfolding create_timers create_timer_cnt
created every concur = create_timers (create_timer_cnt every concur) concur 0 every

-- The port of the i-th connection of a timer.
unfoldable pub port_of : ℕ → ℕ → ℕ → ℕ
port_of begin_port end_port i =
    if begin_port == end_port
    then begin_port
    else (begin_port + i % (end_port - begin_port)) % 2 ^ 16

-- Whether the i-th timer of a heartbeat sends to the j-th connection.
unfoldable pub beats : ℕ → ℕ → ℕ → Bool
beats concur i j = leb (i * concur) j && ltb i concur

-- The heartbeats that the j-th connection of `size` is sent by the timers below `n`, where it is connected.
pub beats_below : ℕ → ℕ → ℕ → ℕ
unfolding beats
beats_below concur zero j = 0
beats_below concur (suc n) j = beats_below concur n j + (if beats concur n j then 1 else 0)

-- timer_cnt of a heartbeat
unfoldable pub heartbeat_timer_cnt : ℕ → ℕ → ℕ
heartbeat_timer_cnt size concur = max (size / concur) 1
