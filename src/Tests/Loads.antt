-- ===== src/Tests/Loads.antt =====
-- The load test, the server over epoll, the pollers and the numbers of a configuration on small inputs.
use handy.Base.{
  ◌-◌, ◌%◌, ◌^◌, ◌≡◌, refl, true, false, none, some, List, [], ◌∷◌, arith, ltb, if◌then◌else◌,
  codes, same_bytes, Bool, ℕ, ◌==◌, Option, not, ◌||◌, ◌&&◌,
}
use handy.Base.Int.{pos, negsuc}
use handy.Conf.{Values, get}
use handy.Conf.Integers.{get_integer, strtol}
use handy.Conf.Printed.{IsLong, get_integer-show}
use handy.Http.Request.{show_int}
use handy.Load.{show_server_report, on_server_report, created, port_of}
use handy.Load.Reports.{on_server_report-show}
use handy.Load.Creating.{created_lem}
use handy.Poller.{Events, Entry, Poller, remove_channel, dispatch}
use handy.Poller.Delivery.{Distinct}
use handy.Poller.Removal.{calls_of, remove_channel-calls, remove_channel-KeepsAway}
use handy.Kqueue.{Kqueue, FilterChange}
use handy.RawEpoll.{
  Event, readable, writable, blocks, breaks, new_peer, run, handle, read_round, send_res,
  handle_read, is_request, con_of, new_con, loop_ended, stopped, write_loop, read_loop,
}
use handy.RawEpoll.Responses.{IsWhole}
use handy.RawEpoll.Runs.{run-IsWhole, MayRun}

-- Hexadecimal, octal, a bound and no number at all.
four_numbers :
    (strtol (codes " -0x1F") ≡ some (negsuc 30))
    × ((strtol (codes "017") ≡ some (pos 15))
        × ((strtol (codes "9223372036854775808") ≡ some (pos (2 ^ 63 - 1)))
            × (strtol (codes "x") ≡ none)))
unfolding strtol
four_numbers = (refl, (refl, (refl, refl)))

abbrev values : Values
values = (codes "s.n", codes "-12" ∷ []) ∷ []

get_integer-show_example : get_integer values (codes "S") (codes "N") (pos 5) ≡ negsuc 11
unfolding same_bytes
get_integer-show_example =
    get_integer-show (negsuc 11) values (codes "S") (codes "N") (pos 5)
      (unfold IsLong in omega arith) (unfold get in unfold show_int in refl)

on_server_report-show_example :
    on_server_report (show_server_report (pos 12) (pos 3) (pos 4) (pos 50)) (codes "\r\n")
    ≡ some (pos 12, record { connected = 3; closed = 4; recved = 50 })
on_server_report-show_example =
    on_server_report-show 12 3 4 50 (codes "\r\n") (omega arith) (omega arith) (omega arith)
      (omega arith) refl

created_lem_example : created 2500 1000 ≡ (if ltb 2500 1000 then 2500 else 2500 - 2500 % 1000)
created_lem_example = created_lem 2500 1000 (omega arith) (omega arith)

-- The last port is never used.
two_ports : (port_of 9500 9502 1 ≡ 9501) × (port_of 9500 9502 2 ≡ 9500)
unfolding port_of
two_ports = (refl, refl)

abbrev readable_events : Events
readable_events = record { reads = true; writes = false; fails = false }

-- Two channels are readable.
abbrev two_ready : Poller
two_ready = record {
  live = 1 ∷ 2 ∷ [];
  watched = (1, readable_events) ∷ (2, readable_events) ∷ [];
  active = (some 1, readable_events) ∷ (some 2, readable_events) ∷ [];
  exited = false;
  calls = [];
}

remove_channel-calls_example :
    calls_of 2
      (dispatch
        (λ c p. remove_channel c p)
        (λ c p. remove_channel c p)
        2
        (remove_channel 2 two_ready)).calls
    ≡ 0
unfolding handy.Poller.Delivery.Forgets calls_of
remove_channel-calls_example =
    remove_channel-calls 2 2 (λ c p. remove_channel c p) (λ c p. remove_channel c p) two_ready
      (remove_channel-KeepsAway 2 (λ c. c)) (remove_channel-KeepsAway 2 (λ c. c))
      (unfold Distinct in ((refl, tt), (tt, tt)))

-- A kernel that is known by the filters that are registered, and takes every filter.
set_filter : FilterChange → (ℕ → Bool → Bool) → ℕ → Bool → Bool
set_filter c f fd true = if fd == c.ident && c.is_write then c.adds else f fd true
set_filter c f fd false = if fd == c.ident && not c.is_write then c.adds else f fd false

takes_change : FilterChange → (ℕ → Bool → Bool) → Bool
takes_change c f = c.adds || f c.ident c.is_write

small_kernel : (ℕ → Bool → Bool) → List FilterChange → Option (ℕ → Bool → Bool)
unfolding takes_change set_filter
small_kernel f [] = some f
small_kernel f (c ∷ cs) =
    let later = small_kernel (set_filter c f) cs in if takes_change c f then later else none

-- One channel that wants to be read, where the filter for writing is registered too.
abbrev watching : Kqueue (ℕ → Bool → Bool)
watching = record {
  live = 1 ∷ [];
  kernel = λ fd w. fd == 1;
  reads = λ c. true;
  writes = λ c. false;
  active = [];
  calls = [];
}

-- A request in two pieces, a response of four bytes in three, and an error.
abbrev events : List Event
events =
    readable
      (record { bytes = codes "GET"; counts = []; last = blocks }
        ∷ record { bytes = codes " /\n\n"; counts = 1 ∷ []; last = blocks }
        ∷ [])
      true
    ∷ writable (2 ∷ []) blocks
    ∷ writable [] breaks
    ∷ []

events-MayRun : MayRun (5 ∷ 6 ∷ 7 ∷ 8 ∷ []) events new_peer
unfolding handle read_round send_res handle_read new_peer is_request con_of new_con same_bytes
    loop_ended stopped write_loop read_loop
events-MayRun = ((tt, ((omega arith, tt), tt)), ((omega arith, tt), (tt, tt)))

run-IsWhole_example : IsWhole (5 ∷ 6 ∷ 7 ∷ 8 ∷ []) (run (5 ∷ 6 ∷ 7 ∷ 8 ∷ []) events new_peer)
run-IsWhole_example = run-IsWhole (5 ∷ 6 ∷ 7 ∷ 8 ∷ []) events (omega arith) events-MayRun

sent_three : (run (5 ∷ 6 ∷ 7 ∷ 8 ∷ []) events new_peer).sent ≡ 5 ∷ 6 ∷ 7 ∷ []
unfolding run new_peer
sent_three = refl
