-- ===== src/Tests/Loops.antt =====
-- The loop of a base on a few rounds.
use handy.Base.{ℕ, ◌+◌, ◌^◌, true, false, [], ◌∷◌}
use handy.Base.Int.{pos}
use handy.Timers.{Timers}
use handy.EventLoop.Looping.{Base, Round}

-- A base with a connection that reconnects.
abbrev running_base : Base ℕ
running_base = record {
  others = 0;
  timers = record {
    exit = false;
    next_timeout = pos (2 ^ 30);
    timers = [];
    timer_reps = [];
    timer_seq = 0;
  };
  idle_conns = [];
  reconnecting = 7 ∷ [];
  cleaned = [];
  waits = [];
}

-- A round in which a callback calls exit, and one in which nothing happens.
abbrev exit_round : Round ℕ
exit_round = record {
  poll = λ b. record b { timers = record (b.timers) { exit = true } };
  now = 5;
  later = 6;
}

abbrev quiet_round : Round ℕ
quiet_round = record { poll = λ b. b; now = 7; later = 8 }

-- The base behind these two rounds.
abbrev exited_base : Base ℕ
exited_base = record running_base {
  timers = record (running_base.timers) { exit = true };
  waits = pos 10000 ∷ pos 10000 ∷ [];
}

-- A cleanup that adds up the numbers of the connections.
abbrev adding_up : ℕ → Base ℕ → Base ℕ
adding_up con b = record b { others = b.others + con }

abbrev none_acts : ℕ → Timers → Timers
none_acts t s = s
