-- ===== src/Tests/Servers.antt =====
-- A server with worker threads, accepting, and a connection's life on small inputs.
use handy.EventLoop.{wakeup, read_pipe, post}
use mathlib.Core.Option
use handy.Base.{
  ℕ, ◌+◌, ◌≤◌, ◌≡◌, refl, Bool, true, false, none, some, List, [], ◌∷◌, ◌++◌, arith, ◌==◌, Bytes,
  codes, length, ◌⊎◌,
}
use handy.Base.Int.{pos}
use handy.Base.Counts.{count}
use handy.EventLoop.Wakeup.{Waking, posted, weight, posted-IsAwake, popped, Turn, runs, ends}
use handy.EventLoop.Settling.{Turns, IsResting, settles, turn}
use handy.Hsha.{
  Request, Reply, Hsha, start, on_msg, exit_pool, msg_calls, starts, works, takes, Steps, done,
  step, Work,
}
use handy.Hsha.Answers.{count_requests, count_all, Steps-count}
use handy.Hsha.Order.{answers, Steps-msg_calls}
use handy.Hsha.Progress.{Works, weight_all, IsSettled, answers_all}
use handy.Server.{Accept, new_server, bind_fails, start_server, add_con, handle_accept}
use handy.Server.Accepting.{good, bad, deal, of_base, of_others, handle_accept_lem}
use handy.Conn.{Conn, State, Target}
use handy.Conn.Lifecycle.{new_conn, connect, time_out, connect_again, add_idle_cb}
use handy.Conn.Stages.{IsStaged, IsTame}
use handy.Conn.Moves.{
  Moves, no_move, move, connects, sets_callbacks, sets_reconnect, times_out, Moves-IsStaged,
}

-- the answer is the input behind an exclamation mark
shout : ℕ → Bytes → Bytes
shout peer input = b'!' ∷ input

abbrev hello : Request ℕ
hello = record { peer = 7; input = b'h' ∷ [] }

abbrev again : Request ℕ
again = record { peer = 7; input = b'a' ∷ [] }

abbrev asked : Hsha ℕ
asked = on_msg again (on_msg hello (start 1 0))

asked_steps : Steps shout (start 1 0) asked
unfolding on_msg start
asked_steps = step (step done (takes hello refl)) (takes again refl)

abbrev started : Hsha ℕ
started = record asked {
  pool = record { items = again ∷ []; capacity = 0; exit = false };
  working = hello ∷ [];
}

started_steps : Steps shout (start 1 0) started
unfolding handy.SafeQueue.pop_wait on_msg start
started_steps = step asked_steps (
    works (
      starts hello (record { items = again ∷ []; capacity = 0; exit = false })
        (unfold on_msg start in omega arith) (unfold on_msg start in refl)))

Steps-count_example :
    count_requests shout (λ r. r.peer == 7) started.accepted
    ≡ count_all shout (λ r. r.peer == 7) started
Steps-count_example = Steps-count shout (λ r. r.peer == 7) 1 0 started started_steps

Steps-msg_calls_example :
    msg_calls (answers shout started.accepted)
    ≡ msg_calls started.loop.ran
      ++ msg_calls (
          started.loop.loop.tasks.items
          ++ (answers shout started.working ++ answers shout started.pool.items))
Steps-msg_calls_example = Steps-msg_calls shout started started_steps

answers_all_example :
    (0 + weight_all started ≤ weight_all started)
    × (((v : Hsha ℕ) × Work shout started v)
        ⊎ (IsSettled started
            × ((p : Reply ℕ → Bool)
                → count_requests shout p started.accepted
                  ≡ count p started.loop.ran + count p started.refused)))
answers_all_example =
    answers_all shout 1 0 (omega arith) started_steps refl (Works.stay {s = started})

pool_exits : (exit_pool asked).pool.exit ≡ true
unfolding exit_pool
pool_exits = refl

abbrev sleeping : Waking ℕ
sleeping = record {
  loop = record {
    tasks = record { items = []; capacity = 0; exit = false };
    pipe = 0;
    exit = false;
    poller_exited = false;
  };
  writing = 0;
  draining = false;
  ran = [];
}

-- behind the four turns that a posted task takes
abbrev rested : Waking ℕ
rested = record sleeping { ran = 5 ∷ [] }

settling_run : Turns (posted 5 sleeping) 4 rested
unfolding posted popped handy.SafeQueue.pop_wait wakeup read_pipe post
    handy.EventLoop.Wakeup.with_tasks
settling_run = turn (Turn.writes 0 refl) (
    turn (Turn.reads refl (omega arith)) (
      turn (Turn.runs 5 (record (sleeping.loop.tasks) { items = [] }) refl refl)
        (turn (Turn.ends (sleeping.loop.tasks) refl refl) Turns.stay)))

settles_example :
    (4 + weight rested ≤ weight (posted 5 sleeping))
    × (((u : Waking ℕ) × Turn rested u)
        ⊎ (IsResting rested
            × (rested.ran ≡ (posted 5 sleeping).ran ++ (posted 5 sleeping).loop.tasks.items)))
settles_example = settles settling_run (posted-IsAwake 5 sleeping)

abbrev accepts : List Accept
accepts =
    record { fd = 4; has_peer = true; has_local = true }
    ∷ record { fd = 5; has_peer = false; has_local = true }
    ∷ record { fd = 6; has_peer = true; has_local = true }
    ∷ []

handle_accept_lem_example : handle_accept accepts (new_server 2 0) ≡ record (new_server 2 0) {
  id = (new_server 2 0).id + length (good accepts);
  attached =
      (new_server 2 0).attached
      ++ of_base (new_server 2 0).base (deal 2 (new_server 2 0).id (good accepts));
  posted =
      (new_server 2 0).posted
      ++ of_others (new_server 2 0).base (deal 2 (new_server 2 0).id (good accepts));
  passed_over = (new_server 2 0).passed_over ++ bad accepts;
}
unfolding new_server
handle_accept_lem_example = handle_accept_lem accepts (new_server 2 0) (omega arith)

accepted_in_turn :
    ((handle_accept accepts (new_server 2 0)).posted ≡ (4, 1) ∷ [])
    × ((handle_accept accepts (new_server 2 0)).attached ≡ (6, 0) ∷ [])
    × ((handle_accept accepts (new_server 2 0)).passed_over ≡ 5 ∷ [])
unfolding handle_accept new_server
accepted_in_turn = (refl, refl, refl)

no_server : start_server 1 0 (bind_fails 98) ≡ none
unfolding start_server
no_server = refl

con_added : Option.map (λ (c : Conn). c.state) (add_con (new_server 1 0)) ≡ some State.handshaking
unfolding add_con new_server new_conn
con_added = refl

same : Conn → Conn
same c = c

same-IsTame : IsTame same same same
unfolding same
same-IsTame = record {
  read_stays = λ c h. h;
  writable_stays = λ c h. h;
  state_stays = λ c h. h;
  state_ends = λ c h. h;
}

abbrev target : Target
target = record { host = codes "localhost"; port = pos 80; timeout = pos 100; local_ip = [] }

abbrev begun : Conn
begun = elim (connect same same same target true new_conn) [ none ↦ new_conn | some c ↦ c ]

begun_history : Moves same same same new_conn begun
unfolding connect new_conn same
begun_history = move no_move (connects target true begun refl)

-- a connection with a callback for its state that reconnects, up to the end of its first attempt
abbrev retrying : Conn
retrying = record new_conn { has_state = true; reconnect_interval = pos 50 }

abbrev first_try : Conn
first_try = elim (connect same same same target true retrying) [ none ↦ new_conn | some c ↦ c ]

abbrev gone : Conn
gone = time_out same same same first_try

gone_history : Moves same same same new_conn gone
unfolding connect new_conn same
gone_history =
    move
      (move (move (move no_move (sets_callbacks false false true)) (sets_reconnect (pos 50)))
        (connects target true first_try refl))
      times_out

Moves-IsStaged_example : IsStaged gone
Moves-IsStaged_example = Moves-IsStaged same same same same-IsTame gone_history

no_port : connect same same same (record target { port = pos 0 }) true new_conn ≡ none
unfolding connect new_conn
no_port = refl

timed_out : (time_out same same same begun).state ≡ State.failed
unfolding time_out connect new_conn same
timed_out = refl

not_twice : connect_again same same same true begun ≡ none
unfolding connect_again connect new_conn same
not_twice = refl

no_idle_cb : add_idle_cb new_conn ≡ new_conn
unfolding add_idle_cb new_conn
no_idle_cb = refl
