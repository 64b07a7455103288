-- ===== src/Daemon/Stopping.antt =====
-- handy/daemon.cc: stopping a daemon.
use handy.Base.{ℕ, zero, suc, ◌≡◌, true, false, List, [], ◌∷◌, arith, ltb, if◌then◌else◌}
use handy.Base.Int.{pos, negsuc}
use handy.Daemon.{Kill, killed, stop_loop, daemon_stop}

-- The process answers `n` kills and then is gone.
unfoldable pub lives : ℕ → List Kill
lives zero = []
lives (suc n) = killed ∷ lives n

stop_loop-lives :
    (rounds n : ℕ)
    → stop_loop rounds (lives n) ≡ (if ltb n rounds then (pos 0, true) else (negsuc 0, false))
unfolding stop_loop lives
stop_loop-lives zero n = ground arith
stop_loop-lives (suc rounds) zero = ground arith
stop_loop-lives (suc rounds) (suc n) = ground (arith, stop_loop-lives rounds n)

-- daemonStop on a process that answers n + 1 kills, the first of which is the one before the loop: it
-- returns 0, and removes the pid file, exactly where n is below 300; where the process is still
-- there after 300 more kills it returns -1 and leaves the file.
pub daemon_stop-lives :
    (pid n : ℕ)
    → daemon_stop (pos (suc pid)) (lives (suc n))
      ≡ (if ltb n 300 then (pos 0, true) else (negsuc 0, false))
unfolding daemon_stop lives
daemon_stop-lives pid n = stop_loop-lives 300 n
