-- ===== src/EventLoop/Looping.antt =====
-- handy/event_base.cc: loop and loop_once of EventsImp, which put the poller, the timers and the idle
-- connections together. What poller_->loop_once does with the callbacks of the channels is a function on
-- the base, one for each round, and so is the clock.
use mathlib.Core.Option
use handy.Base.{ℕ, ◌≡◌, true, false, Option, none, some, List, [], ◌∷◌, ◌++◌, if◌then◌else◌}
use handy.Base.Int.{ℤ, pos}
use handy.Timers.{Key, Timers, handle_timeouts}
use handy.Idle.{IdleConns}
use handy.EventLoop.{wait_time}

-- EventsImp; exit_ and nextTimeout_ are among the timers. `reconnecting` is reconnectConns_, `cleaned`
-- the connections whose cleanup the loop has called, `waits` the times it has waited in the poller.
pub record Base {ℓ} (P : Type ℓ) : Type ℓ where
  pub others : P
  pub timers : Timers
  pub idle_conns : IdleConns
  pub reconnecting : List ℕ
  pub cleaned : List ℕ
  pub waits : List ℤ

-- A call of loop_once: what the poller's loop does, and the clock before and while the timers run.
pub record Round {ℓ} (P : Type ℓ) : Type ℓ where
  pub poll : Base P → Base P
  pub now : ℕ
  pub later : ℕ

-- What cleanup of a connection does to the base is a function too.
module _ {ℓ} {P : Type ℓ} (cleanup : ℕ → Base P → Base P) where
  -- for (auto recon : reconnectConns_) recon->cleanup(recon)
  unfoldable pub clean_each : List ℕ → Base P → Base P
  clean_each [] b = b
  clean_each (con ∷ cons) b =
      clean_each cons (cleanup con (record b { cleaned = b.cleaned ++ con ∷ [] }))

  -- loop, behind its while: everything is let go
  unfoldable pub let_all_go : Base P → Base P
  unfolding clean_each
  let_all_go b =
      clean_each b.reconnecting
        (record b { timers = record (b.timers) { timers = []; timer_reps = [] }; idle_conns = [] })

module _ {ℓ} {P : Type ℓ} (cleanup : ℕ → Base P → Base P) (act : ℕ → Timers → Timers)
    (fuel : ℕ) where
  -- handleTimeouts on the timers of the base
  unfoldable pub run_timers : ℕ → ℕ → Base P → Option (Base P)
  unfolding handle_timeouts
  run_timers now later b =
      Option.map (λ (r : List Key × Timers). record b { timers = r.1 })
        (handle_timeouts act fuel now later b.timers)

  unfoldable pub loop_once : ℤ → Round P → Base P → Option (Base P)
  unfolding run_timers wait_time
  loop_once wait_ms r b =
      run_timers r.now r.later
        (r.poll (record b { waits = b.waits ++ wait_time wait_ms b.timers.next_timeout ∷ [] }))

  -- What follows a round; `again` is the loop.
  unfoldable pub after_round : (Base P → Option (Base P)) → Option (Base P) → Option (Base P)
  after_round again none = none
  after_round again (some b) = again b

  -- loop, on the rounds that come; `none` where it still runs after them
  unfoldable pub loop : List (Round P) → Round P → Base P → Option (Base P)
  unfolding loop_once let_all_go after_round
  loop [] last b = if b.timers.exit then loop_once (pos 0) last (let_all_go cleanup b) else none
  loop (r ∷ rounds) last b =
      let further = after_round (loop rounds last) (loop_once (pos 10000) r b) in
      if b.timers.exit then loop_once (pos 0) last (let_all_go cleanup b) else further

  -- The loop has run these rounds, and exit_ was not set before any of them.
  pub data Runs : List (Round P) → Base P → Base P → Type ℓ where
    rests : {b : Base P} → Runs [] b b
    goes :
        {r : Round P} {rounds : List (Round P)} {b c d : Base P}
        → b.timers.exit ≡ false
        → loop_once (pos 10000) r b ≡ some c
        → Runs rounds c d
        → Runs (r ∷ rounds) b d

module _ {ℓ} {P : Type ℓ} where
  -- A base that is told to exit and has no timer, and the connections that it has cleaned up.
  pub record IsDone (cons : List ℕ) (b : Base P) : Type ℓ where
    pub told : b.timers.exit ≡ true
    pub no_timer : b.timers.timers ≡ []
    pub cleaned_up : b.cleaned ≡ cons

  -- What sets no timer on a base that is told to exit, as runAt does not, and leaves exit_.
  unfoldable pub SetsNone : (Base P → Base P) → Type ℓ
  SetsNone f = (cons : List ℕ) (b : Base P) → IsDone cons b → IsDone cons (f b)
