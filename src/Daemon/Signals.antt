-- ===== src/Daemon/Signals.antt =====
-- handy/daemon.cc: changeTo, and the table of signal handlers.
use handy.Base.{
  ℕ, ◌≡◌, Bool, true, false, Option, none, some, List, [], ◌∷◌, arith, ◌==◌, if◌then◌else◌,
}
use handy.Daemon.{Kill, killed, not_permitted, no_process, Fork, fork_fails, is_parent, is_child}

-- What becomes of a process in changeTo.
pub data Change : Type 0 where
  goes_on : Change
  leaves : ℕ → Change
  becomes_other : Change

-- execvp; it returns where it fails
abbrev pub exec : Bool → Change
exec true = becomes_other
exec false = goes_on

-- The wait of the child, of what kill answers, and what follows it; behind the answers that are given
-- the parent is gone.
unfoldable pub wait_for_parent : Bool → List Kill → Change
wait_for_parent execs [] = exec execs
wait_for_parent execs (killed ∷ answers) = wait_for_parent execs answers
wait_for_parent execs (not_permitted ∷ answers) = leaves 1
wait_for_parent execs (no_process ∷ answers) = exec execs

-- changeTo: what fork gives, what the kills answer, and whether execvp works
unfoldable pub change_to : Fork → List Kill → Bool → Change
unfolding wait_for_parent
change_to fork_fails answers execs = goes_on
change_to is_parent answers execs = goes_on
change_to is_child answers execs = wait_for_parent execs answers

module _ {ℓ} {H : Type ℓ} where
  -- handlers[sig] = handler
  unfoldable pub set_handler : ℕ → H → List (ℕ × H) → List (ℕ × H)
  set_handler sig h [] = (sig, h) ∷ []
  set_handler sig h ((s, g) ∷ rest) =
      let later = set_handler sig h rest in if s == sig then (s, h) ∷ rest else (s, g) ∷ later

  -- handlers[sig], which signal_handler calls: `none` is an empty function
  unfoldable pub handler_of : ℕ → List (ℕ × H) → Option H
  handler_of sig [] = none
  handler_of sig ((s, g) ∷ rest) = if s == sig then some g else handler_of sig rest

  -- Signal::signal sets the handler of this signal and leaves those of the others.
  pub handler_of-set :
      (sig other : ℕ) (h : H) (table : List (ℕ × H))
      → handler_of other (set_handler sig h table)
        ≡ (if other == sig then some h else handler_of other table)
  unfolding handler_of set_handler
  handler_of-set sig other h [] = ground arith
  handler_of-set sig other h ((s, g) ∷ rest) = ground (arith, handler_of-set sig other h rest)
