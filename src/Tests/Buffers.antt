-- ===== src/Tests/Buffers.antt =====
-- Buffers, with a `new char[n]` that holds zeros.
use handy.Base.{
  ℕ, zero, suc, ◌+◌, ◌*◌, ◌^◌, ◌≤◌, ◌≡◌, refl, ap, List, [], ◌∷◌, arith, Bytes, length,
}
use handy.Buffer.{
  Buffer, new_buffer, size, space, contents, make_room, append, absorb, copy_from, overwrite,
  is_empty, write_end, set_suggest_size, add_size, alloc_room, make_room_suggested, receive,
}
use handy.Buffer.Validity.{IsValid}
use handy.Buffer.Room.{IsSmall}
use handy.Buffer.Refinement.{
  Call, appends, consumes, run_queue, traffic, run, Allowed, run-run_queue,
}

zeros : ℕ → Bytes
zeros zero = []
zeros (suc n) = 0 ∷ zeros n

length-zeros : (n : ℕ) → length (zeros n) ≡ n
unfolding zeros
length-zeros zero = refl
length-zeros (suc n) = ap suc (length-zeros n)

-- three bytes of four, with one consumed
abbrev partly : Buffer
partly = record { cells = 1 ∷ 2 ∷ 3 ∷ 4 ∷ []; b = 1; e = 3; cap = 4; exp = 512 }

abbrev other : Buffer
other = record { cells = 9 ∷ []; b = 0; e = 1; cap = 1; exp = 16 }

partly-IsValid : IsValid partly
partly-IsValid = record {
  owned = refl;
  ordered = omega arith;
  within = omega arith;
  bounded = omega arith;
}

other-IsValid : IsValid other
other-IsValid = record {
  owned = refl;
  ordered = omega arith;
  within = omega arith;
  bounded = omega arith;
}

partly-IsSmall : (n : ℕ) → n ≤ 2 ^ 62 → IsSmall partly n
partly-IsSmall n h = record {
  cap_small = omega arith;
  exp_small = omega arith;
  len_small = omega arith;
}

other_size : size other ≤ 2 ^ 62
unfolding size
other_size = omega arith

abbrev calls : List Call
calls = appends (1 ∷ 2 ∷ []) ∷ consumes 1 ∷ []

few : traffic calls ≤ 2 ^ 58
unfolding traffic
few = omega arith

one_held : 1 ≤ size (append zeros new_buffer (1 ∷ 2 ∷ []))
unfolding size append zeros make_room handy.Buffer.expand
one_held = omega arith

calls-Allowed : Allowed zeros new_buffer calls
unfolding Allowed
calls-Allowed = (one_held, tt)

run-run_queue_example :
    (contents (run zeros new_buffer calls) ≡ run_queue [] calls)
    × IsValid (run zeros new_buffer calls)
    × ((run zeros new_buffer calls).cap ≤ 4 * traffic calls + 1026)
run-run_queue_example = run-run_queue zeros length-zeros calls few calls-Allowed
