-- ===== src/Buffer/Refinement.antt =====
-- A buffer is a queue of bytes: whatever a connection does with one, its contents are those of the
-- plain list.
use handy.Base.{
  ℕ, ◌+◌, ◌*◌, ◌^◌, ◌≤◌, ◌≡◌, List, [], ◌∷◌, ◌++◌, Bytes, length, drop, arith, refl, ◌∙◌, ap,
}
use handy.Buffer.{
  Buffer, size, space, contents, consume, make_room_suggested, append, receive, new_buffer,
}
use handy.Buffer.Validity.{IsValid}
use handy.Buffer.Room.{IsSmall, Appends, contents-none}
use handy.Buffer.Consuming.{consume_lem, consume_shrinks}
use handy.Buffer.Contents.{append-Appends, receive-Appends}

pub data Call : Type 0 where
  appends receives : Bytes → Call
  consumes : ℕ → Call

pub run_queue : Bytes → List Call → Bytes
run_queue q [] = q
run_queue q (appends xs ∷ cs) = run_queue (q ++ xs) cs
run_queue q (receives xs ∷ cs) = run_queue (q ++ xs) cs
run_queue q (consumes n ∷ cs) = run_queue (drop n q) cs

-- The bytes that go in.
unfoldable pub traffic : List Call → ℕ
traffic [] = 0
traffic (appends xs ∷ cs) = length xs + traffic cs
traffic (receives xs ∷ cs) = length xs + traffic cs
traffic (consumes n ∷ cs) = traffic cs

module _ (fresh : ℕ → Bytes) where
  pub run : Buffer → List Call → Buffer
  run r [] = r
  run r (appends xs ∷ cs) = run (append fresh r xs) cs
  run r (receives xs ∷ cs) = run (receive fresh r xs) cs
  run r (consumes n ∷ cs) = run (consume r n) cs

  -- What the callers see to: a read gives at most space() bytes, and no more is consumed than is
  -- held.
  unfoldable pub Allowed : Buffer → List Call → Type 0
  Allowed r [] = Unit
  Allowed r (appends xs ∷ cs) = Allowed (append fresh r xs) cs
  Allowed r (receives xs ∷ cs) =
      (length xs ≤ space (make_room_suggested fresh r)) × Allowed (receive fresh r xs) cs
  Allowed r (consumes n ∷ cs) = (n ≤ size r) × Allowed (consume r n) cs

-- With `total` bytes in so far, the end and the capacity are bounded.
record Bounds (total : ℕ) (r : Buffer) : Type 0 where
  valid : IsValid r
  exp_kept : r.exp ≡ 512
  end_bound : r.e ≤ total
  cap_bound : r.cap ≤ 4 * total + 2 * r.exp + 2

Appends-Bounds :
    (total : ℕ) (r t : Buffer) (xs : Bytes)
    → Appends r xs t
    → Bounds total r
    → Bounds (total + length xs) t
Appends-Bounds total r t xs a g = record {
  valid = a.valid;
  exp_kept = omega arith;
  end_bound = omega arith;
  cap_bound = omega arith;
}

consume-Bounds :
    (total : ℕ) (r : Buffer) (n : ℕ) → n ≤ size r → Bounds total r → Bounds total (consume r n)
consume-Bounds total r n h g =
    let s = consume_shrinks r n g.valid h in
    record {
      valid = (consume_lem r n g.valid h).0;
      exp_kept = omega arith;
      end_bound = omega arith;
      cap_bound = omega arith;
    }

Bounds-IsSmall :
    (total len : ℕ) (r : Buffer) → total + len ≤ 2 ^ 58 → Bounds total r → IsSmall r len
Bounds-IsSmall total len r h g = record {
  cap_small = omega arith;
  exp_small = omega arith;
  len_small = omega arith;
}

module _ (fresh : ℕ → Bytes) (fresh_length : (n : ℕ) → length (fresh n) ≡ n) where
  run-Bounds :
      (cs : List Call) (r : Buffer) (total : ℕ)
      → Bounds total r
      → total + traffic cs ≤ 2 ^ 58
      → Allowed fresh r cs
      → (contents (run fresh r cs) ≡ run_queue (contents r) cs)
        × Bounds (total + traffic cs) (run fresh r cs)
  unfolding run run_queue traffic Allowed
  run-Bounds [] r total g h a = (refl, let e : total + 0 ≡ total = omega arith in rw e g)
  run-Bounds (appends xs ∷ cs) r total g h a =
      let p =
        append-Appends fresh fresh_length r xs g.valid
          (Bounds-IsSmall total (length xs) r (omega arith) g) in
      let rest =
        run-Bounds cs (append fresh r xs) (total + length xs) (Appends-Bounds total r _ xs p g)
          (omega arith) a in
      let e : total + (length xs + traffic cs) ≡ total + length xs + traffic cs = omega arith in
      (rest.0 ∙ ap (λ q. run_queue q cs) p.holds, rw e rest.1)
  run-Bounds (receives xs ∷ cs) r total g h a =
      let p =
        receive-Appends fresh fresh_length r xs g.valid (Bounds-IsSmall total 0 r (omega arith) g)
          a.0 in
      let rest =
        run-Bounds cs (receive fresh r xs) (total + length xs) (Appends-Bounds total r _ xs p g)
          (omega arith) a.1 in
      let e : total + (length xs + traffic cs) ≡ total + length xs + traffic cs = omega arith in
      (rest.0 ∙ ap (λ q. run_queue q cs) p.holds, rw e rest.1)
  run-Bounds (consumes n ∷ cs) r total g h a =
      let rest = run-Bounds cs (consume r n) total (consume-Bounds total r n a.0 g) h a.1 in
      (rest.0 ∙ ap (λ q. run_queue q cs) (consume_lem r n g.valid a.0).1, rest.1)

  -- Any sequence of appends, reads into the free room and consumes that puts at most 2 ^ 58 bytes
  -- into a new buffer leaves the bytes that the same calls leave in a plain list; the buffer stays
  -- valid, and its capacity is at most four times the bytes that went in, and 1026.
  pub run-run_queue :
      (cs : List Call)
      → traffic cs ≤ 2 ^ 58
      → Allowed fresh new_buffer cs
      → (contents (run fresh new_buffer cs) ≡ run_queue [] cs)
        × IsValid (run fresh new_buffer cs)
        × ((run fresh new_buffer cs).cap ≤ 4 * traffic cs + 1026)
  run-run_queue cs h a =
      let r = run-Bounds cs new_buffer 0 start (omega arith) a in
      (
        r.0 ∙ ap (λ q. run_queue q cs) (contents-none new_buffer (unfold size in refl)),
        r.1.valid,
        omega (arith, r.1.exp_kept, r.1.cap_bound),
      )
    where
      start : Bounds 0 new_buffer
      start = record {
        valid = record {
          owned = refl;
          ordered = omega arith;
          within = omega arith;
          bounded = omega arith;
        };
        exp_kept = omega arith;
        end_bound = omega arith;
        cap_bound = omega arith;
      }
