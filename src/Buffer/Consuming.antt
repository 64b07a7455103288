-- ===== src/Buffer/Consuming.antt =====
-- `Buffer` of handy/net.h: what clear and consume leave.
use handy.Base.{
  ℕ, ◌+◌, ◌≤◌, ◌≡◌, inl, inr, refl, sym, ap, ◌∙◌, [], arith, ◌==◌, Bool-cases, drop, drop-all,
}
use handy.Base.Sizes.{add_size_t}
use handy.Buffer.{Buffer, size, contents, clear, consume}
use handy.Buffer.Validity.{IsValid, size-eq, length-contents, contents-window, window, drop-window}

-- clear() leaves an empty buffer.
pub clear_lem : (r : Buffer) → IsValid (clear r) × (contents (clear r) ≡ [])
unfolding clear contents
clear_lem r = (
  record { owned = refl; ordered = omega arith; within = omega arith; bounded = omega arith },
  refl,
)

-- consume(len) drops the first `len` bytes held; the array is freed when none is left.
pub consume_lem :
    (r : Buffer) (len : ℕ)
    → IsValid r
    → len ≤ size r
    → IsValid (consume r len) × (contents (consume r len) ≡ drop len (contents r))
unfolding consume
consume_lem r len v h = elim (Bool-cases (size c == 0)) [
  | inl none_left ↦
      rw (none_left, consume)
        (
          (clear_lem c).0,
          (clear_lem c).1
              ∙ sym (
                  drop-all len (contents r)
                    (ground (arith, size-eq c valid, size-eq r v, length-contents r v))),
        )
  | inr left ↦
      rw (left, consume)
        (
          valid,
          contents-window c valid
              ∙ ap (λ k. window r.cells k r.e) moved
              ∙ sym (drop-window r.cells len r.b r.e (omega (arith, size-eq r v)))
              ∙ ap (drop len) (sym (contents-window r v)),
        )
]
  where
    c : Buffer
    c = record r { b = add_size_t r.b len }

    moved : c.b ≡ r.b + len
    moved = omega (arith, size-eq r v)

    valid : IsValid c
    valid = record {
      owned = v.owned;
      ordered = omega (arith, size-eq r v);
      within = v.within;
      bounded = v.bounded;
    }

-- Consuming never grows the array.
pub consume_shrinks :
    (r : Buffer) (len : ℕ)
    → IsValid r
    → len ≤ size r
    → ((consume r len).exp ≡ r.exp) × ((consume r len).e ≤ r.e) × ((consume r len).cap ≤ r.cap)
unfolding consume clear
consume_shrinks r len v h = ground arith
