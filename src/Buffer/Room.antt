-- ===== src/Buffer/Room.antt =====
-- `Buffer` of handy/net.h: what a caller may ask for, and the ways to make room.
use handy.Base.{ℕ, ◌+◌, ◌*◌, ◌≤◌, max, ◌≡◌, ◌∙◌, [], ◌++◌, arith, Bytes, length}
use handy.Buffer.{Buffer, size, contents, move_head, expand}
use handy.Buffer.Validity.{
  IsValid, limit, size-eq, length-contents, length-overwrite, contents-window, window_front,
}

-- The buffer may be asked for `len` more bytes and no size wraps.
pub record IsSmall (r : Buffer) (len : ℕ) : Type 0 where
  pub cap_small : r.cap ≤ limit
  pub exp_small : r.exp ≤ limit
  pub len_small : len ≤ limit

-- `t` is a valid buffer with the bytes of `r` and then `xs`; its capacity has grown no further than
-- the bytes that went through it allow.
pub record Appends (r : Buffer) (xs : Bytes) (t : Buffer) : Type 0 where
  pub valid : IsValid t
  pub holds : contents t ≡ contents r ++ xs
  pub exp_kept : t.exp ≡ r.exp
  pub growth : t.cap ≤ max r.cap (2 * r.exp + 4 * (r.e + length xs) + 2)
  pub end_le : t.e ≤ r.e + length xs

pub contents-none : (r : Buffer) → size r ≡ 0 → contents r ≡ []
unfolding contents
contents-none r h = rw h

-- `m` is a valid buffer with the bytes of `r`, room for `len` more, and a capacity that has grown
-- no further than to four times what is to be held.
pub record HasRoom (r : Buffer) (len : ℕ) (m : Buffer) : Type 0 where
  pub valid : IsValid m
  pub same : contents m ≡ contents r
  pub room : m.e + len ≤ m.cap
  pub exp_kept : m.exp ≡ r.exp
  pub growth : m.cap ≤ max r.cap (r.exp + 4 * (size r + len) + 2)
  pub end_le : m.e ≤ r.e

pub move_head-IsValid : (r : Buffer) → IsValid r → IsValid (move_head r)
unfolding move_head
move_head-IsValid r v = record {
  owned =
      length-overwrite r.cells (contents r) 0
        (omega (arith, length-contents r v, size-eq r v, v.owned))
      ∙ v.owned;
  ordered = omega arith;
  within = omega arith;
  bounded = v.bounded;
}

pub contents-move_head : (r : Buffer) → IsValid r → contents (move_head r) ≡ contents r
contents-move_head r v =
    contents-window (move_head r) (move_head-IsValid r v)
    ∙ (unfold move_head in
        window_front r.cells (contents r) _ (omega (arith, length-contents r v, size-eq r v)))

module _ (fresh : ℕ → Bytes) (fresh_length : (n : ℕ) → length (fresh n) ≡ n) where
  pub expand-IsValid :
      (r : Buffer) (len : ℕ) → IsValid r → IsSmall r len → IsValid (expand fresh r len)
  unfolding expand
  expand-IsValid r len v s = record {
    owned =
        length-overwrite (fresh ncap) (contents r) 0
          (omega (arith, length-contents r v, size-eq r v, fresh_length ncap))
        ∙ fresh_length ncap;
    ordered = omega arith;
    within = omega (arith, size-eq r v);
    bounded = omega (arith, size-eq r v);
  }
    where
      ncap : ℕ
      ncap = (expand fresh r len).cap

  pub contents-expand :
      (r : Buffer) (len : ℕ)
      → IsValid r
      → IsSmall r len
      → contents (expand fresh r len) ≡ contents r
  contents-expand r len v s =
      contents-window (expand fresh r len) (expand-IsValid r len v s)
      ∙ (unfold expand in
          window_front (fresh _) (contents r) _ (omega (arith, length-contents r v, size-eq r v)))
