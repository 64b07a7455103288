-- ===== src/Base/Int.antt =====
-- int: 32-bit two's complement, as the number that it stands for.
use handy.Base.{
  refl, ℕ, ◌+◌, ◌-◌, ◌%◌, ◌^◌, ◌<◌, ◌≡◌, Bool, true, false, ltb, leb, if◌then◌else◌, arith,
}
use handy.Base.Sizes.{size_mod}

-- `negsuc n` is -(n + 1).
pub data ℤ : Type 0 where
  pos : ℕ → ℤ
  negsuc : ℕ → ℤ

-- a - b
abbrev pub sub_ℕ : ℕ → ℕ → ℤ
sub_ℕ a b = if leb b a then pos (a - b) else negsuc (b - a - 1)

infixl 65 ◌+ℤ◌
abbrev pub ◌+ℤ◌ : ℤ → ℤ → ℤ
pos a +ℤ pos b = pos (a + b)
pos a +ℤ negsuc b = sub_ℕ a (b + 1)
negsuc a +ℤ pos b = sub_ℕ b (a + 1)
negsuc a +ℤ negsuc b = negsuc (a + b + 1)

abbrev pub leb_ℤ : ℤ → ℤ → Bool
leb_ℤ (pos a) (pos b) = leb a b
leb_ℤ (pos a) (negsuc b) = false
leb_ℤ (negsuc a) (pos b) = true
leb_ℤ (negsuc a) (negsuc b) = leb b a

-- (int) of an unsigned number
unfoldable pub as_int : ℕ → ℤ
as_int w = let v = w % 2 ^ 32 in if ltb v (2 ^ 31) then pos v else negsuc (2 ^ 32 - v - 1)

-- (size_t) of an int
unfoldable pub as_size_t : ℤ → ℕ
as_size_t (pos n) = n
as_size_t (negsuc n) = size_mod - (n + 1)

pub as_int_small : (w : ℕ) → w < 2 ^ 31 → as_int w ≡ pos w
unfolding as_int
as_int_small w h = ground arith

pub as_size_t-negsuc : (n : ℕ) → as_size_t (negsuc n) ≡ size_mod - (n + 1)
unfolding as_size_t
as_size_t-negsuc n = refl
