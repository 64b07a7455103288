-- ===== src/Endian.antt =====
-- handy/port_posix.h: htobe on 16, 32 and 64 bits, which net::hton and net::ntoh (handy/net.h) both
-- call, and the bytes of an integer in memory. The host is little endian; the operands of `|` have
-- no bit in common there, so `|` is a sum.
use handy.Base.{ℕ, ◌+◌, ◌*◌, ◌/◌, ◌%◌, ◌^◌, ◌<◌, ◌≡◌, [], ◌∷◌, Bytes, arith}

-- The byte at pv[i] of an unsigned integer.
abbrev pub byte_at : ℕ → ℕ → ℕ
byte_at v i = v / 2 ^ (8 * i) % 256

unfoldable pub htobe16 : ℕ → ℕ
htobe16 v = byte_at v 0 * 2 ^ 8 + byte_at v 1

unfoldable pub htobe32 : ℕ → ℕ
htobe32 v = byte_at v 0 * 2 ^ 24 + byte_at v 1 * 2 ^ 16 + byte_at v 2 * 2 ^ 8 + byte_at v 3

unfoldable pub htobe64 : ℕ → ℕ
htobe64 v =
    byte_at v 0 * 2 ^ 56
    + byte_at v 1 * 2 ^ 48
    + byte_at v 2 * 2 ^ 40
    + byte_at v 3 * 2 ^ 32
    + byte_at v 4 * 2 ^ 24
    + byte_at v 5 * 2 ^ 16
    + byte_at v 6 * 2 ^ 8
    + byte_at v 7

-- The four bytes of an integer in memory, and the integer that four bytes in memory make.
unfoldable pub store32 : ℕ → Bytes
store32 v = byte_at v 0 ∷ byte_at v 1 ∷ byte_at v 2 ∷ byte_at v 3 ∷ []

unfoldable pub load32 : ℕ → ℕ → ℕ → ℕ → ℕ
load32 a b c d = a + b * 2 ^ 8 + c * 2 ^ 16 + d * 2 ^ 24

-- Converting twice gives the value back, at each width.
pub htobe32-htobe32 : (v : ℕ) → v < 2 ^ 32 → htobe32 (htobe32 v) ≡ v
unfolding htobe32
htobe32-htobe32 v h = omega arith

pub htobe_twice :
    (v : ℕ)
    → (v < 2 ^ 16 → htobe16 (htobe16 v) ≡ v)
      × (v < 2 ^ 32 → htobe32 (htobe32 v) ≡ v)
      × (v < 2 ^ 64 → htobe64 (htobe64 v) ≡ v)
unfolding htobe16 htobe64
htobe_twice v = (λ h. omega arith, htobe32-htobe32 v, λ h. omega arith)

-- What is stored in network order has the most significant byte first.
pub store32-htobe32 :
    (v : ℕ)
    → v < 2 ^ 32
    → store32 (htobe32 v) ≡ (v / 2 ^ 24) ∷ (v / 2 ^ 16 % 256) ∷ (v / 2 ^ 8 % 256) ∷ (v % 256) ∷ []
unfolding store32 htobe32
store32-htobe32 v h = ground arith

pub load32-store32 :
    (v : ℕ) → v < 2 ^ 32 → load32 (byte_at v 0) (byte_at v 1) (byte_at v 2) (byte_at v 3) ≡ v
unfolding load32
load32-store32 v h = omega arith

pub htobe32-lt : (v : ℕ) → htobe32 v < 2 ^ 32
unfolding htobe32
htobe32-lt v = omega arith
