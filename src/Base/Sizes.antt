-- ===== src/Base/Sizes.antt =====
-- size_t: 64-bit unsigned arithmetic, as on the platforms that the code supports.
use Prim.Native.Nat.{ℕ, ◌+◌, ◌-◌, ◌*◌, ◌%◌, ◌^◌}

abbrev pub size_mod : ℕ
size_mod = 2 ^ 64

abbrev pub add_size_t : ℕ → ℕ → ℕ
add_size_t a b = (a + b) % size_mod

abbrev pub sub_size_t : ℕ → ℕ → ℕ
sub_size_t a b = (a + size_mod - b) % size_mod

abbrev pub mul_size_t : ℕ → ℕ → ℕ
mul_size_t a b = (a * b) % size_mod
