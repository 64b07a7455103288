-- ===== src/Status.antt =====
-- handy/status.h: `Status`, a code with a message in one block of bytes. A block is what `new char[]`
-- gave and what was written to it; a number in it is four bytes, the lowest first, as in memory.
pub mod Copies
use mathlib.Core.Option
use mathlib.Core.Path.{ap₂}
use handy.Base.{
  ℕ, zero, suc, ◌+◌, ◌-◌, ◌*◌, ◌/◌, ◌%◌, ◌^◌, ◌≤◌, ◌<◌, min, max, ◌≡◌, ◌≢◌, ◌↔◌, ◌⊎◌, inl, inr,
  refl, sym, ap, ◌∙◌, subst, Bool, true, false, not, ◌&&◌, ◌||◌, Option, none, some, List, [], ◌∷◌,
  ◌++◌, map, reverse, append-nil, append_assoc, arith, ltb, leb, ◌==◌, if◌then◌else◌, ltb→lt,
  lt→ltb, leb→le, ==_iff, ==_self, Bool-cases, ℕ-cases, List-cases, Option-cases, if_cases, Bytes,
  codes, length, take, drop, get_elem?, All, length-append, length-take, length-drop,
  take-append-drop, take-all, drop-all, take-append, drop-append, take-append_le, drop-append_le,
  take-append_ge, drop-drop, take-drop, same_bytes, same_bytes_iff,
}
use handy.Endian.{store32, load32}
use handy.Base.Int.{ℤ, pos, negsuc, as_int}

-- state_, NULL for success
pub record Status : Type 0 where
  pub block : Option Bytes

-- *(uint32_t *) at the start of a block
unfoldable pub read_word : Bytes → ℕ
unfolding load32
read_word (a ∷ b ∷ c ∷ d ∷ rest) = load32 a b c d
read_word _ = 0

-- (int32_t) as the word that holds it
abbrev pub code_word : ℤ → ℕ
code_word (pos n) = n % 2 ^ 32
code_word (negsuc n) = 2 ^ 32 - 1 - n % 2 ^ 32

-- Status()
unfoldable pub ok_status : Status
ok_status = record { block = none }

-- Status(int code, const char *msg): no room for the byte that ends the message
unfoldable pub new_status : ℤ → Bytes → Status
unfolding store32
new_status code msg = record {
  block = some (store32 ((length msg + 8) % 2 ^ 32) ++ (store32 (code_word code) ++ msg));
}

-- fromFormat, of the formatted text
unfoldable pub from_format : ℤ → Bytes → Status
unfolding store32
from_format code text = record {
  block =
      some (
        store32 ((8 + length text + 1) % 2 ^ 32) ++ (store32 (code_word code) ++ (text ++ 0 ∷ [])));
}

-- copyState: as many bytes as the block says that it has
unfoldable pub copy_state : Option Bytes → Option Bytes
unfolding read_word
copy_state none = none
copy_state (some bs) = some (take (read_word bs) bs)

-- Status(const Status &) and its assignment
unfoldable pub copy : Status → Status
unfolding copy_state
copy s = record { block = copy_state s.block }

-- Status(Status &&) and its assignment: the new one, and what is left of the old one
unfoldable pub move : Status → Status × Status
move s = (s, record { block = none })

unfoldable pub code : Status → ℤ
unfolding read_word as_int
code s = elim s.block [ none ↦ pos 0 | some bs ↦ as_int (read_word (drop 4 bs)) ]

-- A C string: `none` where no byte of the block ends it, so that the reader runs out of the block.
unfoldable pub c_string : Bytes → Option Bytes
c_string [] = none
c_string (zero ∷ cs) = some []
c_string (suc c ∷ cs) = Option.map (λ rest. suc c ∷ rest) (c_string cs)

unfoldable pub msg : Status → Option Bytes
unfolding c_string
msg s = elim s.block [ none ↦ some [] | some bs ↦ c_string (drop 8 bs) ]

unfoldable pub ok : Status → Bool
unfolding code
ok s = elim (code s) [ pos n ↦ n == 0 | negsuc n ↦ false ]
