-- ===== src/Slice.antt =====
-- handy/slice.h: `Slice`, a view of bytes that belong to someone else. A slice is the list of the
-- bytes between its two pointers; a method that moves a pointer returns what it passed over and
-- the bytes that are left. Bytes are 0 to 255, and isspace is that of the C locale.
pub mod Words
pub mod Split
pub mod Order
use handy.Base.{
  ℕ, ◌+◌, ◌-◌, min, Bool, true, false, not, ◌&&◌, ◌||◌, List, [], ◌∷◌, ◌++◌, Bytes, length, take,
  drop, reverse, ltb, leb, ◌==◌, if◌then◌else◌, same_bytes,
}
use handy.Base.Scan.{take_while, drop_while}

unfoldable pub is_space : ℕ → Bool
is_space c = c == b' ' || (leb 9 c && leb c 13)

-- the test of the second loop of eatWord
abbrev pub is_word : ℕ → Bool
is_word c = not (is_space c)

-- the test of the loop of eatLine
unfoldable pub in_line : ℕ → Bool
in_line c = not (c == b'\n') && not (c == b'\r')

-- the word that is returned, and what the slice is afterwards
unfoldable pub eat_word : Bytes → Bytes × Bytes
eat_word s = let t = drop_while is_space s in (take_while is_word t, drop_while is_word t)

unfoldable pub eat_line : Bytes → Bytes × Bytes
eat_line s = (take_while in_line s, drop_while in_line s)

-- while (pb_ < pe_ && isspace(pe_[-1])) pe_--
unfoldable pub drop_last_spaces : Bytes → Bytes
drop_last_spaces s = reverse (drop_while is_space (reverse s))

unfoldable pub trim_space : Bytes → Bytes
unfolding drop_last_spaces
trim_space s = drop_last_spaces (drop_while is_space s)

-- The sign of an int.
pub data Sign : Type 0 where
  negative null positive : Sign

-- memcmp(a, b, min of the lengths)
pub compare_bytes : Bytes → Bytes → Sign
compare_bytes [] y = null
compare_bytes (a ∷ x) [] = null
compare_bytes (a ∷ x) (b ∷ y) =
    if ltb a b then negative else if ltb b a then positive else compare_bytes x y

-- what compare returns, where the common prefix gave `r`
pub compare_sizes : Sign → ℕ → ℕ → Sign
compare_sizes null sz bsz = if ltb sz bsz then negative else if ltb bsz sz then positive else null
compare_sizes r sz bsz = r

pub compare : Bytes → Bytes → Sign
unfolding compare_bytes compare_sizes
compare x y = compare_sizes (compare_bytes x y) (length x) (length y)

-- operator<
unfoldable pub less : Bytes → Bytes → Bool
unfolding compare
less x y = elim (compare x y) [ negative ↦ true | _ ↦ false ]

-- operator==
unfoldable pub equal : Bytes → Bytes → Bool
equal x y = (length x == length y) && same_bytes x y

unfoldable pub starts_with : Bytes → Bytes → Bool
starts_with s x = leb (length x) (length s) && same_bytes (take (length x) s) x

unfoldable pub end_with : Bytes → Bytes → Bool
end_with s x = leb (length x) (length s) && same_bytes (drop (length s - length x) s) x

-- The loop of split: `piece` is what lies between `pb` and `p`.
pub split_loop : ℕ → Bytes → Bytes → List Bytes
split_loop ch piece [] = piece ∷ []
split_loop ch piece (c ∷ cs) = elim (c == ch) [
  | true ↦ piece ∷ split_loop ch [] cs
  | false ↦ split_loop ch (piece ++ c ∷ []) cs
]

-- The last piece is pushed only `if (pe_ != pb_)`; no piece is complete in an empty slice.
pub split : ℕ → Bytes → List Bytes
unfolding split_loop
split ch [] = []
split ch (c ∷ cs) = split_loop ch [] (c ∷ cs)
