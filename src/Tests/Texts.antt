-- ===== src/Tests/Texts.antt =====
-- Slices on short texts.
use handy.Base.{◌≡◌, ◌≢◌, refl, ap, true, [], ◌∷◌, arith, Bytes, length, same_bytes}
use handy.Slice.{less, equal, end_with}
use handy.Slice.Split.{join}

abbrev a_b : Bytes
a_b = b'a' ∷ b',' ∷ b'b' ∷ []

joined_ne : join b',' ((b'a' ∷ []) ∷ (b'b' ∷ []) ∷ []) ≢ []
unfolding join
joined_ne e = let f : 3 ≡ 0 = ap length e in omega (arith, f)

shorter_is_less : less (b'a' ∷ []) a_b ≡ true
unfolding less
shorter_is_less = refl

same_text : equal a_b a_b ≡ true
unfolding equal same_bytes
same_text = refl

ends_in_b : end_with a_b (b'b' ∷ []) ≡ true
unfolding end_with same_bytes
ends_in_b = refl
