-- ===== src/Base/Scan.antt =====
-- Scanning a byte string by a test: what a pointer that advances while the test holds passes over,
-- and what it leaves.
use handy.Base.{
  ℕ, ◌≤◌, ◌≡◌, refl, Bool, true, false, [], ◌∷◌, ◌++◌, ◌&&◌, Bytes, All, length, if◌then◌else◌,
  arith,
}

unfoldable pub take_while : (ℕ → Bool) → Bytes → Bytes
take_while p [] = []
take_while p (c ∷ cs) = if p c then c ∷ take_while p cs else []

unfoldable pub drop_while : (ℕ → Bool) → Bytes → Bytes
drop_while p [] = []
drop_while p (c ∷ cs) = if p c then drop_while p cs else c ∷ cs

-- Every byte passes the test.
abbrev pub Every : (ℕ → Bool) → Bytes → Type 0
Every p = All (λ c. p c ≡ true)

-- The scan cannot go on: the string is empty or its first byte fails the test.
abbrev pub Stops : (ℕ → Bool) → Bytes → Type 0
Stops p [] = Unit {0}
Stops p (c ∷ cs) = p c ≡ false

module _ (p : ℕ → Bool) where
  pub take_while-append-drop_while : (s : Bytes) → take_while p s ++ drop_while p s ≡ s
  unfolding take_while drop_while
  take_while-append-drop_while [] = refl
  take_while-append-drop_while (c ∷ cs) = ground (arith, take_while-append-drop_while cs)

  pub take_while-Every : (s : Bytes) → Every p (take_while p s)
  unfolding take_while
  take_while-Every [] = tt
  take_while-Every (c ∷ cs) = ground (arith, take_while-Every cs)

  pub drop_while-Stops : (s : Bytes) → Stops p (drop_while p s)
  unfolding drop_while
  drop_while-Stops [] = tt
  drop_while-Stops (c ∷ cs) = ground (arith, drop_while-Stops cs)

  pub take_while-stop : (s t : Bytes) → Every p s → Stops p t → take_while p (s ++ t) ≡ s
  unfolding take_while
  take_while-stop [] [] h k = refl
  take_while-stop [] (c ∷ cs) h k = ground arith
  take_while-stop (c ∷ cs) t h k = ground (arith, take_while-stop cs t h.1 k)

  pub drop_while-stop : (s t : Bytes) → Every p s → Stops p t → drop_while p (s ++ t) ≡ t
  unfolding drop_while
  drop_while-stop [] [] h k = refl
  drop_while-stop [] (c ∷ cs) h k = ground arith
  drop_while-stop (c ∷ cs) t h k = ground (arith, drop_while-stop cs t h.1 k)

  pub length-drop_while : (s : Bytes) → length (drop_while p s) ≤ length s
  unfolding drop_while
  length-drop_while [] = omega arith
  length-drop_while (c ∷ cs) = ground (arith, length-drop_while cs)

  pub Every-append : (s t : Bytes) → Every p s → Every p t → Every p (s ++ t)
  Every-append [] t h k = k
  Every-append (c ∷ cs) t h k = (h.0, Every-append cs t h.1 k)

  -- A test of the whole string.
  unfoldable pub passes : Bytes → Bool
  passes [] = true
  passes (c ∷ cs) = p c && passes cs

  pub passes-Every : (s : Bytes) → passes s ≡ true → Every p s
  unfolding passes
  passes-Every [] h = tt
  passes-Every (c ∷ cs) h = ground (arith, passes-Every cs)
