-- ===== src/Slice/Order.antt =====
-- compare, the operators and the prefix tests.
use handy.Base.{
  ℕ, ◌-◌, ◌<◌, ◌≡◌, refl, sym, ap, ◌∙◌, ◌↔◌, inl, inr, true, [], ◌∷◌, ◌++◌, Bytes, length, take,
  drop, arith, ltb, same_bytes, same_bytes_iff, take-append-drop, take-append, drop-append,
  length-append, if◌then◌else◌, Bool-cases, ltb→lt,
}
use handy.Slice.{
  Sign, negative, null, positive, compare_bytes, compare_sizes, compare, equal, starts_with,
  end_with,
}

-- Lexicographic order on bytes, a proper prefix first.
pub data Precedes : Bytes → Bytes → Type 0 where
  shorter : {b : ℕ} {y : Bytes} → Precedes [] (b ∷ y)
  smaller : {a b : ℕ} {x y : Bytes} → a < b → Precedes (a ∷ x) (b ∷ y)
  later : {a b : ℕ} {x y : Bytes} → a ≡ b → Precedes x y → Precedes (a ∷ x) (b ∷ y)

-- What each sign says.
pub Compares : Sign → Bytes → Bytes → Type 0
Compares negative x y = Precedes x y
Compares null x y = x ≡ y
Compares positive x y = Precedes y x

compare_cons :
    (a b : ℕ) (x y : Bytes)
    → compare (a ∷ x) (b ∷ y)
      ≡ (if ltb a b then negative else if ltb b a then positive else compare x y)
unfolding compare compare_bytes compare_sizes
compare_cons a b x y = ground arith

compare_shorter : (b : ℕ) (y : Bytes) → compare [] (b ∷ y) ≡ negative
unfolding compare compare_bytes compare_sizes
compare_shorter b y = ground arith

compare_longer : (a : ℕ) (x : Bytes) → compare (a ∷ x) [] ≡ positive
unfolding compare compare_bytes compare_sizes
compare_longer a x = ground arith

Compares-later :
    (r : Sign) (a b : ℕ) (x y : Bytes) → a ≡ b → Compares r x y → Compares r (a ∷ x) (b ∷ y)
unfolding Compares
Compares-later negative a b x y e h = later e h
Compares-later null a b x y e h = cc
Compares-later positive a b x y e h = later (sym e) h

-- compare is the lexicographic order on every pair of slices: its sign says which one precedes.
pub compare-Compares : (x y : Bytes) → Compares (compare x y) x y
unfolding Compares
compare-Compares [] [] = unfold compare compare_bytes compare_sizes in refl
compare-Compares [] (b ∷ y) = rw (compare_shorter b y) shorter
compare-Compares (a ∷ x) [] = rw (compare_longer a x) shorter
compare-Compares (a ∷ x) (b ∷ y) = rw (compare_cons a b x y) (elim (Bool-cases (ltb a b)) [
  | inl lt ↦ rw lt (smaller (ltb→lt a b lt))
  | inr ge ↦ rw ge (elim (Bool-cases (ltb b a)) [
    | inl gt ↦ rw gt (smaller (ltb→lt b a gt))
    | inr le ↦ rw le (Compares-later (compare x y) a b x y (ground arith) (compare-Compares x y))
  ])
])

-- == holds of equal bytes only.
pub equal_iff : (x y : Bytes) → (equal x y ≡ true) ↔ (x ≡ y)
unfolding equal
equal_iff x y = (
  λ h. (same_bytes_iff x y).0 (ground arith),
  λ e.
      let same : same_bytes x y ≡ true = (same_bytes_iff x y).1 e in
      ground (arith, ap length e, same),
)

pub starts_with_iff : (s x : Bytes) → (starts_with s x ≡ true) ↔ ((t : Bytes) × (s ≡ x ++ t))
unfolding starts_with
starts_with_iff s x = (
  λ h.
      let front : take (length x) s ≡ x = (same_bytes_iff _ x).0 (ground arith) in
      (
        drop (length x) s,
        sym (take-append-drop (length x) s) ∙ ap (λ t. t ++ drop (length x) s) front,
      ),
  λ (t, e). rw e (
      let same : same_bytes (take (length x) (x ++ t)) x ≡ true =
        (same_bytes_iff _ x).1 (take-append (length x) x t refl) in
      ground (arith, same, length-append x t)),
)

pub end_with_iff : (s x : Bytes) → (end_with s x ≡ true) ↔ ((t : Bytes) × (s ≡ t ++ x))
unfolding end_with
end_with_iff s x = (
  λ h.
      let n = length s - length x in
      let back : drop n s ≡ x = (same_bytes_iff _ x).0 (ground arith) in
      (take n s, sym (take-append-drop n s) ∙ ap (λ t. take n s ++ t) back),
  λ (t, e). rw e (
      let same : same_bytes (drop (length (t ++ x) - length x) (t ++ x)) x ≡ true =
        (same_bytes_iff _ x).1 (drop-append _ t x (omega (arith, length-append t x))) in
      ground (arith, same, length-append t x)),
)
