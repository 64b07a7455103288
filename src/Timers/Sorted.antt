-- ===== src/Timers/Sorted.antt =====
-- `timers_` is a map: its keys ascend, and those handed out so far are not above the counter.
use handy.Base.{ℕ, ◌≤◌, ◌≡◌, true, false, List, [], ◌∷◌, All, arith, inl, inr, Bool-cases}
use handy.Timers.{
  Key, TimerId, Task, TimerRepeatable, key_less, key_eq, id_eq, insert_timer, erase_timer, set_rep,
  erase_rep,
}

-- Every key of `m` comes after `k`.
abbrev pub Above : Key → List (Key × Task) → Type 0
Above k = All (λ e. key_less k e.0 ≡ true)

abbrev pub IsSorted : List (Key × Task) → Type 0
IsSorted [] = Unit
IsSorted ((k, t) ∷ m) = Above k m × IsSorted m

pub key_less_trans : (i j k : Key) → key_less i j ≡ true → key_less j k ≡ true → key_less i k ≡ true
unfolding key_less
key_less_trans i j k h l = ground arith

pub Above-trans : (i j : Key) (m : List (Key × Task)) → key_less i j ≡ true → Above j m → Above i m
Above-trans i j [] h a = tt
Above-trans i j ((k, t) ∷ m) h a = (key_less_trans i j k h a.0, Above-trans i j m h a.1)

pub insert-Above :
    (i k : Key) (t : Task) (m : List (Key × Task))
    → key_less i k ≡ true
    → Above i m
    → Above i (insert_timer k t m)
unfolding insert_timer
insert-Above i k t [] h a = (h, tt)
insert-Above i k t ((j, u) ∷ m) h a = elim (Bool-cases (key_less k j)) [
  | inl before ↦ rw before (h, a)
  | inr late ↦ elim (Bool-cases (key_less j k)) [
    | inl after ↦ rw (late, after) (a.0, insert-Above i k t m h a.1)
    | inr same ↦ rw (late, same) a
  ]
]

pub insert-IsSorted :
    (k : Key) (t : Task) (m : List (Key × Task)) → IsSorted m → IsSorted (insert_timer k t m)
unfolding insert_timer
insert-IsSorted k t [] s = (tt, tt)
insert-IsSorted k t ((j, u) ∷ m) s = elim (Bool-cases (key_less k j)) [
  | inl before ↦ rw before ((before, Above-trans k j m before s.0), s)
  | inr late ↦ elim (Bool-cases (key_less j k)) [
    | inl after ↦ rw (late, after) (insert-Above j k t m after s.0, insert-IsSorted k t m s.1)
    | inr same ↦ rw (late, same) s
  ]
]

pub erase-All {ℓ} :
    (P : Key × Task → Type ℓ) (k : Key) (m : List (Key × Task)) → All P m → All P (erase_timer k m)
unfolding erase_timer
erase-All P k [] a = a
erase-All P k ((j, u) ∷ m) a = elim (Bool-cases (key_eq j k)) [
  | inl hit ↦ rw hit a.1
  | inr miss ↦ rw miss (a.0, erase-All P k m a.1)
]

pub erase-IsSorted : (k : Key) (m : List (Key × Task)) → IsSorted m → IsSorted (erase_timer k m)
unfolding erase_timer
erase-IsSorted k [] s = s
erase-IsSorted k ((j, u) ∷ m) s = elim (Bool-cases (key_eq j k)) [
  | inl hit ↦ rw hit s.1
  | inr miss ↦ rw miss (erase-All _ k m s.0, erase-IsSorted k m s.1)
]

pub insert-All {ℓ} :
    (P : Key × Task → Type ℓ) (k : Key) (t : Task) (m : List (Key × Task))
    → ((j : Key) → (key_less k j ≡ false) → (key_less j k ≡ false) → P (j, t))
    → P (k, t)
    → All P m
    → All P (insert_timer k t m)
unfolding insert_timer
insert-All P k t [] same p a = (p, tt)
insert-All P k t ((j, u) ∷ m) same p a = elim (Bool-cases (key_less k j)) [
  | inl before ↦ rw before (p, a)
  | inr late ↦ elim (Bool-cases (key_less j k)) [
    | inl after ↦ rw (late, after) (a.0, insert-All P k t m same p a.1)
    | inr eq ↦ rw (late, eq) (same j late eq, a.1)
  ]
]

-- The numbers that have been handed out.
abbrev pub SeqsUpTo : ℕ → List (Key × Task) → Type 0
SeqsUpTo n = All (λ e. e.0.seq ≤ n)

abbrev pub IdsUpTo : ℕ → List (TimerId × TimerRepeatable) → Type 0
IdsUpTo n = All (λ e. e.0.second ≤ n)

pub SeqsUpTo-mono : (a b : ℕ) (m : List (Key × Task)) → a ≤ b → SeqsUpTo a m → SeqsUpTo b m
SeqsUpTo-mono a b [] l h = tt
SeqsUpTo-mono a b (e ∷ m) l h = (omega arith, SeqsUpTo-mono a b m l h.1)

pub IdsUpTo-mono :
    (a b : ℕ) (m : List (TimerId × TimerRepeatable)) → a ≤ b → IdsUpTo a m → IdsUpTo b m
IdsUpTo-mono a b [] l h = tt
IdsUpTo-mono a b (e ∷ m) l h = (omega arith, IdsUpTo-mono a b m l h.1)

pub insert-SeqsUpTo :
    (n : ℕ) (k : Key) (t : Task) (m : List (Key × Task))
    → k.seq ≤ n
    → SeqsUpTo n m
    → SeqsUpTo n (insert_timer k t m)
insert-SeqsUpTo n k t m h a = insert-All _ k t m (λ j p q. same j p q) h a
  where
    same : (j : Key) → key_less k j ≡ false → key_less j k ≡ false → j.seq ≤ n
    same j p q = unfold key_less in ground arith

pub set_rep-IdsUpTo :
    (n : ℕ) (i : TimerId) (r : TimerRepeatable) (m : List (TimerId × TimerRepeatable))
    → i.second ≤ n
    → IdsUpTo n m
    → IdsUpTo n (set_rep i r m)
unfolding set_rep
set_rep-IdsUpTo n i r [] h a = (h, tt)
set_rep-IdsUpTo n i r ((j, q) ∷ m) h a = elim (Bool-cases (id_eq j i)) [
  | inl hit ↦ rw hit (a.0, a.1)
  | inr miss ↦ rw miss (a.0, set_rep-IdsUpTo n i r m h a.1)
]

pub erase_rep-IdsUpTo :
    (n : ℕ) (i : TimerId) (m : List (TimerId × TimerRepeatable))
    → IdsUpTo n m
    → IdsUpTo n (erase_rep i m)
unfolding erase_rep
erase_rep-IdsUpTo n i [] a = a
erase_rep-IdsUpTo n i ((j, q) ∷ m) a = elim (Bool-cases (id_eq j i)) [
  | inl hit ↦ rw hit a.1
  | inr miss ↦ rw miss (a.0, erase_rep-IdsUpTo n i m a.1)
]
