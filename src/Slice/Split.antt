-- ===== src/Slice/Split.antt =====
-- split: cutting at a byte, against putting back together.
use mathlib.Core.Path.{ap₂}
use handy.Base.{
  ==_iff, ==_self, ℕ, ◌≡◌, ◌≢◌, refl, sym, ap, ◌∙◌, Bool, false, not, List, [], ◌∷◌, ◌++◌, Bytes,
  ◌==◌, arith, All, Bool-cases, inl, inr, append_assoc, append-nil,
}
use handy.Base.Scan.{Every, Every-append}
use handy.Slice.{split_loop, split}

-- The pieces with `ch` between them.
unfoldable pub join : ℕ → List Bytes → Bytes
join ch [] = []
join ch (p ∷ []) = p
join ch (p ∷ q ∷ ps) = p ++ (ch ∷ join ch (q ∷ ps))

-- A byte that does not cut.
abbrev pub keeps : ℕ → ℕ → Bool
keeps ch c = not (c == ch)

join-cons :
    (ch : ℕ) (p : Bytes) (ps : List Bytes) → ps ≢ [] → join ch (p ∷ ps) ≡ p ++ (ch ∷ join ch ps)
unfolding join
join-cons ch p [] ne = absurd (ne refl)
join-cons ch p (q ∷ ps) ne = refl

split_loop-ne-nil : (ch : ℕ) (piece s : Bytes) → split_loop ch piece s ≢ []
unfolding split_loop
split_loop-ne-nil ch piece [] = λ e. cc
split_loop-ne-nil ch piece (c ∷ cs) = elim (Bool-cases (c == ch)) [
  | inl cut ↦ rw (cut, split_loop) (λ e. cc)
  | inr kept ↦ rw (kept, split_loop) (split_loop-ne-nil ch (piece ++ c ∷ []) cs)
]

join-split_loop : (ch : ℕ) (piece s : Bytes) → join ch (split_loop ch piece s) ≡ piece ++ s
unfolding split_loop
join-split_loop ch piece [] = unfold join in sym (append-nil piece)
join-split_loop ch piece (c ∷ cs) = elim (Bool-cases (c == ch)) [
  | inl cut ↦
      rw (cut, split_loop)
        (join-cons ch piece (split_loop ch [] cs) (split_loop-ne-nil ch [] cs)
          ∙ ap₂ (λ b t. piece ++ (b ∷ t)) (sym ((==_iff c ch).0 cut)) (join-split_loop ch [] cs))
  | inr kept ↦
      rw (kept, split_loop)
        (join-split_loop ch (piece ++ c ∷ []) cs ∙ append_assoc piece (c ∷ []) cs)
]

split_loop-Every :
    (ch : ℕ) (piece s : Bytes)
    → Every (keeps ch) piece
    → All (Every (keeps ch)) (split_loop ch piece s)
unfolding split_loop
split_loop-Every ch piece [] h = (h, tt)
split_loop-Every ch piece (c ∷ cs) h = elim (Bool-cases (c == ch)) [
  | inl cut ↦ rw (cut, split_loop) (h, split_loop-Every ch [] cs tt)
  | inr kept ↦
      rw (kept, split_loop)
        (split_loop-Every ch (piece ++ c ∷ []) cs
          (Every-append (keeps ch) piece (c ∷ []) h (ground arith, tt)))
]

-- The pieces that split gives make up the slice, with `ch` between them, and hold no `ch`.
pub join-split :
    (ch : ℕ) (s : Bytes) → (join ch (split ch s) ≡ s) × All (Every (keeps ch)) (split ch s)
unfolding split
join-split ch [] = (unfold join in refl, tt)
join-split ch (c ∷ cs) = (join-split_loop ch [] (c ∷ cs), split_loop-Every ch [] (c ∷ cs) tt)

split_loop_piece :
    (ch : ℕ) (piece p rest : Bytes)
    → Every (keeps ch) p
    → split_loop ch piece (p ++ (ch ∷ rest)) ≡ (piece ++ p) ∷ split_loop ch [] rest
unfolding split_loop
split_loop_piece ch piece [] rest h =
    rw (==_self ch, split_loop) (ap (λ t. t ∷ split_loop ch [] rest) (sym (append-nil piece)))
split_loop_piece ch piece (c ∷ p) rest h =
    let e : (c == ch) ≡ false = ground arith in
    rw (e, split_loop)
      (split_loop_piece ch (piece ++ c ∷ []) p rest h.1
        ∙ ap (λ t. t ∷ split_loop ch [] rest) (append_assoc piece (c ∷ []) p))

split_loop_last :
    (ch : ℕ) (piece p : Bytes) → Every (keeps ch) p → split_loop ch piece p ≡ (piece ++ p) ∷ []
unfolding split_loop
split_loop_last ch piece [] h = ap (λ t. t ∷ []) (sym (append-nil piece))
split_loop_last ch piece (c ∷ p) h =
    let e : (c == ch) ≡ false = ground arith in
    rw (e, split_loop)
      (split_loop_last ch (piece ++ c ∷ []) p h.1
        ∙ ap (λ t. t ∷ []) (append_assoc piece (c ∷ []) p))

split_loop-join :
    (ch : ℕ) (p : Bytes) (ps : List Bytes)
    → All (Every (keeps ch)) (p ∷ ps)
    → split_loop ch [] (join ch (p ∷ ps)) ≡ p ∷ ps
unfolding join
split_loop-join ch p [] h = split_loop_last ch [] p h.0
split_loop-join ch p (q ∷ ps) h =
    split_loop_piece ch [] p (join ch (q ∷ ps)) h.0 ∙ ap (◌∷◌ p) (split_loop-join ch q ps h.1)

split-split_loop : (ch : ℕ) (s : Bytes) → s ≢ [] → split ch s ≡ split_loop ch [] s
unfolding split
split-split_loop ch [] ne = absurd (ne refl)
split-split_loop ch (c ∷ cs) ne = refl

-- Pieces with no `ch` in them are what split cuts their join into, unless that is empty.
pub split-join :
    (ch : ℕ) (ps : List Bytes)
    → All (Every (keeps ch)) ps
    → join ch ps ≢ []
    → split ch (join ch ps) ≡ ps
split-join ch [] h ne = absurd (ne (unfold join in refl))
split-join ch (p ∷ ps) h ne = split-split_loop ch (join ch (p ∷ ps)) ne ∙ split_loop-join ch p ps h
