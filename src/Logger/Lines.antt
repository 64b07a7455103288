-- ===== src/Logger/Lines.antt =====
-- handy/logging.cc: the line that is written.
use handy.Base.{
  ℕ, zero, suc, ◌≤◌, ◌≡◌, ◌⊎◌, inl, inr, refl, ap, Bool, true, false, ◌&&◌, [], ◌∷◌, ◌++◌, arith,
  ◌==◌, ==_iff, if_cases, Bytes, length, take, length-append, length-take,
}
use handy.Conf.{is_empty}
use handy.Logger.{trim_newlines, log_line}

-- Ends in a byte that is not a newline.
pub data EndsText : Bytes → Type 0 where
  last_byte : (c : ℕ) → (c == b'\n') ≡ false → EndsText (c ∷ [])
  more_bytes : (c : ℕ) (cs : Bytes) → EndsText cs → EndsText (c ∷ cs)

abbrev pub newlines : ℕ → Bytes
newlines zero = []
newlines (suc n) = b'\n' ∷ newlines n

-- Behind a byte that is kept there is text.
kept_byte :
    (c : ℕ) (rest : Bytes)
    → (rest ≡ []) ⊎ EndsText rest
    → (is_empty rest && c == b'\n') ≡ false
    → EndsText (c ∷ rest)
kept_byte c [] h e = last_byte c e
kept_byte c (x ∷ xs) (inl e) h = absurd cc
kept_byte c (x ∷ xs) (inr ends) h = more_bytes c (x ∷ xs) ends

trim_newlines-EndsText : (bs : Bytes) → (trim_newlines bs ≡ []) ⊎ EndsText (trim_newlines bs)
unfolding trim_newlines
trim_newlines-EndsText [] = inl refl
trim_newlines-EndsText (c ∷ cs) =
    let rest = trim_newlines cs in
    if_cases (λ bs. (bs ≡ []) ⊎ EndsText bs) (is_empty rest && c == b'\n') [] (c ∷ rest)
      (λ e. inl refl) (λ e. inr (kept_byte c rest (trim_newlines-EndsText cs) e))

has_text : (c : ℕ) (cs : Bytes) → (c == b'\n') ≡ false → EndsText (trim_newlines (c ∷ cs))
unfolding trim_newlines
has_text c cs e =
    let rest = trim_newlines cs in
    if_cases EndsText (is_empty rest && c == b'\n') [] (c ∷ rest) (λ h. absurd (clash rest e h))
      (λ h. kept_byte c rest (trim_newlines-EndsText cs) h)
  where
    clash : {b : Bool} (rest : Bytes) → b ≡ false → (is_empty rest && b) ≡ true → ⊥
    clash [] e h = cc
    clash (x ∷ xs) e h = cc

only_newlines :
    (c : ℕ) (rest cs : Bytes) (n : ℕ)
    → (is_empty rest && c == b'\n') ≡ true
    → rest ++ newlines n ≡ cs
    → newlines (suc n) ≡ c ∷ cs
only_newlines c [] cs n e same = rw ((==_iff c b'\n').0 e) (ap (◌∷◌ b'\n') same)
only_newlines c (x ∷ xs) cs n e same = absurd cc

-- The text is what is left and then only newlines.
trim_newlines-append : (bs : Bytes) → (n : ℕ) × (trim_newlines bs ++ newlines n ≡ bs)
unfolding trim_newlines
trim_newlines-append [] = (0, refl)
trim_newlines-append (c ∷ cs) =
    let (n, same) = trim_newlines-append cs in
    let rest = trim_newlines cs in
    if_cases (λ bs. (m : ℕ) × (bs ++ newlines m ≡ c ∷ cs)) (is_empty rest && c == b'\n') []
      (c ∷ rest) (λ e. (suc n, only_newlines c rest cs n e same)) (λ e. (n, ap (◌∷◌ c) same))

-- A line whose prefix starts with a byte that is no newline, which a year does: it is a text and one
-- newline; the text does not end in a newline, is at most 4094 bytes long, and is the prefix and the
-- message up to there without the newlines that this ends in.
pub log_line_lem :
    (c : ℕ) (prefix msg : Bytes)
    → (c == b'\n') ≡ false
    → (text : Bytes) × (n : ℕ) × (log_line (c ∷ prefix) msg ≡ text ++ b'\n' ∷ [])
      × EndsText text
      × (text ++ newlines n ≡ take 4094 (c ∷ (prefix ++ msg)))
      × (length text ≤ 4094)
unfolding log_line
log_line_lem c prefix msg no_newline =
    let whole = take 4094 (c ∷ (prefix ++ msg)) in
    let (n, same) = trim_newlines-append whole in
    (
      trim_newlines whole,
      n,
      refl,
      has_text c (take 4093 (prefix ++ msg)) no_newline,
      same,
      omega (
        arith,
        ap length same,
        length-append (trim_newlines whole) (newlines n),
        length-take 4094 (c ∷ (prefix ++ msg)),
      ),
    )
