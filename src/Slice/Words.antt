-- ===== src/Slice/Words.antt =====
-- What eatWord, eatLine and trimSpace return.
use handy.Base.{◌≡◌, refl, sym, ap, ◌∙◌, Bool, ℕ, [], ◌∷◌, ◌++◌, Bytes, arith, reverse, ◌≢◌, subst}
use handy.Base.Scan.{
  take_while, drop_while, Every, Stops, take_while-append-drop_while, take_while-Every,
  drop_while-Stops, take_while-stop, drop_while-stop, Every-append,
}
use mathlib.Core.List.{reverse-cons, reverse-append, reverse-reverse}
use handy.Slice.{is_space, is_word, in_line, eat_word, eat_line, drop_last_spaces, trim_space}

-- eatWord splits a slice into spaces, the word, and the bytes left: the word has no space in it,
-- and what is left starts with a space or is empty.
pub eat_word_lem :
    (s : Bytes)
    → let (word, rest) = eat_word s in
      (take_while is_space s ++ (word ++ rest) ≡ s)
      × Every is_space (take_while is_space s)
      × Every is_word word
      × Stops is_word rest
unfolding eat_word
eat_word_lem s =
    let t = drop_while is_space s in
    (
      ap (◌++◌ (take_while is_space s)) (take_while-append-drop_while is_word t)
          ∙ take_while-append-drop_while is_space s,
      take_while-Every is_space s,
      take_while-Every is_word t,
      drop_while-Stops is_word t,
    )

Every-word-Stops : (w t : Bytes) → w ≢ [] → Every is_word w → Stops is_space (w ++ t)
Every-word-Stops [] t ne h = absurd (ne refl)
Every-word-Stops (c ∷ w) t ne h = ground arith

-- It is the only such split: spaces, a word and what cannot belong to the word are read as these.
pub eat_word-append :
    (pre word rest : Bytes)
    → Every is_space pre
    → word ≢ []
    → Every is_word word
    → Stops is_word rest
    → eat_word (pre ++ (word ++ rest)) ≡ (word, rest)
unfolding eat_word
eat_word-append pre word rest hp ne hw hr =
    rw (drop_while-stop is_space pre (word ++ rest) hp (Every-word-Stops word rest ne hw))
      (rw (take_while-stop is_word word rest hw hr, drop_while-stop is_word word rest hw hr))

-- eatLine splits a slice where the first line end is.
pub eat_line-append :
    (line rest : Bytes)
    → Every in_line line
    → Stops in_line rest
    → eat_line (line ++ rest) ≡ (line, rest)
unfolding eat_line
eat_line-append line rest hl hr =
    rw (take_while-stop in_line line rest hl hr, drop_while-stop in_line line rest hl hr)

Stops-prefix : (p : ℕ → Bool) (s t : Bytes) → Stops p (s ++ t) → Stops p s
Stops-prefix p [] t h = tt
Stops-prefix p (c ∷ cs) t h = h

pub Every-reverse : (p : ℕ → Bool) (s : Bytes) → Every p s → Every p (reverse s)
Every-reverse p [] h = tt
Every-reverse p (c ∷ cs) h =
    rw (reverse-cons c cs) (Every-append p (reverse cs) (c ∷ []) (Every-reverse p cs h.1) (h.0, tt))

drop_last_spaces_lem :
    (s : Bytes) → drop_last_spaces s ++ reverse (take_while is_space (reverse s)) ≡ s
unfolding drop_last_spaces
drop_last_spaces_lem s =
    sym (reverse-append (take_while is_space (reverse s)) (drop_while is_space (reverse s)))
    ∙ ap reverse (take_while-append-drop_while is_space (reverse s))
    ∙ reverse-reverse s

-- trimSpace takes spaces off both ends, and no more: what is left neither starts nor ends with one.
pub trim_space_lem :
    (s : Bytes)
    → (pre : Bytes) × (post : Bytes) × (pre ++ (trim_space s ++ post) ≡ s)
      × Every is_space pre
      × Every is_space post
      × Stops is_space (trim_space s)
      × Stops is_space (reverse (trim_space s))
unfolding trim_space
trim_space_lem s =
    let t = drop_while is_space s in
    let pre = take_while is_space s in
    let post = reverse (take_while is_space (reverse t)) in
    (
      pre,
      post,
      ap (◌++◌ pre) (drop_last_spaces_lem t) ∙ take_while-append-drop_while is_space s,
      take_while-Every is_space s,
      Every-reverse is_space _ (take_while-Every is_space (reverse t)),
      Stops-prefix is_space (drop_last_spaces t) post
          (rw (drop_last_spaces_lem t) (drop_while-Stops is_space s)),
      subst (Stops is_space) (sym (reverse-reverse (drop_while is_space (reverse t))))
          (drop_while-Stops is_space (reverse t)),
    )

Stops-word : (s : Bytes) → Every is_word s → Stops is_space s
Stops-word [] h = tt
Stops-word (c ∷ s) h = ground (arith, h.0)

-- A word has no spaces to take off.
pub trim_space-word : (s : Bytes) → Every is_word s → trim_space s ≡ s
unfolding trim_space drop_last_spaces
trim_space-word s h =
    let back =
      drop_while-stop is_space [] (reverse s) tt
        (Stops-word (reverse s) (Every-reverse is_word s h)) in
    ap drop_last_spaces (drop_while-stop is_space [] s tt (Stops-word s h))
    ∙ ap reverse back
    ∙ reverse-reverse s
