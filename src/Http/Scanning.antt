-- ===== src/Http/Scanning.antt =====
-- handy/http.cc: the search for the empty line that ends a header.
use handy.Base.{
  ℕ, suc, ◌+◌, ◌≤◌, ◌≡◌, refl, sym, ap, ◌∙◌, subst, Bool, true, false, [], ◌∷◌, ◌++◌, append_assoc,
  arith, leb, ◌==◌, Bytes, length, All, length-append, same_bytes,
}
use handy.Base.Scan.{Every}
use handy.Slice.{is_word, in_line, starts_with}
use handy.Http.{Pairs, crlf, scan}
use handy.Http.Headers.{header_line, joined, IsHeader, line-in_line, word-in_line}

scan-further :
    (n c : ℕ) (cs : Bytes)
    → 3 ≤ length cs
    → starts_with (c ∷ cs) (crlf ++ crlf) ≡ false
    → scan n (c ∷ cs) ≡ scan (n + 1) cs
unfolding scan
scan-further n c cs long e =
    let room : leb 4 (length (c ∷ cs)) ≡ true = ground arith in rw (room, e) refl

no_end : (c : ℕ) (cs : Bytes) → in_line c ≡ true → starts_with (c ∷ cs) (crlf ++ crlf) ≡ false
unfolding starts_with same_bytes in_line
no_end c cs h = ground arith

scan-line :
    (n : ℕ) (s t : Bytes) → Every in_line s → 3 ≤ length t → scan n (s ++ t) ≡ scan (n + length s) t
scan-line n [] t h long = let e : n ≡ n + 0 = omega arith in ap (λ k. scan k t) e
scan-line n (c ∷ s) t h long =
    let e : n + 1 + length s ≡ n + suc (length s) = omega arith in
    scan-further n c (s ++ t) (omega (arith, length-append s t, long)) (no_end c (s ++ t) h.0)
    ∙ scan-line (n + 1) s t h.1 long
    ∙ ap (λ k. scan k t) e

no_end_behind :
    (a b c : ℕ) (cs : Bytes)
    → in_line c ≡ true
    → starts_with (a ∷ b ∷ c ∷ cs) (crlf ++ crlf) ≡ false
unfolding starts_with same_bytes in_line
no_end_behind a b c cs h = ground arith

-- There is a first byte, and it passes the test.
abbrev pub Starts : (ℕ → Bool) → Bytes → Type 0
Starts p [] = ⊥
Starts p (c ∷ cs) = p c ≡ true

-- Two bytes that end a line, where another one follows.
pub scan-two :
    (n a b : ℕ) (t : Bytes)
    → Starts in_line t
    → (b == b'\r') ≡ false
    → 3 ≤ length t
    → scan n (a ∷ b ∷ t) ≡ scan (n + 2) t
scan-two n a b [] h no_cr long = absurd h
scan-two n a b (c ∷ cs) h no_cr long =
    let e : n + 1 + 1 ≡ n + 2 = omega arith in
    scan-further n a (b ∷ c ∷ cs) (omega (arith, long)) (no_end_behind a b c cs h)
    ∙ scan-further (n + 1) b (c ∷ cs) (omega (arith, long))
        (unfold starts_with in unfold same_bytes in ground (arith, no_cr))
    ∙ ap (λ k. scan k (c ∷ cs)) e

scan-here :
    (n c : ℕ) (cs : Bytes)
    → 3 ≤ length cs
    → starts_with (c ∷ cs) (crlf ++ crlf) ≡ true
    → scan n (c ∷ cs) ≡ (n, true)
unfolding scan
scan-here n c cs long e =
    let room : leb 4 (length (c ∷ cs)) ≡ true = ground arith in rw (room, e) refl

found_here : (n : ℕ) (t : Bytes) → scan n (crlf ++ (crlf ++ t)) ≡ (n, true)
found_here n t =
    let room : leb 4 (length (crlf ++ (crlf ++ t))) ≡ true = ground arith in
    scan-here n b'\r' (b'\n' ∷ (crlf ++ t)) (omega arith)
      (unfold starts_with in unfold same_bytes in rw room refl)

line-Starts : (k v rest : Bytes) → Every is_word k → Starts in_line (header_line k v ++ rest)
unfolding in_line
line-Starts [] v rest h = refl
line-Starts (c ∷ k) v rest h = word-in_line c h.0

pub joined-Starts :
    (h : Bytes × Bytes) (hs : Pairs) (rest : Bytes)
    → IsHeader h
    → Starts in_line (joined (h ∷ hs) ++ rest)
unfolding IsHeader
joined-Starts (k, v) [] rest good = line-Starts k v rest good.0
joined-Starts (k, v) (h ∷ hs) rest good =
    subst (Starts in_line) (sym (append_assoc (header_line k v) (crlf ++ joined (h ∷ hs)) rest))
      (line-Starts k v ((crlf ++ joined (h ∷ hs)) ++ rest) good.0)

header-in_line : (k v : Bytes) → IsHeader (k, v) → Every in_line (header_line k v)
unfolding IsHeader
header-in_line k v (word, (line, more)) = line-in_line k v word line

-- The search passes over headers and stops at the empty line behind them.
pub scan-joined :
    (n : ℕ) (h : Bytes × Bytes) (hs : Pairs) (t : Bytes)
    → All IsHeader (h ∷ hs)
    → scan n (joined (h ∷ hs) ++ (crlf ++ (crlf ++ t))) ≡ (n + length (joined (h ∷ hs)), true)
scan-joined n (k, v) [] t good =
    scan-line n (header_line k v) (crlf ++ (crlf ++ t)) (header-in_line k v good.0) (omega arith)
    ∙ found_here (n + length (header_line k v)) t
scan-joined n (k, v) (h ∷ hs) t good =
    let L = header_line k v in
    let J = joined (h ∷ hs) in
    let rest = J ++ (crlf ++ (crlf ++ t)) in
    let long : 3 ≤ length rest = omega (arith, length-append J (crlf ++ (crlf ++ t))) in
    let e : n + length L + 2 + length J ≡ n + length (L ++ (crlf ++ J)) =
      omega (arith, length-append L (crlf ++ J)) in
    ap (scan n) (append_assoc L (crlf ++ J) (crlf ++ (crlf ++ t)))
    ∙ scan-line n L (crlf ++ rest) (header-in_line k v good.0) (omega (arith, long))
    ∙ scan-two (n + length L) b'\r' b'\n' rest (joined-Starts h hs (crlf ++ (crlf ++ t)) good.1.0)
        refl long
    ∙ scan-joined (n + length L + 2) h hs t good.1
    ∙ ap (λ m. (m, true)) e

-- The search from the start of a message, over the first line too.
pub scan-message :
    (first : Bytes) (a b : ℕ) (h : Bytes × Bytes) (hs : Pairs) (t : Bytes)
    → Every in_line first
    → (b == b'\r') ≡ false
    → All IsHeader (h ∷ hs)
    → scan 0 (first ++ (a ∷ b ∷ (joined (h ∷ hs) ++ (crlf ++ (crlf ++ t)))))
      ≡ (length (first ++ (a ∷ b ∷ joined (h ∷ hs))), true)
scan-message first a b h hs t line no_cr good =
    let J = joined (h ∷ hs) in
    let rest = J ++ (crlf ++ (crlf ++ t)) in
    let long : 3 ≤ length rest = omega (arith, length-append J (crlf ++ (crlf ++ t))) in
    let e : 0 + length first + 2 + length J ≡ length (first ++ (a ∷ b ∷ J)) =
      omega (arith, length-append first (a ∷ b ∷ J)) in
    scan-line 0 first (a ∷ b ∷ rest) line (omega (arith, long))
    ∙ scan-two (0 + length first) a b rest (joined-Starts h hs (crlf ++ (crlf ++ t)) good.0) no_cr
        long
    ∙ scan-joined (0 + length first + 2) h hs t good
    ∙ ap (λ m. (m, true)) e
