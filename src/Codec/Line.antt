-- ===== src/Codec/Line.antt =====
-- LineCodec: what it decodes, against what was encoded.
use handy.Base.{
  ℕ, suc, ◌+◌, ◌-◌, ◌^◌, ◌≤◌, ◌<◌, ◌≡◌, refl, sym, ap, ◌∙◌, Bool, false, not, [], ◌∷◌, ◌++◌, Option,
  none, some, Bytes, length, arith, ◌==◌, if◌then◌else◌, length-append, append_assoc, Bool-cases,
  inl, inr, ◌≢◌,
}
use handy.Base.Int.{pos, as_int, as_int_small}
use handy.Base.Scan.{Every}
use handy.Codec.{View, is_eot, ends_line, line_loop, decode_line, encode_line}

-- A byte that does not end a line.
abbrev pub in_body : ℕ → Bool
in_body c = not (c == b'\n')

-- the byte before the place behind `body`
abbrev pub last_of : Option ℕ → Bytes → Option ℕ
last_of before [] = before
last_of before (c ∷ cs) = last_of (some c) cs

line_loop_body :
    (i : ℕ) (before : Option ℕ) (body rest : Bytes)
    → Every in_body body
    → line_loop i before (body ++ (b'\n' ∷ rest)) ≡ (
      as_int (i + length body + 1),
      record {
        from = 0;
        size = if ends_line (last_of before body) then i + length body - 1 else i + length body;
      },
    )
unfolding line_loop
line_loop_body i before [] rest h = let e : i + 0 ≡ i = omega arith in rw e
line_loop_body i before (c ∷ body) rest h =
    let e : (c == b'\n') ≡ false = ground arith in
    let k : i + 1 + length body ≡ i + suc (length body) = omega arith in
    rw (e, line_loop) (rw (← k) (line_loop_body (i + 1) (some c) body rest h.1))

last_of-append : (before : Option ℕ) (s : Bytes) (c : ℕ) → last_of before (s ++ c ∷ []) ≡ some c
last_of-append before [] c = refl
last_of-append before (d ∷ s) c = last_of-append (some d) s c

not-eot : (body rest : Bytes) → is_eot (body ++ (b'\n' ∷ rest)) ≡ false
not-eot [] [] = refl
not-eot [] (c ∷ rest) = refl
not-eot (c ∷ []) rest = refl
not-eot (c ∷ d ∷ body) rest = refl

Every-body-return : (msg : Bytes) → Every in_body msg → Every in_body (msg ++ b'\r' ∷ [])
Every-body-return [] h = (refl, tt)
Every-body-return (c ∷ msg) h = (h.0, Every-body-return msg h.1)

-- The first line feed ends the message; a carriage return right before it is not part of it.
pub decode_line_body :
    (body rest : Bytes)
    → Every in_body body
    → decode_line (body ++ (b'\n' ∷ rest)) ≡ (
      as_int (length body + 1),
      record {
        from = 0;
        size = if ends_line (last_of none body) then length body - 1 else length body;
      },
    )
unfolding decode_line
decode_line_body body rest h =
    let e : 0 + length body ≡ length body = omega arith in
    rw (not-eot body rest, decode_line) (rw e at (line_loop_body 0 none body rest h))

-- A message with no line feed in it is read back, whatever follows it.
pub decode-encode_line :
    (msg rest : Bytes)
    → Every in_body msg
    → length (encode_line msg ++ rest) < 2 ^ 31
    → decode_line (encode_line msg ++ rest)
      ≡ (pos (length (encode_line msg)), record { from = 0; size = length msg })
unfolding encode_line
decode-encode_line msg rest h small =
    ap decode_line whole
    ∙ decode_line_body body rest (Every-body-return msg h)
    ∙ rw (last_of-append none msg b'\r', counts) (ap (λ n. (n, view)) scanned)
  where
    body : Bytes
    body = msg ++ b'\r' ∷ []

    view : View
    view = record { from = 0; size = length msg }

    whole : (msg ++ b'\r' ∷ b'\n' ∷ []) ++ rest ≡ body ++ (b'\n' ∷ rest)
    whole = append_assoc msg _ rest ∙ sym (append_assoc msg (b'\r' ∷ []) (b'\n' ∷ rest))

    counts : length body - 1 ≡ length msg
    counts = omega (arith, length-append msg (b'\r' ∷ []))

    scanned : as_int (length body + 1) ≡ pos (length (msg ++ b'\r' ∷ b'\n' ∷ []))
    scanned =
        as_int_small (length body + 1) (
          omega (
            arith,
            length-append msg (b'\r' ∷ []),
            length-append msg (b'\r' ∷ b'\n' ∷ []),
            length-append (msg ++ b'\r' ∷ b'\n' ∷ []) rest,
          ))
        ∙ ap pos
            (omega (arith, length-append msg (b'\r' ∷ []), length-append msg (b'\r' ∷ b'\n' ∷ [])))

line_loop-append :
    (i : ℕ) (before : Option ℕ) (s t : Bytes)
    → (line_loop i before s).0 ≢ pos 0
    → line_loop i before (s ++ t) ≡ line_loop i before s
unfolding line_loop
line_loop-append i before [] t h = absurd (h refl)
line_loop-append i before (c ∷ s) t h = elim (Bool-cases (c == b'\n')) [
  | inl end ↦ rw (end, line_loop)
  | inr body ↦
      rw (body, line_loop) (line_loop-append (i + 1) (some c) s t (rw (body, line_loop) at h))
]

pub is_eot-append : (s t : Bytes) → s ≢ [] → is_eot s ≡ false → is_eot (s ++ t) ≡ false
is_eot-append [] t ne h = absurd (ne refl)
is_eot-append (c ∷ []) [] ne h = h
is_eot-append (c ∷ []) (d ∷ t) ne h = refl
is_eot-append (c ∷ d ∷ s) t ne h = refl

-- An answer other than "not yet" stays the same when more bytes come.
pub decode_line-append :
    (s t : Bytes)
    → is_eot s ≡ false
    → (decode_line s).0 ≢ pos 0
    → decode_line (s ++ t) ≡ decode_line s
unfolding decode_line
decode_line-append [] t e h = absurd (h refl)
decode_line-append (c ∷ s) t e h =
    let e' : is_eot (c ∷ (s ++ t)) ≡ false = is_eot-append (c ∷ s) t (λ q. cc) e in
    rw (e', e, decode_line) (line_loop-append 0 none (c ∷ s) t (rw (e, decode_line) at h))

line_loop_bounds :
    (i n : ℕ) (before : Option ℕ) (s : Bytes) (v : View)
    → i + length s < 2 ^ 31
    → line_loop i before s ≡ (pos (suc n), v)
    → (suc n ≤ i + length s) × (v.from + v.size ≤ n)
unfolding line_loop
line_loop_bounds i n before [] v small e = absurd (ground arith)
line_loop_bounds i n before (c ∷ s) v small e = elim (Bool-cases (c == b'\n')) [
  | inl end ↦ ground (arith, as_int_small (i + 1), rw (end, line_loop) at e)
  | inr body ↦
      omega
        (arith, line_loop_bounds (i + 1) n (some c) s v (omega arith) (rw (body, line_loop) at e))
]

-- A message lies within the data, before the byte that ends it, and no more is consumed than there is.
pub decode_line_bounds :
    (s : Bytes) (n : ℕ) (v : View)
    → length s < 2 ^ 31
    → decode_line s ≡ (pos (suc n), v)
    → (suc n ≤ length s) × (v.from + v.size ≤ suc n)
unfolding decode_line
decode_line_bounds [] n v small e = absurd (unfold line_loop in ground arith)
decode_line_bounds (c ∷ s) n v small e = elim (Bool-cases (is_eot (c ∷ s))) [
  | inl lone ↦ ground (arith, rw (lone, decode_line) at e)
  | inr more ↦
      omega (arith, line_loop_bounds 0 n none (c ∷ s) v (omega arith) (rw (more, decode_line) at e))
]
