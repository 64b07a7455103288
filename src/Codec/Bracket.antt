-- ===== src/Codec/Bracket.antt =====
-- BracketCodec: what it decodes, against what was encoded.
use mathlib.Core.Path.{ap₂}
use handy.Base.{
  ℕ, suc, ◌+◌, ◌-◌, ◌^◌, ◌≤◌, ◌<◌, ◌≡◌, ◌≢◌, refl, sym, ap, ◌∙◌, Bool, true, false, not, [], ◌∷◌,
  ◌++◌, Bytes, length, arith, ◌==◌, leb, length-append, append_assoc, Bool-cases, inl, inr,
}
use handy.Base.Int.{ℤ, pos, as_int, as_int_small}
use handy.Base.Scan.{Every}
use handy.Codec.{View, is_eot, opens, bracket_loop, decode_bracket, encode_bracket}
use handy.Codec.Line.{is_eot-append}

-- A byte that does not close the message.
abbrev pub in_brackets : ℕ → Bool
in_brackets c = not (c == b'}')

bracket_loop_body :
    (i : ℕ) (body rest : Bytes)
    → Every in_brackets body
    → bracket_loop i (body ++ (b'}' ∷ rest))
      ≡ (as_int (i + length body + 1), record { from = 1; size = i + length body - 1 })
unfolding bracket_loop
bracket_loop_body i [] rest h = let e : i + 0 ≡ i = omega arith in rw e
bracket_loop_body i (c ∷ body) rest h =
    let e : (c == b'}') ≡ false = ground arith in
    let k : i + 1 + length body ≡ i + suc (length body) = omega arith in
    rw (e, bracket_loop) (rw (← k) (bracket_loop_body (i + 1) body rest h.1))

decode_bracket_loop :
    (s : Bytes)
    → is_eot s ≡ false
    → 2 < length s
    → opens s ≡ true
    → decode_bracket s ≡ bracket_loop 0 s
unfolding decode_bracket
decode_bracket_loop s e long o =
    let l : leb (length s) 2 ≡ false = ground arith in rw (e, l, o, decode_bracket)

-- Only an opening bracket and two more bytes at least are scanned.
decode_bracket_inv :
    (s : Bytes)
    → is_eot s ≡ false
    → (decode_bracket s).0 ≢ pos 0
    → (2 < length s) × (opens s ≡ true)
decode_bracket_inv s e h = elim (Bool-cases (leb (length s) 2)) [
  | inl short ↦ absurd (h (unfold decode_bracket in rw (e, short, decode_bracket)))
  | inr long ↦ elim (Bool-cases (opens s)) [
    | inl o ↦ (ground arith, o)
    | inr c ↦ absurd (h (unfold decode_bracket in rw (e, long, c, decode_bracket)))
  ]
]

opens-append : (s t : Bytes) → opens s ≡ true → opens (s ++ t) ≡ true
opens-append [] t h = cc
opens-append (c ∷ s) t h = h

-- A message with no closing bracket in it is read back, unless it is empty and nothing follows it:
-- two bytes are never taken for a message.
pub decode-encode_bracket :
    (msg rest : Bytes)
    → Every in_brackets msg
    → 0 < length msg + length rest
    → length (encode_bracket msg ++ rest) < 2 ^ 31
    → decode_bracket (encode_bracket msg ++ rest)
      ≡ (pos (length (encode_bracket msg)), record { from = 1; size = length msg })
unfolding encode_bracket
decode-encode_bracket msg rest h some small =
    ap decode_bracket whole
    ∙ decoded
    ∙ ap₂ (λ n k. (n, record { from = 1; size = k })) scanned counts
  where
    two_or_more : (m : Bytes) → is_eot (b'{' ∷ (m ++ (b'}' ∷ rest))) ≡ false
    two_or_more [] = refl
    two_or_more (c ∷ m) = refl

    whole : b'{' ∷ ((msg ++ b'}' ∷ []) ++ rest) ≡ b'{' ∷ (msg ++ (b'}' ∷ rest))
    whole = ap (◌∷◌ b'{') (append_assoc msg (b'}' ∷ []) rest)

    decoded : decode_bracket (b'{' ∷ (msg ++ (b'}' ∷ rest))) ≡ (
      as_int (0 + length (b'{' ∷ msg) + 1),
      record { from = 1; size = 0 + length (b'{' ∷ msg) - 1 },
    )
    decoded =
        decode_bracket_loop (b'{' ∷ (msg ++ (b'}' ∷ rest))) (two_or_more msg)
          (omega (arith, length-append msg (b'}' ∷ rest))) refl
        ∙ bracket_loop_body 0 (b'{' ∷ msg) rest (refl, h)

    counts : 0 + length (b'{' ∷ msg) - 1 ≡ length msg
    counts = omega arith

    scanned : as_int (0 + length (b'{' ∷ msg) + 1) ≡ pos (length (b'{' ∷ (msg ++ b'}' ∷ [])))
    scanned =
        as_int_small _ (
          omega
            (arith, length-append msg (b'}' ∷ []), length-append (b'{' ∷ (msg ++ b'}' ∷ [])) rest))
        ∙ ap pos (omega (arith, length-append msg (b'}' ∷ [])))

bracket_loop-append :
    (i : ℕ) (s t : Bytes)
    → (bracket_loop i s).0 ≢ pos 0
    → bracket_loop i (s ++ t) ≡ bracket_loop i s
unfolding bracket_loop
bracket_loop-append i [] t h = absurd (h refl)
bracket_loop-append i (c ∷ s) t h = elim (Bool-cases (c == b'}')) [
  | inl end ↦ rw (end, bracket_loop)
  | inr body ↦
      rw (body, bracket_loop) (bracket_loop-append (i + 1) s t (rw (body, bracket_loop) at h))
]

-- An answer other than "not yet" stays the same when more bytes come.
pub decode_bracket-append :
    (s t : Bytes)
    → is_eot s ≡ false
    → (decode_bracket s).0 ≢ pos 0
    → decode_bracket (s ++ t) ≡ decode_bracket s
decode_bracket-append [] t e h = absurd (h (unfold decode_bracket in refl))
decode_bracket-append (c ∷ s) t e h =
    let (long, o) = decode_bracket_inv (c ∷ s) e h in
    let whole : is_eot (c ∷ (s ++ t)) ≡ false = is_eot-append (c ∷ s) t (λ q. cc) e in
    let longer : 2 < length (c ∷ (s ++ t)) = omega (arith, length-append s t) in
    let one = decode_bracket_loop (c ∷ s) e long o in
    decode_bracket_loop (c ∷ (s ++ t)) whole longer o
    ∙ bracket_loop-append 0 (c ∷ s) t (λ z. h (ap (λ (r : ℤ × View). r.0) one ∙ z))
    ∙ sym one

bracket_loop_bounds :
    (i n : ℕ) (s : Bytes) (v : View)
    → 0 < i
    → i + length s < 2 ^ 31
    → bracket_loop i s ≡ (pos (suc n), v)
    → (suc n ≤ i + length s) × (v.from + v.size ≤ n)
unfolding bracket_loop
bracket_loop_bounds i n [] v p small e = absurd (ground arith)
bracket_loop_bounds i n (c ∷ s) v p small e = elim (Bool-cases (c == b'}')) [
  | inl end ↦ ground (arith, as_int_small (i + 1), rw (end, bracket_loop) at e)
  | inr body ↦ omega (
    arith,
    bracket_loop_bounds (i + 1) n s v (omega arith) (omega arith) (rw (body, bracket_loop) at e),
  )
]

pos_suc-ne : (n : ℕ) → pos (suc n) ≢ pos 0
pos_suc-ne n = λ e. ground arith

-- A message lies within the data, before the byte that ends it, and no more is consumed than there is.
pub decode_bracket_bounds :
    (s : Bytes) (n : ℕ) (v : View)
    → length s < 2 ^ 31
    → decode_bracket s ≡ (pos (suc n), v)
    → (suc n ≤ length s) × (v.from + v.size ≤ suc n)
decode_bracket_bounds [] n v small e = absurd (unfold decode_bracket in ground arith)
decode_bracket_bounds (c ∷ s) n v small e = elim (Bool-cases (is_eot (c ∷ s))) [
  | inl lone ↦
      let e' : ◌≡◌ {A = ℤ × View} (pos 1, record { from = 0; size = 1 }) (pos (suc n), v) =
        unfold decode_bracket in (rw (lone, decode_bracket) at e) in
      ground arith
  | inr more ↦
      let (long, o) =
        decode_bracket_inv (c ∷ s) more
          (λ z. pos_suc-ne n (sym (ap (λ (r : ℤ × View). r.0) e) ∙ z)) in
      opened (sym (decode_bracket_loop (c ∷ s) more long o) ∙ e) o
]
  where
    opened :
        bracket_loop 0 (c ∷ s) ≡ (pos (suc n), v)
        → (c == b'{') ≡ true
        → (suc n ≤ suc (length s)) × (v.from + v.size ≤ suc n)
    opened q o =
        let not_closing : (c == b'}') ≡ false = ground arith in
        omega (
          arith,
          bracket_loop_bounds (0 + 1) n s v (omega arith) (omega arith)
              (unfold bracket_loop in (rw (not_closing, bracket_loop) at q)),
        )
