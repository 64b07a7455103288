-- ===== src/Codec/Length.antt =====
-- LengthCodec: what it decodes, against what was encoded, and what a negative length does.
use handy.Base.{
  ℕ, suc, ◌+◌, ◌-◌, ◌*◌, ◌^◌, ◌≤◌, ◌<◌, ◌≡◌, ◌≢◌, refl, sym, ap, ◌∙◌, Bool, true, false, not, ◌||◌,
  ◌∷◌, ◌++◌, Bytes, length, take, arith, ltb, length-append, take-append_le, same_bytes, Bool-cases,
  inl, inr, ◌⊎◌,
}
use handy.Base.Int.{ℤ, pos, negsuc, ◌+ℤ◌, leb_ℤ, as_int, as_int_small, as_size_t}
use handy.Base.Sizes.{size_mod}
use handy.Endian.{htobe32, store32, load32-store32, htobe32-htobe32, htobe32-lt}
use handy.Codec.{View, no_view, magic, decode_sized, length_field, decode_length, encode_length}

-- The longest message that is accepted.
abbrev pub max_length : ℕ
max_length = 1024 * 1024

decode_sized_whole :
    (s : Bytes) (n : ℕ)
    → same_bytes (take 4 s) magic ≡ true
    → n ≤ max_length
    → n + 8 ≤ length s
    → length s < 2 ^ 31
    → decode_sized s (pos n) ≡ (pos (n + 8), record { from = 8; size = n })
unfolding decode_sized as_size_t
decode_sized_whole s n m h k small = ground (arith, as_int_small (length s))

length_field-append : (s t : Bytes) → 8 ≤ length s → length_field (s ++ t) ≡ length_field s
unfolding length_field
length_field-append (_ ∷ _ ∷ _ ∷ _ ∷ _ ∷ _ ∷ _ ∷ _ ∷ s) t h = refl
length_field-append _ t h = absurd (omega arith)

decode_length_sized : (s : Bytes) → 8 ≤ length s → decode_length s ≡ decode_sized s (length_field s)
unfolding decode_length
decode_length_sized s h = let e : ltb (length s) 8 ≡ false = ground arith in rw (e, decode_length)

-- A message of at most 1 MiB is read back, whatever follows it.
pub decode-encode_length :
    (msg rest : Bytes)
    → length msg ≤ max_length
    → length (encode_length msg ++ rest) < 2 ^ 31
    → decode_length (encode_length msg ++ rest)
      ≡ (pos (length (encode_length msg)), record { from = 8; size = length msg })
unfolding encode_length store32
decode-encode_length msg rest h small =
    decode_length_sized s long
    ∙ ap (decode_sized s) field
    ∙ decode_sized_whole s (length msg) (unfold same_bytes in refl) h whole small
    ∙ ap (λ k. (pos k, record { from = 8; size = length msg })) (omega arith)
  where
    s : Bytes
    s = encode_length msg ++ rest

    long : 8 ≤ length s
    long = omega (arith, length-append msg rest)

    whole : length msg + 8 ≤ length s
    whole = omega (arith, length-append msg rest)

    field : length_field s ≡ pos (length msg)
    field =
        unfold length_field in
        (ap as_int (
            ap htobe32 (load32-store32 (htobe32 (length msg)) (htobe32-lt (length msg)))
            ∙ htobe32-htobe32 (length msg) (omega arith))
          ∙ as_int_small (length msg) (omega arith))

leb_ℤ-mono : (x : ℤ) (a b : ℕ) → leb_ℤ x (pos a) ≡ true → a ≤ b → leb_ℤ x (pos b) ≡ true
leb_ℤ-mono (pos n) a b h k = ground arith
leb_ℤ-mono (negsuc n) a b h k = refl

decode_sized-append :
    (s t : Bytes) (len : ℤ)
    → 4 ≤ length s
    → (decode_sized s len).0 ≢ pos 0
    → length (s ++ t) < 2 ^ 31
    → decode_sized (s ++ t) len ≡ decode_sized s len
unfolding decode_sized
decode_sized-append s t len h k small = rw (take-append_le 4 s t h) (elim (Bool-cases bad) [
  | inl refused ↦ rw refused
  | inr fine ↦ rw fine (elim (Bool-cases (leb_ℤ (len +ℤ pos 8) (as_int (length s)))) [
    | inl whole ↦
        let whole' : leb_ℤ (len +ℤ pos 8) (as_int (length (s ++ t))) ≡ true =
          rw (as_int_small _ small) (
            leb_ℤ-mono (len +ℤ pos 8) (length s) (length (s ++ t))
              (rw (as_int_small (length s) (omega (arith, length-append s t))) at whole)
              (omega (arith, length-append s t))) in
        rw (whole, whole')
    | inr partial ↦ absurd (k (rw (fine, partial, decode_sized)))
  ])
])
  where
    bad : Bool
    bad = not (leb_ℤ len (pos max_length)) || not (same_bytes (take 4 s) magic)

-- An answer other than "not yet" stays the same when more bytes come.
pub decode_length-append :
    (s t : Bytes)
    → (decode_length s).0 ≢ pos 0
    → length (s ++ t) < 2 ^ 31
    → decode_length (s ++ t) ≡ decode_length s
decode_length-append s t h small = elim (Bool-cases (ltb (length s) 8)) [
  | inl short ↦ absurd (h (unfold decode_length in rw (short, decode_length)))
  | inr long ↦
      let l : 8 ≤ length s = ground arith in
      let one = decode_length_sized s l in
      decode_length_sized (s ++ t) (omega (arith, length-append s t))
      ∙ ap (decode_sized (s ++ t)) (length_field-append s t l)
      ∙ decode_sized-append s t (length_field s) (omega arith)
          (λ z. h (ap (λ (r : ℤ × View). r.0) one ∙ z)) small
      ∙ sym one
]

decode_sized_bounds :
    (s : Bytes) (len : ℤ) (n : ℕ) (v : View)
    → length s < 2 ^ 31
    → decode_sized s len ≡ (pos (suc n), v)
    → (suc n ≤ length s) × ((v.from + v.size ≡ suc n) ⊎ ((m : ℕ) × (len ≡ negsuc m) × (m < 7)))
unfolding decode_sized as_size_t
decode_sized_bounds s (pos k) n v small e = ground (arith, as_int_small (length s))
decode_sized_bounds s (negsuc k) n v small e =
    let fits : (suc n ≤ length s) × (k < 7) = ground (arith, as_int_small (length s)) in
    (fits.0, inr (k, refl, fits.1))

decode_sized_negative :
    (s : Bytes) (m : ℕ)
    → same_bytes (take 4 s) magic ≡ true
    → 8 ≤ length s
    → length s < 2 ^ 31
    → m < 7
    → decode_sized s (negsuc m) ≡ (pos (7 - m), record { from = 8; size = size_mod - (m + 1) })
unfolding decode_sized as_size_t
decode_sized_negative s m h k small l = ground (arith, as_int_small (length s))

-- No more is consumed than there is; a message whose length field is not negative lies within what
-- is consumed.
pub decode_length_bounds :
    (s : Bytes) (n : ℕ) (v : View)
    → length s < 2 ^ 31
    → decode_length s ≡ (pos (suc n), v)
    → (suc n ≤ length s)
      × ((v.from + v.size ≡ suc n) ⊎ ((m : ℕ) × (length_field s ≡ negsuc m) × (m < 7)))
decode_length_bounds s n v small e = elim (Bool-cases (ltb (length s) 8)) [
  | inl short ↦
      let e' : ◌≡◌ {A = ℤ × View} (pos 0, no_view) (pos (suc n), v) =
        unfold decode_length in (rw (short, decode_length) at e) in
      absurd (ground arith)
  | inr long ↦
      decode_sized_bounds s (length_field s) n v small
        (sym (decode_length_sized s (ground arith)) ∙ e)
]

-- A length from -7 to -1 passes the tests: some of the header's own bytes are consumed, and the
-- message is a slice of almost 2 ^ 64 bytes.
pub decode_length_negative :
    (s : Bytes) (m : ℕ)
    → same_bytes (take 4 s) magic ≡ true
    → 8 ≤ length s
    → length s < 2 ^ 31
    → length_field s ≡ negsuc m
    → m < 7
    → decode_length s ≡ (pos (7 - m), record { from = 8; size = size_mod - (m + 1) })
decode_length_negative s m h k small e l =
    decode_length_sized s k ∙ ap (decode_sized s) e ∙ decode_sized_negative s m h k small l
