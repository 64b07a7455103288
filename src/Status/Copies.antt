-- ===== src/Status/Copies.antt =====
-- handy/status.h: what a status gives back, also from a copy.
use mathlib.Core.Option
use handy.Base.{
  ℕ, zero, suc, ◌+◌, ◌-◌, ◌%◌, ◌^◌, ◌<◌, ◌≡◌, refl, ap, ◌∙◌, false, none, some, [], ◌∷◌, ◌++◌,
  arith, ltb, Bytes, length, take, length-append, take-all,
}
use handy.Base.Int.{ℤ, pos, negsuc, as_int}
use handy.Endian.{store32, load32-store32}
use handy.Status.{
  read_word, code_word, new_status, from_format, copy_state, copy, code, c_string, msg,
}

pub read_word-store32 : (w : ℕ) (rest : Bytes) → w < 2 ^ 32 → read_word (store32 w ++ rest) ≡ w
unfolding read_word store32
read_word-store32 w rest h = load32-store32 w h

-- an int
unfoldable pub IsInt : ℤ → Type 0
IsInt (pos n) = n < 2 ^ 31
IsInt (negsuc n) = n < 2 ^ 31

pub as_int-code_word : (c : ℤ) → IsInt c → as_int (code_word c) ≡ c
unfolding IsInt as_int
as_int-code_word (pos n) h = ground arith
as_int-code_word (negsuc n) h =
    let w : ℕ = 2 ^ 32 - 1 - n % 2 ^ 32 in
    let high : ltb (w % 2 ^ 32) (2 ^ 31) ≡ false = ground arith in
    let e : 2 ^ 32 - w % 2 ^ 32 - 1 ≡ n = omega arith in rw (high, e) refl

pub code_word_lt : (c : ℤ) → code_word c < 2 ^ 32
code_word_lt (pos n) = omega arith
code_word_lt (negsuc n) = omega arith

-- No byte ends the text early.
unfoldable pub IsText : Bytes → Type 0
IsText [] = Unit
IsText (zero ∷ cs) = ⊥
IsText (suc c ∷ cs) = IsText cs

c_string-text : (text : Bytes) → IsText text → c_string (text ++ 0 ∷ []) ≡ some text
unfolding c_string IsText
c_string-text [] h = refl
c_string-text (zero ∷ cs) h = absurd h
c_string-text (suc c ∷ cs) h = ap (Option.map (λ rest. suc c ∷ rest)) (c_string-text cs h)

c_string-none : (text : Bytes) → IsText text → c_string text ≡ none
unfolding c_string IsText
c_string-none [] h = refl
c_string-none (zero ∷ cs) h = absurd h
c_string-none (suc c ∷ cs) h = ap (Option.map (λ rest. suc c ∷ rest)) (c_string-none cs h)

-- A copy of a block that says its own length is the block.
copy_block :
    (n : ℕ) (rest : Bytes)
    → n < 2 ^ 32
    → n ≡ length (store32 n ++ rest)
    → copy_state (some (store32 n ++ rest)) ≡ some (store32 n ++ rest)
unfolding copy_state
copy_block n rest h whole = ap some (
    ap (λ k. take k (store32 n ++ rest)) (read_word-store32 n rest h)
    ∙ take-all n (store32 n ++ rest) (omega (arith, whole)))

copy-from_format :
    (c : ℤ) (text : Bytes)
    → length text + 9 < 2 ^ 32
    → copy (from_format c text) ≡ from_format c text
unfolding copy from_format
copy-from_format c text h =
    let n = (8 + length text + 1) % 2 ^ 32 in
    ap (λ b. record { block = b })
      (copy_block n (store32 (code_word c) ++ (text ++ 0 ∷ [])) (omega arith)
        (omega (arith, h, length-append text (0 ∷ []))))

pub code-from_format : (c : ℤ) (text : Bytes) → IsInt c → code (from_format c text) ≡ c
unfolding code from_format store32
code-from_format c text int =
    ap as_int (read_word-store32 (code_word c) (text ++ 0 ∷ []) (code_word_lt c))
    ∙ as_int-code_word c int

pub msg-from_format : (c : ℤ) (text : Bytes) → IsText text → msg (from_format c text) ≡ some text
unfolding msg from_format store32
msg-from_format c text ends = c_string-text text ends

-- A status made by fromFormat gives its code and its text back, also from a copy and from a copy of
-- that, where the text has no byte that is 0 and less than 2 ^ 32 - 9 bytes, and the code is an int.
pub from_format_lem :
    (c : ℤ) (text : Bytes)
    → IsInt c
    → IsText text
    → length text + 9 < 2 ^ 32
    → (copy (from_format c text) ≡ from_format c text)
      × (code (copy (from_format c text)) ≡ c)
      × (msg (copy (from_format c text)) ≡ some text)
unfolding code msg from_format store32
from_format_lem c text int ends short =
    let same = copy-from_format c text short in
    (same, ap code same ∙ code-from_format c text int, ap msg same ∙ msg-from_format c text ends)

-- A status made from a code and a message keeps the code, but its block has no byte that ends the
-- message: reading the message runs out of the block.
pub new_status_lem :
    (c : ℤ) (m : Bytes)
    → IsInt c
    → IsText m
    → (code (new_status c m) ≡ c) × (msg (new_status c m) ≡ none)
unfolding code msg new_status store32
new_status_lem c m int ends = (
  ap as_int (read_word-store32 (code_word c) m (code_word_lt c)) ∙ as_int-code_word c int,
  c_string-none m ends,
)
