-- ===== src/Http/Headers.antt =====
-- handy/http.cc: headers in their map, and as lines of text.
use handy.Base.{
  ℕ, zero, suc, ◌-◌, ◌≤◌, ◌≡◌, inl, inr, refl, sym, ap, ◌∙◌, Bool, true, false, not, ◌&&◌, [], ◌∷◌,
  ◌++◌, map, append-nil, append_assoc, arith, if◌then◌else◌, Bool-cases, Bytes, length, take, All,
  length-append, take-append, same_bytes, same_bytes_iff,
}
use handy.Slice.{less, is_space, is_word, in_line, eat_word, trim_space}
use handy.Base.Scan.{Every, Stops, drop_while}
use handy.Slice.Words.{eat_word-append, eat_line-append}
use handy.Conf.{to_lower, is_empty}
use handy.Http.{Pairs, assign, get_value, crlf, ends_colon, header_loop}
use handy.Http.Request.{show_headers}

pub same_self : (bs : Bytes) → same_bytes bs bs ≡ true
same_self bs = (same_bytes_iff bs bs).1 refl

pub get_value-assign : (k v : Bytes) (m : Pairs) → get_value (assign k v m) k ≡ v
unfolding get_value assign
get_value-assign k v [] = rw (same_self k) refl
get_value-assign k v ((j, w) ∷ m) = elim (Bool-cases (same_bytes k j)) [
  | inl e ↦ rw (e, e) refl
  | inr e ↦ elim (Bool-cases (less k j)) [
    | inl h ↦ rw (e, h, same_self k) refl
    | inr h ↦ rw (e, h) (rw e (get_value-assign k v m))
  ]
]

-- A line of a header.
abbrev pub header_line : Bytes → Bytes → Bytes
header_line k v = k ++ b':' ∷ b' ' ∷ v

-- The lines as show_headers puts them, without the end of the last one.
abbrev pub joined : Pairs → Bytes
joined [] = []
joined ((k, v) ∷ []) = header_line k v
joined ((k, v) ∷ h ∷ hs) = header_line k v ++ (crlf ++ joined (h ∷ hs))

-- A header that stands in one line and is not changed when it is read, but for the case of its name.
unfoldable pub IsHeader : Bytes × Bytes → Type 0
IsHeader (k, v) = Every is_word k × (Every in_line v × ((trim_space v ≡ v) × (is_empty v ≡ false)))

-- The map after the headers have been read into it.
abbrev pub received : Pairs → Pairs → Pairs
received headers [] = headers
received headers ((k, v) ∷ hs) = received (assign (map to_lower k) v headers) hs

pub show_headers-joined :
    (h : Bytes × Bytes) (hs : Pairs) → show_headers (h ∷ hs) ≡ joined (h ∷ hs) ++ crlf
unfolding show_headers
show_headers-joined (k, v) [] = simp append_assoc
show_headers-joined (k, v) (h ∷ hs) =
    ap (λ s. k ++ b':' ∷ b' ' ∷ (v ++ (crlf ++ s))) (show_headers-joined h hs) ∙ simp append_assoc

pub word-in_line : (c : ℕ) → is_word c ≡ true → in_line c ≡ true
unfolding in_line is_space
word-in_line c h = ground arith

pub line-in_line :
    (k v : Bytes) → Every is_word k → Every in_line v → Every in_line (header_line k v)
unfolding in_line
line-in_line [] v h g = (refl, (refl, g))
line-in_line (c ∷ k) v h g = (word-in_line c h.0, line-in_line k v h.1 g)

ends_colon-word : (k : Bytes) → ends_colon (k ++ b':' ∷ []) ≡ true
unfolding ends_colon
ends_colon-word [] = refl
ends_colon-word (c ∷ []) = refl
ends_colon-word (c ∷ d ∷ k) = ends_colon-word (d ∷ k)

colon-word : (k : Bytes) → Every is_word k → Every is_word (k ++ b':' ∷ [])
unfolding is_space
colon-word [] h = (refl, tt)
colon-word (c ∷ k) h = (h.0, colon-word k h.1)

-- A word that begins with `c`, perhaps behind a space.
pub eat_word-stop :
    (pre : Bytes) (c : ℕ) (s rest : Bytes)
    → Every is_space pre
    → Every is_word (c ∷ s)
    → Stops is_word rest
    → eat_word (pre ++ (c ∷ (s ++ rest))) ≡ (c ∷ s, rest)
eat_word-stop pre c s rest spaces h e = eat_word-append pre (c ∷ s) rest spaces (λ z. cc z) h e

eat_word-name :
    (k v : Bytes) → Every is_word k → eat_word (header_line k v) ≡ (k ++ b':' ∷ [], b' ' ∷ v)
unfolding is_space
eat_word-name [] v h = eat_word-stop [] b':' [] (b' ' ∷ v) tt (refl, tt) refl
eat_word-name (c ∷ k) v h =
    ap (λ s. eat_word (c ∷ s)) (sym (append_assoc k (b':' ∷ []) (b' ' ∷ v)))
    ∙ eat_word-stop [] c (k ++ b':' ∷ []) (b' ' ∷ v) tt (colon-word (c ∷ k) h) refl

length-name : (k : Bytes) → take (length (k ++ b':' ∷ []) - 1) (k ++ b':' ∷ []) ≡ k
length-name k =
    take-append (length (k ++ b':' ∷ []) - 1) k (b':' ∷ [])
      (omega (arith, length-append k (b':' ∷ [])))

skip_trim : (t : Bytes) → trim_space (b' ' ∷ t) ≡ trim_space t
unfolding trim_space drop_while is_space
skip_trim t = refl

pub trim_behind_space : (v : Bytes) → trim_space v ≡ v → trim_space (b' ' ∷ v) ≡ v
trim_behind_space v h = skip_trim v ∙ h

-- The loop behind the first word of a line.
abbrev behind_word : ℕ → Pairs → Bytes → Bytes × Bytes → Pairs × Bool
behind_word fuel headers rest (k, value) =
    let ln = trim_space value in
    let name = map to_lower (take (length k - 1) k) in
    let more = header_loop fuel (assign name ln headers) rest in
    if not (is_empty ln) && ends_colon k
    then more
    else (headers, is_empty k && is_empty ln && is_empty rest)

header_loop-line :
    (fuel : ℕ) (headers : Pairs) (a b : ℕ) (k v rest : Bytes)
    → IsHeader (k, v)
    → Stops in_line rest
    → header_loop (suc fuel) headers (a ∷ b ∷ (header_line k v ++ rest))
      ≡ header_loop fuel (assign (map to_lower k) v headers) rest
unfolding header_loop IsHeader
header_loop-line fuel headers a b k v rest (word, (line, (trimmed, has))) stops =
    ap (λ l. behind_word fuel headers l.1 (eat_word l.0))
      (eat_line-append (header_line k v) rest (line-in_line k v word line) stops)
    ∙ ap (behind_word fuel headers rest) (eat_word-name k v word)
    ∙ rw (trim_behind_space v trimmed, has, ends_colon-word k)
        (ap (λ n. header_loop fuel (assign (map to_lower n) v headers) rest) (length-name k))

pub header_loop-joined :
    (fuel : ℕ) (headers : Pairs) (a b : ℕ) (h : Bytes × Bytes) (hs : Pairs)
    → All IsHeader (h ∷ hs)
    → length (h ∷ hs) ≤ fuel
    → header_loop fuel headers (a ∷ b ∷ joined (h ∷ hs)) ≡ (received headers (h ∷ hs), true)
unfolding header_loop
header_loop-joined zero headers a b h hs good enough = absurd (omega arith)
header_loop-joined (suc fuel) headers a b (k, v) [] good enough =
    ap (λ s. header_loop (suc fuel) headers (a ∷ b ∷ s)) (sym (append-nil (header_line k v)))
    ∙ header_loop-line fuel headers a b k v [] good.0 tt
header_loop-joined (suc fuel) headers a b (k, v) (h ∷ hs) good enough =
    header_loop-line fuel headers a b k v (crlf ++ joined (h ∷ hs)) good.0 (unfold in_line in refl)
    ∙ header_loop-joined fuel (assign (map to_lower k) v headers) b'\r' b'\n' h hs good.1
        (omega (arith, enough))

pub length-joined : (hs : Pairs) → length hs ≤ length (joined hs)
length-joined [] = omega arith
length-joined ((k, v) ∷ []) = omega (arith, length-append k (b':' ∷ b' ' ∷ v))
length-joined ((k, v) ∷ h ∷ hs) = omega (
  arith,
  length-append (header_line k v) (crlf ++ joined (h ∷ hs)),
  length-append k (b':' ∷ b' ' ∷ v),
  length-joined (h ∷ hs),
)
