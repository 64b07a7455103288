-- ===== src/Http/RoundTrip.antt =====
-- handy/http.cc: encoded messages, decoded.
pub mod Responses
pub mod Requests
use mathlib.Core.Option
use mathlib.Core.Path.{ap₂}
use handy.Base.{
  ℕ, zero, suc, ◌+◌, ◌-◌, ◌*◌, ◌/◌, ◌%◌, ◌^◌, ◌≤◌, ◌<◌, min, max, ◌≡◌, ◌≢◌, ◌↔◌, ◌⊎◌, inl, inr,
  refl, sym, ap, ◌∙◌, subst, Bool, true, false, not, ◌&&◌, ◌||◌, Option, none, some, List, [], ◌∷◌,
  ◌++◌, map, reverse, append-nil, append_assoc, arith, ltb, leb, ◌==◌, if◌then◌else◌, ltb→lt,
  lt→ltb, leb→le, ==_iff, ==_self, Bool-cases, ℕ-cases, List-cases, Option-cases, if_cases, Bytes,
  codes, length, take, drop, get_elem?, All, length-append, length-take, length-drop,
  take-append-drop, take-all, drop-all, take-append, drop-append, take-append_le, drop-append_le,
  take-append_ge, drop-drop, take-drop, same_bytes, same_bytes_iff,
}
use handy.Base.Scan.{passes, passes-Every, Every, Stops, passes-Every}
use handy.Base.Sizes.{size_mod}
use handy.Base.Int.{ℤ, pos, negsuc, as_int, as_size_t}
use handy.Slice.{is_space, is_word, in_line, eat_line}
use handy.Slice.Words.{eat_line-append, trim_space-word}
use handy.Conf.{to_lower, is_empty}
use handy.Http.{
  Pairs, Result, complete, HttpMsg, clear, get_body, get_value, content_length, crlf, atoi,
  try_decode_msg, is_digit, assign,
}
use handy.Http.Request.{show_digits, show_headers, show_rest, keep_alive, length_name}
use handy.Http.Numbers.{length-show_digits, atoi-show_digits, show_digits-Every}
use handy.Http.Headers.{
  header_line, joined, IsHeader, received, header_loop-joined, length-joined, show_headers-joined,
  get_value-assign,
}
use handy.Http.Whole.{finished, Tells, head_of, try_decode_msg-whole}

-- The headers that encode writes itself.
abbrev pub standard : Bytes → Pairs
standard body =
    (codes "Connection", codes "Keep-Alive")
    ∷ (codes "Content-Length", show_digits 20 (length body))
    ∷ []

-- A message that can be sent: its headers stand in a line each, and its body has less than 2 ^ 31 bytes.
unfoldable pub IsSendable : HttpMsg → Type 0
IsSendable m = All IsHeader m.headers × (length (get_body m) < 2 ^ 31)

-- The headers that are received for it.
abbrev pub received_headers : HttpMsg → Pairs
received_headers m = received [] (m.headers ++ standard (get_body m))

show_headers-append : (xs ys : Pairs) → show_headers (xs ++ ys) ≡ show_headers xs ++ show_headers ys
unfolding show_headers
show_headers-append [] ys = refl
show_headers-append ((k, v) ∷ xs) ys =
    ap (λ s. k ++ b':' ∷ b' ' ∷ (v ++ (crlf ++ s))) (show_headers-append xs ys) ∙ simp append_assoc

show_standard :
    (body t : Bytes)
    → show_headers (standard body) ++ t
      ≡ keep_alive ++ (length_name ++ (show_digits 20 (length body) ++ (crlf ++ t)))
unfolding show_headers
show_standard body t = simp append_assoc

show_rest-joined :
    (m : HttpMsg) (h : Bytes × Bytes) (hs : Pairs) (rest : Bytes)
    → m.headers ++ standard (get_body m) ≡ h ∷ hs
    → show_rest m ++ rest ≡ joined (h ∷ hs) ++ (crlf ++ (crlf ++ (get_body m ++ rest)))
unfolding show_rest
show_rest-joined m h hs rest e =
    let body = get_body m in
    let text = show_headers m.headers in
    let shown : text ++ show_headers (standard body) ≡ joined (h ∷ hs) ++ crlf =
      sym (show_headers-append m.headers (standard body))
      ∙ ap show_headers e
      ∙ show_headers-joined h hs in
    append_assoc text _ rest
    ∙ ap (λ s. text ++ s) (sym (show_standard body (crlf ++ (body ++ rest)) ∙ simp append_assoc))
    ∙ sym (append_assoc text (show_headers (standard body)) (crlf ++ (body ++ rest)))
    ∙ ap (λ s. s ++ (crlf ++ (body ++ rest))) shown
    ∙ append_assoc (joined (h ∷ hs)) crlf (crlf ++ (body ++ rest))

received-append :
    (headers xs ys : Pairs) → received headers (xs ++ ys) ≡ received (received headers xs) ys
received-append headers [] ys = refl
received-append headers ((k, v) ∷ xs) ys = received-append (assign (map to_lower k) v headers) xs ys

digits-word : (s : Bytes) → Every is_digit s → Every is_word s
digits-word [] h = tt
digits-word (c ∷ s) h = (unfold is_space in ground (arith, h.0), digits-word s h.1)

digits-in_line : (s : Bytes) → Every is_digit s → Every in_line s
digits-in_line [] h = tt
digits-in_line (c ∷ s) h = (unfold in_line in ground (arith, h.0), digits-in_line s h.1)

has_bytes : (s : Bytes) → 1 ≤ length s → is_empty s ≡ false
has_bytes [] h = absurd (omega arith)
has_bytes (c ∷ s) h = refl

standard-IsHeader : (body : Bytes) → All IsHeader (standard body)
unfolding IsHeader
standard-IsHeader body =
    let digits = show_digits-Every 20 (length body) in
    let text = show_digits 20 (length body) in
    (
      (
        passes-Every is_word (codes "Connection") (unfold passes in unfold is_space in refl),
        (
          passes-Every in_line (codes "Keep-Alive") (unfold passes in unfold in_line in refl),
          (
            trim_space-word (codes "Keep-Alive") (
                passes-Every is_word (codes "Keep-Alive")
                  (unfold passes in unfold is_space in refl)),
            refl,
          ),
        ),
      ),
      (
        (
          passes-Every is_word (codes "Content-Length") (unfold passes in unfold is_space in refl),
          (
            digits-in_line text digits,
            (
              trim_space-word text (digits-word text digits),
              has_bytes text (length-show_digits 19 (length body)),
            ),
          ),
        ),
        tt,
      ),
    )

Tells-received : (m : HttpMsg) → IsSendable m → Tells (received_headers m) (get_body m)
unfolding Tells IsSendable
Tells-received m (good, short) =
    let text = show_digits 20 (length (get_body m)) in
    let before =
      assign (map to_lower (codes "Connection")) (codes "Keep-Alive") (received [] m.headers) in
    (
      ap (λ hs. get_value hs content_length) (received-append [] m.headers (standard (get_body m)))
          ∙ (unfold to_lower in get_value-assign content_length text before),
      short,
    )

All-append : (xs ys : Pairs) → All IsHeader xs → All IsHeader ys → All IsHeader (xs ++ ys)
All-append [] ys h g = g
All-append (x ∷ xs) ys h g = (h.0, All-append xs ys h.1 g)

sent-IsHeader : (m : HttpMsg) → IsSendable m → All IsHeader (m.headers ++ standard (get_body m))
unfolding IsSendable
sent-IsHeader m (good, short) =
    All-append m.headers (standard (get_body m)) good (standard-IsHeader (get_body m))

first_of :
    (xs : Pairs) (y : Bytes × Bytes) (ys : Pairs)
    → (h : Bytes × Bytes) × ((hs : Pairs) × (xs ++ y ∷ ys ≡ h ∷ hs))
first_of [] y ys = (y, (ys, refl))
first_of (x ∷ xs) y ys = (x, (xs ++ y ∷ ys, refl))

-- A first line that is decoded with what show_rest puts behind it.
pub IsFirst : Bytes → ℕ → ℕ → Type 0
IsFirst first a b = Every in_line first × ((in_line a ≡ false) × ((b == b'\r') ≡ false))

whole_text :
    (m : HttpMsg) (first : Bytes) (a b : ℕ) (h : Bytes × Bytes) (hs : Pairs)
    → m.headers ++ standard (get_body m) ≡ h ∷ hs
    → (t : Bytes)
    → (first ++ (a ∷ b ∷ show_rest m)) ++ t
      ≡ head_of first a b (h ∷ hs) ++ (crlf ++ (crlf ++ (get_body m ++ t)))
whole_text m first a b h hs e t =
    append_assoc first (a ∷ b ∷ show_rest m) t
    ∙ ap (λ s. first ++ (a ∷ b ∷ s)) (show_rest-joined m h hs t e)
    ∙ sym (append_assoc first (a ∷ b ∷ joined (h ∷ hs)) (crlf ++ (crlf ++ (get_body m ++ t))))

decode_joined :
    (m : HttpMsg) (first rest : Bytes) (a b : ℕ) (copy_body : Bool) (h : Bytes × Bytes) (hs : Pairs)
    → m.headers ++ standard (get_body m) ≡ h ∷ hs
    → IsSendable m
    → IsFirst first a b
    → length (first ++ (a ∷ b ∷ show_rest m)) < size_mod
    → try_decode_msg ((first ++ (a ∷ b ∷ show_rest m)) ++ rest) copy_body clear ≡ (
      (
        complete,
        finished
            (length (first ++ (a ∷ b ∷ show_rest m)))
            (get_body m)
            copy_body
            (received_headers m),
      ),
      first,
    )
unfolding IsFirst
decode_joined m first rest a b copy_body h hs e good (line, (ends, no_cr)) fits =
    let body = get_body m in
    let text = a ∷ b ∷ show_rest m in
    let shown = whole_text m first a b h hs e in
    let total : length (first ++ text) ≡ length (head_of first a b (h ∷ hs)) + 4 + length body =
      ap length (sym (append-nil (first ++ text)) ∙ shown [])
      ∙ omega (
        arith,
        length-append (head_of first a b (h ∷ hs)) (crlf ++ (crlf ++ (body ++ []))),
        length-append body [],
      ) in
    let whole =
      try_decode_msg-whole first body rest a b copy_body h hs line ends no_cr
        (subst (All IsHeader) e (sent-IsHeader m good)) (omega (arith, fits, total))
        (subst (λ l. Tells (received [] l) body) e (Tells-received m good)) in
    ap (λ s. try_decode_msg s copy_body clear) (shown rest)
    ∙ whole
    ∙ sym (ap₂ (λ n l. ((complete, finished n body copy_body (received [] l)), first)) total e)

pub decode_shown :
    (m : HttpMsg) (first rest : Bytes) (a b : ℕ) (copy_body : Bool)
    → IsSendable m
    → IsFirst first a b
    → length (first ++ (a ∷ b ∷ show_rest m)) < size_mod
    → try_decode_msg ((first ++ (a ∷ b ∷ show_rest m)) ++ rest) copy_body clear ≡ (
      (
        complete,
        finished
            (length (first ++ (a ∷ b ∷ show_rest m)))
            (get_body m)
            copy_body
            (received_headers m),
      ),
      first,
    )
decode_shown m first rest a b copy_body good line fits =
    let (h, (hs, e)) = first_of m.headers _ _ in
    decode_joined m first rest a b copy_body h hs e good line fits
