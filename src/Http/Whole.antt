-- ===== src/Http/Whole.antt =====
-- handy/http.cc: tryDecode_ on a whole message.
use handy.Base.{
  ℕ, ◌+◌, ◌%◌, ◌^◌, ◌≤◌, ◌<◌, ◌≡◌, inl, inr, refl, sym, ap, ◌∙◌, Bool, true, false, [], ◌∷◌, ◌++◌,
  append_assoc, arith, ltb, leb, ◌==◌, if◌then◌else◌, Bool-cases, Bytes, length, take, drop, All,
  length-append, take-append, drop-append,
}
use handy.Base.Scan.{Every}
use handy.Base.Sizes.{size_mod}
use handy.Base.Int.{as_size_t}
use handy.Slice.{in_line}
use handy.Slice.Words.{eat_line-append}
use handy.Http.{
  Pairs, Result, complete, HttpMsg, clear, get_value, content_length, crlf, atoi, scan, header_done,
  take_header, take_body, try_decode_msg,
}
use handy.Http.Request.{show_digits}
use handy.Http.Numbers.{atoi-show_digits}
use handy.Http.Headers.{joined, IsHeader, received, header_loop-joined, length-joined}
use handy.Http.Scanning.{scan-message}

-- What has been decoded of a message that takes `total` bytes.
unfoldable pub finished : ℕ → Bytes → Bool → Pairs → HttpMsg
unfolding clear
finished total body copy_body headers = record clear {
  headers = headers;
  body = if copy_body then body else [];
  body2 = if copy_body then [] else body;
  done = true;
  content_len = length body;
  scanned = total;
}

-- The body behind the empty line.
take_body-whole :
    (head body rest : Bytes) (copy_body : Bool) (headers : Pairs)
    → length head + 4 + length body < size_mod
    → length body < 2 ^ 31
    → take_body
        (head ++ (crlf ++ (crlf ++ (body ++ rest))))
        copy_body
        (record clear { headers = headers; scanned = length head + 4; content_len = length body })
      ≡ (complete, finished (length head + 4 + length body) body copy_body headers)
unfolding take_body clear finished
take_body-whole head body rest copy_body headers fits short =
    let buf = head ++ (crlf ++ (crlf ++ (body ++ rest))) in
    let n = length head + 4 in
    let size = length-append head (crlf ++ (crlf ++ (body ++ rest))) in
    let there : leb ((length body + n) % size_mod) (length buf) ≡ true =
      ground (arith, size, length-append body rest, fits) in
    let small : leb (2 ^ 63) (length body) ≡ false = ground arith in
    let piece : take (length body) (drop n buf) ≡ body =
      ap (take (length body)) (
        ap (λ s. drop n s) (sym (append_assoc head (crlf ++ crlf) (body ++ rest)))
        ∙ drop-append n (head ++ (crlf ++ crlf)) (body ++ rest)
            (omega (arith, length-append head (crlf ++ crlf))))
      ∙ take-append (length body) body rest refl in
    let total : (n + length body) % size_mod ≡ n + length body = omega (arith, fits) in
    rw there elim (Bool-cases copy_body) [
      | inl e ↦ rw (e, small, piece, total) refl
      | inr e ↦ rw (e, piece, total) refl
    ]

-- The header's map gives the length of the body.
unfoldable pub Tells : Pairs → Bytes → Type 0
Tells headers body =
    (get_value headers content_length ≡ show_digits 20 (length body)) × (length body < 2 ^ 31)

header_done-whole :
    (head body rest : Bytes) (copy_body : Bool) (headers : Pairs)
    → length head + 4 + length body < size_mod
    → Tells headers body
    → header_done
        (head ++ (crlf ++ (crlf ++ (body ++ rest))))
        copy_body
        headers
        (record clear { scanned = length head })
      ≡ (complete, finished (length head + 4 + length body) body copy_body headers)
unfolding header_done clear Tells
header_done-whole head body rest copy_body headers fits (told, short) =
    let buf = head ++ (crlf ++ (crlf ++ (body ++ rest))) in
    let n = length head + 4 in
    let size = length-append head (crlf ++ (crlf ++ (body ++ rest))) in
    let len : as_size_t (atoi (get_value headers content_length)) ≡ length body =
      ap (λ s. as_size_t (atoi s)) told
      ∙ ap as_size_t (atoi-show_digits (length body) short)
      ∙ (unfold as_size_t in omega (arith, short)) in
    let there : ltb (length buf) ((length body + n) % size_mod) ≡ false =
      ground (arith, size, length-append body rest, fits) in
    rw (len, there) (take_body-whole head body rest copy_body headers fits short)

-- A message whose first line has `a` and `b` behind it: its header, and what follows.
abbrev pub head_of : Bytes → ℕ → ℕ → Pairs → Bytes
head_of first a b hs = first ++ (a ∷ b ∷ joined hs)

take_header-whole :
    (first body rest : Bytes) (a b : ℕ) (copy_body : Bool) (h : Bytes × Bytes) (hs : Pairs)
    → let head = head_of first a b (h ∷ hs) in
      Every in_line first
      → in_line a ≡ false
      → All IsHeader (h ∷ hs)
      → length head + 4 + length body < size_mod
      → Tells (received [] (h ∷ hs)) body
      → take_header
          (head ++ (crlf ++ (crlf ++ (body ++ rest))))
          copy_body
          head
          (record clear { scanned = length head })
        ≡ (
          (
            complete,
            finished (length head + 4 + length body) body copy_body (received [] (h ∷ hs)),
          ),
          first,
        )
unfolding take_header clear
take_header-whole first body rest a b copy_body h hs line ends good fits tells =
    let head = head_of first a b (h ∷ hs) in
    let J = a ∷ b ∷ joined (h ∷ hs) in
    let enough : length (h ∷ hs) ≤ length J = omega (arith, length-joined (h ∷ hs)) in
    let whole = header_loop-joined (length J) [] a b h hs good enough in
    let done = header_done-whole head body rest copy_body (received [] (h ∷ hs)) fits tells in
    rw (eat_line-append first J line ends) (rw whole (ap (λ r. (r, first)) done))

found_at :
    (buf head : Bytes) (copy_body : Bool) (r : (Result × HttpMsg) × Bytes)
    → scan 0 buf ≡ (length head, true)
    → 0 < length head
    → take (length head) buf ≡ head
    → take_header buf copy_body head (record clear { scanned = length head }) ≡ r
    → try_decode_msg buf copy_body clear ≡ r
unfolding try_decode_msg clear
found_at buf head copy_body r found long cut rest =
    let some : (length head == 0) ≡ false = ground arith in rw (found, some, cut) rest

pub try_decode_msg-whole :
    (first body rest : Bytes) (a b : ℕ) (copy_body : Bool) (h : Bytes × Bytes) (hs : Pairs)
    → let head = head_of first a b (h ∷ hs) in
      Every in_line first
      → in_line a ≡ false
      → (b == b'\r') ≡ false
      → All IsHeader (h ∷ hs)
      → length head + 4 + length body < size_mod
      → Tells (received [] (h ∷ hs)) body
      → try_decode_msg (head ++ (crlf ++ (crlf ++ (body ++ rest)))) copy_body clear ≡ (
        (complete, finished (length head + 4 + length body) body copy_body (received [] (h ∷ hs))),
        first,
      )
try_decode_msg-whole first body rest a b copy_body h hs line ends no_cr good fits tells =
    let head = head_of first a b (h ∷ hs) in
    let J = a ∷ b ∷ joined (h ∷ hs) in
    let tail = crlf ++ (crlf ++ (body ++ rest)) in
    found_at (head ++ tail) head copy_body _
      (ap (scan 0) (append_assoc first J tail)
        ∙ scan-message first a b h hs (body ++ rest) line no_cr good)
      (omega (arith, length-append first J)) (take-append (length head) head tail refl)
      (take_header-whole first body rest a b copy_body h hs line ends good fits tells)
