-- ===== src/Http/RoundTrip/Responses.antt =====
-- handy/http.cc: an encoded response, decoded.
use mathlib.Core.Path.{ap₂}
use handy.Base.{
  ℕ, ◌+◌, ◌-◌, ◌^◌, ◌≤◌, ◌<◌, ◌≡◌, ◌≢◌, refl, ap, ◌∙◌, subst, Bool, false, [], ◌∷◌, ◌++◌,
  append_assoc, arith, Bytes, length, take, drop, length-append, take-all, drop-append,
}
use handy.Base.Scan.{Every}
use handy.Base.Sizes.{size_mod}
use handy.Base.Int.{pos}
use handy.Slice.{is_space, is_word, in_line, eat_word, trim_space}
use handy.Slice.Words.{eat_word-append}
use handy.Conf.{is_empty}
use handy.Http.{complete, HttpMsg, clear, get_body, crlf, atoi, try_decode_msg}
use handy.Http.Request.{
  HttpResponse, clear_response, show_digits, show_int, show_rest, printed, encode_response,
  try_decode_response,
}
use handy.Http.Numbers.{length-show_digits, show_digits-Every, atoi-show_append}
use handy.Http.Headers.{trim_behind_space, word-in_line}
use handy.Http.Whole.{finished}
use handy.Http.RoundTrip.{IsSendable, IsFirst, received_headers, decode_shown, digits-word}

-- At least one byte, and no spaces.
abbrev pub IsWord : Bytes → Type 0
IsWord [] = ⊥
IsWord (c ∷ cs) = Every is_word (c ∷ cs)

pub not_nil : (w : Bytes) → IsWord w → w ≢ []
not_nil [] h = absurd h
not_nil (c ∷ cs) h = λ e. cc e

pub word : (w : Bytes) → IsWord w → Every is_word w
word [] h = absurd h
word (c ∷ cs) h = h

-- The words of a response in its first line.
abbrev response_line : Bytes → ℕ → Bytes → Bytes
response_line v n sw = v ++ b' ' ∷ (show_digits 20 n ++ b' ' ∷ sw)

digits-IsWord : (n : ℕ) → IsWord (show_digits 20 n)
digits-IsWord n =
    nonempty (show_digits 20 n) (length-show_digits 19 n)
      (digits-word (show_digits 20 n) (show_digits-Every 20 n))
  where
    nonempty : (s : Bytes) → 1 ≤ length s → Every is_word s → IsWord s
    nonempty [] h g = absurd (omega arith)
    nonempty (c ∷ cs) h g = g

-- From the first line of a response to its fields.
behind_message :
    (buf line v l1 code l2 : Bytes) (copy_body : Bool) (m : HttpMsg)
    → try_decode_msg buf copy_body clear ≡ ((complete, m), line)
    → is_empty line ≡ false
    → eat_word line ≡ (v, l1)
    → eat_word l1 ≡ (code, l2)
    → try_decode_response buf copy_body clear_response ≡ (
      complete,
      record clear_response {
        msg = record m { version = v };
        status = atoi (drop (length line - length (code ++ l2)) buf);
        status_word = trim_space l2;
      },
    )
unfolding try_decode_response clear_response
behind_message buf line v l1 code l2 copy_body m decoded has first second =
    rw decoded (rw has (rw first (rw second refl)))

pub words-in_line :
    (w rest : Bytes) → Every is_word w → Every in_line rest → Every in_line (w ++ b' ' ∷ rest)
unfolding in_line
words-in_line [] rest h g = (refl, g)
words-in_line (c ∷ w) rest h g = (word-in_line c h.0, words-in_line w rest h.1 g)

-- atoi starts where the second word does.
code_at :
    (v sw t : Bytes) (n : ℕ)
    → n < 2 ^ 31
    → atoi (
        drop
          (length (response_line v n sw) - length (show_digits 20 n ++ b' ' ∷ sw))
          (response_line v n sw ++ t))
      ≡ pos n
code_at v sw t n small =
    let digits = show_digits 20 n in
    let l2 = b' ' ∷ sw in
    let front = v ++ b' ' ∷ [] in
    let k = length (response_line v n sw) - length (digits ++ l2) in
    let split : response_line v n sw ++ t ≡ front ++ (digits ++ (l2 ++ t)) = simp append_assoc in
    let behind : k ≡ length front =
      omega (arith, length-append v (b' ' ∷ (digits ++ l2)), length-append v (b' ' ∷ [])) in
    ap (λ s. atoi (drop k s)) split
    ∙ ap atoi (drop-append k front (digits ++ (l2 ++ t)) behind)
    ∙ atoi-show_append n (l2 ++ t) small refl

pub has_space : (v rest : Bytes) → is_empty (v ++ b' ' ∷ rest) ≡ false
has_space [] rest = refl
has_space (c ∷ v) rest = refl

decode_line :
    (v sw rest : Bytes) (n : ℕ) (m : HttpMsg) (copy_body : Bool)
    → let line = response_line v n sw in
      let text = line ++ (crlf ++ show_rest m) in
      IsWord v
      → n < 2 ^ 31
      → Every in_line sw
      → trim_space sw ≡ sw
      → IsSendable m
      → length text < size_mod
      → try_decode_response (text ++ rest) copy_body clear_response ≡ (
        complete,
        record clear_response {
          msg = record (finished (length text) (get_body m) copy_body (received_headers m)) {
            version = v;
          };
          status = pos n;
          status_word = sw;
        },
      )
decode_line v sw rest n m copy_body v_word small sw_line trimmed good fits =
    let digits = show_digits 20 n in
    let l2 = b' ' ∷ sw in
    let l1 = b' ' ∷ (digits ++ l2) in
    let line = response_line v n sw in
    let text = line ++ (crlf ++ show_rest m) in
    let in_one_line =
      words-in_line v (digits ++ l2) (word v v_word)
        (words-in_line digits sw (word digits (digits-IsWord n)) sw_line) in
    let first : IsFirst line b'\r' b'\n' =
      unfold IsFirst in (in_one_line, (unfold in_line in refl, refl)) in
    let d_word = digits-IsWord n in
    behind_message (text ++ rest) line v l1 digits l2 copy_body _
      (decode_shown m line rest b'\r' b'\n' copy_body good first fits) (has_space v (digits ++ l2))
      (eat_word-append [] v l1 tt (not_nil v v_word) (word v v_word) (unfold is_space in refl))
      (eat_word-append (b' ' ∷ []) digits l2 (unfold is_space in (refl, tt)) (not_nil digits d_word)
        (word digits d_word) (unfold is_space in refl))
    ∙ ap₂
        (λ st t. (
          complete,
          record clear_response {
            msg = record (finished (length text) (get_body m) copy_body (received_headers m)) {
              version = v;
            };
            status = st;
            status_word = t;
          },
        ))
        (ap (λ s. atoi (drop (length line - length (digits ++ l2)) s))
            (append_assoc line (crlf ++ show_rest m) rest)
          ∙ code_at v sw ((crlf ++ show_rest m) ++ rest) n small)
        (trim_behind_space sw trimmed)

-- A response whose first line keeps its words apart: the version is one word, the text of the status is
-- in a line and has no spaces around it, and snprintf has room for all of the line.
unfoldable pub IsResponse : ℕ → HttpResponse → Type 0
IsResponse n r =
    (r.status ≡ pos n)
    × ((n < 2 ^ 31)
        × (IsWord (printed r.msg.version)
            × (Every in_line (printed r.status_word)
                × ((trim_space (printed r.status_word) ≡ printed r.status_word)
                    × (length (response_line (printed r.msg.version) n (printed r.status_word)) + 2
                        ≤ 1023)))))

encoded :
    (n : ℕ) (r : HttpResponse)
    → IsResponse n r
    → encode_response r
      ≡ response_line (printed r.msg.version) n (printed r.status_word) ++ (crlf ++ show_rest r.msg)
unfolding encode_response IsResponse show_int
encoded n r (status, (small, (v_word, (sw_line, (trimmed, room))))) =
    let v = printed r.msg.version in
    let sw = printed r.status_word in
    let line = response_line v n sw in
    let joined_line : v ++ b' ' ∷ (show_digits 20 n ++ b' ' ∷ (sw ++ crlf)) ≡ line ++ crlf =
      simp append_assoc in
    rw status (
      ap (λ s. take 1023 s ++ show_rest r.msg) joined_line
      ∙ ap (λ s. s ++ show_rest r.msg)
          (take-all 1023 (line ++ crlf) (omega (arith, room, length-append line crlf)))
      ∙ append_assoc line crlf (show_rest r.msg))

-- A response that is encoded and decoded from the start of a buffer, whatever follows it there, is
-- complete. Its version, status, text, headers (their names in lower case, and the two that encode
-- adds) and body are those that were sent, and scanned_ is at its end. The headers stand in a line each,
-- the body has less than 2 ^ 31 bytes, and the response less than 2 ^ 64.
pub try_decode-encode_response :
    (n : ℕ) (r : HttpResponse) (rest : Bytes) (copy_body : Bool)
    → IsResponse n r
    → IsSendable r.msg
    → length (encode_response r) < size_mod
    → try_decode_response (encode_response r ++ rest) copy_body clear_response ≡ (
      complete,
      record clear_response {
        msg =
            record (finished
              (length (encode_response r))
              (get_body r.msg)
              copy_body
              (received_headers r.msg)) { version = printed r.msg.version };
        status = pos n;
        status_word = printed r.status_word;
      },
    )
unfolding IsResponse
try_decode-encode_response n r rest copy_body h good fits =
    let (status, (small, (v_word, (sw_line, (trimmed, room))))) = h in
    let e = encoded n r h in
    let decoded =
      decode_line (printed r.msg.version) (printed r.status_word) rest n r.msg copy_body v_word
        small sw_line trimmed good (subst (λ s. length s < size_mod) e fits) in
    rw e decoded
