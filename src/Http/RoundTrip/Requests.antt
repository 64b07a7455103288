-- ===== src/Http/RoundTrip/Requests.antt =====
-- handy/http.cc: an encoded request, decoded.
use handy.Base.{
  ◌+◌, ◌≤◌, ◌<◌, ◌≡◌, refl, sym, ap, ◌∙◌, subst, Bool, true, false, [], ◌∷◌, ◌++◌, append-nil,
  append_assoc, arith, Bytes, length, take, length-append, take-all,
}
use handy.Base.Scan.{Every}
use handy.Base.Sizes.{size_mod}
use handy.Slice.{is_space, is_word, in_line, eat_word}
use handy.Slice.Words.{eat_word-append}
use handy.Conf.{is_empty}
use handy.Http.{complete, HttpMsg, clear, get_body, try_decode_msg}
use handy.Http.Request.{
  HttpRequest, clear_request, show_rest, printed, encode_request, try_decode_request,
  take_request_line, split_query, starts_slash,
}
use handy.Http.Headers.{word-in_line}
use handy.Http.Whole.{finished}
use handy.Http.RoundTrip.{IsSendable, IsFirst, received_headers, decode_shown}
use handy.Http.RoundTrip.Responses.{IsWord, not_nil, word, words-in_line, has_space}

-- The words of a request in its first line.
abbrev request_line : Bytes → Bytes → Bytes → Bytes
request_line method uri version = method ++ b' ' ∷ (uri ++ b' ' ∷ version)

-- The two line feeds that encode puts behind it.
abbrev two_feeds : Bytes
two_feeds = b'\n' ∷ b'\n' ∷ []

-- From the first line of a request to its fields.
behind_message :
    (buf line method l1 uri l2 version : Bytes) (copy_body : Bool) (m : HttpMsg)
    → try_decode_msg buf copy_body clear ≡ ((complete, m), line)
    → is_empty line ≡ false
    → eat_word line ≡ (method, l1)
    → eat_word l1 ≡ (uri, l2)
    → eat_word l2 ≡ (version, [])
    → starts_slash uri ≡ true
    → try_decode_request buf copy_body clear_request ≡ (
      complete,
      split_query (record clear_request {
        method = method;
        query_uri = uri;
        msg = record m { version = version };
      }),
    )
unfolding try_decode_request clear_request take_request_line
behind_message buf line method l1 uri l2 version copy_body m decoded has first second third slash =
    rw decoded (rw has (rw first (rw second (rw third (rw slash refl)))))

words_line : (w : Bytes) → Every is_word w → Every in_line w
words_line [] h = tt
words_line (c ∷ w) h = (word-in_line c h.0, words_line w h.1)

decode_line :
    (method uri version rest : Bytes) (m : HttpMsg) (copy_body : Bool)
    → let text = request_line method uri version ++ (two_feeds ++ show_rest m) in
      IsWord method
      → IsWord uri
      → IsWord version
      → starts_slash uri ≡ true
      → IsSendable m
      → length text < size_mod
      → try_decode_request (text ++ rest) copy_body clear_request ≡ (
        complete,
        split_query (record clear_request {
          method = method;
          query_uri = uri;
          msg = record (finished (length text) (get_body m) copy_body (received_headers m)) {
            version = version;
          };
        }),
      )
decode_line method uri version rest m copy_body m_word u_word v_word slash good fits =
    let l2 = b' ' ∷ version in
    let l1 = b' ' ∷ (uri ++ l2) in
    let line = request_line method uri version in
    let text = line ++ (two_feeds ++ show_rest m) in
    let in_one_line =
      words-in_line method (uri ++ l2) (word method m_word)
        (words-in_line uri version (word uri u_word) (words_line version (word version v_word))) in
    let first : IsFirst line b'\n' b'\n' =
      unfold IsFirst in (in_one_line, (unfold in_line in refl, refl)) in
    behind_message (text ++ rest) line method l1 uri l2 version copy_body _
      (decode_shown m line rest b'\n' b'\n' copy_body good first fits)
      (has_space method (uri ++ l2))
      (eat_word-append [] method l1 tt (not_nil method m_word) (word method m_word)
        (unfold is_space in refl))
      (eat_word-append (b' ' ∷ []) uri l2 (unfold is_space in (refl, tt)) (not_nil uri u_word)
        (word uri u_word) (unfold is_space in refl))
      (ap (λ s. eat_word (b' ' ∷ s)) (sym (append-nil version))
        ∙ eat_word-append (b' ' ∷ []) version [] (unfold is_space in (refl, tt))
            (not_nil version v_word) (word version v_word) tt)
      slash

-- A request whose first line keeps its three words apart, where snprintf has room for all of it; the
-- query begins with a slash.
unfoldable pub IsRequest : HttpRequest → Type 0
IsRequest r =
    IsWord (printed r.method)
    × (IsWord (printed r.query_uri)
        × (IsWord (printed r.msg.version)
            × ((starts_slash (printed r.query_uri) ≡ true)
                × (length (
                        request_line (printed r.method) (printed r.query_uri)
                          (printed r.msg.version))
                      + 2
                    ≤ 4095))))

encoded :
    (r : HttpRequest)
    → IsRequest r
    → encode_request r
      ≡ request_line (printed r.method) (printed r.query_uri) (printed r.msg.version)
        ++ (two_feeds ++ show_rest r.msg)
unfolding encode_request IsRequest
encoded r (m_word, (u_word, (v_word, (slash, room)))) =
    let m = printed r.method in
    let u = printed r.query_uri in
    let v = printed r.msg.version in
    let line = request_line m u v in
    let joined_line : m ++ b' ' ∷ (u ++ b' ' ∷ (v ++ two_feeds)) ≡ line ++ two_feeds =
      simp append_assoc in
    ap (λ s. take 4095 s ++ show_rest r.msg) joined_line
    ∙ ap (λ s. s ++ show_rest r.msg)
        (take-all 4095 (line ++ two_feeds) (omega (arith, room, length-append line two_feeds)))
    ∙ append_assoc line two_feeds (show_rest r.msg)

-- A request that is encoded and decoded from the start of a buffer, whatever follows it there, is
-- complete. Its method, query, version, headers (their names in lower case, and the two that encode
-- adds) and body are those that were sent, its uri and arguments are those of the query, and scanned_ is
-- at its end: that the request line ends with two line feeds does not matter to tryDecode. The headers
-- stand in a line each, the body has less than 2 ^ 31 bytes, and the request less than 2 ^ 64.
pub try_decode-encode_request :
    (r : HttpRequest) (rest : Bytes) (copy_body : Bool)
    → IsRequest r
    → IsSendable r.msg
    → length (encode_request r) < size_mod
    → try_decode_request (encode_request r ++ rest) copy_body clear_request ≡ (
      complete,
      split_query (record clear_request {
        method = printed r.method;
        query_uri = printed r.query_uri;
        msg =
            record (finished
              (length (encode_request r))
              (get_body r.msg)
              copy_body
              (received_headers r.msg)) { version = printed r.msg.version };
      }),
    )
unfolding IsRequest
try_decode-encode_request r rest copy_body h good fits =
    let (m_word, (u_word, (v_word, (slash, room)))) = h in
    let e = encoded r h in
    let decoded =
      decode_line (printed r.method) (printed r.query_uri) (printed r.msg.version) rest r.msg
        copy_body m_word u_word v_word slash good (subst (λ s. length s < size_mod) e fits) in
    rw e decoded
