-- ===== src/Http/Request.antt =====
-- handy/http.h and handy/http.cc: `HttpRequest`, `HttpResponse`, and what `HttpConnPtr` and
-- `HttpServer` do with them. `encode` returns the bytes that it appends to the buffer.
use handy.Base.{
  ℕ, zero, suc, ◌+◌, ◌-◌, ◌%◌, ◌/◌, Bool, false, not, ◌&&◌, Option, none, some, List, [], ◌∷◌, ◌++◌,
  Bytes, take, drop, length, ltb, ◌==◌, if◌then◌else◌, same_bytes,
}
use handy.Base.Scan.{take_while, drop_while}
use handy.Base.Int.{ℤ, pos, negsuc}
use handy.Conf.{is_empty, is_not}
use handy.Slice.{eat_word, trim_space}
use handy.Http.{
  Pairs, Result, error, complete, not_complete, continue100, throws, HttpMsg, clear, get_body,
  assign, atoi, try_decode_msg, crlf,
}

pub record HttpRequest : Type 0 where
  pub msg : HttpMsg
  pub args : Pairs
  pub method : Bytes
  pub uri : Bytes
  pub query_uri : Bytes

pub record HttpResponse : Type 0 where
  pub msg : HttpMsg
  pub status_word : Bytes
  pub status : ℤ

abbrev pub get_method : Bytes
get_method = b'G' ∷ b'E' ∷ b'T' ∷ []

-- HttpRequest::clear
unfoldable pub clear_request : HttpRequest
unfolding clear
clear_request = record { msg = clear; args = []; method = get_method; uri = []; query_uri = [] }

-- HttpResponse::clear
unfoldable pub clear_response : HttpResponse
unfolding clear
clear_response = record { msg = clear; status_word = b'O' ∷ b'K' ∷ []; status = pos 200 }

unfoldable pub set_status : ℤ → Bytes → HttpResponse → HttpResponse
set_status st text r = record r {
  status = st;
  status_word = text;
  msg = record (r.msg) { body = text };
}

abbrev pub not_found : Bytes
not_found = b'N' ∷ b'o' ∷ b't' ∷ b' ' ∷ b'F' ∷ b'o' ∷ b'u' ∷ b'n' ∷ b'd' ∷ []

unfoldable pub set_not_found : HttpResponse → HttpResponse
unfolding set_status
set_not_found r = set_status (pos 404) not_found r

-- %lu, of a number below 10 ^ 20
unfoldable pub show_digits : ℕ → ℕ → Bytes
show_digits zero n = []
show_digits (suc fuel) n =
    let front = show_digits fuel (n / 10) in
    if ltb n 10 then (b'0' + n) ∷ [] else front ++ (b'0' + n % 10) ∷ []

-- %d
unfoldable pub show_int : ℤ → Bytes
unfolding show_digits
show_int (pos n) = show_digits 20 n
show_int (negsuc n) = b'-' ∷ show_digits 20 (n + 1)

-- a std::string as %s prints it
abbrev pub printed : Bytes → Bytes
printed s = take_while (is_not 0) s

-- buf.append(hd.first).append(": ").append(hd.second).append("\r\n") for every header
unfoldable pub show_headers : Pairs → Bytes
show_headers [] = []
show_headers ((k, v) ∷ rest) = k ++ b':' ∷ b' ' ∷ (v ++ (crlf ++ show_headers rest))

-- "Connection: Keep-Alive\r\n"
abbrev pub keep_alive : Bytes
keep_alive =
    b'C' ∷ b'o' ∷ b'n' ∷ b'n' ∷ b'e' ∷ b'c' ∷ b't' ∷ b'i' ∷ b'o' ∷ b'n' ∷ b':' ∷ b' ' ∷ b'K' ∷ b'e'
    ∷ b'e' ∷ b'p' ∷ b'-' ∷ b'A' ∷ b'l' ∷ b'i' ∷ b'v' ∷ b'e' ∷ b'\r' ∷ b'\n' ∷ []

-- "Content-Length: "
abbrev pub length_name : Bytes
length_name =
    b'C' ∷ b'o' ∷ b'n' ∷ b't' ∷ b'e' ∷ b'n' ∷ b't' ∷ b'-' ∷ b'L' ∷ b'e' ∷ b'n' ∷ b'g' ∷ b't' ∷ b'h'
    ∷ b':' ∷ b' ' ∷ []

-- What both kinds of message append behind their first line.
unfoldable pub show_rest : HttpMsg → Bytes
unfolding show_headers show_digits get_body
show_rest m =
    show_headers m.headers
    ++ (keep_alive
        ++ (length_name
            ++ (show_digits 20 (length (get_body m)) ++ (crlf ++ (crlf ++ get_body m)))))

-- HttpRequest::encode; snprintf keeps 4095 bytes of the first line
unfoldable pub encode_request : HttpRequest → Bytes
unfolding show_rest
encode_request r =
    take 4095 (
      printed r.method
      ++ b' ' ∷ (printed r.query_uri ++ b' ' ∷ (printed r.msg.version ++ b'\n' ∷ b'\n' ∷ [])))
    ++ show_rest r.msg

-- HttpResponse::encode; snprintf keeps 1023 bytes of the first line
unfoldable pub encode_response : HttpResponse → Bytes
unfolding show_rest show_int
encode_response r =
    take 1023 (
      printed r.msg.version ++ b' ' ∷ (show_int r.status ++ b' ' ∷ (printed r.status_word ++ crlf)))
    ++ show_rest r.msg

abbrev pub in_key : ℕ → Bool
in_key c = not (c == b'=') && not (c == b'&')

-- if (c < qs.size() && qs[c] == ch) c++
abbrev pub pass : ℕ → Bytes → Bytes
pass ch [] = []
pass ch (c ∷ cs) = if c == ch then cs else c ∷ cs

-- The loop over the arguments of a query, on fuel.
pub query_loop : ℕ → Pairs → Bytes → Pairs
unfolding assign
query_loop fuel args [] = args
query_loop zero args (c ∷ cs) = args
query_loop (suc fuel) args (c ∷ cs) =
    let key = take_while in_key (c ∷ cs) in
    let r = pass b'=' (drop_while in_key (c ∷ cs)) in
    let value = take_while (is_not b'&') r in
    let next = pass b'&' (drop_while (is_not b'&') r) in
    query_loop fuel (if is_empty key then args else assign key value args) next

-- for (size_t i = 0; i <= query_uri.size(); i++): where the `?` is
pub split_query : HttpRequest → HttpRequest
unfolding query_loop
split_query r = elim (drop_while (is_not b'?') r.query_uri) [
  | [] ↦ record r { uri = r.query_uri }
  | c ∷ qs ↦ record r {
    uri = take_while (is_not b'?') r.query_uri;
    args = query_loop (length qs) r.args qs;
  }
]

abbrev pub starts_slash : Bytes → Bool
starts_slash [] = false
starts_slash (c ∷ cs) = c == b'/'

-- The first line of a request, where it is not empty.
unfoldable pub take_request_line : Bytes → Result → HttpRequest → Result × HttpRequest
unfolding split_query
take_request_line line1 r req =
    let (m, l1) = eat_word line1 in
    let (q, l2) = eat_word l1 in
    let (v, l3) = eat_word l2 in
    let d = record req { method = m; query_uri = q; msg = record (req.msg) { version = v } } in
    if starts_slash q then (r, split_query d) else (error, d)

unfoldable pub try_decode_request : Bytes → Bool → HttpRequest → Result × HttpRequest
unfolding try_decode_msg take_request_line
try_decode_request buf copy_body req =
    let ((r, m), line1) = try_decode_msg buf copy_body req.msg in
    let d = record req { msg = m } in if is_empty line1 then (r, d) else take_request_line line1 r d

-- The first line begins the buffer, and atoi reads on behind the line where there is no word left.
unfoldable pub try_decode_response : Bytes → Bool → HttpResponse → Result × HttpResponse
unfolding try_decode_msg atoi
try_decode_response buf copy_body resp =
    let ((r, m), line1) = try_decode_msg buf copy_body resp.msg in
    let (v, l1) = eat_word line1 in
    let (code, l2) = eat_word l1 in
    if is_empty line1 then (r, record resp { msg = m }) else (
      r,
      record resp {
        msg = record m { version = v };
        status = atoi (drop (length line1 - length (code ++ l2)) buf);
        status_word = trim_space l2;
      },
    )

-- What handleRead does with the result of tryDecode.
pub data Reaction : Type 0 where
  closes sends_continue calls_back waits raises : Reaction

-- handleRead on a server
unfoldable pub on_request : Result → Reaction
on_request error = closes
on_request continue100 = sends_continue
on_request complete = calls_back
on_request not_complete = waits
on_request throws = raises

-- handleRead on a client
unfoldable pub on_response : Result → Reaction
on_response error = closes
on_response complete = calls_back
on_response continue100 = waits
on_response not_complete = waits
on_response throws = raises

-- clearData on a server: what is left of the input
unfoldable pub clear_data : Bytes → HttpRequest → Bytes × HttpRequest
unfolding clear_request
clear_data input req = (drop req.msg.scanned input, clear_request)

-- The callbacks of a server: those of a method, by the uri.
module _ {ℓ} {C : Type ℓ} where
  pub find_in : Bytes → List (Bytes × C) → Option C
  find_in n [] = none
  find_in n ((k, v) ∷ rest) = if same_bytes n k then some v else find_in n rest

-- Which callback HttpServer calls.
unfoldable pub route {ℓ} : {C : Type ℓ} → List (Bytes × List (Bytes × C)) → C → HttpRequest → C
unfolding find_in
route cbs defcb req = elim (find_in req.method cbs) [
  | none ↦ defcb
  | some by_uri ↦ elim (find_in req.uri by_uri) [ none ↦ defcb | some cb ↦ cb ]
]
