-- ===== src/Tests/Messages.antt =====
-- Encoded messages, decoded.
use handy.Base.{◌<◌, ◌≡◌, refl, true, false, [], ◌∷◌, ◌++◌, arith, codes, length, same_bytes}
use handy.Base.Scan.{take_while, drop_while, passes, passes-Every}
use handy.Base.Sizes.{size_mod}
use handy.Base.Int.{pos}
use handy.Slice.{is_space, is_word, in_line, trim_space, drop_last_spaces}
use handy.Conf.{to_lower}
use handy.Http.{complete, HttpMsg, clear, get_body, assign}
use handy.Http.Request.{
  HttpRequest, HttpResponse, clear_request, clear_response, encode_request, encode_response,
  printed, try_decode_request, try_decode_response, show_rest, show_headers, show_digits, show_int,
  split_query,
}
use handy.Http.Headers.{IsHeader}
use handy.Http.Whole.{finished}
use handy.Http.RoundTrip.{IsSendable, received_headers}
use handy.Http.RoundTrip.Responses.{IsResponse, try_decode-encode_response}
use handy.Http.RoundTrip.Requests.{IsRequest, try_decode-encode_request}

-- One header and three bytes.
abbrev message : HttpMsg
message = record clear { headers = (codes "Kind", codes "a b") ∷ []; body = 1 ∷ 2 ∷ 3 ∷ [] }

abbrev response : HttpResponse
response = record clear_response { msg = message }

abbrev request : HttpRequest
request = record clear_request { msg = message; query_uri = codes "/p?a=1" }

message-IsSendable : IsSendable message
unfolding IsSendable IsHeader clear trim_space drop_last_spaces drop_while is_space get_body
message-IsSendable = (
  (
    (
      passes-Every is_word (codes "Kind") (unfold passes in refl),
      (passes-Every in_line (codes "a b") (unfold passes in unfold in_line in refl), (refl, refl)),
    ),
    tt,
  ),
  omega arith,
)

response-IsResponse : IsResponse 200 response
unfolding IsResponse clear clear_response take_while trim_space drop_last_spaces drop_while is_space
    show_digits
response-IsResponse = (
  refl,
  (
    omega arith,
    (
      passes-Every is_word (codes "HTTP/1.1") (unfold passes in refl),
      (
        passes-Every in_line (codes "OK") (unfold passes in unfold in_line in refl),
        (refl, omega arith),
      ),
    ),
  ),
)

request-IsRequest : IsRequest request
unfolding IsRequest clear clear_request take_while is_space
request-IsRequest = (
  passes-Every is_word (codes "GET") (unfold passes in refl),
  (
    passes-Every is_word (codes "/p?a=1") (unfold passes in refl),
    (passes-Every is_word (codes "HTTP/1.1") (unfold passes in refl), (refl, omega arith)),
  ),
)

short_response : length (encode_response response) < size_mod
unfolding encode_response show_rest show_headers show_digits show_int clear_response clear
    take_while
short_response = omega arith

short_request : length (encode_request request) < size_mod
unfolding encode_request show_rest show_headers show_digits clear_request clear take_while
short_request = omega arith

try_decode-encode_response_example :
    try_decode_response (encode_response response ++ 9 ∷ []) true clear_response ≡ (
      complete,
      record clear_response {
        msg =
            record (finished
              (length (encode_response response))
              (get_body message)
              true
              (received_headers message)) { version = printed message.version };
        status = pos 200;
        status_word = printed response.status_word;
      },
    )
try_decode-encode_response_example =
    try_decode-encode_response 200 response (9 ∷ []) true response-IsResponse message-IsSendable
      short_response

try_decode-encode_request_example :
    try_decode_request (encode_request request ++ 9 ∷ []) false clear_request ≡ (
      complete,
      split_query (record clear_request {
        method = printed request.method;
        query_uri = printed request.query_uri;
        msg =
            record (finished
              (length (encode_request request))
              (get_body message)
              false
              (received_headers message)) { version = printed message.version };
      }),
    )
try_decode-encode_request_example =
    try_decode-encode_request request (9 ∷ []) false request-IsRequest message-IsSendable
      short_request

-- The names are in lower case, and in the order of the keys.
three_headers :
    received_headers message
    ≡ (codes "connection", codes "Keep-Alive")
      ∷ (codes "content-length", codes "3")
      ∷ (codes "kind", codes "a b")
      ∷ []
unfolding assign to_lower show_digits same_bytes handy.Slice.less clear get_body
three_headers = refl
