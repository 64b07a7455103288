-- ===== src/Files/Serving.antt =====
-- handy/http.cc, handy/stat-svr.cc: sendFile and onPageFile, which answer with a file.
use mathlib.Core.Option
use handy.Base.{
  ℕ, zero, suc, ◌≡◌, ◌⊎◌, inl, inr, refl, sym, ap, ◌∙◌, subst, true, false, Option, some, [], ◌∷◌,
  ◌++◌, append-nil, ◌==◌, if◌then◌else◌, Bytes, codes,
}
use handy.Base.Int.{ℤ, pos, negsuc}
use handy.Status.{Status, ok_status, ok, code, msg}
use handy.Http.Headers.{get_value-assign}
use handy.Http.{assign, get_value}
use handy.Http.Request.{HttpRequest, HttpResponse, set_status, set_not_found, printed}
use handy.StatServer.{StatServer, StatCallBack, page, on_request, respond}
use handy.StatServer.Routing.{respond-on_request}
use handy.Files.{get_content}
use handy.Files.System.{FileSystem, IsLawful, IsErrno}
use handy.Files.Reading.{io_error-fails, ok-ok_status, HasRead, get_content-HasRead, Fails}

-- sendFile, from st.code(), st.msg() and the content: none where the message runs out of its block. 2 is
-- ENOENT.
unfoldable pub answer_code : ℤ → Option Bytes → Bytes → HttpResponse → Option HttpResponse
unfolding set_not_found set_status
answer_code (pos zero) text cont resp =
    some (record resp { msg = record (resp.msg) { body2 = cont } })
answer_code (pos (suc n)) text cont resp =
    if suc n == 2
    then some (set_not_found resp)
    else Option.map (λ t. set_status (pos 500) t resp) text
answer_code (negsuc n) text cont resp = Option.map (λ t. set_status (pos 500) t resp) text

-- What the callback of onPageFile makes of the response.
unfoldable pub page_response : Status × Bytes → HttpResponse → HttpResponse
unfolding set_not_found assign ok
page_response (st, cont) resp =
    let read = record resp { msg = record (resp.msg) { body = cont } } in
    if ok st
    then record read {
      msg = record (read.msg) {
        headers =
            assign (codes "Content-Type") (codes "text/plain; charset=utf-8") read.msg.headers;
      };
    }
    else set_not_found read

module _ (F : FileSystem) where
  -- sendFile
  unfoldable pub send_file : F.State → Bytes → HttpResponse → Option HttpResponse
  unfolding get_content answer_code code msg
  send_file s filename resp =
      let (st, cont) = get_content F s filename [] in answer_code (code st) (msg st) cont resp

  unfoldable pub page_file : F.State → Bytes → StatCallBack
  unfolding get_content page_response
  page_file s file req resp = page_response (get_content F s file resp.msg.body) resp

  -- StatServer::onPageFile
  unfoldable pub on_page_file : F.State → Bytes → Bytes → Bytes → StatServer → StatServer
  unfolding on_request page_file
  on_page_file s key desc file server = on_request page key desc (page_file s file) server

-- The text of an error.
abbrev pub line : Bytes → Bytes → Bytes → Bytes
line text op name = printed op ++ b' ' ∷ (printed name ++ b' ' ∷ printed text)

abbrev pub failed_response : ℕ → Bytes → HttpResponse → HttpResponse
failed_response number text resp =
    if number == 2 then set_not_found resp else set_status (pos 500) text resp

-- The whole file is the body, or the response says which call failed.
unfoldable pub Sends : Bytes → Bytes → HttpResponse → Option HttpResponse → Type 0
Sends name bs resp r =
    (r ≡ some (record resp { msg = record (resp.msg) { body2 = bs } }))
    ⊎ ((number : ℕ) × ((text : Bytes) × ((op : Bytes) × (IsErrno number
              × (r ≡ some (failed_response number (line text op name) resp))))))

abbrev pub content_type : Bytes
content_type = codes "Content-Type"

abbrev pub plain_text : Bytes
plain_text = codes "text/plain; charset=utf-8"

-- Where getContent has succeeded the body goes on with the whole file, as plain text; where one of its
-- calls has failed the page is not found.
unfoldable pub Shows : Bytes → Bytes → HttpResponse → Status → HttpResponse → Type 0
Shows name bs resp st r =
    ((st ≡ ok_status)
      × ((r.msg.body ≡ resp.msg.body ++ bs)
          × ((get_value r.msg.headers content_type ≡ plain_text) × (r.status ≡ resp.status))))
    ⊎ (Fails name st × (r.status ≡ pos 404))

Fails-ok : (name : Bytes) (st : Status) → Fails name st → ok st ≡ false
unfolding Fails
Fails-ok name st (number, (text, (op, (errno, e)))) =
    ap ok e ∙ io_error-fails number text op name errno

HasRead-Shows :
    (name bs : Bytes) (resp : HttpResponse) (g : Status × Bytes)
    → HasRead name resp.msg.body bs g
    → Shows name bs resp g.0 (page_response g resp)
unfolding HasRead Shows page_response
HasRead-Shows name bs resp g (got, (rest, (whole, (has, outcome)))) = elim outcome [
  | inl (st, all) ↦
      let e : g.1 ≡ resp.msg.body ++ bs =
        has ∙ ap (◌++◌ resp.msg.body) (sym (whole ∙ ap (◌++◌ got) all ∙ append-nil got)) in
      let succeeds_ok : ok g.0 ≡ true = ap ok st ∙ ok-ok_status in
      inl (
        st,
        (
          rw succeeds_ok e,
          (
            rw succeeds_ok (get_value-assign content_type plain_text resp.msg.headers),
            rw succeeds_ok refl,
          ),
        ),
      )
  | inr failed ↦
      let fails_ok : ok g.0 ≡ false = Fails-ok name g.0 failed in inr (failed, rw fails_ok refl)
]

module _ (F : FileSystem) (L : IsLawful F) where
  -- After onPageFile the request for the page of a file that there is is answered by what getContent
  -- comes to: where it succeeds, with what the response held before and the whole file behind it, as
  -- plain text and with the status unchanged; otherwise its status is that of a failed call, and the
  -- answer has status 404.
  pub respond-on_page_file :
      (s : F.State) (c : ℕ) (key desc file bs : Bytes) (server : StatServer) (req : HttpRequest)
      (resp : HttpResponse)
      → L.contents s (printed file) ≡ some bs
      → req.uri ≡ b'/' ∷ c ∷ key
      → get_value req.args (codes "stat") ≡ []
      → Shows file bs resp
          (get_content F s file resp.msg.body).0
          (respond (on_page_file F s (c ∷ key) desc file server) req resp)
  unfolding on_page_file page_file
  respond-on_page_file s c key desc file bs server req resp holds uri no_stat =
      let same =
        respond-on_request page c key desc (page_file F s file) server req resp refl uri no_stat in
      subst (Shows file bs resp (get_content F s file resp.msg.body).0) (sym same) (
        HasRead-Shows file bs resp (get_content F s file resp.msg.body)
          (get_content-HasRead F L s file resp.msg.body bs holds))
