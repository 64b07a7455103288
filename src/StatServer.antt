-- ===== src/StatServer.antt =====
-- handy/stat-svr.h and handy/stat-svr.cc: `StatServer`, pages that callbacks fill in. A std::map is the
-- list of its pairs in the order of the keys. A request's uri starts with a slash, which
-- HttpRequest::tryDecode has tested.
pub mod Routing
use mathlib.Core.Option
use mathlib.Core.Path.{ap₂}
use handy.Base.{
  ℕ, zero, suc, ◌+◌, ◌-◌, ◌*◌, ◌/◌, ◌%◌, ◌^◌, ◌≤◌, ◌<◌, min, max, ◌≡◌, ◌≢◌, ◌↔◌, ◌⊎◌, inl, inr,
  refl, sym, ap, ◌∙◌, subst, Bool, true, false, not, ◌&&◌, ◌||◌, Option, none, some, List, [], ◌∷◌,
  ◌++◌, map, reverse, append-nil, append_assoc, arith, ltb, leb, ◌==◌, if◌then◌else◌, ltb→lt,
  lt→ltb, leb→le, ==_iff, ==_self, Bool-cases, ℕ-cases, List-cases, Option-cases, if_cases, Bytes,
  codes, length, take, drop, get_elem?, All, length-append, length-take, length-drop,
  take-append-drop, take-all, drop-all, take-append, drop-append, take-append_le, drop-append_le,
  take-append_ge, drop-drop, take-drop, same_bytes, same_bytes_iff,
}
use handy.Slice.{less}
use handy.Conf.{is_empty}
use handy.Http.{get_value}
use handy.Http.Request.{HttpRequest, HttpResponse, clear_response, set_not_found, printed}

abbrev pub StatCallBack : Type 0
StatCallBack = HttpRequest → HttpResponse → HttpResponse

pub data StatType : Type 0 where
  state page cmd other_type : StatType

-- A std::map with keys that are strings.
abbrev pub StringMap {ℓ} : Type ℓ → Type ℓ
StringMap A = List (Bytes × A)

pub record StatServer : Type 0 where
  pub statcbs : StringMap (Bytes × StatCallBack)
  pub pagecbs : StringMap (Bytes × StatCallBack)
  pub cmdcbs : StringMap (Bytes × StatCallBack)
  pub allcbs : StringMap StatCallBack

module _ {ℓ} {A : Type ℓ} where
  -- m[key] = value
  unfoldable pub put : Bytes → A → StringMap A → StringMap A
  unfolding less same_bytes
  put key value [] = (key, value) ∷ []
  put key value (x ∷ xs) =
      let rest = put key value xs in
      if same_bytes key x.0
      then (key, value) ∷ xs
      else if less key x.0
      then (key, value) ∷ x ∷ xs
      else x ∷ rest

  -- m.find(key)
  unfoldable pub find_key : Bytes → StringMap A → Option A
  unfolding same_bytes
  find_key key [] = none
  find_key key (x ∷ xs) =
      let rest = find_key key xs in if same_bytes key x.0 then some x.1 else rest

unfoldable pub new_stat_server : StatServer
new_stat_server = record { statcbs = []; pagecbs = []; cmdcbs = []; allcbs = [] }

-- StatServer::onRequest
unfoldable pub on_request : StatType → Bytes → Bytes → StatCallBack → StatServer → StatServer
unfolding put
on_request state key desc cb s = record s {
  statcbs = put key (desc, cb) s.statcbs;
  allcbs = put key cb s.allcbs;
}
on_request page key desc cb s = record s {
  pagecbs = put key (desc, cb) s.pagecbs;
  allcbs = put key cb s.allcbs;
}
on_request cmd key desc cb s = record s {
  cmdcbs = put key (desc, cb) s.cmdcbs;
  allcbs = put key cb s.allcbs;
}
on_request other_type key desc cb s = s

-- onRequest with an InfoCallBack; `info` is what the callback returns
unfoldable pub on_info : StatType → Bytes → Bytes → Bytes → StatServer → StatServer
unfolding on_request
on_info type key desc info s =
    on_request type key desc (λ req r. record r { msg = record (r.msg) { body = info } }) s

unfoldable pub query_link : Bytes → Bytes
query_link path =
    codes "<a href=\"/?stat=" ++ (printed path ++ (codes "\">" ++ (printed path ++ codes "</a>")))

unfoldable pub page_link : Bytes → Bytes
page_link path =
    codes "<a href=\"/" ++ (printed path ++ (codes "\">" ++ (printed path ++ codes "</a>")))

-- for (auto &stat : statcbs_): every callback is asked with its key for the uri
pub stat_rows : HttpRequest → StringMap (Bytes × StatCallBack) → Bytes
unfolding page_link clear_response
stat_rows req [] = []
stat_rows req ((key, (desc, cb)) ∷ rest) =
    let r = cb (record req { uri = key }) clear_response in
    codes "<tr><td>"
    ++ (page_link key
        ++ (codes "</td><td>"
            ++ (desc
                ++ (codes "</td><td>"
                    ++ (r.msg.body ++ (codes "</td></tr>\n" ++ stat_rows req rest))))))

-- The loops over pagecbs_ and cmdcbs_.
pub link_rows : (Bytes → Bytes) → StringMap (Bytes × StatCallBack) → Bytes
link_rows link [] = []
link_rows link ((key, (desc, cb)) ∷ rest) =
    codes "<tr><td>"
    ++ (link key ++ (codes "</td><td>" ++ (desc ++ (codes "</td></tr>\n" ++ link_rows link rest))))

pub sub_query : Bytes → Bytes → Bytes
sub_query query [] = []
sub_query query (b ∷ bs) =
    codes "<br/>SubQuery " ++ (printed query ++ (codes ":<br/> " ++ printed (b ∷ bs)))

-- The page for the uri "/".
unfoldable pub overview : StatServer → HttpRequest → Bytes → Bytes → Bytes
unfolding stat_rows link_rows query_link page_link sub_query
overview s req query body =
    codes "<a href=\"/\">refresh</a><br/>\n"
    ++ (codes "<table>\n"
        ++ (codes "<tr><td>Stat</td><td>Desc</td><td>Value</td></tr>\n"
            ++ (stat_rows req s.statcbs
                ++ (codes "</table>\n<br/>\n<table>\n"
                    ++ (codes "<tr><td>Page</td><td>Desc</td>\n"
                        ++ (link_rows page_link s.pagecbs
                            ++ (codes "</table>\n<br/>\n<table>\n"
                                ++ (codes "<tr><td>Cmd</td><td>Desc</td>\n"
                                    ++ (link_rows query_link s.cmdcbs
                                        ++ (codes "</table>\n" ++ sub_query query body))))))))))

-- req.getArg("stat"), or the uri behind its slash
unfoldable pub query_of : HttpRequest → Bytes
unfolding get_value
query_of req =
    let query = get_value req.args (codes "stat") in
    if is_empty query then drop 1 req.uri else query

pub answered : Option StatCallBack → HttpRequest → HttpResponse → HttpResponse
unfolding set_not_found
answered none req resp = set_not_found resp
answered (some cb) req resp = cb req resp

-- `if (query.size())`
pub sub_answer : StatServer → HttpRequest → HttpResponse → HttpResponse
unfolding answered find_key query_of
sub_answer s req resp =
    if is_empty (query_of req) then resp else answered (find_key (query_of req) s.allcbs) req resp

-- The callback for every request: the response that is sent.
unfoldable pub respond : StatServer → HttpRequest → HttpResponse → HttpResponse
unfolding sub_answer overview query_of same_bytes
respond s req resp =
    let r = sub_answer s req resp in
    if same_bytes req.uri (codes "/")
    then record r { msg = record (r.msg) { body = overview s req (query_of req) r.msg.body } }
    else r
