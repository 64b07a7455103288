-- ===== src/StatServer/Routing.antt =====
-- handy/stat-svr.cc: which callback a request finds.
use handy.Base.{
  ℕ, ◌≡◌, inl, inr, refl, ap, ◌∙◌, Bool, true, false, some, [], ◌∷◌, Bool-cases, Bytes, codes,
  same_bytes, same_bytes_iff,
}
use handy.Slice.{less}
use handy.Http.{get_value}
use handy.Http.Request.{HttpRequest, HttpResponse}
use handy.StatServer.{
  StringMap, StatCallBack, StatType, state, page, cmd, other_type, StatServer, put, find_key,
  on_request, query_of, answered, sub_answer, respond,
}

same_self : (bs : Bytes) → same_bytes bs bs ≡ true
same_self bs = (same_bytes_iff bs bs).1 refl

module _ {ℓ} {A : Type ℓ} where
  find_key-put : (key : Bytes) (v : A) (m : StringMap A) → find_key key (put key v m) ≡ some v
  unfolding find_key put
  find_key-put key v [] = rw (same_self key) refl
  find_key-put key v (x ∷ xs) = elim (Bool-cases (same_bytes key x.0)) [
    | inl e ↦ rw (e, same_self key) refl
    | inr e ↦ elim (Bool-cases (less key x.0)) [
      | inl h ↦ rw (e, h, same_self key) refl
      | inr h ↦ rw (e, h) (rw e (find_key-put key v xs))
    ]
  ]

-- The types of pages that there are.
abbrev pub is_known : StatType → Bool
is_known other_type = false
is_known _ = true

find_all :
    (type : StatType) (key desc : Bytes) (cb : StatCallBack) (s : StatServer)
    → is_known type ≡ true
    → find_key key (on_request type key desc cb s).allcbs ≡ some cb
unfolding on_request
find_all state key desc cb s e = find_key-put key cb s.allcbs
find_all page key desc cb s e = find_key-put key cb s.allcbs
find_all cmd key desc cb s e = find_key-put key cb s.allcbs
find_all other_type key desc cb s e = absurd cc

-- A request for a slash and a key that is not empty, without an argument `stat`, right after a
-- callback has been set for this key, whatever was set before: the response is the callback's.
pub respond-on_request :
    (type : StatType) (c : ℕ) (key desc : Bytes) (cb : StatCallBack) (s : StatServer)
    (req : HttpRequest) (resp : HttpResponse)
    → is_known type ≡ true
    → req.uri ≡ b'/' ∷ c ∷ key
    → get_value req.args (codes "stat") ≡ []
    → respond (on_request type (c ∷ key) desc cb s) req resp ≡ cb req resp
unfolding respond sub_answer answered
respond-on_request type c key desc cb s req resp known uri no_stat =
    let query : query_of req ≡ c ∷ key = unfold query_of in rw (no_stat, uri) refl in
    let found = find_all type (c ∷ key) desc cb s known in
    let elsewhere : same_bytes req.uri (codes "/") ≡ false =
      ap (λ u. same_bytes u (codes "/")) uri ∙ (unfold same_bytes in refl) in
    rw (elsewhere, query, found) refl
