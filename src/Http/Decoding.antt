-- ===== src/Http/Decoding.antt =====
-- handy/http.cc: what HttpMsg::tryDecode_ promises.
use handy.Base.Int.{as_size_t-negsuc}
use handy.Base.{
  ℕ, suc, ◌+◌, ◌-◌, ◌%◌, ◌^◌, ◌≤◌, ◌<◌, ◌≡◌, ◌⊎◌, inl, inr, refl, sym, ap, ◌∙◌, Bool, true, false,
  not, ◌&&◌, [], ◌∷◌, ◌++◌, arith, ltb, leb, ◌==◌, if◌then◌else◌, leb→le, ==_iff, Bool-cases,
  if_cases, Bytes, length, take, drop, length-append, take-append_le, drop-append_le, drop-drop,
  same_bytes, same_bytes_iff,
}
use handy.Http.{
  Pairs, Result, complete, not_complete, throws, HttpMsg, assign, get_value, scan, take_body,
  header_done, take_header, try_decode_msg, crlf, atoi, content_length, negsuc,
}
use handy.Slice.{starts_with, less}
use handy.Base.Sizes.{size_mod}

same_self : (k : Bytes) → same_bytes k k ≡ true
same_self k = (same_bytes_iff k k).1 refl

-- What is assigned to a key is what the key then has.
pub get_value-assign : (key value : Bytes) (m : Pairs) → get_value (assign key value m) key ≡ value
unfolding get_value assign
get_value-assign key value [] = rw (same_self key) refl
get_value-assign key value ((k, v) ∷ rest) =
    if_cases (λ l. get_value l key ≡ value) (same_bytes key k) ((k, value) ∷ rest) _
      (λ e. rw (e, get_value) refl)
      (λ e.
        if_cases (λ l. get_value l key ≡ value) (less key k) ((key, value) ∷ (k, v) ∷ rest)
          ((k, v) ∷ assign key value rest) (λ _. rw (same_self key, get_value) refl)
          (λ _. rw (e, get_value) (get_value-assign key value rest)))

scan_ge : (n : ℕ) (rest : Bytes) → n ≤ (scan n rest).0
unfolding scan
scan_ge n [] = omega arith
scan_ge n (c ∷ cs) =
    let P = λ (q : ℕ × Bool). n ≤ q.0 in
    if_cases P (leb 4 (length (c ∷ cs)))
      (if starts_with (c ∷ cs) (crlf ++ crlf) then (n, true) else scan (n + 1) cs) (n, false)
      (λ _.
        if_cases P (starts_with (c ∷ cs) (crlf ++ crlf)) (n, true) (scan (n + 1) cs)
          (λ _. omega arith) (λ _. omega (arith, scan_ge (n + 1) cs)))
      (λ _. omega arith)

starts_with-append :
    (s x more : Bytes) → length x ≤ length s → starts_with (s ++ more) x ≡ starts_with s x
unfolding starts_with
starts_with-append s x more h =
    let e : leb (length x) (length (s ++ more)) ≡ true = rw (length-append s more) (ground arith) in
    let f : leb (length x) (length s) ≡ true = ground arith in
    rw (e, f, take-append_le (length x) s more h) refl

-- One step of the search past a byte.
scan-step :
    (n : ℕ) (c : ℕ) (cs : Bytes)
    → leb 4 (length (c ∷ cs)) ≡ true
    → starts_with (c ∷ cs) (crlf ++ crlf) ≡ false
    → scan n (c ∷ cs) ≡ scan (n + 1) cs
unfolding scan
scan-step n c cs h k = rw (h, k) refl

scan-short : (n : ℕ) (rest : Bytes) → leb 4 (length rest) ≡ false → scan n rest ≡ (n, false)
unfolding scan
scan-short n [] h = refl
scan-short n (c ∷ cs) h = rw h refl

scan-found :
    (n : ℕ) (c : ℕ) (cs : Bytes)
    → leb 4 (length (c ∷ cs)) ≡ true
    → starts_with (c ∷ cs) (crlf ++ crlf) ≡ true
    → scan n (c ∷ cs) ≡ (n, true)
unfolding scan
scan-found n c cs h k = rw (h, k) refl

drop-none : (n : ℕ) (xs : Bytes) → drop (n - n) xs ≡ xs
drop-none n xs = let e : n - n ≡ 0 = omega arith in rw e refl

drop_step :
    (n m : ℕ) (c : ℕ) (cs : Bytes) → n + 1 ≤ m → drop (m - n) (c ∷ cs) ≡ drop (m - (n + 1)) cs
drop_step n m c cs h = let e : m - n ≡ suc (m - (n + 1)) = omega arith in rw e refl

true-not-false : true ≡ false → ⊥
true-not-false h = ground arith

longer :
    (c : ℕ) (cs more : Bytes)
    → leb 4 (length (c ∷ cs)) ≡ true
    → leb 4 (length (c ∷ (cs ++ more))) ≡ true
longer c cs more h = rw (length-append cs more) (ground arith)

-- Where the end of the header is not there yet, the search stops where it can go on: with more bytes
-- it comes from there to what a search of all of them comes to.
pub scan-append :
    (n : ℕ) (rest more : Bytes)
    → (scan n rest).1 ≡ false
    → scan n (rest ++ more) ≡ scan (scan n rest).0 (drop ((scan n rest).0 - n) (rest ++ more))
scan-append n [] more h = rw (scan-short n [] refl) (rw (drop-none n more) refl)
scan-append n (c ∷ cs) more h = elim (Bool-cases (leb 4 (length (c ∷ cs)))) [
  | inr e ↦ rw (scan-short n (c ∷ cs) e) (rw (drop-none n (c ∷ (cs ++ more))) refl)
  | inl e ↦ elim (Bool-cases (starts_with (c ∷ cs) (crlf ++ crlf))) [
    | inl f ↦ absurd (true-not-false (sym (ap (λ (q : ℕ × Bool). q.1) (scan-found n c cs e f)) ∙ h))
    | inr f ↦
        let step = scan-step n c cs e f in
        let h' : (scan (n + 1) cs).1 ≡ false = sym (ap (λ (q : ℕ × Bool). q.1) step) ∙ h in
        scan-step n c (cs ++ more) (longer c cs more e)
          (starts_with-append (c ∷ cs) (crlf ++ crlf) more (leb→le 4 (length (c ∷ cs)) e) ∙ f)
        ∙ scan-append (n + 1) cs more h'
        ∙ rw step (
            ap (scan (scan (n + 1) cs).0)
              (sym (drop_step n (scan (n + 1) cs).0 c (cs ++ more) (scan_ge (n + 1) cs))))
  ]
]

up_to : (s n : ℕ) → s ≤ n → s + (n - s) ≡ n
up_to s n h = omega arith

scan-resume :
    (buf more : Bytes) (s : ℕ)
    → s ≤ length buf
    → (scan s (drop s buf)).1 ≡ false
    → scan s (drop s (buf ++ more))
      ≡ scan (scan s (drop s buf)).0 (drop (scan s (drop s buf)).0 (buf ++ more))
scan-resume buf more s hs h =
    let n = (scan s (drop s buf)).0 in
    ap (scan s) (drop-append_le s buf more hs)
    ∙ scan-append s (drop s buf) more h
    ∙ ap (scan n) (
        ap (drop (n - s)) (sym (drop-append_le s buf more hs))
        ∙ drop-drop (n - s) s (buf ++ more)
        ∙ ap (λ k. drop k (buf ++ more)) (up_to s n (scan_ge s (drop s buf))))

-- What follows the search.
after_scan : Bytes → Bool → HttpMsg → ℕ × Bool → (Result × HttpMsg) × Bytes
unfolding take_header
after_scan buf b m q =
    if q.1 && not (q.0 == 0)
    then take_header buf b (take q.0 buf) (record m { scanned = q.0 })
    else ((not_complete, record m { scanned = q.0 }), [])

undecided :
    (buf : Bytes) (b : Bool) (m : HttpMsg)
    → m.done ≡ false
    → m.content_len ≡ 0
    → try_decode_msg buf b m ≡ after_scan buf b m (scan m.scanned (drop m.scanned buf))
unfolding try_decode_msg after_scan
undecided buf b m hd hc =
    let e : (m.content_len == 0) ≡ true = (==_iff m.content_len 0).1 hc in
    if_cases (λ r. r ≡ after_scan buf b m (scan m.scanned (drop m.scanned buf))) m.done
      ((complete, m), []) _ (λ x. absurd (true-not-false (sym x ∙ hd))) (λ _. rw e refl)

missing :
    (buf : Bytes) (b : Bool) (m : HttpMsg) (q : ℕ × Bool)
    → q.1 ≡ false
    → after_scan buf b m q ≡ ((not_complete, record m { scanned = q.0 }), [])
unfolding after_scan
missing buf b m q h = rw h refl

-- tryDecode_ while the header is not complete: the call says so and keeps only how far it looked, and
-- the call on the longer buffer, from there, does all that a first call on it would have done.
pub try_decode_msg-resume :
    (buf more : Bytes) (copy_body : Bool) (m : HttpMsg)
    → m.done ≡ false
    → m.content_len ≡ 0
    → m.scanned ≤ length buf
    → (scan m.scanned (drop m.scanned buf)).1 ≡ false
    → let d = record m { scanned = (scan m.scanned (drop m.scanned buf)).0 } in
      (try_decode_msg buf copy_body m ≡ ((not_complete, d), []))
      × (try_decode_msg (buf ++ more) copy_body d ≡ try_decode_msg (buf ++ more) copy_body m)
unfolding after_scan try_decode_msg
try_decode_msg-resume buf more b m hd hc hs h =
    let n = (scan m.scanned (drop m.scanned buf)).0 in
    let d = record m { scanned = n } in
    (
      undecided buf b m hd hc ∙ missing buf b m (scan m.scanned (drop m.scanned buf)) h,
      undecided (buf ++ more) b d hd hc
          ∙ ap (after_scan (buf ++ more) b m) (sym (scan-resume buf more m.scanned hs h))
          ∙ sym (undecided (buf ++ more) b m hd hc),
    )

-- The last step of tryDecode_, where the length of all does not overflow size_t and no more than 2^63
-- bytes are announced: it is Complete exactly where the buffer holds the body, then body is those
-- bytes and scanned_ the bytes that the message takes; otherwise nothing has changed.
pub take_body_lem :
    (buf : Bytes) (m : HttpMsg)
    → m.content_len < 2 ^ 63
    → m.content_len + m.scanned < 2 ^ 64
    → ((m.content_len + m.scanned ≤ length buf)
        × (take_body buf true m ≡ (
          complete,
          record m {
            body = take m.content_len (drop m.scanned buf);
            done = true;
            scanned = m.scanned + m.content_len;
          },
        )))
      ⊎ ((length buf < m.content_len + m.scanned) × (take_body buf true m ≡ (not_complete, m)))
unfolding take_body
take_body_lem buf m hl hs =
    let small : (m.content_len + m.scanned) % size_mod ≡ m.content_len + m.scanned = omega arith in
    let sum : (m.scanned + m.content_len) % size_mod ≡ m.scanned + m.content_len = omega arith in
    let fits : leb (2 ^ 63) m.content_len ≡ false = ground arith in
    elim (Bool-cases (leb (m.content_len + m.scanned) (length buf))) [
      | inl e ↦
          inl (leb→le (m.content_len + m.scanned) (length buf) e, rw (small, e, fits, sum) refl)
      | inr e ↦ inr (ground arith, rw (small, e) refl)
    ]

-- A header that announces a negative length, of no more than the bytes of the header: the sum of
-- lengths wraps around, the message passes for complete, and body.assign throws.
pub header_done_negative :
    (buf : Bytes) (headers : Pairs) (m : HttpMsg) (n : ℕ)
    → atoi (get_value headers content_length) ≡ negsuc n
    → n < 2 ^ 31
    → n < m.scanned + 4
    → m.scanned + 4 ≤ length buf
    → length buf < 2 ^ 63
    → (header_done buf true headers m).0 ≡ throws
unfolding header_done take_body
header_done_negative buf headers m n ha hn hs hb hm =
    let wraps : (size_mod - (n + 1) + (m.scanned + 4)) % size_mod ≡ m.scanned + 4 - (n + 1) =
      omega arith in
    let short : ltb (length buf) (m.scanned + 4 - (n + 1)) ≡ false = ground arith in
    let there : leb (m.scanned + 4 - (n + 1)) (length buf) ≡ true = ground arith in
    let huge : leb (2 ^ 63) (size_mod - (n + 1)) ≡ true = ground arith in
    rw (ha, as_size_t-negsuc n, wraps, short, there, huge) refl
