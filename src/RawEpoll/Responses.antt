-- ===== src/RawEpoll/Responses.antt =====
-- raw-examples/epoll.cc: what a connection is sent.
use handy.Base.{
  ℕ, zero, suc, ◌+◌, ◌-◌, ◌≤◌, ◌<◌, ◌≡◌, ◌⊎◌, inl, inr, refl, sym, ap, ◌∙◌, true, false, List, [],
  ◌∷◌, ◌++◌, append-nil, append_assoc, arith, ◌==◌, if◌then◌else◌, ==_iff, Bool-cases, Bytes,
  length, take, drop, take-all,
}
use handy.Base.Sizes.{size_mod, sub_size_t}
use handy.RawEpoll.{
  Con, new_con, Last, writes_none, blocks, breaks, LoopEnd, write_loop, Peer, con_of, stopped,
  loop_ended, send_res,
}

-- write returns at most what it was given.
abbrev pub AreCounts : ℕ → List ℕ → Type 0
AreCounts left [] = Unit
AreCounts left (n ∷ counts) = (n ≤ left) × AreCounts (left - n) counts

take-nil : (n : ℕ) → take {A = ℕ} n [] ≡ []
take-nil zero = refl
take-nil (suc n) = refl

take-add : (m n : ℕ) (xs : Bytes) → take (m + n) xs ≡ take m xs ++ take n (drop m xs)
take-add zero n xs = let e : 0 + n ≡ n = omega arith in rw e refl
take-add (suc m) n [] = take-nil (suc m + n) ∙ sym (take-nil n)
take-add (suc m) n (x ∷ xs) =
    let e : suc m + n ≡ suc (m + n) = omega arith in rw e (ap (◌∷◌ x) (take-add m n xs))

-- The loop writes the response on from where it was.
write_loop-out :
    (res : Bytes) (written left : ℕ) (counts : List ℕ) (last : Last)
    → left < size_mod
    → written + left ≡ length res
    → AreCounts left counts
    → let e = write_loop res written left counts last in
      (e.written + e.left ≡ length res) × (take written res ++ e.out ≡ take e.written res)
unfolding write_loop
write_loop-out res written left [] last small whole h = (whole, append-nil (take written res))
write_loop-out res written left (zero ∷ counts) last small whole h =
    (whole, append-nil (take written res))
write_loop-out res written left (suc n ∷ counts) last small whole (fits, h) =
    let e : sub_size_t left (suc n) ≡ left - suc n = omega (arith, small, fits) in
    rw e (
      let rest = (write_loop res (written + suc n) (left - suc n) counts last).out in
      let ih =
        write_loop-out res (written + suc n) (left - suc n) counts last (omega (arith, small))
          (omega (arith, whole, fits)) h in
      (
        ih.0,
        sym (append_assoc (take written res) (take (suc n) (drop written res)) rest)
            ∙ ap (λ s. s ++ rest) (sym (take-add written (suc n) res))
            ∙ ih.1,
      ))

unfoldable pub copies : ℕ → Bytes → Bytes
copies zero res = []
copies (suc k) res = copies k res ++ res

-- The connection is open: whole responses have been sent and the start of another one, which is what
-- `written` says; EPOLLOUT is registered where writeEnabled says so, and if there is such a start.
unfoldable pub IsGoing : Bytes → Peer → Type 0
IsGoing res p =
    let c = con_of p in
    (p.is_open ≡ true)
    × ((k : ℕ) × ((p.sent ≡ copies k res ++ take c.written res)
          × ((c.written ≤ length res)
              × ((p.wants_write ≡ c.write_enabled)
                  × ((c.write_enabled ≡ true) ⊎ (c.written ≡ 0))))))

-- It is closed: whole responses have been sent and the start of another one.
unfoldable pub IsOver : Bytes → Peer → Type 0
IsOver res p = (p.is_open ≡ false) × ((k : ℕ) × ((j : ℕ) × (p.sent ≡ copies k res ++ take j res)))

unfoldable pub IsWhole : Bytes → Peer → Type 0
IsWhole res p = IsGoing res p ⊎ IsOver res p

pub unfold_whole : (res : Bytes) (p : Peer) → IsWhole res p → IsGoing res p ⊎ IsOver res p
unfolding IsWhole
unfold_whole res p h = h

stopped-IsWhole :
    (res : Bytes) (last : Last) (c : Con) (written k : ℕ) (p : Peer)
    → p.is_open ≡ true
    → p.sent ≡ copies k res ++ take written res
    → written ≤ length res
    → p.wants_write ≡ c.write_enabled
    → IsWhole res (stopped last c written p)
unfolding IsWhole IsGoing IsOver stopped con_of
stopped-IsWhole res blocks c written k p is_open sent small same =
    let wants : (if c.write_enabled then p.wants_write else true) ≡ true = ground (arith, same) in
    inl (is_open, (k, (sent, (small, (wants, inl refl)))))
stopped-IsWhole res writes_none c written k p is_open sent small same =
    inr (refl, (k, (written, sent)))
stopped-IsWhole res breaks c written k p is_open sent small same = inr (refl, (k, (written, sent)))

loop_ended-IsWhole :
    (res : Bytes) (e : LoopEnd) (k : ℕ) (p : Peer)
    → let c = con_of p in
      p.is_open ≡ true
      → p.sent ≡ copies k res ++ take c.written res
      → p.wants_write ≡ c.write_enabled
      → e.written + e.left ≡ length res
      → take c.written res ++ e.out ≡ take e.written res
      → IsWhole res (loop_ended c e p)
unfolding loop_ended copies
loop_ended-IsWhole res e k p is_open sent same whole out =
    let c = con_of p in
    let now : p.sent ++ e.out ≡ copies k res ++ take e.written res =
      ap (λ s. s ++ e.out) sent
      ∙ append_assoc (copies k res) (take c.written res) e.out
      ∙ ap (λ s. copies k res ++ s) out in
    elim (Bool-cases (e.left == 0)) [
      | inl z ↦
          let none_left : e.left ≡ 0 = (==_iff e.left 0).0 z in
          let all = take-all e.written res (omega (arith, whole, none_left)) in
          let off : (if c.write_enabled then false else p.wants_write) ≡ false =
            ground (arith, same) in
          rw z (
            unfold IsWhole in
            unfold IsGoing in
            unfold con_of in
            unfold new_con in
            inl (
              is_open,
              (
                suc k,
                (
                  now ∙ ap (λ s. copies k res ++ s) all ∙ sym (append-nil _),
                  (omega arith, (off, inr refl)),
                ),
              ),
            ))
      | inr z ↦ rw z (
          stopped-IsWhole res e.last c e.written k (record p { sent = p.sent ++ e.out }) is_open now
            (omega (arith, whole)) same)
    ]

-- The writes of a call of sendRes on this connection are answered as they may be.
abbrev pub MayWrite : Bytes → Peer → List ℕ → Type 0
MayWrite res p counts = AreCounts (length res - (con_of p).written) counts

pub send_res-IsWhole :
    (res : Bytes) (counts : List ℕ) (last : Last) (p : Peer)
    → length res < size_mod
    → IsGoing res p
    → MayWrite res p counts
    → IsWhole res (send_res res counts last p)
unfolding send_res IsGoing
send_res-IsWhole res counts last p small (is_open, (k, (sent, (fits, (same, started))))) h =
    let c = con_of p in
    let left : sub_size_t (length res) c.written ≡ length res - c.written =
      omega (arith, small, fits) in
    let r =
      write_loop-out res c.written (length res - c.written) counts last (omega (arith, small))
        (omega (arith, fits)) h in
    rw left (
      loop_ended-IsWhole res (write_loop res c.written (length res - c.written) counts last) k p
        is_open sent same r.0 r.1)
