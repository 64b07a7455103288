-- ===== src/Server/Accepting.antt =====
-- handy/conn.cc: where handleAccept puts the connections.
use handy.Base.{
  ℕ, suc, ◌+◌, ◌%◌, ◌^◌, ◌<◌, ◌≤◌, ◌≡◌, inl, inr, refl, ◌∙◌, Bool, ◌&&◌, List, [], ◌∷◌, ◌++◌,
  append-nil, append_assoc, arith, ◌==◌, if◌then◌else◌, Bool-cases, length,
}
use handy.EventLoop.{alloc_base}
use handy.Base.Int.{as_size_t, as_int_small}
use handy.Server.{Accept, TcpServer, place, accept_one, handle_accept}

pub is_good : Accept → Bool
is_good a = a.has_peer && a.has_local

-- The descriptors of which both names are known, and the others.
unfoldable pub good : List Accept → List ℕ
unfolding is_good
good [] = []
good (a ∷ rest) = if is_good a then a.fd ∷ good rest else good rest

unfoldable pub bad : List Accept → List ℕ
unfolding is_good
bad [] = []
bad (a ∷ rest) = if is_good a then bad rest else a.fd ∷ bad rest

-- Descriptors and the bases that they belong to, in turn from `id` on.
unfoldable pub deal : ℕ → ℕ → List ℕ → List (ℕ × ℕ)
deal bases id [] = []
deal bases id (fd ∷ fds) = (fd, id % bases) ∷ deal bases (id + 1) fds

-- Those of this base, and those of the others.
unfoldable pub of_base : ℕ → List (ℕ × ℕ) → List (ℕ × ℕ)
of_base b [] = []
of_base b (x ∷ xs) = let rest = of_base b xs in if x.1 == b then x ∷ rest else rest

unfoldable pub of_others : ℕ → List (ℕ × ℕ) → List (ℕ × ℕ)
of_others b [] = []
of_others b (x ∷ xs) = let rest = of_others b xs in if x.1 == b then rest else x ∷ rest

later : (n : ℕ) (xs : List ℕ) → n + 1 + length xs ≡ n + suc (length xs)
later n xs = omega arith

place_lem :
    (fd : ℕ) (s : TcpServer)
    → s.id < 2 ^ 31
    → place fd s ≡ (
        if s.id % s.bases == s.base
        then record s { id = s.id + 1; attached = s.attached ++ (fd, s.id % s.bases) ∷ [] }
        else record s { id = s.id + 1; posted = s.posted ++ (fd, s.id % s.bases) ∷ [] })
unfolding place alloc_base as_size_t
place_lem fd s small =
    let e : (s.id + 1) % 2 ^ 32 ≡ s.id + 1 = omega (arith, small) in
    rw (as_int_small s.id small, e) refl

-- What handleAccept comes to, while id_ has not reached 2 ^ 31 behind the accepts: every accepted descriptor with both names known goes to the
-- bases in turn, attached at once for the server's own base and posted for the others, in the order
-- of the accepts; every other descriptor is passed over, and the id has gone on by the number
-- of those that were placed.
pub handle_accept_lem :
    (accepts : List Accept) (s : TcpServer)
    → s.id + length accepts ≤ 2 ^ 31
    → handle_accept accepts s ≡ record s {
      id = s.id + length (good accepts);
      attached = s.attached ++ of_base s.base (deal s.bases s.id (good accepts));
      posted = s.posted ++ of_others s.base (deal s.bases s.id (good accepts));
      passed_over = s.passed_over ++ bad accepts;
    }
unfolding handle_accept accept_one good bad is_good deal of_base of_others
handle_accept_lem [] s small =
    let e : s.id + 0 ≡ s.id = omega arith in
    rw (e, append-nil s.attached, append-nil s.posted, append-nil s.passed_over) refl
handle_accept_lem (a ∷ rest) s small = elim (Bool-cases (a.has_peer && a.has_local)) [
  | inr e ↦ rw e (
      handle_accept_lem rest (record s { passed_over = s.passed_over ++ a.fd ∷ [] })
        (omega (arith, small))
      ∙ rw (append_assoc s.passed_over (a.fd ∷ []) (bad rest)) refl)
  | inl e ↦ elim (Bool-cases (s.id % s.bases == s.base)) [
    | inl h ↦
        rw (e, place_lem a.fd s (omega (arith, small)), h)
          (handle_accept_lem rest
              (record s { id = s.id + 1; attached = s.attached ++ (a.fd, s.id % s.bases) ∷ [] })
              (omega (arith, small))
            ∙ rw
                (
                  later s.id (good rest),
                  append_assoc s.attached ((a.fd, s.id % s.bases) ∷ [])
                      (of_base s.base (deal s.bases (s.id + 1) (good rest))),
                )
                refl)
    | inr h ↦
        rw (e, place_lem a.fd s (omega (arith, small)), h)
          (handle_accept_lem rest
              (record s { id = s.id + 1; posted = s.posted ++ (a.fd, s.id % s.bases) ∷ [] })
              (omega (arith, small))
            ∙ rw
                (
                  later s.id (good rest),
                  append_assoc s.posted ((a.fd, s.id % s.bases) ∷ [])
                      (of_others s.base (deal s.bases (s.id + 1) (good rest))),
                )
                refl)
  ]
]
