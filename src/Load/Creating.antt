-- ===== src/Load/Creating.antt =====
-- 10m/10m-cli.cc: the connections that are created.
use handy.Base.{
  ℕ, zero, suc, ◌+◌, ◌-◌, ◌*◌, ◌/◌, ◌%◌, ◌≤◌, ◌<◌, min, ◌≡◌, inl, inr, ap, ◌∙◌, true, false, arith,
  ltb, leb, ◌==◌, if◌then◌else◌, ltb→lt, leb→le, Bool-cases, if_cases,
}
use native.Mathlib.Nat.{div-add-mod', div-eq_of_lt, le-div_iff_mul-le}
use handy.Load.{create_timer_cnt, create_loop, create_timers, created, beats_below, beats}

-- A loop of which all connections are still wanted.
create_loop_wanted : (n total every : ℕ) → total + n ≤ every → create_loop n total every ≡ total + n
unfolding create_loop
create_loop_wanted zero total every h = omega arith
create_loop_wanted (suc n) total every h =
    if_cases {A = ℕ} (λ r. r ≡ total + suc n) (leb every (total + 1)) (total + 1)
      (create_loop n (total + 1) every)
      (λ e. let le = leb→le every (total + 1) e in omega (arith, le, h))
      (λ e. omega (arith, create_loop_wanted n (total + 1) every (omega (arith, h))))

-- A loop that comes to the number that is wanted.
create_loop_full :
    (n total every : ℕ) → total < every → every ≤ total + n → create_loop n total every ≡ every
unfolding create_loop
create_loop_full zero total every h g = absurd (omega arith)
create_loop_full (suc n) total every h g =
    if_cases {A = ℕ} (λ r. r ≡ every) (leb every (total + 1)) (total + 1)
      (create_loop n (total + 1) every)
      (λ e. let le = leb→le every (total + 1) e in omega (arith, le, h))
      (λ e. create_loop_full n (total + 1) every (ground (arith, e)) (omega (arith, g)))

create_timers_wanted :
    (k concur total every : ℕ)
    → total + k * concur ≤ every
    → create_timers k concur total every ≡ total + k * concur
unfolding create_timers
create_timers_wanted zero concur total every h = omega arith
create_timers_wanted (suc k) concur total every h =
    let m : suc k * concur ≡ k * concur + concur = omega arith in
    let first = create_loop_wanted concur total every (omega (arith, h, m)) in
    let rest : total + concur + k * concur ≤ every = omega (arith, h, m) in
    ap (λ t. create_timers k concur t every) first
    ∙ create_timers_wanted k concur (total + concur) every rest
    ∙ omega (arith, m)

one_timer : (every concur : ℕ) → 0 < every → every < concur → created every concur ≡ every
unfolding created create_timer_cnt create_timers
one_timer every concur he small =
    let none : every / concur ≡ 0 = div-eq_of_lt small in
    rw none (create_loop_full concur 0 every he (omega (arith, small)))

many_timers :
    (every concur : ℕ) → 0 < concur → concur ≤ every → created every concur ≡ every - every % concur
unfolding created create_timer_cnt
many_timers every concur hc large =
    let whole = div-add-mod' every concur in
    let some_timer =
      (le-div_iff_mul-le {k = concur} {x = 1} {y = every} hc).1 (omega (arith, large)) in
    let several : (every / concur == 0) ≡ false = ground (arith, some_timer) in
    rw several (
      create_timers_wanted (every / concur) concur 0 every (omega (arith, whole))
      ∙ omega (arith, whole))

-- A process of the client creates the connections that it is told to only where their number is below
-- the one for a timer or a multiple of it: otherwise it leaves out the rest of the division.
pub created_lem :
    (every concur : ℕ)
    → 0 < every
    → 0 < concur
    → created every concur ≡ (if ltb every concur then every else every - every % concur)
created_lem every concur he hc =
    if_cases {A = ℕ} (λ r. created every concur ≡ r) (ltb every concur) every
      (every - every % concur) (λ e. one_timer every concur he (ltb→lt every concur e))
      (λ e. many_timers every concur hc (ground (arith, e)))

-- Each timer goes on to the last connection, so that of the first n timers of a heartbeat, at most as
-- many as there are connections for a timer, the j-th connection is sent one by each timer up to its
-- own, and not only by this.
pub beats_below_lem :
    (concur n j : ℕ) → 0 < concur → n ≤ concur → beats_below concur n j ≡ min n (j / concur + 1)
unfolding beats_below beats
beats_below_lem concur zero j hc h = omega arith
beats_below_lem concur (suc n) j hc h =
    let ih = beats_below_lem concur n j hc (omega (arith, h)) in
    let timer : ltb n concur ≡ true = ground (arith, h) in
    let own = le-div_iff_mul-le {k = concur} {x = n} {y = j} hc in
    elim (Bool-cases (leb (n * concur) j)) [
      | inl e ↦ let le = own.1 (leb→le (n * concur) j e) in rw (e, timer) (omega (arith, ih, le))
      | inr e ↦ let gt : j / concur < n = ground (arith, e, own.0) in rw e (omega (arith, ih, gt))
    ]
