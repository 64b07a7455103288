-- ===== src/Poller/Removal.antt =====
-- handy/poller.cc: a channel that has been removed, over the rest of loop_once.
use handy.Base.{
  ℕ, zero, suc, ◌+◌, ◌≡◌, refl, ap, ◌∙◌, Bool, true, false, ◌||◌, none, some, List, [], ◌∷◌, ◌++◌,
  arith, ◌==◌, if◌then◌else◌, if_cases,
}
use handy.Poller.{
  Entry, Poller, points_to, forget, remove_channel, call, rest_of, deliver, dispatch_first,
  dispatch,
}
use handy.Poller.Delivery.{Forgets, Distinct, remove_channel-Forgets}

-- How often handleWrite and handleRead of the channel have been called.
unfoldable pub calls_of : ℕ → List (ℕ × Bool) → ℕ
calls_of ch [] = 0
calls_of ch ((c, w) ∷ calls) = (if ch == c then 1 else 0) + calls_of ch calls

-- What a channel's callbacks do to the poller neither calls the channel `ch` nor brings it back among
-- the entries that are still to come.
pub record KeepsAway (ch : ℕ) (on : ℕ → Poller → Poller) : Type 0 where
  pub on-Forgets : (c : ℕ) (p : Poller) → Forgets ch p.active → Forgets ch (on c p).active
  pub calls_of-on : (c : ℕ) (p : Poller) → calls_of ch (on c p).calls ≡ calls_of ch p.calls

calls_of-append :
    (ch c : ℕ) (w : Bool) (calls : List (ℕ × Bool))
    → (ch == c) ≡ false
    → calls_of ch (calls ++ (c, w) ∷ []) ≡ calls_of ch calls
unfolding calls_of
calls_of-append ch c w [] e = rw e (omega arith)
calls_of-append ch c w ((d, v) ∷ calls) e =
    ap (λ n. (if ch == d then 1 else 0) + n) (calls_of-append ch c w calls e)

-- No entry for the channel is to come, and it has been called so often.
IsAway : ℕ → ℕ → Poller → Type 0
IsAway ch n p = Forgets ch p.active × (calls_of ch p.calls ≡ n)

module _ (ch : ℕ) (on_write on_read : ℕ → Poller → Poller) (W : KeepsAway ch on_write)
    (R : KeepsAway ch on_read) where
  called :
      (on : ℕ → Poller → Poller) (c n : ℕ) (w : Bool) (p : Poller)
      → KeepsAway ch on
      → (ch == c) ≡ false
      → IsAway ch n p
      → IsAway ch n (on c (call c w p))
  unfolding IsAway
  called on c n w p K e (away, count) = (
    K.on-Forgets c (call c w p) away,
    K.calls_of-on c (call c w p) ∙ calls_of-append ch c w p.calls e ∙ count,
  )

  unfold-IsAway :
      (n : ℕ) (p : Poller) → IsAway ch n p → Forgets ch p.active × (calls_of ch p.calls ≡ n)
  unfolding IsAway
  unfold-IsAway n p h = h

  fold-IsAway : (n : ℕ) (p : Poller) → Forgets ch p.active → calls_of ch p.calls ≡ n → IsAway ch n p
  unfolding IsAway
  fold-IsAway n p f e = (f, e)

  unfold_first : (e : Entry) (l : List Entry) → Forgets ch (e ∷ l) → points_to ch e.0 ≡ false
  unfolding Forgets
  unfold_first e l h = h.0

  IsAway-if :
      (b : Bool) (n : ℕ) (p q : Poller)
      → IsAway ch n p
      → IsAway ch n q
      → IsAway ch n (if b then p else q)
  IsAway-if true n p q h g = h
  IsAway-if false n p q h g = g

  deliver-IsAway :
      (n : ℕ) (e : Entry) (p : Poller)
      → points_to ch e.0 ≡ false
      → IsAway ch n p
      → IsAway ch n (deliver on_write on_read e p)
  unfolding deliver
  deliver-IsAway n (none, ev) p other h = h
  deliver-IsAway n (some c, ev) p other h =
      let p1 = if ev.writes then on_write c (call c true p) else p in
      let h1 =
        IsAway-if ev.writes n (on_write c (call c true p)) p (called on_write c n true p W other h)
          h in
      IsAway-if (ev.reads || ev.fails) n (on_read c (call c false p1)) p1
        (called on_read c n false p1 R other h1) h1

  rest-Forgets : (l : List Entry) → Forgets ch l → Forgets ch (rest_of l)
  unfolding Forgets
  rest-Forgets [] h = h
  rest-Forgets (x ∷ l) h = h.1

  first-IsAway :
      (again : Poller → Poller) (n : ℕ) (p : Poller) (l : List Entry)
      → ((q : Poller) → IsAway ch n q → IsAway ch n (again q))
      → Forgets ch l
      → IsAway ch n p
      → IsAway ch n (dispatch_first on_write on_read again p l)
  unfolding dispatch_first
  first-IsAway again n p [] ih f h = h
  first-IsAway again n p (entry ∷ entries) ih f h =
      let q = deliver on_write on_read entry p in
      let (away, count) =
        unfold-IsAway n q (deliver-IsAway n entry p (unfold_first entry entries f) h) in
      IsAway-if p.exited n p (again (record q { active = rest_of q.active })) h (
        ih (record q { active = rest_of q.active })
          (fold-IsAway n (record q { active = rest_of q.active }) (rest-Forgets q.active away)
            count))

  dispatch-IsAway :
      (fuel n : ℕ) (p : Poller) → IsAway ch n p → IsAway ch n (dispatch on_write on_read fuel p)
  unfolding dispatch
  dispatch-IsAway zero n p h = h
  dispatch-IsAway (suc fuel) n p h =
      first-IsAway (dispatch on_write on_read fuel) n p p.active (λ q g. dispatch-IsAway fuel n q g)
        (unfold-IsAway n p h).0 h

forget-Keeps : (ch x : ℕ) (l : List Entry) → Forgets ch l → Forgets ch (forget x l)
unfolding Forgets forget
forget-Keeps ch x [] h = tt
forget-Keeps ch x ((e, ev) ∷ l) h =
    if_cases (Forgets ch) (points_to x e) ((none, ev) ∷ l) ((e, ev) ∷ forget x l) (λ q. (refl, h.1))
      (λ q. (h.0, forget-Keeps ch x l h.1))

-- A callback that closes channels.
pub remove_channel-KeepsAway :
    (ch : ℕ) (closes : ℕ → ℕ) → KeepsAway ch (λ c p. remove_channel (closes c) p)
unfolding remove_channel
remove_channel-KeepsAway ch closes = record {
  on-Forgets = λ c p h. forget-Keeps ch (closes c) p.active h;
  calls_of-on = λ c p. refl;
}

-- A channel that is removed before an entry is taken is not called for it nor for the entries still to come
-- in this call of loop_once, whichever they are, as long as no callback calls it or brings it back and
-- epoll_wait returns a descriptor once. One that is removed by its own handleWrite, while
-- its entry is worked on, is still called for this entry's other event.
pub remove_channel-calls :
    (ch fuel : ℕ) (on_write on_read : ℕ → Poller → Poller) (p : Poller)
    → KeepsAway ch on_write
    → KeepsAway ch on_read
    → Distinct p.active
    → calls_of ch (dispatch on_write on_read fuel (remove_channel ch p)).calls ≡ calls_of ch p.calls
unfolding remove_channel
remove_channel-calls ch fuel on_write on_read p W R distinct =
    (unfold-IsAway ch on_write on_read W R (calls_of ch p.calls) _ (
      dispatch-IsAway ch on_write on_read W R fuel (calls_of ch p.calls) (remove_channel ch p)
        (unfold IsAway in (remove_channel-Forgets ch p distinct, refl)))).1
