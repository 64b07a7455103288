-- ===== src/Poller/Delivery.antt =====
-- handy/poller.cc: who is called by loop_once.
use handy.Base.{
  ℕ, ◌≡◌, refl, sym, subst, false, none, some, List, [], ◌∷◌, ◌==◌, ==_iff, if_cases, All,
}
use handy.Poller.{Entry, Poller, forget, remove_channel, points_to}

-- No entry points to the channel.
unfoldable pub Forgets : ℕ → List Entry → Type 0
Forgets ch = All (λ (e : Entry). points_to ch e.0 ≡ false)

-- epoll_wait returns a descriptor once.
unfoldable pub Distinct : List Entry → Type 0
Distinct [] = Unit {0}
Distinct ((none, ev) ∷ rest) = Distinct rest
Distinct ((some ch, ev) ∷ rest) = Forgets ch rest × Distinct rest

forget-Forgets : (ch : ℕ) (l : List Entry) → Distinct l → Forgets ch (forget ch l)
unfolding forget Distinct Forgets
forget-Forgets ch [] h = tt
forget-Forgets ch ((none, ev) ∷ rest) h = (refl, forget-Forgets ch rest h)
forget-Forgets ch ((some x, ev) ∷ rest) h =
    if_cases (Forgets ch) (ch == x) ((none, ev) ∷ rest) ((some x, ev) ∷ forget ch rest)
      (λ e. (refl, subst (λ k. Forgets k rest) (sym ((==_iff ch x).0 e)) h.0))
      (λ e. (e, forget-Forgets ch rest h.1))

-- removeChannel leaves no entry that is still to come for the channel, whether it is the one whose
-- callback closes it or another.
pub remove_channel-Forgets :
    (ch : ℕ) (p : Poller) → Distinct p.active → Forgets ch (remove_channel ch p).active
unfolding remove_channel
remove_channel-Forgets ch p h = forget-Forgets ch p.active h
