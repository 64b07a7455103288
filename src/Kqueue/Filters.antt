-- ===== src/Kqueue/Filters.antt =====
-- handy/poller.cc: the filters of kqueue and the events of the channels.
use mathlib.Core.Option
use handy.Base.{ℕ, ◌≡◌, ◌⊎◌, Bool, true, false, not, Option, none, some, List, [], ◌∷◌}
use handy.Kqueue.{Kqueue, FilterChange}

module _ {ℓ} {K : Type ℓ} (kevent : K → List FilterChange → Option K) where
  -- What kevent documents of the filters that are registered: changes are made in turn, up to one that
  -- fails; a change that is made registers or deletes its filter and leaves the other one of
  -- the descriptor; a filter that is registered can be deleted.
  pub record IsKevent : Type ℓ where
    pub registered : K → ℕ → Bool → Bool
    pub first_fails :
        (k : K) (c d : FilterChange) → kevent k (c ∷ []) ≡ none → kevent k (c ∷ d ∷ []) ≡ none
    pub in_turn :
        (k j : K) (c d : FilterChange)
        → kevent k (c ∷ []) ≡ some j
        → kevent k (c ∷ d ∷ []) ≡ kevent j (d ∷ [])
    pub made :
        (k j : K) (c : FilterChange)
        → kevent k (c ∷ []) ≡ some j
        → registered j c.ident c.is_write ≡ c.adds
    pub other_kept :
        (k j : K) (c : FilterChange)
        → kevent k (c ∷ []) ≡ some j
        → registered j c.ident (not c.is_write) ≡ registered k c.ident (not c.is_write)
    pub deletes :
        (k : K) (c : FilterChange)
        → c.adds ≡ false
        → registered k c.ident c.is_write ≡ true
        → (j : K) × (kevent k (c ∷ []) ≡ some j)

  module _ (L : IsKevent) where
    -- The filters are those of the events that the channel wants.
    unfoldable pub IsInStep : ℕ → Kqueue K → Type 0
    IsInStep ch k =
        (L.registered k.kernel ch false ≡ k.reads ch)
        × (L.registered k.kernel ch true ≡ k.writes ch)

    -- The channel has neither the event nor its filter.
    unfoldable pub IsMissing : ℕ → Kqueue K → Type 0
    IsMissing ch k =
        ((k.reads ch ≡ false) × (L.registered k.kernel ch false ≡ false))
        ⊎ ((k.writes ch ≡ false) × (L.registered k.kernel ch true ≡ false))

    -- The kernel takes no further filter of this descriptor, at this moment.
    unfoldable pub Refuses : ℕ → Type ℓ
    Refuses ch =
        (k : K) × ((w : Bool) × (kevent k (record { ident = ch; is_write = w; adds = true } ∷ [])
            ≡ none))
