-- ===== src/Kqueue.antt =====
-- handy/poller.cc (the kqueue half): what the poller watches, and how it hands out what kevent has
-- found. A channel is its number. The kernel is a parameter: `kevent` takes what the kernel has to a
-- list of changes, and gives what it has then, or `none` where it refuses one, which ends the program.
pub mod Filters
use mathlib.Core.Option
use mathlib.Core.Path.{ap₂}
use handy.Base.{
  ℕ, zero, suc, ◌+◌, ◌-◌, ◌*◌, ◌/◌, ◌%◌, ◌^◌, ◌≤◌, ◌<◌, min, max, ◌≡◌, ◌≢◌, ◌↔◌, ◌⊎◌, inl, inr,
  refl, sym, ap, ◌∙◌, subst, Bool, true, false, not, ◌&&◌, ◌||◌, Option, none, some, List, [], ◌∷◌,
  ◌++◌, map, reverse, append-nil, append_assoc, arith, ltb, leb, ◌==◌, if◌then◌else◌, ltb→lt,
  lt→ltb, leb→le, ==_iff, ==_self, Bool-cases, ℕ-cases, List-cases, Option-cases, if_cases, Bytes,
  codes, length, take, drop, get_elem?, All, length-append, length-take, length-drop,
  take-append-drop, take-all, drop-all, take-append, drop-append, take-append_le, drop-append_le,
  take-append_ge, drop-drop, take-drop, same_bytes, same_bytes_iff,
}
use handy.Poller.{erase}

-- What EV_SET writes: the channel's descriptor, whether the filter is EVFILT_WRITE, and whether the change is
-- EV_ADD | EV_ENABLE; the other is EV_DELETE.
pub record FilterChange : Type 0 where
  pub ident : ℕ
  pub is_write : Bool
  pub adds : Bool

-- `activeEvs_[i]`: the channel in udata, or NULL, and EV_EOF. `active` is activeEvs_ from the index
-- lastActive_ down to 0; `reads` and `writes` are readEnabled and writeEnabled of the channels; `calls`
-- records the calls of handleWrite and handleRead, which say whether it is a write. `kernel` is what
-- the kernel has behind fd_.
pub record Kqueue {ℓ} (K : Type ℓ) : Type ℓ where
  pub live : List ℕ
  pub kernel : K
  pub reads : ℕ → Bool
  pub writes : ℕ → Bool
  pub active : List (Option ℕ × Bool)
  pub calls : List (ℕ × Bool)

-- if (…Enabled()) EV_SET(&ev[n++], …, EV_ADD | EV_ENABLE, …)
unfoldable pub add_if : Bool → ℕ → Bool → List FilterChange → List FilterChange
add_if on ch w changes =
    if on then record { ident = ch; is_write = w; adds = true } ∷ changes else changes

module _ {ℓ} {K : Type ℓ} (kevent : K → List FilterChange → Option K) where
  unfoldable pub add_channel : ℕ → Kqueue K → Option (Kqueue K)
  unfolding add_if erase
  add_channel ch k =
      Option.map (λ (j : K). record k { kernel = j; live = erase ch k.live ++ ch ∷ [] })
        (kevent k.kernel (add_if (k.reads ch) ch false (add_if (k.writes ch) ch true [])))

  unfoldable pub update_channel : ℕ → Kqueue K → Option (Kqueue K)
  update_channel ch k =
      Option.map (λ (j : K). record k { kernel = j })
        (kevent k.kernel (
          record { ident = ch; is_write = false; adds = k.reads ch }
          ∷ record { ident = ch; is_write = true; adds = k.writes ch }
          ∷ []))

abbrev pub points_to : ℕ → Option ℕ → Bool
points_to ch none = false
points_to ch (some x) = ch == x

-- The loop of removeChannel: the first entry from lastActive_ down.
unfoldable pub forget : ℕ → List (Option ℕ × Bool) → List (Option ℕ × Bool)
forget ch [] = []
forget ch ((x, eof) ∷ rest) =
    let later = forget ch rest in if points_to ch x then (none, eof) ∷ rest else (x, eof) ∷ later

module _ {ℓ} {K : Type ℓ} where
  unfoldable pub remove_channel : ℕ → Kqueue K → Kqueue K
  unfolding erase forget
  remove_channel ch k = record k { live = erase ch k.live; active = forget ch k.active }

abbrev pub rest_of : List (Option ℕ × Bool) → List (Option ℕ × Bool)
rest_of [] = []
rest_of (x ∷ xs) = xs

-- What a channel's callbacks do to the poller; that `fatal` ends the program is `none`.
module _ {ℓ} {K : Type ℓ} (on_write on_read : ℕ → Kqueue K → Kqueue K) where
  -- One entry
  unfoldable pub deliver : Option ℕ × Bool → Kqueue K → Option (Kqueue K)
  deliver (none, eof) k = some k
  deliver (some ch, eof) k =
      if not eof && k.writes ch
      then some (on_write ch (record k { calls = k.calls ++ (ch, true) ∷ [] }))
      else if eof || k.reads ch
      then some (on_read ch (record k { calls = k.calls ++ (ch, false) ∷ [] }))
      else none

  -- The loop of loop_once, on fuel.
  unfoldable pub dispatch : ℕ → Kqueue K → Option (Kqueue K)
  unfolding deliver
  dispatch zero k = some k
  dispatch (suc fuel) k = elim k.active [
    | [] ↦ some k
    | entry ∷ entries ↦ elim (deliver entry k) [
      | none ↦ none
      | some q ↦ dispatch fuel (record q { active = rest_of q.active })
    ]
  ]

  -- loop_once, where kevent returns these entries, the last of them first
  unfoldable pub loop_once : List (Option ℕ × Bool) → Kqueue K → Option (Kqueue K)
  unfolding dispatch
  loop_once found k = dispatch (length found) (record k { active = found })
