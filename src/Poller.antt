-- ===== src/Poller.antt =====
-- handy/poller.cc (the epoll half), handy/poller.h and `Channel` of handy/event_base.cc: what a poller
-- watches, and how it hands out what epoll_wait has found. A channel is its number; that the kernel
-- refuses a call of epoll_ctl ends the program and is not modelled.
pub mod Delivery
pub mod Removal
use handy.Base.{
  ℕ, zero, suc, Bool, true, false, not, ◌&&◌, ◌||◌, Option, none, some, List, [], ◌∷◌, ◌++◌, length,
  ◌==◌, if◌then◌else◌,
}

-- kReadEvent, kWriteEvent and POLLERR
pub record Events : Type 0 where
  pub reads : Bool
  pub writes : Bool
  pub fails : Bool

-- `activeEvs_[i]`: the pointer, or NULL, and the events.
abbrev pub Entry : Type 0
Entry = Option ℕ × Events

-- `active` is activeEvs_ from the index lastActive_ down to 0; `calls` records the calls of handleWrite
-- and handleRead, which say whether it is a write.
pub record Poller : Type 0 where
  pub live : List ℕ
  pub watched : List (ℕ × Events)
  pub active : List Entry
  pub exited : Bool
  pub calls : List (ℕ × Bool)

-- std::set<Channel *>::erase
unfoldable pub erase : ℕ → List ℕ → List ℕ
erase ch [] = []
erase ch (x ∷ xs) = let rest = erase ch xs in if x == ch then rest else x ∷ rest

-- What epoll watches of a descriptor, by its channel.
pub set_events : ℕ → Events → List (ℕ × Events) → List (ℕ × Events)
set_events ch ev [] = []
set_events ch ev ((x, old) ∷ xs) =
    let rest = set_events ch ev xs in if x == ch then (x, ev) ∷ xs else (x, old) ∷ rest

pub add_channel : ℕ → Events → Poller → Poller
unfolding erase
add_channel ch ev p = record p {
  watched = p.watched ++ (ch, ev) ∷ [];
  live = erase ch p.live ++ ch ∷ [];
}

pub update_channel : ℕ → Events → Poller → Poller
unfolding set_events
update_channel ch ev p = record p { watched = set_events ch ev p.watched }

abbrev pub points_to : ℕ → Option ℕ → Bool
points_to ch none = false
points_to ch (some x) = ch == x

-- The loop of removeChannel.
pub forget : ℕ → List Entry → List Entry
forget ch [] = []
forget ch ((x, ev) ∷ rest) =
    let later = forget ch rest in if points_to ch x then (none, ev) ∷ rest else (x, ev) ∷ later

unfoldable pub remove_channel : ℕ → Poller → Poller
unfolding erase forget
remove_channel ch p = record p { live = erase ch p.live; active = forget ch p.active }

-- Channel::enableRead, enableWrite and enableReadWrite, up to the call of updateChannel
pub enable_read : Bool → Events → Events
enable_read on ev = record ev { reads = on }

pub enable_write : Bool → Events → Events
enable_write on ev = record ev { writes = on }

pub enable_read_write : Bool → Bool → Events → Events
enable_read_write readable writable ev = record ev { reads = readable; writes = writable }

abbrev pub call : ℕ → Bool → Poller → Poller
call ch is_write p = record p { calls = p.calls ++ (ch, is_write) ∷ [] }

abbrev pub rest_of : List Entry → List Entry
rest_of [] = []
rest_of (x ∷ xs) = xs

-- What a channel's callbacks do to the poller.
module _ (on_write on_read : ℕ → Poller → Poller) where
  -- One entry: the channel has been read from it before the first callback.
  pub deliver : Entry → Poller → Poller
  deliver (none, ev) p = p
  deliver (some ch, ev) p =
      let p1 = if ev.writes then on_write ch (call ch true p) else p in
      if ev.reads || ev.fails then on_read ch (call ch false p1) else p1

  -- A round of the loop, on the entries that `p` holds; `again` is the loop.
  pub dispatch_first : (Poller → Poller) → Poller → List Entry → Poller
  unfolding deliver
  dispatch_first again p [] = p
  dispatch_first again p (entry ∷ entries) =
      let q = deliver entry p in
      let r = again (record q { active = rest_of q.active }) in if p.exited then p else r

  -- The loop of loop_once, on fuel. No callback changes the number of entries.
  pub dispatch : ℕ → Poller → Poller
  unfolding dispatch_first
  dispatch zero p = p
  dispatch (suc fuel) p = dispatch_first (dispatch fuel) p p.active

  -- loop_once, where epoll_wait returns these entries, the last of them first
  unfoldable pub loop_once : List Entry → Poller → Poller
  unfolding dispatch
  loop_once found p = record (dispatch (length found) (record p { active = found })) { active = [] }
