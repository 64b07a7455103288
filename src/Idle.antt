-- ===== src/Idle.antt =====
-- handy/event_base.cc: connections that are called back when nothing has happened on them for a while.
-- `idleConns_` is a list of the lists of nodes by their number of seconds, in order; a node is found
-- by its number, as an iterator finds it. Times are in whole seconds.
pub mod Lists
use handy.Base.{
  ℕ, zero, suc, ◌+◌, Bool, true, false, Option, none, some, List, [], ◌∷◌, ◌++◌, length, leb, ltb,
  ◌==◌, if◌then◌else◌,
}

pub record IdleNode : Type 0 where
  pub node : ℕ
  pub con : ℕ
  pub updated : ℕ

-- The seconds and the number of a node.
abbrev pub IdleId : Type 0
IdleId = ℕ × ℕ

abbrev pub IdleConns : Type 0
IdleConns = List (ℕ × List IdleNode)

-- idleConns_[idle].push_back(node)
pub add_node : ℕ → IdleNode → IdleConns → IdleConns
add_node idle n [] = (idle, n ∷ []) ∷ []
add_node idle n ((i, l) ∷ rest) =
    let later = add_node idle n rest in
    if idle == i
    then (i, l ++ n ∷ []) ∷ rest
    else if ltb idle i
    then (idle, n ∷ []) ∷ (i, l) ∷ rest
    else (i, l) ∷ later

-- lst_->erase(iter_)
pub erase_node : ℕ → List IdleNode → List IdleNode
erase_node k [] = []
erase_node k (n ∷ l) = let rest = erase_node k l in if n.node == k then l else n ∷ rest

pub find_node : ℕ → List IdleNode → Option IdleNode
find_node k [] = none
find_node k (n ∷ l) = let rest = find_node k l in if n.node == k then some n else rest

-- What a function makes of the list of an id.
pub in_list : ℕ → (List IdleNode → List IdleNode) → IdleConns → IdleConns
in_list idle f [] = []
in_list idle f ((i, l) ∷ rest) =
    let later = in_list idle f rest in if idle == i then (i, f l) ∷ rest else (i, l) ∷ later

-- The node that is moved by splice, with its new time.
pub to_end : ℕ → ℕ → List IdleNode → List IdleNode
unfolding find_node erase_node
to_end now k l = elim (find_node k l) [
  | none ↦ l
  | some n ↦ erase_node k l ++ record n { updated = now } ∷ []
]

-- `enabled` is idleEnabled: whether callIdles has been made a timer of every second. `next_node` is the
-- next number of a node.
pub record Idles : Type 0 where
  pub conns : IdleConns
  pub enabled : Bool
  pub next_node : ℕ

pub register_idle : ℕ → ℕ → ℕ → Idles → IdleId × Idles
unfolding add_node
register_idle now idle con s = (
  (idle, s.next_node),
  record {
    conns = add_node idle (record { node = s.next_node; con = con; updated = now }) s.conns;
    enabled = true;
    next_node = s.next_node + 1;
  },
)

pub unregister_idle : IdleId → Idles → Idles
unfolding in_list erase_node
unregister_idle (idle, k) s = record s { conns = in_list idle (erase_node k) s.conns }

pub update_idle : ℕ → IdleId → Idles → Idles
unfolding in_list to_end
update_idle now (idle, k) s = record s { conns = in_list idle (to_end now k) s.conns }

-- The loop of callIdles over one list, on fuel: the connections that are called back, in order. The
-- list is a copy (`auto lst = l.second`), and what the loop does to it is not kept.
pub call_list : ℕ → ℕ → ℕ → List IdleNode → List ℕ
call_list now idle fuel [] = []
call_list now idle zero (n ∷ l) = []
call_list now idle (suc fuel) (n ∷ l) =
    let rest = call_list now idle fuel (l ++ record n { updated = now } ∷ []) in
    if ltb now (n.updated + idle) then [] else n.con ∷ rest

-- callIdles: whom it calls back; the lists stay as they are.
pub call_idles : ℕ → IdleConns → List ℕ
unfolding call_list
call_idles now [] = []
call_idles now ((idle, l) ∷ rest) = call_list now idle (length l + 1) l ++ call_idles now rest
