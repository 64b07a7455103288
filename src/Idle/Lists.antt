-- ===== src/Idle/Lists.antt =====
-- handy/event_base.cc: who is idle.
use handy.Base.{
  ℕ, zero, suc, ◌+◌, ◌≤◌, ◌<◌, ◌≡◌, refl, sym, ap, ◌∙◌, true, false, List, [], ◌∷◌, ◌++◌,
  append-nil, append_assoc, arith, ltb, if◌then◌else◌, length, All, length-append,
}
use handy.Idle.{IdleNode, call_list}

-- The nodes that stand before the first that has been active within the time.
pub idle_front : ℕ → ℕ → List IdleNode → List ℕ
idle_front now idle [] = []
idle_front now idle (n ∷ l) =
    let rest = idle_front now idle l in if ltb now (n.updated + idle) then [] else n.con ∷ rest

-- Nodes that the loop has put at the end.
Fresh : ℕ → List IdleNode → Type 0
Fresh now = All (λ (n : IdleNode). n.updated ≡ now)

Fresh-append :
    (now : ℕ) (l : List IdleNode) (n : IdleNode)
    → Fresh now l
    → n.updated ≡ now
    → Fresh now (l ++ n ∷ [])
unfolding Fresh
Fresh-append now [] n h e = (e, tt)
Fresh-append now (m ∷ l) n h e = (h.0, Fresh-append now l n h.1 e)

call_list-Fresh :
    (now idle fuel : ℕ) (l : List IdleNode)
    → 0 < idle
    → Fresh now l
    → call_list now idle fuel l ≡ []
unfolding call_list Fresh
call_list-Fresh now idle fuel [] hi h = refl
call_list-Fresh now idle zero (n ∷ l) hi h = refl
call_list-Fresh now idle (suc fuel) (n ∷ l) hi h =
    let e : ltb now (n.updated + idle) ≡ true = rw h.0 (ground arith) in rw e refl

call_list-front :
    (now idle fuel : ℕ) (l later : List IdleNode)
    → 0 < idle
    → length l ≤ fuel
    → Fresh now later
    → call_list now idle fuel (l ++ later) ≡ idle_front now idle l
unfolding call_list idle_front
call_list-front now idle fuel [] later hi hf h = call_list-Fresh now idle fuel later hi h
call_list-front now idle zero (n ∷ l) later hi hf h = absurd (omega arith)
call_list-front now idle (suc fuel) (n ∷ l) later hi hf h =
    let m : IdleNode = record n { updated = now } in
    ap (λ r. if ltb now (n.updated + idle) then [] else n.con ∷ r)
      (ap (call_list now idle fuel) (append_assoc l later (m ∷ []))
        ∙ call_list-front now idle fuel l (later ++ m ∷ []) hi (omega arith)
            (Fresh-append now later m h refl))

-- callIdles, of a list whose time is not 0: as many steps of the loop as the list is long are enough,
-- and the connections called back are those before the first that has been active in time, each once.
pub call_list_lem :
    (now idle fuel : ℕ) (l : List IdleNode)
    → 0 < idle
    → length l ≤ fuel
    → call_list now idle fuel l ≡ idle_front now idle l
unfolding Fresh
call_list_lem now idle fuel l hi hf =
    ap (call_list now idle fuel) (sym (append-nil l)) ∙ call_list-front now idle fuel l [] hi hf tt

-- None of the nodes is from the future.
unfoldable pub Past : ℕ → List IdleNode → Type 0
Past now = All (λ (n : IdleNode). n.updated ≤ now)

Past-append :
    (now : ℕ) (l : List IdleNode) (n : IdleNode)
    → Past now l
    → n.updated ≤ now
    → Past now (l ++ n ∷ [])
unfolding Past
Past-append now [] n h e = (e, tt)
Past-append now (m ∷ l) n h e = (h.0, Past-append now l n h.1 e)

in_time : (now u : ℕ) → u ≤ now → ltb now (u + 0) ≡ false
in_time now u h = ground arith

own_time : (now : ℕ) → now ≤ now
own_time now = omega arith

longer : (l : List IdleNode) (m : IdleNode) → 0 < length (l ++ m ∷ [])
longer l m = rw (length-append l (m ∷ [])) (omega arith)

-- callIdles, of a list whose time is 0 and which is not empty: the loop never comes to its end, but
-- calls back as often as it has steps.
pub call_list_zero :
    (now fuel : ℕ) (l : List IdleNode)
    → Past now l
    → 0 < length l
    → length (call_list now 0 fuel l) ≡ fuel
unfolding call_list Past
call_list_zero now fuel [] h k = absurd (omega arith)
call_list_zero now zero (n ∷ l) h k = refl
call_list_zero now (suc fuel) (n ∷ l) h k =
    let m : IdleNode = record n { updated = now } in
    let e : ltb now (n.updated + 0) ≡ false = in_time now n.updated h.0 in
    let again : Past now (l ++ m ∷ []) = Past-append now l m h.1 (own_time now) in
    rw e (ap suc (call_list_zero now fuel (l ++ m ∷ []) again (longer l m)))
