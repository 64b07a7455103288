-- ===== src/Conf/Values.antt =====
-- handy/conf.cc: what `get` finds in the values.
use handy.Base.{
  ℕ, ◌≡◌, ◌≢◌, inl, inr, refl, sym, ap, subst, true, false, some, List, [], ◌∷◌, ◌++◌, map, arith,
  if◌then◌else◌, Bool-cases, if_cases, Bytes, same_bytes, same_bytes_iff,
}
use handy.Conf.{Values, to_lower, make_key, find, push_value, back, get_or, get}

back-append : (vs : List Bytes) (v : Bytes) → back (vs ++ v ∷ []) ≡ v
unfolding back
back-append [] v = refl
back-append (w ∷ []) v = refl
back-append (w ∷ x ∷ vs) v = back-append (x ∷ vs) v

back_or : (d : Bytes) (vs : List Bytes) (v : Bytes) → get_or d (some (vs ++ v ∷ [])) ≡ v
unfolding get_or
back_or d vs v = back-append vs v

same_self : (k : Bytes) → same_bytes k k ≡ true
same_self k = (same_bytes_iff k k).1 refl

-- A value that is pushed is what is found under its key,
pub find-push_value :
    (key value default_value : Bytes) (vs : Values)
    → get_or default_value (find key (push_value key value vs)) ≡ value
unfolding find push_value get_or
find-push_value key value d [] = rw (same_self key) refl
find-push_value key value d ((k, ws) ∷ rest) =
    if_cases (λ l. get_or d (find key l) ≡ value) (same_bytes key k) ((k, ws ++ value ∷ []) ∷ rest)
      ((k, ws) ∷ push_value key value rest) (λ e. rw (e, find) (back_or d ws value))
      (λ e. rw (e, find) (find-push_value key value d rest))

other_key : (key other : Bytes) → key ≢ other → same_bytes other key ≡ false
other_key key other ne = elim (Bool-cases (same_bytes other key)) [
  | inl e ↦ absurd (ne (sym ((same_bytes_iff other key).0 e)))
  | inr e ↦ e
]

-- and no other key finds anything new.
pub find-push_other :
    (key other value : Bytes) (vs : Values)
    → key ≢ other
    → find other (push_value key value vs) ≡ find other vs
unfolding find push_value
find-push_other key other value [] ne = rw (other_key key other ne) refl
find-push_other key other value ((k, ws) ∷ rest) ne =
    if_cases (λ l. find other l ≡ find other ((k, ws) ∷ rest)) (same_bytes key k)
      ((k, ws ++ value ∷ []) ∷ rest) ((k, ws) ∷ push_value key value rest)
      (λ e.
        let ek = (same_bytes_iff key k).0 e in
        let x : same_bytes other k ≡ false =
          subst (λ z. same_bytes other z ≡ false) ek (other_key key other ne) in
        rw x refl)
      (λ e.
        ap (λ l. if same_bytes other k then some ws else l)
          (find-push_other key other value rest ne))

to_lower_twice : (c : ℕ) → to_lower (to_lower c) ≡ to_lower c
unfolding to_lower
to_lower_twice c = ground arith

lower_twice : (s : Bytes) → map to_lower (map to_lower s) ≡ map to_lower s
lower_twice [] = refl
lower_twice (c ∷ s) = rw (to_lower_twice c) (ap (λ l. to_lower c ∷ l) (lower_twice s))

lower_key : (s n : Bytes) → make_key (map to_lower s) (map to_lower n) ≡ make_key s n
unfolding make_key
lower_key [] n = ap (λ l. to_lower b'.' ∷ l) (lower_twice n)
lower_key (c ∷ s) n = rw (to_lower_twice c) (ap (λ l. to_lower c ∷ l) (lower_key s n))

-- The case of a section's or a name's letters does not matter.
pub get_case :
    (values : Values) (section name default_value : Bytes)
    → get values (map to_lower section) (map to_lower name) default_value
      ≡ get values section name default_value
unfolding get make_key
get_case values section name d = ap (λ k. get_or d (find k values)) (lower_key section name)
