-- ===== src/Conf/Lines.antt =====
-- handy/conf.cc: the lines of a file.
use handy.Base.{
  ℕ, zero, suc, ◌+◌, ◌≤◌, ◌≡◌, ◌≢◌, inl, inr, refl, ap, ◌∙◌, Bool, true, false, ◌&&◌, ◌||◌, [], ◌∷◌,
  ◌++◌, reverse, arith, ◌==◌, if◌then◌else◌, Bool-cases, if_cases, Bytes, length,
}
use handy.Conf.{
  make_key, find, get_or, get, Parser, add_value, parse_pair, parse_line, parse_loop, c_string,
  gets, max_line, peek_char, consume_till, consume_till_end, skip, pair_equals, in_value,
  value_loop, is_not, skip_spaces, pos,
}
use mathlib.Core.List.{reverse-append, reverse-reverse}
use handy.Conf.Values.{find-push_value}
use handy.Slice.Words.{Every-reverse}
use handy.Slice.{is_space, is_word, drop_last_spaces}
use handy.Base.Scan.{Every, Stops, drop_while, take_while-stop, drop_while-stop}

-- gets takes at least one byte, so the loop comes to the end of the file.
gets-shrinks : (n : ℕ) (bs : Bytes) → length (gets n bs).1 ≤ length bs
unfolding gets
gets-shrinks zero bs = omega arith
gets-shrinks (suc n) [] = omega arith
gets-shrinks (suc n) (c ∷ cs) =
    if_cases {A = Bytes × Bytes} (λ q. length q.1 ≤ suc (length cs)) (c == b'\n') (c ∷ [], cs)
      (c ∷ (gets n cs).0, (gets n cs).1) (λ _. omega arith) (λ _. omega (arith, gets-shrinks n cs))

gets-takes : (n : ℕ) (c : ℕ) (cs : Bytes) → length (gets (suc n) (c ∷ cs)).1 ≤ length cs
unfolding gets
gets-takes n c cs =
    if_cases {A = Bytes × Bytes} (λ q. length q.1 ≤ length cs) (c == b'\n') (c ∷ [], cs)
      (c ∷ (gets n cs).0, (gets n cs).1) (λ _. omega arith) (λ _. gets-shrinks n cs)

le_pred : {a b n : ℕ} → a ≤ b → suc b ≤ suc n → a ≤ n
le_pred h k = omega arith

-- The loop of parse comes to the end of the file: any fuel that is at least the file's length gives the
-- same result.
pub parse_loop-fuel :
    (fuel enough lineno : ℕ) (ps : Parser) (file : Bytes)
    → length file ≤ fuel
    → length file ≤ enough
    → parse_loop fuel lineno ps file ≡ parse_loop enough lineno ps file
unfolding parse_loop
parse_loop-fuel fuel enough lineno ps [] h k = refl
parse_loop-fuel zero enough lineno ps (c ∷ cs) h k = absurd (omega arith)
parse_loop-fuel (suc fuel) zero lineno ps (c ∷ cs) h k = absurd (omega arith)
parse_loop-fuel (suc fuel) (suc enough) lineno ps (c ∷ cs) h k =
    let r = gets max_line (c ∷ cs) in
    let shorter = gets-takes 16382 c cs in
    ap (λ q. if ps.bad then (pos lineno, ps) else q)
      (parse_loop-fuel fuel enough (lineno + 1) (parse_line (c_string r.0) ps) r.1
        (le_pred shorter h) (le_pred shorter k))

-- Gets splits the file: nothing is lost between two lines.
pub gets-append : (n : ℕ) (bs : Bytes) → (gets n bs).0 ++ (gets n bs).1 ≡ bs
unfolding gets
gets-append zero bs = refl
gets-append (suc n) [] = refl
gets-append (suc n) (c ∷ cs) =
    if_cases {A = Bytes × Bytes} (λ q. q.0 ++ q.1 ≡ c ∷ cs) (c == b'\n') (c ∷ [], cs)
      (c ∷ (gets n cs).0, (gets n cs).1) (λ _. refl) (λ _. ap (λ l. c ∷ l) (gets-append n cs))

-- A byte of a name: neither a space nor `=`.
abbrev pub in_name : ℕ → Bool
in_name c = is_word c && is_not b'=' c

-- The bytes that begin a comment or a section.
abbrev pub starts_other : ℕ → Bool
starts_other c = c == b';' || c == b'#' || c == b'[' || c == 0

-- A byte of a value: neither a space nor the start of a comment.
abbrev pub in_word : ℕ → Bool
in_word c = is_word c && in_value c

skip_space :
    (s : ℕ) (bs : Bytes) → is_space s ≡ true → drop_while is_space (s ∷ bs) ≡ drop_while is_space bs
unfolding drop_while
skip_space s bs h = rw h refl

word-not-space : (c : ℕ) → in_word c ≡ true → is_space c ≡ false
word-not-space c h = ground arith

drop_while-none : (bs : Bytes) → Every in_word bs → drop_while is_space bs ≡ bs
unfolding drop_while
drop_while-none [] h = refl
drop_while-none (c ∷ cs) h = rw (word-not-space c h.0) refl

drop_last_spaces-word :
    (w : Bytes) (s : ℕ) → Every in_word w → is_space s ≡ true → drop_last_spaces (w ++ s ∷ []) ≡ w
unfolding drop_last_spaces
drop_last_spaces-word w s h hs =
    ap (λ l. reverse (drop_while is_space l)) (reverse-append w (s ∷ []))
    ∙ ap reverse
        (skip_space s (reverse w) hs ∙ drop_while-none (reverse w) (Every-reverse in_word w h))
    ∙ reverse-reverse w

value_loop-step :
    (b : Bool) (c : ℕ) (cs : Bytes)
    → b ≡ false
    → in_value c ≡ true
    → value_loop b (c ∷ cs) ≡ (c ∷ (value_loop (is_space c) cs).0, (value_loop (is_space c) cs).1)
unfolding value_loop
value_loop-step b c cs hb hc = rw (hb, hc) refl

value_loop-stop : (rest : Bytes) → value_loop true rest ≡ ([], rest)
unfolding value_loop
value_loop-stop [] = refl
value_loop-stop (c ∷ cs) = elim (Bool-cases (in_value c)) [ inl e ↦ rw e refl | inr e ↦ rw e refl ]

space-in_value : (s : ℕ) → is_space s ≡ true → in_value s ≡ true
unfolding is_space
space-in_value s h = ground arith

word-in_value : (c : ℕ) → in_word c ≡ true → in_value c ≡ true
word-in_value c h = ground arith

value_loop-word :
    (b : Bool) (w : Bytes) (s : ℕ) (rest : Bytes)
    → Every in_word w
    → is_space s ≡ true
    → b ≡ false
    → value_loop b (w ++ s ∷ rest) ≡ (w ++ s ∷ [], rest)
value_loop-word b [] s rest h hs hb =
    value_loop-step b s rest hb (space-in_value s hs)
    ∙ ap {A = Bytes × Bytes} (λ q. (s ∷ q.0, q.1)) (rw hs (value_loop-stop rest))
value_loop-word b (c ∷ w) s rest h hs hb =
    value_loop-step b c (w ++ s ∷ rest) hb (word-in_value c h.0)
    ∙ ap {A = Bytes × Bytes} (λ q. (c ∷ q.0, q.1))
        (value_loop-word (is_space c) w s rest h.1 hs (word-not-space c h.0))

no_spaces :
    (w rest : Bytes) → w ≢ [] → Every in_word w → drop_while is_space (w ++ rest) ≡ w ++ rest
unfolding drop_while
no_spaces [] rest ne h = absurd (ne refl)
no_spaces (c ∷ w) rest ne h = rw (word-not-space c h.0) refl

consume_till_end-word :
    (w : Bytes) (s : ℕ) (rest : Bytes)
    → w ≢ []
    → Every in_word w
    → is_space s ≡ true
    → (consume_till_end (record { p = w ++ s ∷ rest; err = false })).0 ≡ w
unfolding consume_till_end skip_spaces
consume_till_end-word w s rest ne h hs =
    rw (no_spaces w (s ∷ rest) ne h, value_loop-word false w s rest h hs refl)
      (drop_last_spaces-word w s h hs)

line_start :
    (c : ℕ) (tail : Bytes) (ps : Parser)
    → is_space c ≡ false
    → starts_other c ≡ false
    → parse_line (c ∷ tail) ps ≡ parse_pair (record { p = c ∷ tail; err = false }) ps
unfolding parse_line peek_char skip_spaces drop_while
line_start c tail ps hs ho =
    let e1 : (c == b';' || c == b'#' || c == 0) ≡ false = ground arith in
    let e2 : (c == b'[') ≡ false = ground arith in rw (hs, e1, e2, hs) refl

name-not-space : (c : ℕ) → in_name c ≡ true → is_space c ≡ false
name-not-space c h = ground arith

name-other : (c : ℕ) → in_name c ≡ true → is_not b'=' c ≡ true
name-other c h = ground arith

name-start : (c : ℕ) (cs : Bytes) → in_name c ≡ true → drop_while is_space (c ∷ cs) ≡ c ∷ cs
unfolding drop_while
name-start c cs h = rw (name-not-space c h) refl

name-space : (bs : Bytes) → Every in_name bs → drop_while is_space bs ≡ bs
unfolding drop_while
name-space [] h = refl
name-space (c ∷ cs) h = name-start c cs h.0

Every-name : (bs : Bytes) → Every in_name bs → Every (is_not b'=') bs
Every-name [] h = tt
Every-name (c ∷ cs) h = let e : is_not b'=' c ≡ true = name-other c h.0 in (e, Every-name cs h.1)

name-word : (name : Bytes) → Every in_name name → drop_last_spaces name ≡ name
unfolding drop_last_spaces
name-word name h =
    ap reverse (name-space (reverse name) (Every-reverse in_name name h)) ∙ reverse-reverse name

consume_till-name :
    (c : ℕ) (cs rest : Bytes)
    → Every in_name (c ∷ cs)
    → consume_till b'=' (record { p = c ∷ (cs ++ b'=' ∷ rest); err = false })
      ≡ (c ∷ cs, record { p = b'=' ∷ rest; err = false })
unfolding consume_till skip_spaces
consume_till-name c cs rest h =
    let e : drop_while is_space (c ∷ (cs ++ b'=' ∷ rest)) ≡ c ∷ (cs ++ b'=' ∷ rest) =
      name-start c (cs ++ b'=' ∷ rest) h.0 in
    let hp = Every-name (c ∷ cs) h in
    rw
      (
        e,
        take_while-stop (is_not b'=') (c ∷ cs) (b'=' ∷ rest) hp refl,
        drop_while-stop (is_not b'=') (c ∷ cs) (b'=' ∷ rest) hp refl,
        name-word (c ∷ cs) h,
      )
      refl

equals-word :
    (name word rest : Bytes) (s : ℕ) (ps : Parser)
    → word ≢ []
    → Every in_word word
    → is_space s ≡ true
    → pair_equals name (record { p = b'=' ∷ (word ++ s ∷ rest); err = false }) ps
      ≡ add_value word (record ps { key = name })
unfolding pair_equals skip
equals-word name word rest s ps nw hw hs =
    ap (λ v. add_value v (record ps { key = name })) (consume_till_end-word word s rest nw hw hs)

parse_pair-word :
    (c : ℕ) (cs word rest : Bytes) (s : ℕ) (ps : Parser)
    → Every in_name (c ∷ cs)
    → word ≢ []
    → Every in_word word
    → is_space s ≡ true
    → parse_pair (record { p = c ∷ (cs ++ b'=' ∷ (word ++ s ∷ rest)); err = false }) ps
      ≡ add_value word (record ps { key = c ∷ cs })
unfolding parse_pair drop_while is_space
parse_pair-word c cs word rest s ps hn nw hw hs =
    rw (consume_till-name c cs (word ++ s ∷ rest) hn) (equals-word (c ∷ cs) word rest s ps nw hw hs)

-- A line `name=word`, a space and anything else behind it gives the name exactly that word: what stands
-- behind the space is lost.
pub parse_line-word :
    (name word rest : Bytes) (s : ℕ) (ps : Parser)
    → name ≢ []
    → Every in_name name
    → Stops starts_other name
    → word ≢ []
    → Every in_word word
    → is_space s ≡ true
    → parse_line (name ++ b'=' ∷ (word ++ s ∷ rest)) ps ≡ add_value word (record ps { key = name })
parse_line-word [] word rest s ps ne hn ho nw hw hs = absurd (ne refl)
parse_line-word (c ∷ cs) word rest s ps ne hn ho nw hw hs =
    line_start c (cs ++ b'=' ∷ (word ++ s ∷ rest)) ps (name-not-space c hn.0) ho
    ∙ parse_pair-word c cs word rest s ps hn nw hw hs

-- What `get` finds behind such a line, in the section that the line stands in, is the word.
pub parse_line-get :
    (name word rest default_value : Bytes) (s : ℕ) (ps : Parser)
    → name ≢ []
    → Every in_name name
    → Stops starts_other name
    → word ≢ []
    → Every in_word word
    → is_space s ≡ true
    → get (parse_line (name ++ b'=' ∷ (word ++ s ∷ rest)) ps).values ps.section name default_value
      ≡ word
unfolding get add_value
parse_line-get name word rest d s ps ne hn ho nw hw hs =
    ap (λ q. get_or d (find (make_key ps.section name) q.values))
      (parse_line-word name word rest s ps ne hn ho nw hw hs)
    ∙ find-push_value (make_key ps.section name) word d ps.values
