-- ===== src/Dispatch/Streams.antt =====
-- What the loop of onMsg makes of a stream of bytes.
use mathlib.Core.Option.{some-injective}
use mathlib.Core.Option
use mathlib.Core.Path.{ap₂}
use handy.Base.{
  ℕ, zero, suc, ◌+◌, ◌-◌, ◌^◌, ◌≤◌, ◌<◌, ◌≡◌, ◌≢◌, refl, sym, ap, ◌∙◌, true, false, List, [], ◌∷◌,
  ◌++◌, Option, none, some, Bytes, All, length, take, drop, arith, length-append, length-drop,
  append_assoc, drop-append, drop-append_le, take-append_le,
}
use handy.Base.Int.{ℤ, pos, negsuc}
use handy.Codec.{View, bytes_of, Codec, try_decode, encode}
use handy.Codec.Stable.{
  IsEncodable, LacksEot, LacksEot-drop, try_decode-append, try_decode-encode, try_decode-nil,
  encode-pos,
}
use handy.Dispatch.{Outcome, deliver, on_msg_loop}
use handy.Dispatch.Inside.{StaysInside, StaysInside-drop}

clash : (n : ℕ) → pos (suc n) ≢ pos 0
clash n h = ground arith

true≢false : true ≢ false
true≢false e = cc

drop-shorter :
    (k : Codec) (s : Bytes) (n : ℕ) (v : View)
    → try_decode k s ≡ (pos (suc n), v)
    → length (drop (suc n) s) < length s
drop-shorter k [] n v e = absurd (clash n (sym (ap (λ (r : ℤ × View). r.0) e) ∙ try_decode-nil k))
drop-shorter k (c ∷ s) n v e = omega (arith, length-drop n s)

module _ (k : Codec) (fuel : ℕ) (s : Bytes) where
  loop_wait :
      (v : View)
      → try_decode k s ≡ (pos zero, v)
      → on_msg_loop (suc fuel) k s ≡ some (record { messages = []; input = s; closed = false })
  unfolding on_msg_loop
  loop_wait v e = rw e

  loop_fail :
      (n : ℕ) (v : View)
      → try_decode k s ≡ (negsuc n, v)
      → on_msg_loop (suc fuel) k s ≡ some (record { messages = []; input = s; closed = true })
  unfolding on_msg_loop
  loop_fail n v e = rw e

  loop_message :
      (n : ℕ) (v : View)
      → try_decode k s ≡ (pos (suc n), v)
      → on_msg_loop (suc fuel) k s
        ≡ Option.map (deliver (bytes_of s v)) (on_msg_loop fuel k (drop (suc n) s))
  unfolding on_msg_loop
  loop_message n v e = rw e

-- One more round than there are bytes is enough: the loop ends, for every codec and every input.
pub on_msg_loop_total :
    (k : Codec) (fuel : ℕ) (s : Bytes)
    → length s < fuel
    → (o : Outcome) × (on_msg_loop fuel k s ≡ some o)
on_msg_loop_total k zero s h = absurd (omega arith)
on_msg_loop_total k (suc fuel) s h = round (try_decode k s) refl (on_msg_loop_total k fuel)
  where
    round :
        (r : ℤ × View)
        → try_decode k s ≡ r
        → ((t : Bytes) → length t < fuel → (o : Outcome) × (on_msg_loop fuel k t ≡ some o))
        → (o : Outcome) × (on_msg_loop (suc fuel) k s ≡ some o)
    round (pos zero, v) e again = (_, loop_wait k fuel s v e)
    round (pos (suc n), v) e again =
        let (o, q) = again (drop (suc n) s) (omega (arith, drop-shorter k s n v e)) in
        (deliver (bytes_of s v) o, loop_message k fuel s n v e ∙ ap (Option.map (deliver _)) q)
    round (negsuc n, v) e again = (_, loop_fail k fuel s n v e)

-- All that is encoded, one after the other.
unfoldable pub encode_all : Codec → List Bytes → Bytes
encode_all k [] = []
encode_all k (m ∷ ms) = encode k m ++ encode_all k ms

-- A stream, below 2 ^ 31 bytes, of encoded messages and an unfinished rest is decoded into these
-- messages, in order, and the rest stays in the input: of messages that the codec can carry, which are those
-- without a line feed for a line codec, of at most 1 MiB for a length codec, and without a
-- closing brace and not empty for a bracket codec. A round for each message and one more is enough.
pub on_msg_loop-encode_all :
    (k : Codec) (ms : List Bytes) (rest : Bytes) (v : View) (fuel : ℕ)
    → All (IsEncodable k) ms
    → try_decode k rest ≡ (pos zero, v)
    → length (encode_all k ms ++ rest) < 2 ^ 31
    → length ms < fuel
    → on_msg_loop fuel k (encode_all k ms ++ rest)
      ≡ some (record { messages = ms; input = rest; closed = false })
unfolding encode_all
on_msg_loop-encode_all k ms rest v zero h q small f = absurd (omega arith)
on_msg_loop-encode_all k [] rest v (suc fuel) h q small f = loop_wait k fuel rest v q
on_msg_loop-encode_all k (m ∷ ms) rest v (suc fuel) h q small f =
    let later = encode_all k ms ++ rest in
    let whole : (encode k m ++ encode_all k ms) ++ rest ≡ encode k m ++ later =
      append_assoc (encode k m) (encode_all k ms) rest in
    let small' : length (encode k m ++ later) < 2 ^ 31 = omega (arith, ap length whole) in
    let shorter : length later < 2 ^ 31 = omega (arith, length-append (encode k m) later) in
    let (w, d, b) = try_decode-encode k m later h.0 small' in
    let n = length (encode k m) - 1 in
    let size : length (encode k m) ≡ suc n = omega (arith, encode-pos k m) in
    rw whole (
      loop_message k fuel (encode k m ++ later) n w (d ∙ ap (λ z. (pos z, w)) size)
      ∙ ap₂ (λ x t. Option.map (deliver x) (on_msg_loop fuel k t)) b
          (drop-append (suc n) (encode k m) later (sym size))
      ∙ ap (Option.map (deliver m))
          (on_msg_loop-encode_all k ms rest v fuel h.1 q shorter (omega arith)))

-- What is handed on when more bytes come after an outcome: the messages decoded so far, and then
-- those of the loop run again on what was left.
abbrev pub resume : Outcome → Outcome → Outcome
resume o p = record p { messages = o.messages ++ p.messages }

bytes_of-append :
    (s t : Bytes) (v : View) → v.from + v.size ≤ length s → bytes_of (s ++ t) v ≡ bytes_of s v
unfolding bytes_of
bytes_of-append s t v h =
    ap (take v.size) (drop-append_le v.from s t (omega arith))
    ∙ take-append_le v.size (drop v.from s) t (omega (arith, length-drop v.from s))

some-eq : {o p : Outcome} → some o ≡ some p → o ≡ p
some-eq e = cc

map-eq-some :
    (msg : Bytes) (r : Option Outcome) (o : Outcome)
    → Option.map (deliver msg) r ≡ some o
    → (o' : Outcome) × (r ≡ some o') × (deliver msg o' ≡ o)
map-eq-some msg none o e = cc
map-eq-some msg (some o') o e = (o', refl, cc)

-- Three ways a round can go.
data Round (k : Codec) (s : Bytes) : Type 0 where
  waits : (v : View) → try_decode k s ≡ (pos zero, v) → Round k s
  fails : (n : ℕ) (v : View) → try_decode k s ≡ (negsuc n, v) → Round k s
  hands_on : (n : ℕ) (v : View) → try_decode k s ≡ (pos (suc n), v) → Round k s

Round-of : (k : Codec) (s : Bytes) (r : ℤ × View) → try_decode k s ≡ r → Round k s
Round-of k s (pos zero, v) e = waits v e
Round-of k s (negsuc n, v) e = fails n v e
Round-of k s (pos (suc n), v) e = hands_on n v e

-- More fuel gives the same outcome.
pub on_msg_loop_mono :
    (k : Codec) (g h : ℕ) (s : Bytes) (p : Outcome)
    → g ≤ h
    → on_msg_loop g k s ≡ some p
    → on_msg_loop h k s ≡ some p
on_msg_loop_mono k zero h s p l e = absurd (unfold on_msg_loop in ground arith)
on_msg_loop_mono k (suc g) zero s p l e = absurd (omega arith)
on_msg_loop_mono k (suc g) (suc h) s p l e =
    go (Round-of k s (try_decode k s) refl) (on_msg_loop_mono k g h)
  where
    go :
        Round k s
        → ((t : Bytes) (q : Outcome)
            → g ≤ h
            → on_msg_loop g k t ≡ some q
            → on_msg_loop h k t ≡ some q)
        → on_msg_loop (suc h) k s ≡ some p
    go (waits v d) again = loop_wait k h s v d ∙ sym (loop_wait k g s v d) ∙ e
    go (fails n v d) again = loop_fail k h s n v d ∙ sym (loop_fail k g s n v d) ∙ e
    go (hands_on n v d) again =
        let (q, r, m) = map-eq-some (bytes_of s v) _ p (sym (loop_message k g s n v d) ∙ e) in
        loop_message k h s n v d
        ∙ ap (Option.map (deliver _)) (again (drop (suc n) s) q (omega arith) r)
        ∙ ap some m

-- Where a stream is cut into reads makes no difference: running the loop on the first part, and
-- then on what it left together with the second, hands on the messages of the whole stream.
pub on_msg_loop-append :
    (k : Codec) (f g h : ℕ) (s t : Bytes) (o p : Outcome)
    → LacksEot k s
    → StaysInside k s
    → length (s ++ t) < 2 ^ 31
    → on_msg_loop f k s ≡ some o
    → o.closed ≡ false
    → on_msg_loop g k (o.input ++ t) ≡ some p
    → f + g ≤ h
    → on_msg_loop h k (s ++ t) ≡ some (resume o p)
on_msg_loop-append k zero g h s t o p c i small e opened q l =
    absurd (unfold on_msg_loop in ground arith)
on_msg_loop-append k (suc f) g zero s t o p c i small e opened q l = absurd (omega arith)
on_msg_loop-append k (suc f) g (suc h) s t o p c i small e opened q l =
    elim (Round-of k s (try_decode k s) refl) [
      | waits v d ↦
          let all_left : record { messages = []; input = s; closed = false } ≡ o =
            some-eq (sym (loop_wait k f s v d) ∙ e) in
          on_msg_loop_mono k g (suc h) (s ++ t) p (omega arith)
            (ap (λ (x : Outcome). on_msg_loop g k (x.input ++ t)) all_left ∙ q)
          ∙ ap (λ (x : Outcome). some (resume x p)) all_left
      | fails n v d ↦
          let shut : record { messages = []; input = s; closed = true } ≡ o =
            some-eq (sym (loop_fail k f s n v d) ∙ e) in
          absurd (true≢false (ap (λ (x : Outcome). x.closed) shut ∙ opened))
      | hands_on n v d ↦
          let (o', r, m) = map-eq-some (bytes_of s v) _ o (sym (loop_message k f s n v d) ∙ e) in
          let (fits, inside) = i 0 n v d in
          let same : try_decode k (s ++ t) ≡ (pos (suc n), v) =
            try_decode-append k s t c (λ z. clash n (sym (ap (λ (x : ℤ × View). x.0) d) ∙ z)) small
            ∙ d in
          let shorter : length (drop (suc n) s ++ t) < 2 ^ 31 =
            omega
              (arith, length-append (drop (suc n) s) t, length-append s t, length-drop (suc n) s) in
          let later =
            on_msg_loop-append k f g h (drop (suc n) s) t o' p (LacksEot-drop k (suc n) s c)
              (StaysInside-drop k (suc n) s i) shorter r (ap (λ (x : Outcome). x.closed) m ∙ opened)
              (ap (λ (x : Outcome). on_msg_loop g k (x.input ++ t)) m ∙ q) (omega arith) in
          loop_message k h (s ++ t) n v same
          ∙ ap₂ (λ x y. Option.map (deliver x) (on_msg_loop h k y)) (bytes_of-append s t v inside)
              (drop-append_le (suc n) s t fits)
          ∙ ap (Option.map (deliver (bytes_of s v))) later
          ∙ ap (λ (x : Outcome). some (resume x p)) m
    ]
