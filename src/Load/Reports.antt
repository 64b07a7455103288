-- ===== src/Load/Reports.antt =====
-- 10m/10m-svr.cc, 10m/10m-cli.cc: reports, read back.
use handy.Base.{
  ℕ, ◌^◌, ◌<◌, ◌≡◌, ◌≢◌, refl, ap, ◌∙◌, true, some, List, [], ◌∷◌, ◌++◌, append_assoc, arith, Bytes,
  codes, drop,
}
use handy.Base.Scan.{Every, Every-append, Stops, passes, passes-Every}
use handy.Base.Int.{pos, as_size_t}
use handy.Slice.{split}
use handy.Slice.Split.{join, keeps, split-join}
use handy.Http.{atoi, is_digit}
use handy.Http.Request.{show_digits, show_int}
use handy.Http.Numbers.{show_digits-Every, atoi-show_append}
use handy.Load.{from_field, show_server_report, take_server_report, on_server_report}

abbrev pub digits : ℕ → Bytes
digits n = show_digits 20 n

abbrev pub comma : Bytes
comma = b',' ∷ []

digits-keeps : (s : Bytes) → Every is_digit s → Every (keeps b' ') s
digits-keeps [] h = tt
digits-keeps (c ∷ s) h = (ground (arith, h.0), digits-keeps s h.1)

pub number-keeps : (n : ℕ) → Every (keeps b' ') (digits n)
number-keeps n = digits-keeps (digits n) (show_digits-Every 20 n)

pub comma-keeps : (n : ℕ) → Every (keeps b' ') (digits n ++ comma)
comma-keeps n = Every-append (keeps b' ') (digits n) comma (number-keeps n) (refl, tt)

pub name-keeps : (s : Bytes) → passes (keeps b' ') s ≡ true → Every (keeps b' ') s
name-keeps s h = passes-Every (keeps b' ') s h

-- atoi of a text that starts with a number and goes on with no digit.
number_at :
    (n : ℕ) (t x : Bytes) → x ≡ digits n ++ t → n < 2 ^ 31 → Stops is_digit t → atoi x ≡ pos n
number_at n t x e small stops = ap atoi e ∙ atoi-show_append n t small stops

pub has_space : (s t : Bytes) → s ++ b' ' ∷ t ≢ []
has_space [] t = λ e. cc e
has_space (c ∷ s) t = λ e. cc e

server_fields : ℕ → ℕ → ℕ → ℕ → List Bytes
server_fields pid a b c =
    (digits pid ++ comma)
    ∷ codes "connected:"
    ∷ (digits a ++ comma)
    ∷ codes "closed:"
    ∷ (digits b ++ comma)
    ∷ codes "recved:"
    ∷ digits c
    ∷ []

server_line :
    (pid a b c : ℕ)
    → show_server_report (pos pid) (pos a) (pos b) (pos c) ≡ join b' ' (server_fields pid a b c)
unfolding show_server_report show_int join server_fields
server_line pid a b c = simp append_assoc

server_split :
    (pid a b c : ℕ)
    → split b' ' (show_server_report (pos pid) (pos a) (pos b) (pos c)) ≡ server_fields pid a b c
server_split pid a b c =
    ap (split b' ') (server_line pid a b c)
    ∙ split-join b' ' (server_fields pid a b c)
        (unfold server_fields in
          (
            comma-keeps pid,
            (
              name-keeps (codes "connected:") (unfold passes in refl),
              (
                comma-keeps a,
                (
                  name-keeps (codes "closed:") (unfold passes in refl),
                  (
                    comma-keeps b,
                    (name-keeps (codes "recved:") (unfold passes in refl), (number-keeps c, tt)),
                  ),
                ),
              ),
            ),
          ))
        (unfold server_fields in unfold join in has_space (digits pid ++ comma) _)

joined_two :
    (f g : Bytes) (rest : List Bytes) → join b' ' (f ∷ g ∷ rest) ≡ f ++ b' ' ∷ join b' ' (g ∷ rest)
unfolding join
joined_two f g rest = refl

-- A field that is not the last: a number, perhaps with a comma.
pub field_then :
    (i n : ℕ) (t g behind : Bytes) (fs rest : List Bytes)
    → drop i fs ≡ (digits n ++ t) ∷ g ∷ rest
    → n < 2 ^ 31
    → Stops is_digit (t ++ b' ' ∷ (join b' ' (g ∷ rest) ++ behind))
    → atoi (from_field i fs behind) ≡ pos n
unfolding from_field
field_then i n t g behind fs rest e small stops =
    let line : join b' ' ((digits n ++ t) ∷ g ∷ rest) ++ behind
        ≡ digits n ++ (t ++ b' ' ∷ (join b' ' (g ∷ rest) ++ behind)) =
      ap (λ s. s ++ behind) (joined_two (digits n ++ t) g rest) ∙ simp append_assoc in
    number_at n (t ++ b' ' ∷ (join b' ' (g ∷ rest) ++ behind)) (join b' ' (drop i fs) ++ behind)
      (ap (λ l. join b' ' l ++ behind) e ∙ line) small stops

pub field_last :
    (i n : ℕ) (behind : Bytes) (fs : List Bytes)
    → drop i fs ≡ digits n ∷ []
    → n < 2 ^ 31
    → Stops is_digit behind
    → atoi (from_field i fs behind) ≡ pos n
unfolding from_field
field_last i n behind fs e small stops =
    number_at n behind (join b' ' (drop i fs) ++ behind)
      (ap (λ l. join b' ' l ++ behind) e ∙ (unfold join in refl)) small stops

server_numbers :
    (pid a b c : ℕ) (behind : Bytes)
    → pid < 2 ^ 31
    → a < 2 ^ 31
    → b < 2 ^ 31
    → c < 2 ^ 31
    → Stops is_digit behind
    → take_server_report (server_fields pid a b c) behind
      ≡ some (pos pid, record { connected = a; closed = b; recved = c })
unfolding take_server_report server_fields
server_numbers pid a b c behind hp ha hb hc stops =
    let fs = server_fields pid a b c in
    rw
      (
        field_then 0 pid comma _ behind fs _ refl hp refl,
        field_then 2 a comma _ behind fs _ refl ha refl,
        field_then 4 b comma _ behind fs _ refl hb refl,
        field_last 6 c behind fs refl hc stops,
      )
      (unfold as_size_t in refl)

-- What a worker of the server reports the master reads back, whatever ends the line behind it, where
-- the process and the three counts are from 0 to 2 ^ 31 - 1.
pub on_server_report-show :
    (pid a b c : ℕ) (behind : Bytes)
    → pid < 2 ^ 31
    → a < 2 ^ 31
    → b < 2 ^ 31
    → c < 2 ^ 31
    → Stops is_digit behind
    → on_server_report (show_server_report (pos pid) (pos a) (pos b) (pos c)) behind
      ≡ some (pos pid, record { connected = a; closed = b; recved = c })
unfolding on_server_report
on_server_report-show pid a b c behind hp ha hb hc stops =
    ap (λ fs. take_server_report fs behind) (server_split pid a b c)
    ∙ server_numbers pid a b c behind hp ha hb hc stops
