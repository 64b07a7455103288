-- ===== src/Load/Clients.antt =====
-- 10m/10m-cli.cc: the report of a worker of the client, read back.
use handy.Base.{
  ℕ, ◌^◌, ◌<◌, ◌≡◌, refl, sym, ap, ◌∙◌, some, List, [], ◌∷◌, ◌++◌, append-nil, append_assoc, Bytes,
  codes, drop,
}
use handy.Base.Scan.{Stops, passes}
use handy.Base.Int.{pos}
use handy.Slice.{split}
use handy.Slice.Split.{join, split-join}
use handy.Http.{is_digit}
use handy.Http.Request.{show_int}
use handy.Load.{show_client_report, on_client_report, take_client_report}
use handy.Load.Reports.{
  digits, comma, number-keeps, comma-keeps, name-keeps, has_space, field_then, field_last,
}

client_fields : ℕ → ℕ → ℕ → ℕ → ℕ → List Bytes
client_fields pid a b c d =
    digits pid
    ∷ codes "connected:"
    ∷ (digits a ++ comma)
    ∷ codes "retry:"
    ∷ (digits b ++ comma)
    ∷ codes "send:"
    ∷ (digits c ++ comma)
    ∷ codes "recved:"
    ∷ digits d
    ∷ []

client_line :
    (pid a b c d : ℕ)
    → show_client_report (pos pid) (pos a) (pos b) (pos c) (pos d)
      ≡ join b' ' (client_fields pid a b c d)
unfolding show_client_report show_int join client_fields
client_line pid a b c d = simp append_assoc

client_split :
    (pid a b c d : ℕ)
    → split b' ' (show_client_report (pos pid) (pos a) (pos b) (pos c) (pos d))
      ≡ client_fields pid a b c d
client_split pid a b c d =
    ap (split b' ') (client_line pid a b c d)
    ∙ split-join b' ' (client_fields pid a b c d)
        (unfold client_fields in
          (
            number-keeps pid,
            (
              name-keeps (codes "connected:") (unfold passes in refl),
              (
                comma-keeps a,
                (
                  name-keeps (codes "retry:") (unfold passes in refl),
                  (
                    comma-keeps b,
                    (
                      name-keeps (codes "send:") (unfold passes in refl),
                      (
                        comma-keeps c,
                        (
                          name-keeps (codes "recved:") (unfold passes in refl),
                          (number-keeps d, tt),
                        ),
                      ),
                    ),
                  ),
                ),
              ),
            ),
          ))
        (unfold client_fields in unfold join in has_space (digits pid) _)

client_numbers :
    (pid a b c d : ℕ) (behind : Bytes)
    → pid < 2 ^ 31
    → a < 2 ^ 31
    → b < 2 ^ 31
    → c < 2 ^ 31
    → d < 2 ^ 31
    → Stops is_digit behind
    → take_client_report (client_fields pid a b c d) behind
      ≡ some (pos pid, record { connected = pos a; retry = pos b; sended = pos c; recved = pos d })
unfolding take_client_report client_fields
client_numbers pid a b c d behind hp ha hb hc hd stops =
    let fs = client_fields pid a b c d in
    rw
      (
        field_then 0 pid [] (codes "connected:") behind fs (drop 2 fs)
            (ap (λ s. s ∷ drop 1 fs) (sym (append-nil (digits pid)))) hp refl,
        field_then 2 a comma _ behind fs _ refl ha refl,
        field_then 4 b comma _ behind fs _ refl hb refl,
        field_then 6 c comma _ behind fs _ refl hc refl,
        field_last 8 d behind fs refl hd stops,
      )
      refl

-- What a worker of the client reports the master reads back, whatever ends the line behind it, where
-- the process and the four counts are from 0 to 2 ^ 31 - 1.
pub on_client_report-show :
    (pid a b c d : ℕ) (behind : Bytes)
    → pid < 2 ^ 31
    → a < 2 ^ 31
    → b < 2 ^ 31
    → c < 2 ^ 31
    → d < 2 ^ 31
    → Stops is_digit behind
    → on_client_report (show_client_report (pos pid) (pos a) (pos b) (pos c) (pos d)) behind
      ≡ some (pos pid, record { connected = pos a; retry = pos b; sended = pos c; recved = pos d })
unfolding on_client_report
on_client_report-show pid a b c d behind hp ha hb hc hd stops =
    ap (λ fs. take_client_report fs behind) (client_split pid a b c d)
    ∙ client_numbers pid a b c d behind hp ha hb hc hd stops
