-- ===== src/Logger.antt =====
-- handy/logging.h and handy/logging.cc: the levels, the rotation of the log file and the line that is
-- written. What the clock and the file system answer is an argument; a descriptor is a number.
pub mod Lines
pub mod Levels
pub mod Rotating
use mathlib.Core.Option
use mathlib.Core.Path.{ap₂}
use handy.Base.{
  ℕ, zero, suc, ◌+◌, ◌-◌, ◌*◌, ◌/◌, ◌%◌, ◌^◌, ◌≤◌, ◌<◌, min, max, ◌≡◌, ◌≢◌, ◌↔◌, ◌⊎◌, inl, inr,
  refl, sym, ap, ◌∙◌, subst, Bool, true, false, not, ◌&&◌, ◌||◌, Option, none, some, List, [], ◌∷◌,
  ◌++◌, map, reverse, append-nil, append_assoc, arith, ltb, leb, ◌==◌, if◌then◌else◌, ltb→lt,
  lt→ltb, leb→le, ==_iff, ==_self, Bool-cases, ℕ-cases, List-cases, Option-cases, if_cases, Bytes,
  codes, length, take, drop, get_elem?, All, length-append, length-take, length-drop,
  take-append-drop, take-all, drop-all, take-append, drop-append, take-append_le, drop-append_le,
  take-append_ge, drop-drop, take-drop, same_bytes, same_bytes_iff,
}
use handy.Base.Int.{ℤ, pos, negsuc, ◌+ℤ◌, leb_ℤ}
use handy.Conf.{to_lower, is_empty}

-- The number of a LogLevel, an int.
abbrev pub fatal_level : ℤ
fatal_level = pos 1

abbrev pub error_level : ℤ
error_level = pos 2

abbrev pub info_level : ℤ
info_level = pos 5

abbrev pub all_level : ℤ
all_level = pos 8

-- `fd` is -1 before a file is set. Times are in seconds.
pub record Logger : Type 0 where
  pub fd : Option ℕ
  pub level : ℤ
  pub last_rotate : ℕ
  pub real_rotate : ℕ
  pub rotate_interval : ℕ
  pub filename : Bytes

abbrev pub min_ℤ : ℤ → ℤ → ℤ
min_ℤ a b = if leb_ℤ a b then a else b

abbrev pub max_ℤ : ℤ → ℤ → ℤ
max_ℤ a b = if leb_ℤ a b then b else a

-- setLogLevel(LogLevel)
unfoldable pub set_log_level : ℤ → Logger → Logger
set_log_level level l = record l { level = min_ℤ all_level (max_ℤ fatal_level level) }

-- adjustLogLevel
unfoldable pub adjust_log_level : ℤ → Logger → Logger
unfolding set_log_level
adjust_log_level adjust l = set_log_level (l.level +ℤ adjust) l

-- levelStrs_
abbrev pub level_strs : List Bytes
level_strs =
    codes "NULL"
    ∷ codes "FATAL"
    ∷ codes "ERROR"
    ∷ codes "UERR"
    ∷ codes "WARN"
    ∷ codes "INFO"
    ∷ codes "DEBUG"
    ∷ codes "TRACE"
    ∷ codes "ALL"
    ∷ []

-- strcasecmp(a, b) == 0
unfoldable pub same_text : Bytes → Bytes → Bool
same_text a b = same_bytes (map to_lower a) (map to_lower b)

-- The loop of setLogLevel(const string &): the first level of that name.
unfoldable pub find_level : Bytes → ℕ → List Bytes → ℤ
unfolding same_text
find_level level i [] = info_level
find_level level i (name ∷ names) =
    let rest = find_level level (i + 1) names in if same_text name level then pos i else rest

unfoldable pub set_log_level_name : Bytes → Logger → Logger
unfolding set_log_level find_level
set_log_level_name level l = set_log_level (find_level level 0 level_strs) l

-- setFileName: what open gives, and whether dup2 works; `none` is fatalif
unfoldable pub set_file_name : Bytes → Option ℕ → Bool → Logger → Option Logger
set_file_name name none dup_ok l = some l
set_file_name name (some fd) dup_ok l = elim l.fd [
  | none ↦ some (record l { filename = name; fd = some fd })
  | some old ↦ if dup_ok then some (record l { filename = name }) else none
]

-- t - timezone, where the timezone is in seconds west of Greenwich, and the time is not below it
abbrev pub local_time : ℤ → ℕ → ℕ
local_time (pos west) t = t - west
local_time (negsuc east) t = t + (east + 1)

-- (t - timezone) / rotateInterval_
unfoldable pub period : ℤ → ℕ → ℕ → ℕ
period timezone interval t = local_time timezone t / interval

-- What maybeRotate does with the files.
pub data Rotation : Type 0 where
  keeps_file renames_file reopens_file : Rotation

-- maybeRotate at `now`: rename and open say whether they work. The last component is the rotation.
unfoldable pub maybe_rotate : ℤ → ℕ → Bool → Bool → Logger → Logger × Rotation
unfolding period
maybe_rotate timezone now renamed opened l =
    let interval = l.rotate_interval in
    if is_empty l.filename || period timezone interval now == period timezone interval l.last_rotate
    then (l, keeps_file)
    else (let rotated : Logger = record l { last_rotate = now; real_rotate = now } in
        if period timezone interval l.real_rotate == period timezone interval now
        then (rotated, keeps_file)
        else if not renamed
        then (rotated, keeps_file)
        else if opened
        then (rotated, reopens_file)
        else (rotated, renames_file))

-- Where a line goes; the log aborts the program behind a fatal line.
pub data Output : Type 0 where
  to_fd : ℕ → Bytes → Output
  to_syslog to_stdout to_stderr : Bytes → Output
  aborts : Output

-- while (*--p == '\n'), of text that has another byte
pub trim_newlines : Bytes → Bytes
trim_newlines [] = []
trim_newlines (c ∷ cs) =
    let rest = trim_newlines cs in if is_empty rest && c == b'\n' then [] else c ∷ rest

-- What snprintf and vsnprintf leave in the 4096 bytes of the buffer up to p, trimmed and ended by one
-- newline. `prefix` is what stands before the message, which fits in the buffer.
unfoldable pub log_line : Bytes → Bytes → Bytes
unfolding trim_newlines
log_line prefix msg = trim_newlines (take 4094 (prefix ++ msg)) ++ b'\n' ∷ []

-- fd_ == -1 ? 1 : fd_
abbrev pub out_fd : Option ℕ → ℕ
out_fd none = 1
out_fd (some fd) = fd

unfoldable pub outputs : ℤ → ℕ → Bytes → List Output
outputs level fd line =
    (to_fd fd line ∷ [])
    ++ (if leb_ℤ level error_level then to_syslog (drop 27 line) ∷ [] else [])
    ++ (if leb_ℤ level fatal_level && leb_ℤ fatal_level level
        then to_stderr line ∷ aborts ∷ []
        else if not (fd == 1)
        then to_stdout line ∷ []
        else [])

-- logv, which rotates first
unfoldable pub logv : ℤ → Bytes → Bytes → ℤ → ℕ → Bool → Bool → Logger → Logger × List Output
unfolding maybe_rotate outputs log_line
logv level prefix msg timezone now renamed opened l =
    if leb_ℤ level l.level
    then (
      (maybe_rotate timezone now renamed opened l).0,
      outputs level (out_fd l.fd) (log_line prefix msg),
    )
    else (l, [])
