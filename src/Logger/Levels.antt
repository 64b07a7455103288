-- ===== src/Logger/Levels.antt =====
-- handy/logging.h, handy/logging.cc: what sets the level.
use handy.Base.{◌≡◌, inl, inr, refl, true, List, [], ◌∷◌, arith, leb, Bool-cases, Bytes}
use handy.Base.Int.{ℤ, pos, negsuc, ◌+ℤ◌, leb_ℤ}
use handy.Logger.{
  Logger, min_ℤ, max_ℤ, set_log_level, adjust_log_level, find_level, level_strs, set_log_level_name,
  all_level, fatal_level,
}

-- A number from FATAL to ALL.
unfoldable pub IsLevel : ℤ → Type 0
IsLevel level = (leb_ℤ (pos 1) level ≡ true) × (leb_ℤ level (pos 8) ≡ true)

clamp-IsLevel : (level : ℤ) → IsLevel (min_ℤ all_level (max_ℤ fatal_level level))
unfolding IsLevel
clamp-IsLevel (negsuc n) = (refl, refl)
clamp-IsLevel (pos n) = elim (Bool-cases (leb 1 n)) [
  | inr e ↦ rw e (refl, refl)
  | inl e ↦ elim (Bool-cases (leb 8 n)) [
    | inl h ↦ rw (e, h) (refl, refl)
    | inr h ↦ rw (e, h) (e, (ground arith))
  ]
]

-- What sets the level.
pub data LevelCall : Type 0 where
  sets : ℤ → LevelCall
  adjusts : ℤ → LevelCall
  names : Bytes → LevelCall

unfoldable pub call_level : LevelCall → Logger → Logger
unfolding set_log_level adjust_log_level set_log_level_name
call_level (sets level) l = set_log_level level l
call_level (adjusts by) l = adjust_log_level by l
call_level (names name) l = set_log_level_name name l

call_level-IsLevel : (c : LevelCall) (l : Logger) → IsLevel (call_level c l).level
unfolding call_level set_log_level adjust_log_level set_log_level_name
call_level-IsLevel (sets level) l = clamp-IsLevel level
call_level-IsLevel (adjusts by) l = clamp-IsLevel (l.level +ℤ by)
call_level-IsLevel (names name) l = clamp-IsLevel (find_level name 0 level_strs)

unfoldable pub call_levels : List LevelCall → Logger → Logger
unfolding call_level
call_levels [] l = l
call_levels (c ∷ cs) l = call_levels cs (call_level c l)

-- After any calls of setLogLevel, with a number or with a name, and of adjustLogLevel, on a logger with
-- a level from FATAL to ALL, the level is one from FATAL to ALL.
pub call_levels-IsLevel :
    (cs : List LevelCall) (l : Logger) → IsLevel l.level → IsLevel (call_levels cs l).level
unfolding call_levels
call_levels-IsLevel [] l h = h
call_levels-IsLevel (c ∷ cs) l h = call_levels-IsLevel cs (call_level c l) (call_level-IsLevel c l)
