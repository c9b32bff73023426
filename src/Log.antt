-- ===== src/Log.antt =====
-- lib/log/fgen_log.c and fgen_log.h: the level of what is logged. What is printed is left out.
use fgen.Prelude.{
  ℕ, Bool, true, false, not, Option, none, some, List, [], ◌∷◌, ltb, map, if◌then◌else◌,
}
use fgen.CString.{Bytes, codes, toupper, strcmp_eq}

abbrev pub log_emerg : ℕ
log_emerg = 1

abbrev pub log_debug : ℕ
log_debug = 8

-- `foreach_fgen_log_level`.
abbrev pub log_levels : List (Bytes × ℕ)
log_levels =
    (codes "EMERG", 1)
    ∷ (codes "ALERT", 2)
    ∷ (codes "CRIT", 3)
    ∷ (codes "ERR", 4)
    ∷ (codes "WARNING", 5)
    ∷ (codes "NOTICE", 6)
    ∷ (codes "INFO", 7)
    ∷ (codes "DEBUG", 8)
    ∷ (codes "LAST", 9)
    ∷ []

-- `fgen_log_set_level`: the new `fgen_loglevel`.
unfoldable pub log_set_level : ℕ → ℕ
log_set_level level =
    if ltb level log_emerg then log_emerg else if ltb log_debug level then log_debug else level

abbrev pub level_named : List (Bytes × ℕ) → Bytes → Option ℕ
level_named [] name = none
level_named ((n, level) ∷ levels) name =
    let rest = level_named levels name in if strcmp_eq name n then some level else rest

abbrev pub set_found : ℕ → Option ℕ → Bool × ℕ
set_found current none = (false, current)
set_found current (some level) = (true, log_set_level level)

-- `fgen_log_set_level_str`: whether it returns 0, and the level then; none is NULL. The text itself
-- is left in upper case.
unfoldable pub log_set_level_str : ℕ → Option Bytes → Bool × ℕ
unfolding strcmp_eq toupper log_set_level
log_set_level_str current none = (false, current)
log_set_level_str current (some s) = set_found current (level_named log_levels (map toupper s))

-- Whether `fgen_vlog` prints a message.
unfoldable pub is_logged : ℕ → ℕ → Bool
is_logged current level = not (ltb current level)
