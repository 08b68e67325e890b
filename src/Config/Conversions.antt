-- ===== src/Config/Conversions.antt =====
-- The conversions of include/Config.h, and the functions of src/Config.cpp that nothing calls.
use worker_log.Base.{
  ℕ, ◌+◌, ◌*◌, ◌%◌, ◌^◌, ◌≡◌, refl, ◌↔◌, Bool, true, false, not, Option, none, some, List, [], ◌∷◌,
  Bytes, codes, equal, All,
}
use worker_log.BoostHelpers.{atoi}
use worker_log.Config.{
  LogFlag, core_time, out_put_size, ip, country, region, cookie, context, search, informer_id,
  location,
}

-- `Config::to_bool`.
unfoldable pub to_bool : Bytes → Bool
to_bool s = not (equal s (codes "false"))

-- `Config::to_int`.
abbrev pub to_int : Bytes → ℕ
to_int s = atoi s

-- `a || b` of two switches, of which the second is read if the first is off; `none` was never written.
abbrev pub or_else : Option Bool → Option Bool → Option Bool
or_else none b = none
or_else (some true) b = some true
or_else (some false) b = b

-- The switches that `Config::toLog` reads, in its order.
abbrev pub log_switches : List LogFlag
log_switches =
    core_time ∷ out_put_size ∷ ip ∷ country ∷ region ∷ cookie ∷ context ∷ search ∷ informer_id
    ∷ location ∷ []

unfoldable pub any_of : (LogFlag → Option Bool) → List LogFlag → Option Bool
any_of log [] = some false
any_of log (flag ∷ flags) = or_else (log flag) (any_of log flags)

-- `Config::toLog`.
abbrev pub to_log : (LogFlag → Option Bool) → Option Bool
to_log log = any_of log log_switches

-- `struct tm`, by the fields that are read.
pub record Clock : Type 0 where
  pub tm_hour : ℕ
  pub tm_min : ℕ
  pub tm_sec : ℕ

-- `Config::getTime`, given what `strptime` leaves of what was on the stack.
abbrev pub get_time : (Bytes → Clock → Clock) → Clock → Bytes → ℕ
get_time strptime old p =
    let t = strptime p old in (t.tm_hour * 3600 + t.tm_min * 60 + t.tm_sec) % 2 ^ 32

-- `Config::getFileContents`, of what the file holds, if it can be opened.
abbrev pub get_file_contents : Option Bytes → Bytes
get_file_contents none = []
get_file_contents (some contents) = contents

or_else-false : (a b : Option Bool) → or_else a b ≡ some false → (a ≡ some false) × (b ≡ some false)
or_else-false none b e = cc
or_else-false (some true) b e = cc
or_else-false (some false) b e = (refl, e)

-- Nothing is to be logged exactly if every one of the switches was written and is off.
any_of-All :
    (log : LogFlag → Option Bool) (flags : List LogFlag)
    → (any_of log flags ≡ some false) ↔ All (λ flag. log flag ≡ some false) flags
unfolding any_of
any_of-All log [] = (λ e. tt, λ h. refl)
any_of-All log (flag ∷ flags) = (
  λ e.
      let (off, rest) = or_else-false (log flag) (any_of log flags) e in
      (off, (any_of-All log flags).0 rest),
  λ h. rw h.0 ((any_of-All log flags).1 h.1),
)
