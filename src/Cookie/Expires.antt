-- ===== src/Cookie/Expires.antt =====
-- `Cookie::Expires` and `convert` of src/Cookie.cpp. Times are Boost's, a parameter.
use worker_log.Base.{ℕ, ◌<◌, ◌≡◌, ◌⊎◌, inl, inr, codes, Bool, not, Option, none, [], Bytes, empty}
use mathlib.Core.Option

-- What is called of Boost.Date_Time; `none` is an exception.
pub record PosixTime : Type 1 where
  pub Ptime : Type 0
  pub time_from_string : Bytes → Option Ptime
  pub from_time_t : ℕ → Ptime
  -- `ptime(date(y, m, d), time_duration(h, min, s))`.
  pub ptime : ℕ → ℕ → ℕ → ℕ → ℕ → ℕ → Option Ptime
  -- A `time_facet` with this format, and `<<`.
  pub format : Bytes → Ptime → Bytes

-- Years below 1400, and month 0, are out of range and throw.
pub record IsPosixTime (T : PosixTime) : Type 0 where
  pub bad_year : (y m d h n s : ℕ) → y < 1400 → T.ptime y m d h n s ≡ none
  pub bad_month : (y d h n s : ℕ) → T.ptime y 0 d h n s ≡ none

-- The fields of `struct tm` that are read, as C defines them: `tm_year` counts from 1900, and
-- `tm_mon` from 0.
pub record Tm : Type 0 where
  pub tm_year : ℕ
  pub tm_mon : ℕ
  pub tm_mday : ℕ
  pub tm_hour : ℕ
  pub tm_min : ℕ
  pub tm_sec : ℕ

pub record Expires : Type 0 where
  pub expires : Bytes

abbrev pub default : Expires
default = record { expires = [] }

abbrev pub copy : Expires → Expires
copy e = record { expires = e.expires }

abbrev pub assign : Expires → Expires → Expires
assign this e = record this { expires = e.expires }

abbrev pub swap : Expires → Expires → Expires × Expires
swap this e = (record { expires = e.expires }, record { expires = this.expires })

abbrev pub is_empty : Expires → Bool
is_empty this = empty this.expires

-- `operator bool`.
abbrev pub to_bool : Expires → Bool
to_bool this = not (empty this.expires)

-- `operator()`.
abbrev pub text : Expires → Bytes
text this = this.expires

module _ (T : PosixTime) where
  abbrev pub convert : T.Ptime → Bytes
  convert = T.format (codes "%a, %d-%b-%Y %T GMT")

  abbrev pub of_ptime : T.Ptime → Expires
  of_ptime t = record { expires = convert t }

  unfoldable pub of_string : Bytes → Option Expires
  of_string e = Option.map of_ptime (T.time_from_string e)

  abbrev pub of_time_t : ℕ → Expires
  of_time_t t = record { expires = convert (T.from_time_t t) }

  unfoldable pub of_tm : Tm → Option Expires
  of_tm tm =
      Option.map of_ptime (T.ptime tm.tm_year tm.tm_mon tm.tm_mday tm.tm_hour tm.tm_min tm.tm_sec)

  -- A `struct tm` of a day before the year 3300, or of a January, cannot be converted: the year and
  -- the month are passed on as they are counted in C.
  pub of_tm_throws :
      IsPosixTime T → (tm : Tm) → (tm.tm_year < 1400) ⊎ (tm.tm_mon ≡ 0) → of_tm tm ≡ none
  unfolding of_tm
  of_tm_throws L tm (inl early) =
      rw (L.bad_year tm.tm_year tm.tm_mon tm.tm_mday tm.tm_hour tm.tm_min tm.tm_sec early)
  of_tm_throws L tm (inr january) =
      rw (january, L.bad_month tm.tm_year tm.tm_mday tm.tm_hour tm.tm_min tm.tm_sec)
