-- ===== src/Cookie/CookiePath.antt =====
-- `Cookie::Path` of src/Cookie.cpp: the path that a cookie is for.
use worker_log.Base.{Bool, Option, none, some, [], Bytes, empty}

pub record CookiePath : Type 0 where
  pub path : Bytes

abbrev pub default : CookiePath
default = record { path = [] }

-- The constructor from a C string, which may be null.
unfoldable pub of_c_string : Option Bytes → CookiePath
of_c_string none = record { path = [] }
of_c_string (some p) = record { path = p }

abbrev pub of_string : Bytes → CookiePath
of_string p = record { path = p }

abbrev pub copy : CookiePath → CookiePath
copy p = record { path = p.path }

-- `this->swap(p)`: what `*this` and `p` hold afterwards.
abbrev pub swap : CookiePath → CookiePath → CookiePath × CookiePath
swap this p = (record { path = p.path }, record { path = this.path })

-- `operator=`: what `*this` holds afterwards.
abbrev pub assign : CookiePath → CookiePath → CookiePath
assign this p = (swap this (copy p)).0

abbrev pub is_empty : CookiePath → Bool
is_empty this = empty this.path

-- `operator()`.
abbrev pub text : CookiePath → Bytes
text this = this.path
