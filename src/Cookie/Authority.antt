-- ===== src/Cookie/Authority.antt =====
-- `Cookie::Authority` of src/Cookie.cpp: the domain that a cookie is for.
use worker_log.Base.{Bool, Option, none, some, [], Bytes, empty}

pub record Authority : Type 0 where
  pub authority : Bytes

abbrev pub default : Authority
default = record { authority = [] }

-- The constructor from a C string, which may be null.
unfoldable pub of_c_string : Option Bytes → Authority
of_c_string none = record { authority = [] }
of_c_string (some a) = record { authority = a }

abbrev pub of_string : Bytes → Authority
of_string a = record { authority = a }

abbrev pub copy : Authority → Authority
copy a = record { authority = a.authority }

-- `this->swap(a)`: what `*this` and `a` hold afterwards.
abbrev pub swap : Authority → Authority → Authority × Authority
swap this a = (record { authority = a.authority }, record { authority = this.authority })

-- `operator=`: what `*this` holds afterwards.
abbrev pub assign : Authority → Authority → Authority
assign this a = (swap this (copy a)).0

abbrev pub is_empty : Authority → Bool
is_empty this = empty this.authority

-- `operator()`.
abbrev pub text : Authority → Bytes
text this = this.authority
