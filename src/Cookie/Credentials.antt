-- ===== src/Cookie/Credentials.antt =====
-- `Cookie::Credentials` of src/Cookie.cpp. The two `operator` pairs that give a value or a reference
-- are a reader, the field, and a writer here.
use worker_log.Base.{Bool, true, false, ◌++◌, Bytes, codes}
use worker_log.Cookie.Authority
use worker_log.Cookie.Authority.{Authority}
use worker_log.Cookie.CookiePath
use worker_log.Cookie.CookiePath.{CookiePath}
use worker_log.Cookie.Expires
use worker_log.Cookie.Expires.{Expires}

pub record Credentials : Type 0 where
  pub authority : Authority
  pub path : CookiePath
  pub expires : Expires
  pub persist : Bool
  pub secure : Bool

abbrev pub default : Credentials
default = record {
  authority = Authority.default;
  path = CookiePath.default;
  expires = Expires.default;
  persist = false;
  secure = false;
}

-- The five constructors from parts.
abbrev pub of_authority : Authority → Credentials
of_authority a = record default { authority = a }

abbrev pub of_path : CookiePath → Credentials
of_path p = record default { path = p }

abbrev pub of_expires : Expires → Credentials
of_expires e = record default { expires = e; persist = true }

abbrev pub of_authority_path : Authority → CookiePath → Credentials
of_authority_path a p = record default { authority = a; path = p }

unfoldable pub of_authority_path_expires : Authority → CookiePath → Expires → Credentials
of_authority_path_expires a p e = record {
  authority = a;
  path = p;
  expires = e;
  persist = true;
  secure = false;
}

abbrev pub copy : Credentials → Credentials
copy c = record {
  authority = Authority.copy c.authority;
  path = CookiePath.copy c.path;
  expires = Expires.copy c.expires;
  persist = c.persist;
  secure = c.secure;
}

unfoldable pub swap : Credentials → Credentials → Credentials × Credentials
swap this c = (
  record {
    authority = c.authority;
    path = c.path;
    expires = c.expires;
    persist = c.persist;
    secure = c.secure;
  },
  record {
    authority = this.authority;
    path = this.path;
    expires = this.expires;
    persist = this.persist;
    secure = this.secure;
  },
)

unfoldable pub assign : Credentials → Credentials → Credentials
unfolding swap
assign this c = (swap this (copy c)).0

-- The reference that `expires ()` gives, with `e` written through it: the cookie persists.
unfoldable pub set_expires : Credentials → Expires → Credentials
set_expires this e = record this { expires = e; persist = true }

-- The same for the other two.
abbrev pub set_authority : Credentials → Authority → Credentials
set_authority this a = record this { authority = a }

abbrev pub set_path : Credentials → CookiePath → Credentials
set_path this p = record this { path = p }

abbrev pub set_secure : Credentials → Bool → Credentials
set_secure this b = record this { secure = b }

-- The life time is a constant, and neither `expires`, `persist` nor `secure` is read.
unfoldable pub to_string : Credentials → Bytes
to_string this =
    codes "Path="
    ++ CookiePath.text this.path
    ++ codes "; Version=1; Max-Age=31536000; Domain="
    ++ Authority.text this.authority
    ++ codes "; HttpOnly;"
