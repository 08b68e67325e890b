-- ===== src/Cookie/Defs.antt =====
-- `Cookie` of src/Cookie.cpp: a name, a value and credentials.
use mathlib.Core.Option
use worker_log.Base.{Option, none, some, [], ◌++◌, Bytes, codes}
use worker_log.Cookie.Credentials
use worker_log.Cookie.Credentials.{Credentials}

pub record Cookie : Type 0 where
  pub name : Bytes
  pub value : Bytes
  pub credentials : Credentials

-- The constructors from strings.
abbrev pub default : Cookie
default = record { name = []; value = []; credentials = Credentials.default }

abbrev pub of_name : Bytes → Cookie
of_name name = record { name = name; value = []; credentials = Credentials.default }

abbrev pub of_name_credentials : Bytes → Credentials → Cookie
of_name_credentials name credentials = record { name = name; value = []; credentials = credentials }

abbrev pub of_name_value : Bytes → Bytes → Cookie
of_name_value name value = record { name = name; value = value; credentials = Credentials.default }

abbrev pub of_name_value_credentials : Bytes → Bytes → Credentials → Cookie
of_name_value_credentials name value credentials = record {
  name = name;
  value = value;
  credentials = credentials;
}

-- The constructors from C strings; `none` is what a null pointer does, which has no meaning.
abbrev pub of_c_name : Option Bytes → Option Cookie
of_c_name name = Option.map of_name name

abbrev pub of_c_name_credentials : Option Bytes → Credentials → Option Cookie
of_c_name_credentials name credentials = Option.map (λ n. of_name_credentials n credentials) name

abbrev pub of_c_name_value_credentials : Option Bytes → Option Bytes → Credentials → Option Cookie
of_c_name_value_credentials none value credentials = none
of_c_name_value_credentials (some name) none credentials = none
of_c_name_value_credentials (some name) (some value) credentials =
    some (of_name_value_credentials name value credentials)

abbrev pub of_c_name_value : Option Bytes → Option Bytes → Option Cookie
of_c_name_value name value = of_c_name_value_credentials name value Credentials.default

-- What is written through the reference that `credentials ()` gives.
abbrev pub set_credentials : Cookie → Credentials → Cookie
set_credentials this credentials = record this { credentials = credentials }

abbrev pub copy : Cookie → Cookie
copy c = record { name = c.name; value = c.value; credentials = Credentials.copy c.credentials }

unfoldable pub swap : Cookie → Cookie → Cookie × Cookie
swap this c = (
  record { name = c.name; value = c.value; credentials = c.credentials },
  record { name = this.name; value = this.value; credentials = this.credentials },
)

unfoldable pub assign : Cookie → Cookie → Cookie
unfolding swap
assign this c = (swap this (copy c)).0

unfoldable pub to_string : Cookie → Bytes
unfolding Credentials.to_string
to_string this =
    this.name ++ codes "=" ++ this.value ++ codes "; " ++ Credentials.to_string this.credentials
