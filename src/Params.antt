-- ===== src/Params.antt =====
-- src/Params.cpp and include/Params.h: what a request says. The setters return `*this` in the
-- source, so that a chain of them is a composition here; `none` is an exception that leaves one.
pub mod Identity
pub mod Parts
use worker_log.Base.{ℕ, Bool, ◌&&◌, Option, none, some, [], Bytes, codes, empty, if◌then◌else◌}
use worker_log.Base.Decimal.{decimal, strtol}
use worker_log.External.Json.{JsonLib, is_array, is_object, is_boolean, has}
use worker_log.External.Boost.{Boost}
use mathlib.Core.Option

-- `test_mode` is `none` as long as nothing is written to it: the constructor does not.
pub record Params (J : JsonLib) : Type 0 where
  pub cookie_id : Bytes
  pub post : Bytes
  pub get : Bytes
  pub key_long : ℕ
  pub time : ℕ
  pub offers : J.Json
  pub informer : J.Json
  pub params : J.Json
  pub json : J.Json
  pub test_mode : Option Bool

module _ (J : JsonLib) where
  -- `Params::Params` at a time; `key_long_` is not initialised either, and is 0 here.
  abbrev pub initial : ℕ → Params J
  initial time = record {
    cookie_id = [];
    post = [];
    get = [];
    key_long = 0;
    time = time;
    offers = J.default;
    informer = J.default;
    params = J.default;
    json = J.default;
    test_mode = none;
  }

  -- What both branches of `Params::cookie_id` end with; `key_long_` is `unsigned`, and takes the bits
  -- of what `atol` gives.
  abbrev set_cookie_id : Boost → Bytes → Params J → Params J
  set_cookie_id B id p = record p { cookie_id = B.trim id; key_long = (strtol (B.trim id)).0 }

  -- `Params::cookie_id` at a time in seconds.
  unfoldable pub cookie_id : Boost → ℕ → Bytes → Params J → Option (Params J)
  cookie_id B now id p =
      if empty id
      then some (set_cookie_id B (decimal now) p)
      else Option.map (λ digits. set_cookie_id B digits p) (B.drop_non_digits id)

  -- `Params::json`: a text that is no JSON is logged, and `json_` stays as it is.
  unfoldable pub json : Bytes → Params J → Params J
  json text p = elim (J.parse text) [ none ↦ p | some j ↦ record p { json = j } ]

  abbrev pub get : Bytes → Params J → Params J
  get text p = record p { get = text }

  abbrev pub post : Bytes → Params J → Params J
  post text p = record p { post = text }

  -- One `try` of `Params::parse`: `json_[key]` twice, and what is done with an entry of the kind.
  section_of : Bytes → (J.Json → Bool) → (J.Json → Params J → Params J) → Params J → Params J
  section_of key test put p = elim (J.index p.json key) [
    | none ↦ p
    | some (v, j) ↦ if test v then put v (record p { json = j }) else record p { json = j }
  ]

  -- The three of them.
  take_items : Params J → Params J
  unfolding section_of
  take_items = section_of (codes "items") (is_array J) (λ v q. record q { offers = v })

  take_params : Params J → Params J
  unfolding section_of
  take_params = section_of (codes "params") (is_object J) (λ v q. record q { params = v })

  take_informer : Params J → Params J
  unfolding section_of
  take_informer = section_of (codes "informer") (is_object J) (λ v q. record q { informer = v })

  -- The end of `Params::parse`: `params_["test"]` is there when it is read.
  read_test : Params J → Params J
  read_test p = elim (J.find p.params (codes "test")) [
    | none ↦ p
    | some v ↦ if is_boolean J v then record p { test_mode = J.get_boolean v } else p
  ]

  unfoldable pub parse : Params J → Params J
  unfolding take_items take_params take_informer read_test
  parse p = read_test (take_informer (take_params (take_items p)))
