-- ===== src/UrlParser/Query.antt =====
-- The constructor, `parse` and `param` of src/UrlParser.cpp. Positions are `size_type`, 64 bits wide,
-- and the constant `npos` is the largest of them.
pub mod Pairs
pub mod Read
pub mod Refines
pub mod RoundTrip
pub mod Order
use worker_log.Base.{
  ℕ, zero, suc, ◌+◌, ◌-◌, ◌%◌, ◌^◌, Bool, true, false, ◌||◌, Option, none, some, List, [], ◌∷◌, ltb,
  ◌==◌, ◌≡◌, refl, ◌⊎◌, inl, inr, if◌then◌else◌, Bytes, length, take, drop,
}
use worker_log.Base.Dict.{Dict, vacant, find, assign}
use worker_log.UrlParser.Percent.{percent_decode}

abbrev pub npos : ℕ
npos = 2 ^ 64 - 1

-- `++pos` on an unsigned number.
unfoldable pub increment : ℕ → ℕ
increment pos = (pos + 1) % 2 ^ 64

-- The first place of `c` in `s`, whose first byte has the index `i`.
unfoldable pub find_from : ℕ → Bytes → ℕ → ℕ
find_from c [] i = npos
find_from c (b ∷ s) i = if b == c then i else find_from c s (i + 1)

-- `std::string::find_first_of` with one byte.
unfoldable pub find_first_of : Bytes → ℕ → ℕ → ℕ
find_first_of s c pos = find_from c (drop pos s) pos

-- `std::string::substr`; `none` is the exception `std::out_of_range`.
unfoldable pub substr : Bytes → ℕ → ℕ → Option Bytes
substr s pos n = if ltb (length s) pos then none else some (take n (drop pos s))

-- What one round of the loop does: it returns, `substr` throws, or it leaves a name, a value and `pos`.
pub data Round : Type 0 where
  returns thrown : Round
  pair : Bytes → Bytes → ℕ → Round

round_value : Bytes → Bytes → ℕ → Round
round_value url name pos =
    let amp = find_first_of url b'&' pos in
    let stop = if amp == npos then length url else amp in
    elim (substr url pos (stop - pos)) [ none ↦ thrown | some value ↦ pair name value stop ]

unfoldable pub round : Bytes → ℕ → Round
unfolding round_value
round url pos =
    let start = increment pos in
    let stop = find_first_of url b'=' start in
    if stop == npos then returns else elim (substr url start (stop - start)) [
      | none ↦ thrown
      | some name ↦ round_value url name (increment stop)
    ]

-- `params_`, or why there is none.
pub data Outcome : Type 0 where
  parsed : Dict Bytes → Outcome
  out_of_range out_of_fuel : Outcome

pub Outcome-cases :
    (o : Outcome)
    → (o ≡ out_of_range) ⊎ ((o ≡ out_of_fuel) ⊎ ((url : Dict Bytes) × (o ≡ parsed url)))
Outcome-cases out_of_range = inl refl
Outcome-cases out_of_fuel = inr (inl refl)
Outcome-cases (parsed url) = inr (inr (url, refl))

-- The `while` loop, on fuel.
unfoldable pub parse_loop : ℕ → Bytes → ℕ → Dict Bytes → Outcome
parse_loop zero url pos params = out_of_fuel
parse_loop (suc fuel) url pos params = elim (ltb pos (length url) || pos == npos) [
  | false ↦ parsed params
  | true ↦ elim (round url pos) [
    | returns ↦ parsed params
    | thrown ↦ out_of_range
    | pair name value stop ↦ parse_loop fuel url stop (assign params name (percent_decode value))
  ]
]

-- `UrlParser::UrlParser`; each round takes a byte at least, so this fuel is enough.
unfoldable pub parse : Bytes → Outcome
parse url = parse_loop (suc (suc (length url))) url (find_first_of url b'?' 0) vacant

-- `UrlParser::param`.
unfoldable pub param : Dict Bytes → Bytes → Bytes
param params par = elim (find params par) [ none ↦ [] | some value ↦ value ]
