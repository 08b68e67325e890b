-- ===== src/UrlParser/Percent.antt =====
-- `percent_decode` of src/UrlParser.cpp, a machine with three states.
pub mod Laws
use worker_log.Base.{ℕ, ◌*◌, [], ◌∷◌, ◌++◌, bit_or, ◌==◌, if◌then◌else◌, Bytes}
use worker_log.UrlParser.Hex.{is_hex_digit, hex_digit_to_int}

pub data State : Type 0 where
  general first_percent_encoded_digit second_percent_encoded_digit : State

-- The locals of the loop; `second_char` is read only in the round that sets it.
pub record Decoder : Type 0 where
  pub state : State
  pub first_char : ℕ
  pub result : Bytes

abbrev pub start : Decoder
start = record { state = general; first_char = 0; result = [] }

-- The body of the loop on the byte `*it`.
unfoldable pub step_in : State → Decoder → ℕ → Decoder
step_in general d c =
    if c == b'%'
    then record d { state = first_percent_encoded_digit; first_char = 0 }
    else record d { result = d.result ++ c ∷ [] }
step_in first_percent_encoded_digit d c =
    if is_hex_digit c
    then record d { state = second_percent_encoded_digit; first_char = c }
    else record d { state = general; first_char = c; result = d.result ++ b'%' ∷ c ∷ [] }
step_in second_percent_encoded_digit d c =
    if is_hex_digit c
    then record d {
      state = general;
      result = d.result ++ bit_or (hex_digit_to_int d.first_char * 16) (hex_digit_to_int c) ∷ [];
    }
    else record d { state = general; result = d.result ++ b'%' ∷ d.first_char ∷ c ∷ [] }

unfoldable pub run : Decoder → Bytes → Decoder
unfolding step_in
run d [] = d
run d (c ∷ s) = run (step_in d.state d c) s

-- What is pending in the last state is not written.
unfoldable pub percent_decode : Bytes → Bytes
unfolding run
percent_decode s = (run start s).result
