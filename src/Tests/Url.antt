-- ===== src/Tests/Url.antt =====
-- src/UrlParser.cpp at concrete queries.
use worker_log.Base.{
  ℕ, ◌≡◌, refl, Bool, true, false, List, [], ◌∷◌, Bytes, codes, arith, leb, ◌&&◌, equal,
}
use mathlib.Core.List.Permᴰ
use worker_log.Base.Dict.{vacant, holds, Dict, assign}
use worker_log.UrlParser.Hex.{is_hex_digit, hex_digit_to_int}
use worker_log.UrlParser.Percent.{percent_decode}
use worker_log.UrlParser.Percent.Laws.{empty_code, as_itself, as_digits, percent_decode-IsEncoding}
use worker_log.UrlParser.Query.{
  parse, parse_loop, round, find_first_of, find_from, substr, increment, param, parsed,
}
use worker_log.UrlParser.Query.Order.{param_of, param_of-Perm}
use worker_log.UrlParser.Query.Pairs.{Pair, pairs, enter}
use worker_log.UrlParser.Query.Refines.{parse-pairs}
use worker_log.UrlParser.Query.RoundTrip.{write_pairs, last_value, param-parse}

percent_runs :
    (percent_decode (codes "a%20b%2fc%zz%4x%") ≡ codes "a b/c%zz%4x")
    × (percent_decode (codes "%%41%4") ≡ codes "%%41")
unfolding percent_decode is_hex_digit hex_digit_to_int
percent_runs = (refl, refl)

query_run :
    parse (codes "/x?show=status&a&b=1%202&=&show=x")
    ≡ parsed
        (holds (codes "show") (codes "x") (holds (codes "a&b") (codes "1 2") (holds [] [] vacant)))
unfolding parse parse_loop round find_first_of find_from substr increment percent_decode
    is_hex_digit hex_digit_to_int assign equal
query_run = refl

letters : ℕ → Bool
letters b = leb b'a' b && leb b b'z'

percent_decode-IsEncoding_example : percent_decode (codes "a%2f%2F%4a") ≡ codes "a//J"
percent_decode-IsEncoding_example = percent_decode-IsEncoding (codes "a//J") (codes "a%2f%2F%4a") (
    as_itself b'a' refl (
      as_digits b'/' true true (omega arith) (
        as_digits b'/' true false (omega arith)
          (as_digits b'J' false true (omega arith) empty_code))))

parse-pairs_example : parse (codes "?a=1&b=2") ≡ parsed (enter (pairs (codes "?a=1&b=2")) vacant)
parse-pairs_example = parse-pairs (codes "?a=1&b=2") (omega arith)

abbrev sample_pairs : List Pair
sample_pairs = (codes "a", codes "x&y") ∷ (codes "b", codes "") ∷ (codes "a", codes "%") ∷ []

param-parse_example :
    (m : Dict Bytes) × (parse (b'?' ∷ write_pairs letters sample_pairs) ≡ parsed m)
    × (param m (codes "a") ≡ last_value (codes "a") [] sample_pairs)
unfolding letters
param-parse_example =
    param-parse letters sample_pairs (codes "a")
      (((refl, tt), omega arith), (((refl, tt), tt), (((refl, tt), omega arith), tt))) (omega arith)

-- Two pairs, in either order.
abbrev two_pairs : List Pair
two_pairs = (codes "a", codes "x&y") ∷ (codes "b", codes "%") ∷ []

abbrev turned : List Pair
turned = (codes "b", codes "%") ∷ (codes "a", codes "x&y") ∷ []

param_of-Perm_example :
    param_of (codes "a") (parse (b'?' ∷ write_pairs letters two_pairs))
    ≡ param_of (codes "a") (parse (b'?' ∷ write_pairs (λ b. false) turned))
unfolding letters equal
param_of-Perm_example =
    param_of-Perm letters (λ b. false) two_pairs turned (codes "a") ∣ Permᴰ.swap refl refl ∣₁
      (omega arith) (((refl, tt), omega arith), (((refl, tt), (omega arith, tt)), tt))
      (((refl, tt), (omega arith, tt)), (((refl, tt), omega arith), tt)) (omega arith) (omega arith)
