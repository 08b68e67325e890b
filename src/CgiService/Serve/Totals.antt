-- ===== src/CgiService/Serve/Totals.antt =====
-- What the counters are after the requests of a queue, in `CgiService::Serve` of src/CgiService.cpp.
use worker_log.Base.{
  ℕ, ◌+◌, ◌%◌, ◌^◌, ◌≤◌, ◌<◌, length, ◌≡◌, refl, ap, ◌∙◌, Option, some, List, [], ◌∷◌, All,
  Bool-cases, inl, inr, ◌==◌, arith,
}
use worker_log.External.Boost.{Boost}
use worker_log.External.Json.{JsonLib, IsJsonLib}
use worker_log.CgiService.Request.{read_query}
use worker_log.CgiService.Request.Impressions.{Impressions, IsTallied, process_request-EndsTallied}
use worker_log.CgiService.Serve.{
  Accepted, accept, refuse, Thread, serve, renew, after_request, Served, of_served, accepts,
}
use worker_log.CgiService.World.{Config, Service, Done}
use worker_log.Core.{Counters}
use worker_log.Cookie.Expires.{PosixTime}
use worker_log.UrlParser.Query.{npos}

-- The query of a request has a possible size.
abbrev pub IsSized : {T : PosixTime} {J : JsonLib} → Accepted T J → Type 0
IsSized refuse = Unit
IsSized (accept now req) = length (read_query req).1 < npos

-- The counters of offers, of social and of retargeting ones, and that of requests.
abbrev pub offers_of : Counters → ℕ × ℕ × ℕ
offers_of c = (c.offer_processed, c.social_processed, c.retargeting_processed)

abbrev pub totals_of : Counters → (ℕ × ℕ × ℕ) × ℕ
totals_of c = (offers_of c, c.request_processed)

abbrev totals_in : (J : JsonLib) → Impressions J × ℕ → (ℕ × ℕ × ℕ) × ℕ
totals_in json x = ((x.0.1, x.0.2, x.0.3), x.1)

-- The totals of a thread, if no exception has ended the program.
abbrev pub served_totals : {J : JsonLib} → Served J → Option ((ℕ × ℕ × ℕ) × ℕ)
served_totals = of_served (λ u. totals_of u.service.counters)

module _ (T : PosixTime) (J : JsonLib) (B : Boost) (cfg : Config) (L : IsJsonLib J) where
  renew-counters : (count : ℕ) (s : Service J) → (renew T J B cfg count s).counters ≡ s.counters
  unfolding renew
  renew-counters count s = elim (Bool-cases (count == 10000000)) [
    | inl last ↦ rw last refl
    | inr other ↦ rw other refl
  ]

  -- One request: the offers are as they were, and at most one request more is counted.
  after_request-totals :
      (t : Thread J) (d : Done J)
      → t.service.counters.request_processed < 2 ^ 64
      → IsTallied t.service.counters d
      → (k : ℕ) × (k ≤ 1)
        × (totals_of (after_request T J B cfg t d).service.counters
            ≡ (offers_of t.service.counters, (t.service.counters.request_processed + k) % 2 ^ 64))
  unfolding after_request
  after_request-totals t d small (inl same) = (
    0,
    omega arith,
    ap totals_of (renew-counters t.count_req d.service)
        ∙ ap (totals_in J) same
        ∙ ap (λ n. (offers_of t.service.counters, n)) (omega (arith, small)),
  )
  after_request-totals t d small (inr one) =
      (1, omega arith, ap totals_of (renew-counters t.count_req d.service) ∙ ap (totals_in J) one)

  -- Where every query has a possible size, no exception ends the program, the counters of offers are
  -- after any number of requests what they were before, and that of requests has grown by no more than the
  -- number of requests that were accepted, in 64 bits.
  pub serve-totals :
      (queue : List (Accepted T J)) (t : Thread J)
      → All IsSized queue
      → t.service.counters.request_processed < 2 ^ 64
      → (k : ℕ) × (k ≤ accepts queue)
        × (served_totals (serve T J B cfg queue t)
            ≡ some
                (offers_of t.service.counters, (t.service.counters.request_processed + k) % 2 ^ 64))
  unfolding serve
  serve-totals [] t h small =
      (0, omega arith, ap (λ n. some (offers_of t.service.counters, n)) (omega (arith, small)))
  serve-totals (refuse ∷ queue) t h small =
      (0, omega arith, ap (λ n. some (offers_of t.service.counters, n)) (omega (arith, small)))
  serve-totals (accept now req ∷ queue) t h small =
      let (d, e, tallied) = process_request-EndsTallied T J B cfg L now req t.service h.0 in
      let (one, most, first) = after_request-totals t d small tallied in
      let requests = ap (λ (x : (ℕ × ℕ × ℕ) × ℕ). x.1) first in
      let offers = ap (λ (x : (ℕ × ℕ × ℕ) × ℕ). x.0) first in
      let (k, bound, rest) =
        serve-totals queue (after_request T J B cfg t d) h.1 (omega (arith, requests)) in
      (
        one + k,
        omega (arith, most, bound),
        rw (e, serve)
            (rest
              ∙ ap
                  (λ o. some (
                    o,
                    ((after_request T J B cfg t d).service.counters.request_processed + k) % 2 ^ 64,
                  ))
                  offers
              ∙ ap (λ n. some (offers_of t.service.counters, n)) (omega (arith, requests))),
      )
