-- ===== src/Tests/Request.antt =====
-- src/Params.cpp and src/Core.cpp at a concrete request, and the theorems there.
use worker_log.Base.{◌+◌, ◌-◌, ◌*◌, ◌/◌, arith, ◌≡◌, refl, true, false, some, [], codes, equal}
use worker_log.Base.Decimal.{strtol, decimal}
use worker_log.Core.{Counters}
use worker_log.Core.Clock.{Clocks, document_time, document_time_lem, hours_ahead, minus, pos}
use worker_log.Core.Save.{Client}
use worker_log.Params.{Params, initial, cookie_id, parse}
use worker_log.Params.Identity.{IsIdentity, cookie_id-IsIdentity, cookie_id-cookie_id}
use worker_log.Tests.SampleBoost.{sample_boost, sample_boost-IsBoost}
use worker_log.Tests.SampleJson.{
  Value, boolean, number, text, array, object, nil, cons, end, entry, sample,
}

abbrev pub offer : Value
offer = object (
    entry (codes "guid") (text (codes "g")) (
      entry (codes "id") (number 7) (
        entry (codes "title") (text (codes "t")) (
          entry (codes "campaign_social") (boolean true) (
            entry (codes "token") (text (codes "k")) (
              entry (codes "campaign_guid") (text (codes "c")) (
                entry (codes "campaign_account") (text (codes "a")) (
                  entry (codes "campaign_id") (number 9) (
                    entry (codes "campaign_title") (text (codes "ct")) (
                      entry (codes "campaign_project") (text (codes "p")) (
                        entry (codes "retargeting") (text (codes "false"))
                          (entry (codes "branch") (text (codes "NL1")) end))))))))))))

abbrev parameters : Value
parameters = object (
    entry (codes "informer_id") (text (codes "i")) (
      entry (codes "informer_id_int") (number 3) (
        entry (codes "ip") (text (codes "10.0.0.1")) (
          entry (codes "cookie") (text (codes "42")) (
            entry (codes "country") (text (codes "UA")) (
              entry (codes "region") (text (codes "Kyiv")) (
                entry (codes "request") (text (codes "initial"))
                  (entry (codes "test") (boolean false) end))))))))

abbrev pub body : Value
body =
    object (entry (codes "items") (array (cons offer nil)) (entry (codes "params") parameters end))

abbrev request : Params (sample body)
request = record (initial (sample body) 5) { json = body }

-- The request as `Params` reads it.
abbrev read_request : Params (sample body)
read_request = record request {
  offers = array (cons offer nil);
  params = parameters;
  test_mode = some false;
  json = object (
      entry (codes "informer") Value.null
        (entry (codes "items") (array (cons offer nil)) (entry (codes "params") parameters end)));
}

parse_run : parse (sample body) request ≡ read_request
unfolding parse equal
parse_run = refl

identity_runs :
    (cookie_id (sample body) sample_boost 1500000000 [] request
      ≡ some (record request { cookie_id = codes "1500000000"; key_long = 1500000000 }))
    × (cookie_id (sample body) sample_boost 1 (codes "id-42") request
        ≡ some (record request { cookie_id = codes "42"; key_long = 42 }))
unfolding cookie_id decimal strtol
identity_runs = (refl, refl)

cookie_id-IsIdentity_example : IsIdentity (codes "42") 42
unfolding cookie_id strtol
cookie_id-IsIdentity_example =
    cookie_id-IsIdentity (sample body) sample_boost sample_boost-IsBoost 1 (codes "id-42") request
      refl

cookie_id-cookie_id_example :
    cookie_id (sample body) sample_boost 9 (codes "42") request
    ≡ some (record request { cookie_id = codes "42"; key_long = 42 })
unfolding cookie_id strtol
cookie_id-cookie_id_example =
    cookie_id-cookie_id (sample body) sample_boost sample_boost-IsBoost 1 9 (codes "id-42") request
      request refl (λ e. cc)

abbrev counters : Counters
counters = record {
  request_processed = 4;
  last_time_request_processed = 0;
  offer_processed = 0;
  social_processed = 0;
  retargeting_processed = 0;
}

abbrev pub client : Client (sample body)
client = record { connected = true; insert_many = λ docs. true }

abbrev pub moment : Clocks
moment = record { local = 1500010800; universal = 1500000000; system = 1500000000123 }

-- In a zone of three whole hours, with a second between the readings.
document_time_lem_example :
    (document_time (record {
      local = 1500000000 + (3 * 3600 + 0);
      universal = 1500000000 + 1;
      system = 1500000001000;
    })
      ≡ pos (1500000001000 + hours_ahead 3 0 1 * 3600000))
    × (document_time (record {
      local = 1500000000 - (3 * 3600 + 0);
      universal = 1500000000 + 1;
      system = 1500000001000;
    })
        ≡ minus 1500000001000 ((3 + (0 + 1) / 3600) * 3600000))
document_time_lem_example =
    document_time_lem 1500000000 3 0 1 1500000001000 (omega arith) (omega arith) (omega arith)
