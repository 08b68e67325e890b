-- ===== src/BaseCore.antt =====
-- src/BaseCore.cpp: the status page. Times are microseconds, of one clock; what the machine says of
-- itself, and how times and floating-point numbers are printed, are arguments.
pub mod Rates
pub mod Page
use worker_log.Base.{
  ℕ, ◌+◌, ◌-◌, ◌*◌, ◌/◌, ◌%◌, ◌^◌, Bool, true, false, Option, none, some, List, [], ◌∷◌, ◌++◌,
  Bytes, utf8, empty, leb, ltb, ◌==◌, if◌then◌else◌,
}
use worker_log.Base.Decimal.{decimal}
use worker_log.Core.{Counters}

-- `(now - then).total_milliseconds ()` as an `int`, the bits of a 32-bit number.
unfoldable pub milliseconds : ℕ → ℕ → ℕ
milliseconds now before =
    if leb before now
    then (now - before) / 1000 % 2 ^ 32
    else (2 ^ 32 - (before - now) / 1000 % 2 ^ 32) % 2 ^ 32

-- An `int` as an operand beside an `unsigned long`: its sign fills the upper half.
unfoldable pub widen : ℕ → ℕ
widen bits = if ltb bits (2 ^ 31) then bits else bits + (2 ^ 64 - 2 ^ 32)

-- `requests * 1000 / millis`, put into an `int` that is 0 otherwise.
unfoldable pub rate : ℕ → ℕ → ℕ
unfolding widen
rate requests millis = if millis == 0 then 0 else requests * 1000 % 2 ^ 64 / widen millis % 2 ^ 32

-- `x - y` of two `unsigned long`.
unfoldable pub minus : ℕ → ℕ → ℕ
minus x y = (x + 2 ^ 64 - y) % 2 ^ 64

-- `<<` of an `int`.
unfoldable pub print_int : ℕ → Bytes
print_int bits = if ltb bits (2 ^ 31) then decimal bits else b'-' ∷ decimal (2 ^ 32 - bits)

-- `time_service_started_`, and the static variable `last_time_accessed`, which is no time at first.
pub record State : Type 0 where
  pub started : ℕ
  pub accessed : Option ℕ

-- The constructor, on a clock of whole seconds; `last_time_accessed` is static and stays.
abbrev pub create : ℕ → Option ℕ → State
create now accessed = record { started = now / 1000000 * 1000000; accessed = accessed }

-- What the page shows of the machine and of the configuration.
pub record Machine : Type 0 where
  pub server_ip : Bytes
  pub local_time : Bytes
  pub started_time : Bytes
  pub server_children : ℕ
  pub cpu_user : Bytes
  pub cpu_sys : Bytes
  pub rss : ℕ
  pub mongo_log_db : Bytes
  pub mongo_log_url : Bytes

-- When the page was last asked for.
abbrev last_access : State → ℕ
last_access s = elim s.accessed [ none ↦ s.started | some t ↦ t ]

-- The two rates, the current one and the average.
unfoldable pub rates : State → Counters → ℕ → ℕ × ℕ
unfolding rate milliseconds minus
rates s c now = (
  rate (minus c.request_processed c.last_time_request_processed) (milliseconds now (last_access s)),
  rate c.request_processed (milliseconds now s.started),
)

-- `server_name.empty () ? server_name : "…"`.
abbrev pub shown_name : Bytes → Bytes
shown_name name = if empty name then name else utf8 "неизвестно"

abbrev pub shown_replica : Bytes → Bytes
shown_replica url = if empty url then utf8 " no " else url

abbrev pub style : Bytes
style =
    utf8 "<html>"
    ++ utf8 "<head>"
    ++ utf8 "<meta http-equiv=\"Content-Type\" content=\"text/html; charset=utf-8\"/>"
    ++ utf8 "<style type=\"text/css\">"
    ++ utf8 "body { font-family: Arial, Helvetica, sans-serif; }"
    ++ utf8 "h1, h2, h3 {font-family: \"georgia\", serif; font-weight: 400;}"
    ++ utf8 "table { border-collapse: collapse; border: 1px solid gray; }"
    ++ utf8 "td { border: 1px dotted gray; padding: 5px; font-size: 10pt; }"
    ++ utf8 "th {border: 1px solid gray; padding: 8px; font-size: 10pt; }"
    ++ utf8 "</style>"
    ++ utf8 "</head>"
    ++ utf8 "<body>"

-- The page, with the counters and the rates.
unfoldable pub page : Machine → Counters → ℕ × ℕ → Bytes → Bytes
unfolding print_int
page m c (current, average) server_name =
    style
    ++ utf8 "<h1>Состояние службы Yottos GetMyAd Worker Logger</h1>"
    ++ utf8 "<table>"
    ++ utf8 "<tr>"
    ++ utf8 "<td>Обработано запросов:</td><td><b>"
    ++ decimal c.request_processed
    ++ utf8 "</b> ("
    ++ print_int current
    ++ utf8 "/сек, "
    ++ utf8 " в среднем "
    ++ print_int average
    ++ utf8 "/сек) "
    ++ utf8 "</td></tr>"
    ++ utf8 "<tr><td>Общее кол-во показов:</td><td><b>"
    ++ decimal c.offer_processed
    ++ utf8 "</b> ("
    ++ decimal c.social_processed
    ++ utf8 " из них социальная реклама) "
    ++ utf8 "</td></tr>"
    ++ utf8 "<tr><td>Общее кол-во ретаргетинговых показов:</td><td><b>"
    ++ decimal c.retargeting_processed
    ++ utf8 "</b></td></tr>"
    ++ utf8 "<tr><td>Имя сервера: </td> <td>"
    ++ shown_name server_name
    ++ utf8 "</td></tr>"
    ++ utf8 "<tr><td>IP сервера: </td> <td>"
    ++ m.server_ip
    ++ utf8 "</td></tr>"
    ++ utf8 "<tr><td>Текущее время: </td> <td>"
    ++ m.local_time
    ++ utf8 "</td></tr>"
    ++ utf8 "<tr><td>Время запуска:</td> <td>"
    ++ m.started_time
    ++ utf8 "</td></tr>"
    ++ utf8 "<tr><td>Количество ниток: </td> <td>"
    ++ print_int m.server_children
    ++ utf8 "</td></tr>"
    ++ utf8 "<tr><td>CPU user: </td> <td>"
    ++ m.cpu_user
    ++ utf8 "</td></tr>"
    ++ utf8 "<tr><td>CPU sys: </td> <td>"
    ++ m.cpu_sys
    ++ utf8 "</td></tr>"
    ++ utf8 "<tr><td>RAM: </td> <td>"
    ++ decimal m.rss
    ++ utf8 "</td></tr>"
    ++ utf8 "<tr><td>База данных журналирования: </td> <td>"
    ++ m.mongo_log_db
    ++ utf8 "</br>replica set = "
    ++ shown_replica m.mongo_log_url
    ++ utf8 "</td></tr>"
    ++ utf8 "</table>"
    ++ utf8 "</body>"
    ++ utf8 "</html>"

-- `BaseCore::Status` at a time: the page, and what it leaves in the state and in the counters.
unfoldable pub status : Machine → State → Counters → ℕ → Bytes → Bytes × State × Counters
unfolding rates page
status m s c now server_name =
    let c' = record c { last_time_request_processed = c.request_processed } in
    (page m c' (rates s c now) server_name, record s { accessed = some now }, c')
