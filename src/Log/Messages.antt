-- ===== src/Log/Messages.antt =====
-- The static functions of src/Log.cpp, which format into one buffer that all threads share.
use worker_log.Base.{
  ℕ, ◌+◌, ◌*◌, ◌<◌, ◌≡◌, refl, ap, Option, none, some, List, [], ◌∷◌, ◌++◌, Bytes, c_string, Lacks,
  sym, append-nil, ◌∙◌, length, drop, ltb, if◌then◌else◌, arith, true,
}
use mathlib.Core.Option

pub data Level : Type 0 where
  err warn info gdb : Level

-- LOG_ERR, LOG_WARNING, LOG_INFO and LOG_DEBUG.
abbrev pub priority_of : Level → ℕ
priority_of err = 3
priority_of warn = 4
priority_of info = 6
priority_of gdb = 7

-- The buffer, and what `syslog` was given.
pub record Messages : Type 0 where
  pub buffer : Bytes
  pub written : List (ℕ × Bytes)

abbrev pub buffer_size : ℕ
buffer_size = 1024 * 1024

-- `vsprintf (buffer, …)`, of a text that the arguments give; `none` is a text that runs over the end.
unfoldable pub format : Bytes → Messages → Option Messages
format text m =
    if ltb (length text) buffer_size
    then some (record m { buffer = text ++ 0 ∷ drop (length text + 1) m.buffer })
    else none

-- `syslog (…, "%s", buffer)`.
unfoldable pub send : Level → Messages → Messages
send level m = record m { written = m.written ++ (priority_of level, c_string m.buffer) ∷ [] }

-- `Log::err`, `Log::warn` and `Log::info` with a format; `Log::gdb` does nothing in a build without DEBUG.
unfoldable pub log_format : Level → Bytes → Messages → Option Messages
unfolding format send
log_format gdb text m = some m
log_format err text m = Option.map (send err) (format text m)
log_format warn text m = Option.map (send warn) (format text m)
log_format info text m = Option.map (send info) (format text m)

-- The same with a text.
unfoldable pub log_text : Level → Bytes → Messages → Messages
log_text gdb text m = m
log_text err text m = record m { written = m.written ++ (priority_of err, c_string text) ∷ [] }
log_text warn text m = record m { written = m.written ++ (priority_of warn, c_string text) ∷ [] }
log_text info text m = record m { written = m.written ++ (priority_of info, c_string text) ∷ [] }

pub c_string-append : (s rest : Bytes) → Lacks 0 s → c_string (s ++ 0 ∷ rest) ≡ s
unfolding c_string
c_string-append [] rest h = refl
c_string-append (c ∷ s) rest h = rw h.0 (ap (◌∷◌ c) (c_string-append s rest h.1))

-- What a call does before `syslog`, and what it does then; `Log::gdb` does nothing in a build without
-- DEBUG.
abbrev pub prepare : Level → Bytes → Messages → Option Messages
prepare gdb text m = some m
prepare err text m = format text m
prepare warn text m = format text m
prepare info text m = format text m

abbrev pub deliver : Level → Messages → Messages
deliver gdb m = m
deliver err m = send err m
deliver warn m = send warn m
deliver info m = send info m

-- Two threads that have both formatted before either calls `syslog`.
unfoldable pub log_both : Level → Bytes → Level → Bytes → Messages → Option Messages
unfolding format send
log_both first a second b m = elim (prepare first a m) [
  | none ↦ none
  | some m' ↦ Option.map (λ (l : Messages). deliver second (deliver first l)) (prepare second b m')
]

abbrev pub lines_of : Messages → List (ℕ × Bytes)
lines_of m = m.written

format-some :
    (text : Bytes) (m : Messages)
    → length text < buffer_size
    → format text m ≡ some (record m { buffer = text ++ 0 ∷ drop (length text + 1) m.buffer })
unfolding format
format-some text m h =
    let fits : ltb (length text) buffer_size ≡ true = ground arith in rw fits refl

-- The lines of a call: none for `Log::gdb`.
abbrev pub line_of : Level → Bytes → List (ℕ × Bytes)
line_of gdb text = []
line_of err text = (priority_of err, text) ∷ []
line_of warn text = (priority_of warn, text) ∷ []
line_of info text = (priority_of info, text) ∷ []

-- What the buffer holds for `syslog` in two calls at once: the second text if the second call formats,
-- else the first.
abbrev pub left_by : Level → Bytes → Bytes → Bytes
left_by gdb a b = a
left_by err a b = b
left_by warn a b = b
left_by info a b = b

-- One call that formats, with what is in the buffer when it gives it to `syslog`.
send-format :
    (level : Level) (a : Bytes) (m : Messages)
    → Lacks 0 a
    → length a < buffer_size
    → Option.map lines_of (Option.map (send level) (format a m))
      ≡ some (m.written ++ (priority_of level, a) ∷ [])
unfolding send
send-format level a m ha la =
    let alone = format-some a m la in
    let text_a = c_string-append a (drop (length a + 1) m.buffer) ha in rw (alone, text_a) refl

log_format-line_of :
    (level : Level) (a : Bytes) (m : Messages)
    → Lacks 0 a
    → length a < buffer_size
    → Option.map lines_of (log_format level a m) ≡ some (m.written ++ line_of level a)
unfolding log_format
log_format-line_of gdb a m ha la = ap some (sym (append-nil m.written))
log_format-line_of err a m ha la = send-format err a m ha la
log_format-line_of warn a m ha la = send-format warn a m ha la
log_format-line_of info a m ha la = send-format info a m ha la

-- What is in the buffer when a call has formatted, if it does.
prepare-left_by :
    (level : Level) (a : Bytes) (m : Messages)
    → Lacks 0 a
    → length a < buffer_size
    → (m' : Messages) × (prepare level a m ≡ some m')
      × (m'.written ≡ m.written)
      × (c_string m'.buffer ≡ left_by level (c_string m.buffer) a)
prepare-left_by gdb a m ha la = (m, refl, refl, refl)
prepare-left_by err a m ha la =
    (_, format-some a m la, refl, c_string-append a (drop (length a + 1) m.buffer) ha)
prepare-left_by warn a m ha la =
    (_, format-some a m la, refl, c_string-append a (drop (length a + 1) m.buffer) ha)
prepare-left_by info a m ha la =
    (_, format-some a m la, refl, c_string-append a (drop (length a + 1) m.buffer) ha)

deliver-line_of :
    (level : Level) (m : Messages)
    → ((deliver level m).written ≡ m.written ++ line_of level (c_string m.buffer))
      × ((deliver level m).buffer ≡ m.buffer)
unfolding send
deliver-line_of gdb m = (sym (append-nil m.written), refl)
deliver-line_of err m = (refl, refl)
deliver-line_of warn m = (refl, refl)
deliver-line_of info m = (refl, refl)

line_of-left_by :
    (level : Level) (old a : Bytes) → line_of level (left_by level old a) ≡ line_of level a
line_of-left_by gdb old a = refl
line_of-left_by err old a = refl
line_of-left_by warn old a = refl
line_of-left_by info old a = refl

first_line :
    (first second : Level) (old a b : Bytes)
    → line_of first (left_by second (left_by first old a) b) ≡ line_of first (left_by second a b)
first_line first gdb old a b = line_of-left_by first old a
first_line first err old a b = refl
first_line first warn old a b = refl
first_line first info old a b = refl

-- A text without a zero byte that fits into the buffer is logged whole by a thread that is alone. Where
-- two threads log at once and both format before either calls `syslog`, each writes what the second has
-- formatted: that text twice, and the first one not at all. A call of `Log::gdb` is no such call, and
-- neither formats nor writes anything.
pub log_both-lines :
    (first second : Level) (a b : Bytes) (m : Messages)
    → Lacks 0 a
    → Lacks 0 b
    → length a < buffer_size
    → length b < buffer_size
    → (Option.map lines_of (log_format first a m) ≡ some (m.written ++ line_of first a))
      × (Option.map lines_of (log_both first a second b m)
          ≡ some (m.written ++ line_of first (left_by second a b) ++ line_of second b))
unfolding log_both
log_both-lines first second a b m ha hb la lb =
    let (m₁, e₁, w₁, t₁) = prepare-left_by first a m ha la in
    let (m₂, e₂, w₂, t₂) = prepare-left_by second b m₁ hb lb in
    let (w₃, t₃) = deliver-line_of first m₂ in
    let (w₄, t₄) = deliver-line_of second (deliver first m₂) in
    let seen : c_string m₂.buffer ≡ left_by second (left_by first (c_string m.buffer) a) b =
      t₂ ∙ ap (λ old. left_by second old b) t₁ in
    let one : line_of first (c_string m₂.buffer) ≡ line_of first (left_by second a b) =
      ap (line_of first) seen ∙ first_line first second (c_string m.buffer) a b in
    let two : line_of second (c_string m₂.buffer) ≡ line_of second b =
      ap (line_of second) t₂ ∙ line_of-left_by second (c_string m₁.buffer) b in
    let again : line_of second (c_string (deliver first m₂).buffer) ≡ line_of second b =
      ap (λ s. line_of second (c_string s)) t₃ ∙ two in
    let whole : (deliver second (deliver first m₂)).written
        ≡ m.written ++ line_of first (left_by second a b) ++ line_of second b =
      w₄
      ∙ ap (◌++ line_of second (c_string (deliver first m₂).buffer))
          (w₃ ∙ ap (◌++ line_of first (c_string m₂.buffer)) (w₂ ∙ w₁))
      ∙ ap (λ t. (m.written ++ line_of first (c_string m₂.buffer)) ++ t) again
      ∙ ap (λ t. (m.written ++ t) ++ line_of second b) one in
    (log_format-line_of first a m ha la, rw (e₁, log_both, e₂) (ap some whole))
