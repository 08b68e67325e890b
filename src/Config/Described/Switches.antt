-- ===== src/Config/Described/Switches.antt =====
-- What the section `log` of a document says of the switches, against `Config::Load` of src/Config.cpp.
use worker_log.Base.{
  ◌≡◌, refl, ap, ◌∙◌, Bool, false, Option, none, some, List, [], ◌∷◌, Bytes, codes, leb, ◌==◌,
  if◌then◌else◌, Option-cases, Bool-cases, inl, inr, arith,
}
use worker_log.BoostHelpers.{Process}
use worker_log.Config.{
  LogFlag, core_time, out_put_size, ip, country, region, cookie, context, search, informer_id,
  location, monitor, index, set_flag, is_on,
}
use worker_log.Config.Described.{given}
use worker_log.Config.Load.{switches, read_switches}
use worker_log.External.Files.{FileSystem}
use worker_log.External.Xml.{Xml, text_of}

-- A text turns a switch on if its first byte is `1` or a larger one.
abbrev pub switch_on : Bytes → Bool
switch_on [] = false
switch_on (c ∷ text) = leb b'1' c

module _ (X : Xml) (log : X.Element) where
  -- A switch after an element of a name, if that has a text, and else as it was.
  abbrev pub said : Bytes → Option Bool → Option Bool
  said name old = given (λ text. some (switch_on text)) (text_of X log name) old

  -- The switch after the section, where `old` has what was there before.
  abbrev pub switch_described : (LogFlag → Option Bool) → LogFlag → Option Bool
  switch_described old core_time = said (codes "coretime") (old core_time)
  switch_described old out_put_size = said (codes "outsize") (old out_put_size)
  switch_described old ip = said (codes "ip") (old ip)
  switch_described old country = said (codes "country") (old country)
  switch_described old region = said (codes "region") (old region)
  switch_described old cookie = said (codes "cookie") (old cookie)
  switch_described old context = said (codes "context") (old context)
  switch_described old search = said (codes "search") (old search)
  switch_described old informer_id = said (codes "informerId") (old informer_id)
  switch_described old location = said (codes "location") (old location)
  switch_described old monitor = said (codes "commands") (said (codes "monitor") (old monitor))

switch_on-is_on : (text : Bytes) → is_on text ≡ switch_on text
unfolding is_on
switch_on-is_on [] = refl
switch_on-is_on (c ∷ text) = ground arith

module _ (X : Xml) (F : FileSystem) (process : Process) (second_group : Bytes → Option Bytes)
    (log : X.Element) where
  -- What the rows make of one switch.
  abbrev said_by : LogFlag → List (Bytes × LogFlag) → Option Bool → Option Bool
  said_by asked [] old = old
  said_by asked ((name, flag) ∷ rest) old =
      said_by asked rest (if index asked == index flag then said X log name old else old)

  said_row :
      (name : Bytes) (flag asked : LogFlag) (flags : LogFlag → Option Bool)
      → elim (text_of X log name) as (λ _. LogFlag → Option Bool) [
        | none ↦ flags
        | some text ↦ set_flag flag (is_on text) flags
      ]
          asked
        ≡ (if index asked == index flag then said X log name (flags asked) else flags asked)
  unfolding set_flag
  said_row name flag asked flags = elim (Option-cases (text_of X log name)) [
    | inl n ↦ elim (Bool-cases (index asked == index flag)) [
      | inl same ↦ rw (n, same) refl
      | inr apart ↦ rw (n, apart) refl
    ]
    | inr (text, e) ↦ elim (Bool-cases (index asked == index flag)) [
      | inl same ↦ rw (e, same) (ap some (switch_on-is_on text))
      | inr apart ↦ rw (e, apart) refl
    ]
  ]

  read_switches-said_by :
      (rows : List (Bytes × LogFlag)) (flags : LogFlag → Option Bool) (asked : LogFlag)
      → read_switches X F process second_group log rows flags asked
        ≡ said_by asked rows (flags asked)
  unfolding read_switches
  read_switches-said_by [] flags asked = refl
  read_switches-said_by ((name, flag) ∷ rest) flags asked =
      read_switches-said_by rest _ asked ∙ ap (said_by asked rest) (said_row name flag asked flags)

  rows_described :
      (old : LogFlag → Option Bool) (asked : LogFlag)
      → said_by asked (switches X F process second_group) (old asked)
        ≡ switch_described X log old asked
  unfolding index
  rows_described old core_time = refl
  rows_described old out_put_size = refl
  rows_described old ip = refl
  rows_described old country = refl
  rows_described old region = refl
  rows_described old cookie = refl
  rows_described old context = refl
  rows_described old search = refl
  rows_described old informer_id = refl
  rows_described old location = refl
  rows_described old monitor = refl

  -- Reading all the rows gives each switch what the section says of it.
  pub read_switches-switch_described :
      (old : LogFlag → Option Bool)
      → read_switches X F process second_group log (switches X F process second_group) old
        ≡ switch_described X log old
  read_switches-switch_described old = λ i asked.
      (read_switches-said_by (switches X F process second_group) old asked
          ∙ rows_described old asked)
        i
