-- ===== src/Config/Flags.antt =====
-- What src/Config.cpp makes of the switches of the log.
use worker_log.Base.{
  ◌≡◌, ◌⊎◌, inl, inr, refl, ◌∙◌, Bool, true, false, Option, none, some, List, [], ◌∷◌, ◌++◌, take,
  Bytes, codes, All, ◌==◌, Option-cases, arith,
}
use worker_log.BoostHelpers.{Process}
use worker_log.Config.{LogFlag, monitor, Settings, index, set_flag, is_on}
use worker_log.Config.Load.{switches, read_switches, load_log}
use worker_log.External.Files.{FileSystem}
use worker_log.External.Xml.{Xml, text_of}

set_flag_same :
    (flag : LogFlag) (value : Bool) (log : LogFlag → Option Bool)
    → set_flag flag value log flag ≡ some value
unfolding set_flag
set_flag_same flag value log =
    let same : (index flag == index flag) ≡ true = ground arith in rw same refl

set_flag_other :
    (flag asked : LogFlag) (value : Bool) (log : LogFlag → Option Bool)
    → (index asked == index flag) ≡ false
    → set_flag flag value log asked ≡ log asked
unfolding set_flag
set_flag_other flag asked value log apart = rw apart refl

module _ (X : Xml) (F : FileSystem) (process : Process) (second_group : Bytes → Option Bytes)
    (log : X.Element) where
  -- A switch that no element with a text stands for is left as it was.
  read_switches_unread :
      (rows : List (Bytes × LogFlag)) (flags : LogFlag → Option Bool) (asked : LogFlag)
      → All
          (λ (row : Bytes × LogFlag).
            (text_of X log row.0 ≡ none) ⊎ ((index asked == index row.1) ≡ false))
          rows
      → read_switches X F process second_group log rows flags asked ≡ flags asked
  unfolding read_switches
  read_switches_unread [] flags asked h = refl
  read_switches_unread ((name, flag) ∷ rest) flags asked h =
      read_switches_unread rest _ asked h.1 ∙ elim (Option-cases (text_of X log name)) [
        | inl n ↦ rw n refl
        | inr (text, e) ↦ elim h.0 [
          | inl n ↦ rw n refl
          | inr apart ↦ rw e (set_flag_other flag asked (is_on text) flags apart)
        ]
      ]

  -- The row that is read last decides.
  read_switches_last :
      (rows : List (Bytes × LogFlag)) (name text : Bytes) (flag : LogFlag)
      (flags : LogFlag → Option Bool)
      → text_of X log name ≡ some text
      → read_switches X F process second_group log (rows ++ (name, flag) ∷ []) flags flag
        ≡ some (is_on text)
  unfolding read_switches
  read_switches_last [] name text flag flags e =
      rw (e, read_switches) (set_flag_same flag (is_on text) flags)
  read_switches_last ((_, _) ∷ rows) name text flag flags e =
      read_switches_last rows name text flag _ e

  -- A switch keeps the value that it had before the file was read, which for a fresh configuration is
  -- none at all, if the section of the log is there and no element with a text stands for it.
  pub load_log_unread :
      (root : X.Element) (c : Settings) (asked : LogFlag)
      → X.first_child root (codes "log") ≡ some log
      → All
          (λ (row : Bytes × LogFlag).
            (text_of X log row.0 ≡ none) ⊎ ((index asked == index row.1) ≡ false))
          (switches X F process second_group)
      → (load_log X F process second_group root c).log asked ≡ c.log asked
  unfolding load_log
  load_log_unread root c asked e h =
      rw (e, load_log) (read_switches_unread (switches X F process second_group) c.log asked h)

  -- An element `commands` with a text decides on the monitor, in a section of the log, whatever the element `monitor` says.
  pub load_log_commands :
      (root : X.Element) (c : Settings) (text : Bytes)
      → X.first_child root (codes "log") ≡ some log
      → text_of X log (codes "commands") ≡ some text
      → (load_log X F process second_group root c).log monitor ≡ some (is_on text)
  unfolding load_log
  load_log_commands root c text e h =
      rw (e, load_log)
        (read_switches_last (take 11 (switches X F process second_group)) (codes "commands") text
          monitor c.log h)
