-- ===== src/Main/Configured.antt =====
-- With which configuration the program of src/main.cpp serves.
use worker_log.Base.{
  ℕ, ◌≡◌, refl, sym, ◌∙◌, Option, none, some, List, Bytes, Bool-cases, inl, inr, true, empty, codes,
  ◌⊎◌, [], ◌∷◌, Option-cases,
}
use worker_log.BoostHelpers.{atoi, get_config_dir}
use worker_log.CgiService.Database.{MongoDatabase}
use worker_log.CgiService.Launch.{Launch, thrown, quits, serves}
use worker_log.Config.{Settings, fresh}
use worker_log.Config.Described.Whole.{IsDescribed, load-IsDescribed, Step-cases}
use worker_log.Config.Load.{
  Loaded, loaded, exited, crashed, not_found, load, run, load_mongo, load_server, load_log,
  no_counts,
}
use worker_log.External.Files.{FileSystem}
use worker_log.External.Xml.{Xml}
use worker_log.Main.{
  Flag, Options, defaults, read_flags, serving, Host, after_launch, with_socket, after_load,
  after_flags, main,
}
use worker_log.Main.Passed.{after_config-serving}

module _ (X : Xml) (F : FileSystem) (M : MongoDatabase) (h : Host X F M) where
  after_launch-serving :
      (c c' : Settings) (d : M.Data) (n : ℕ) (l : Launch M.Data)
      → after_launch X F M h c l ≡ serving c' d n
      → c ≡ c'
  after_launch-serving c c' d n thrown e = cc
  after_launch-serving c c' d n (quits message) e = cc
  after_launch-serving c c' d n (serves d₁ n₁) e = cc

  -- The settings are those of the document of the file that the options name, or of a fresh configuration
  -- if the file is not found, with the socket of the options.
  abbrev pub IsConfigured : Options → Settings → Type 0
  IsConfigured o c =
      ((root : X.Element) × (loads : Settings) × (h.document o.config ≡ some root)
        × IsDescribed X F h.process h.second_group root fresh loads
        × (c ≡ with_socket o.sock_path loads))
      ⊎ ((empty (get_config_dir F o.config h.files) ≡ true) × (c ≡ with_socket o.sock_path fresh))

  -- Only a file that is not found makes `Load` return false.
  load-missing :
      (name : Bytes) (document : Option X.Element) (s : F.Files)
      → load X F h.process h.second_group name document fresh s ≡ not_found
      → empty (get_config_dir F name s) ≡ true
  unfolding load
  load-missing name document s e = elim (Bool-cases (empty (get_config_dir F name s))) [
    | inl gone ↦ gone
    | inr found ↦ elim (Option-cases document) [
      | inl n ↦ let clash : exited ≡ not_found = sym (rw (found, load, n) refl) ∙ e in cc
      | inr (root, d) ↦ elim (Option-cases (X.attribute root (codes "id"))) [
        | inl n ↦ let clash : crashed ≡ not_found = sym (rw (d, found, load, n) refl) ∙ e in cc
        | inr (id, a) ↦
            elim (Step-cases X F h.process h.second_group (
              run X F h.process h.second_group
                (load_mongo X F h.process h.second_group root
                  ∷ load_server X F h.process h.second_group root
                  ∷ [])
                (record fresh { instance_id = some (atoi id) }) s)) [
                  | inl x ↦
                      let clash : exited ≡ not_found = sym (rw (d, found, load, a, x) refl) ∙ e in
                      cc
                  | inr (c, s', r) ↦
                      let clash : loaded (load_log X F h.process h.second_group root c)
                            (no_counts X F h.process h.second_group) s'
                          ≡ not_found =
                        sym (rw (d, found, load, a, r) refl) ∙ e in
                      cc
                ]
      ]
    ]
  ]

  after_load-serving :
      (o : Options) (c : Settings) (l : Loaded F) (d : M.Data) (n : ℕ)
      → load X F h.process h.second_group o.config (h.document o.config) fresh h.files ≡ l
      → after_load X F M h o l ≡ serving c d n
      → IsConfigured o c
  after_load-serving o c exited d n from e = cc
  after_load-serving o c crashed d n from e = cc
  after_load-serving o c not_found d n from e = inr (
    load-missing o.config (h.document o.config) h.files from,
    sym (
        after_launch-serving (with_socket o.sock_path fresh) c d n _
          (after_config-serving X F M h o fresh c d n e).1),
  )
  after_load-serving o c (loaded loads counters files) d n from e =
      let (root, there, settings, zeros) =
        load-IsDescribed X F h.process h.second_group o.config (h.document o.config) fresh loads
          counters h.files files from in
      let same =
        after_launch-serving (with_socket o.sock_path loads) c d n _
          (after_config-serving X F M h o loads c d n e).1 in
      inl (root, loads, there, settings, sym same)

  after_flags-serving :
      (read : Option Options) (c : Settings) (d : M.Data) (n : ℕ)
      → after_flags X F M h read ≡ serving c d n
      → (o : Options) × (read ≡ some o) × IsConfigured o c
  after_flags-serving none c d n e = cc
  after_flags-serving (some o) c d n e = (o, refl, after_load-serving o c _ d n refl e)

  -- The program serves only with settings that it can name: the options are right, and the settings are
  -- those that the document of the file describes, over those of a fresh configuration, or just those of
  -- a fresh configuration where the file is not found; with the path of the socket that the options give
  -- if it has more than eight bytes.
  pub main-IsConfigured :
      (flags : List Flag) (c : Settings) (d : M.Data) (n : ℕ)
      → main X F M h flags ≡ serving c d n
      → (o : Options) × (read_flags flags defaults ≡ some o) × IsConfigured o c
  unfolding main
  main-IsConfigured flags c d n e = after_flags-serving (read_flags flags defaults) c d n e
