-- ===== src/Config/Described/Whole.antt =====
-- What `Config::Load` of src/Config.cpp has made of a document when it gives a configuration.
use worker_log.Base.{
  Bool, ◌⊎◌, ◌≡◌, refl, sym, subst, ap, ◌∙◌, Bool-cases, Option, none, some, [], ◌∷◌, Bytes, codes,
  empty, false, Option-cases, inl, inr,
}
use worker_log.BoostHelpers.{Process, atoi, get_config_dir}
use worker_log.Config.{LogFlag, Settings}
use worker_log.Config.Described.Document.{
  mongo_described, server_described, mongo-Does, server-Does,
}
use worker_log.Config.Described.Switches.{switch_described, read_switches-switch_described}
use worker_log.Config.Load.{
  Step, goes_on, exits, Loaded, Stage, loaded, not_found, exited, crashed, run, load_mongo,
  load_server, load_log, no_counts, load,
}
use worker_log.Core.{Counters}
use worker_log.External.Files.{FileSystem}
use worker_log.External.Xml.{Xml}

module _ (X : Xml) (F : FileSystem) (process : Process) (second_group : Bytes → Option Bytes) where
  -- The switches: off without a section, and else as its elements say.
  abbrev flags_described : Option X.Element → (LogFlag → Option Bool) → LogFlag → Option Bool
  flags_described none old = λ flag. some false
  flags_described (some log) old = switch_described X log old

  -- The settings that a document with these sections describes, where `c` was there before.
  abbrev described : X.Element → Bytes → X.Element → X.Element → Settings → Settings
  described root id log server c =
      record (server_described X F process second_group server
        (mongo_described X F process second_group log c)) {
          instance_id = some (atoi id);
          log = flags_described (X.first_child root (codes "log")) c.log;
        }

  -- The sections that have to be there are, and the settings are what they describe.
  pub record IsDescribed (root : X.Element) (c c' : Settings) : Type 0 where
    pub id : Bytes
    pub mongo : X.Element
    pub log : X.Element
    pub server : X.Element
    pub has_id : X.attribute root (codes "id") ≡ some id
    pub has_mongo : X.first_child root (codes "mongo") ≡ some mongo
    pub has_log : X.first_child mongo (codes "log") ≡ some log
    pub has_server : X.first_child root (codes "server") ≡ some server
    pub settings : c' ≡ described root id log server c

  load_mongo-mongo_described :
      (root : X.Element) (c c' : Settings) (s s' : F.Files)
      → load_mongo X F process second_group root c s ≡ goes_on c' s'
      → (mongo : X.Element) × (log : X.Element) × (X.first_child root (codes "mongo") ≡ some mongo)
        × (X.first_child mongo (codes "log") ≡ some log)
        × (c' ≡ mongo_described X F process second_group log c)
  unfolding load_mongo
  load_mongo-mongo_described root c c' s s' e =
      elim (Option-cases (X.first_child root (codes "mongo"))) [
        | inl n ↦ let clash : exits ≡ goes_on c' s' = sym (rw (n, load_mongo) refl) ∙ e in cc
        | inr (mongo, m) ↦ elim (Option-cases (X.first_child mongo (codes "log"))) [
          | inl n ↦ let clash : exits ≡ goes_on c' s' = sym (rw (m, load_mongo, n) refl) ∙ e in cc
          | inr (log, l) ↦ (
            mongo,
            log,
            m,
            l,
            (mongo-Does X F process second_group log).all.does c c' s s'
                (sym (rw (m, load_mongo, l) refl) ∙ e),
          )
        ]
      ]

  load_server-server_described :
      (root : X.Element) (c c' : Settings) (s s' : F.Files)
      → load_server X F process second_group root c s ≡ goes_on c' s'
      → (server : X.Element) × (X.first_child root (codes "server") ≡ some server)
        × (c' ≡ server_described X F process second_group server c)
  unfolding load_server
  load_server-server_described root c c' s s' e =
      elim (Option-cases (X.first_child root (codes "server"))) [
        | inl n ↦ let clash : exits ≡ goes_on c' s' = sym (rw (n, load_server) refl) ∙ e in cc
        | inr (server, m) ↦ (
          server,
          m,
          (server-Does X F process second_group server).all.does c c' s s'
              (sym (rw (m, load_server) refl) ∙ e),
        )
      ]

  load_log-flags_described :
      (root : X.Element) (c : Settings)
      → load_log X F process second_group root c
        ≡ record c { log = flags_described (X.first_child root (codes "log")) c.log }
  unfolding load_log
  load_log-flags_described root c = elim (Option-cases (X.first_child root (codes "log"))) [
    | inl n ↦ rw (n, load_log) refl
    | inr (log, l) ↦
        rw (l, load_log)
          (ap (λ flags. record c { log = flags })
            (read_switches-switch_described X F process second_group log c.log))
  ]

  -- A step goes on or exits.
  pub Step-cases : (r : Step F) → (r ≡ exits) ⊎ ((c : Settings) × (s : F.Files) × (r ≡ goes_on c s))
  Step-cases exits = inl refl
  Step-cases (goes_on c s) = inr (c, s, refl)

  -- Two stages that have gone on.
  run_two :
      (first second : Stage X F process second_group) (c c' : Settings) (s s' : F.Files)
      → run X F process second_group (first ∷ second ∷ []) c s ≡ goes_on c' s'
      → (c₁ : Settings) × (s₁ : F.Files) × (first c s ≡ goes_on c₁ s₁)
        × (second c₁ s₁ ≡ goes_on c' s')
  unfolding run
  run_two first second c c' s s' e = elim (Step-cases (first c s)) [
    | inl x ↦ let clash : exits ≡ goes_on c' s' = sym (rw (x, run) refl) ∙ e in cc
    | inr (c₁, s₁, e₁) ↦ elim (Step-cases (second c₁ s₁)) [
      | inl x ↦ let clash : exits ≡ goes_on c' s' = sym (rw (e₁, run, x) refl) ∙ e in cc
      | inr (c₂, s₂, e₂) ↦
          let went : goes_on c₂ s₂ ≡ goes_on c' s' = sym (rw (e₁, run, e₂) refl) ∙ e in
          (c₁, s₁, e₁, e₂ ∙ went)
    ]
  ]

  loaded-inj :
      {c c' : Settings} {k k' : Counters} {s s' : F.Files}
      → ◌≡◌ {A = Loaded F} (loaded c k s) (loaded c' k' s')
      → (c ≡ c') × (k ≡ k')
  loaded-inj e = (cc, cc)

  sections-IsDescribed :
      (root : X.Element) (id : Bytes) (c c' : Settings) (s s' : F.Files)
      → X.attribute root (codes "id") ≡ some id
      → run X F process second_group
          (load_mongo X F process second_group root
            ∷ load_server X F process second_group root
            ∷ [])
          (record c { instance_id = some (atoi id) })
          s
        ≡ goes_on c' s'
      → IsDescribed root c (load_log X F process second_group root c')
  sections-IsDescribed root id c c' s s' named e =
      let c₀ = record c { instance_id = some (atoi id) } in
      let (c₁, s₁, first, second) =
        run_two (load_mongo X F process second_group root)
          (load_server X F process second_group root) c₀ c' s s' e in
      let (mongo, log, m, l, e₁) = load_mongo-mongo_described root c₀ c₁ s s₁ first in
      let (server, v, e₂) = load_server-server_described root c₁ c' s₁ s' second in
      let whole : c'
          ≡ server_described X F process second_group server
              (mongo_described X F process second_group log c₀) =
        e₂ ∙ ap (server_described X F process second_group server) e₁ in
      record {
        id = id;
        mongo = mongo;
        log = log;
        server = server;
        has_id = named;
        has_mongo = m;
        has_log = l;
        has_server = v;
        settings =
            ap (load_log X F process second_group root) whole ∙ load_log-flags_described root _;
      }

  -- A configuration that was loaded is the one that the document describes, section by section and field
  -- by field: each text that is there has been taken into its field and each other field is as it was;
  -- every switch of the log is off without its section, and else on just if the text of its own element,
  -- or for the monitor that of `commands`, or else that of `monitor`, starts with `1` or a larger byte, and
  -- as it was without such a text; the sections mongo, log in it and server are there, and the counters are 0.
  pub load-IsDescribed :
      (name : Bytes) (document : Option X.Element) (c c' : Settings) (counters : Counters)
      (s s' : F.Files)
      → load X F process second_group name document c s ≡ loaded c' counters s'
      → (root : X.Element) × (document ≡ some root)
        × IsDescribed root c c'
        × (counters ≡ no_counts X F process second_group)
  unfolding load
  load-IsDescribed name document c c' counters s s' e =
      elim (Bool-cases (empty (get_config_dir F name s))) [
        | inl gone ↦
            let clash : not_found ≡ loaded c' counters s' = sym (rw (gone, load) refl) ∙ e in cc
        | inr found ↦ elim (Option-cases document) [
          | inl n ↦
              let clash : exited ≡ loaded c' counters s' = sym (rw (found, load, n) refl) ∙ e in cc
          | inr (root, d) ↦ elim (Option-cases (X.attribute root (codes "id"))) [
            | inl n ↦
                let clash : crashed ≡ loaded c' counters s' =
                  sym (rw (d, found, load, n) refl) ∙ e in
                cc
            | inr (id, a) ↦
                elim (Step-cases (
                  run X F process second_group
                    (load_mongo X F process second_group root
                      ∷ load_server X F process second_group root
                      ∷ [])
                    (record c { instance_id = some (atoi id) }) s)) [
                      | inl x ↦
                          let clash : exited ≡ loaded c' counters s' =
                            sym (rw (d, found, load, a, x) refl) ∙ e in
                          cc
                      | inr (c₂, s₂, r) ↦
                          let went : loaded (load_log X F process second_group root c₂)
                                (no_counts X F process second_group) s₂
                              ≡ loaded c' counters s' =
                            sym (rw (d, found, load, a, r) refl) ∙ e in
                          let (same, zeros) = loaded-inj went in
                          let here = sections-IsDescribed root id c c₂ s s₂ a r in
                          (root, d, subst (IsDescribed root c) same here, sym zeros)
                    ]
          ]
        ]
      ]
