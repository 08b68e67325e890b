-- ===== src/Config/Described.antt =====
-- That `Config::Load` of src/Config.cpp reads what the document says: the settings field by field.
pub mod Document
pub mod Switches
pub mod Whole
use worker_log.Base.{
  ℕ, ◌≡◌, ◌≢◌, refl, sym, ap, ◌∙◌, Bool, true, false, Bool-cases, ◌-◌, ◌^◌, ◌==◌, Option, none,
  some, List, [], ◌∷◌, Bytes, codes, empty, Option-cases, inl, inr, if◌then◌else◌,
}
use worker_log.BoostHelpers.{Process, atoi, get_seconds, check_path, get_config_dir}
use worker_log.Config.{Settings, fresh}
use worker_log.Config.Load.{
  Step, goes_on, exits, Loaded, loaded, not_found, exited, crashed, Stage, run, on_text, put,
  need_path, mongo_stages, load_mongo, geocity, geocountry, use_socket, use_time, need_text,
  load_cookie, server_stages, load_server, load_log, no_counts, load,
}
use worker_log.Core.{Counters}
use worker_log.External.Files.{FileSystem}
use worker_log.External.Xml.{Xml, text_of}

-- What a text is read as, and what stood there before where there is none.
abbrev pub given : {A : Type 0} → (Bytes → A) → Option Bytes → A → A
given read none old = old
given read (some text) old = read text

abbrev pub as_it_is : Bytes → Bytes
as_it_is text = text

module _ (X : Xml) (F : FileSystem) (process : Process) (second_group : Bytes → Option Bytes) where
  -- If the stage goes on, this is what it has done with the settings.
  pub record Does (stage : Stage X F process second_group) (f : Settings → Settings) : Type 0 where
    pub does : (c c' : Settings) (s s' : F.Files) → stage c s ≡ goes_on c' s' → c' ≡ f c

  -- The same of stages one after the other.
  pub record DoesAll (stages : List (Stage X F process second_group)) (f : Settings → Settings)
      : Type 0 where
    pub all : Does (run X F process second_group stages) f

  pub goes_on-inj :
      {c c' : Settings} {s s' : F.Files} → ◌≡◌ {A = Step F} (goes_on c s) (goes_on c' s') → c ≡ c'
  goes_on-inj e = cc

  run_nil : Does (run X F process second_group []) (λ c. c)
  unfolding run
  run_nil = record { does = λ c c' s s' e. sym (goes_on-inj e) }

  run_after :
      (stages : List (Stage X F process second_group)) (g : Settings → Settings) (r : Step F)
      (c c' : Settings) (s' : F.Files)
      → Does (run X F process second_group stages) g
      → ((c₁ : Settings) (s₁ : F.Files) → r ≡ goes_on c₁ s₁ → c₁ ≡ c)
      → elim r [ exits ↦ exits | goes_on c₁ s₁ ↦ run X F process second_group stages c₁ s₁ ]
        ≡ goes_on c' s'
      → c' ≡ g c
  run_after stages g exits c c' s' h first e = cc
  run_after stages g (goes_on c₁ s₁) c c' s' h first e =
      h.does c₁ c' s₁ s' e ∙ ap g (first c₁ s₁ refl)

  run_cons :
      (stage : Stage X F process second_group) (stages : List (Stage X F process second_group))
      (f g : Settings → Settings)
      → Does stage f
      → Does (run X F process second_group stages) g
      → Does (run X F process second_group (stage ∷ stages)) (λ c. g (f c))
  unfolding run
  run_cons stage stages f g hf hg = record {
    does = λ c c' s s' e.
        run_after stages g (stage c s) (f c) c' s' hg (λ c₁ s₁ e₁. hf.does c c₁ s s₁ e₁) e;
  }

  pub on_text-Does :
      {A : Type 0} (parent : X.Element) (name : Bytes)
      (use_text : Bytes → Stage X F process second_group) (read : Bytes → A) (get : Settings → A)
      (set : A → Settings → Settings)
      → ((c : Settings) → c ≡ set (get c) c)
      → ((text : Bytes) → Does (use_text text) (set (read text)))
      → Does
          (on_text X F process second_group parent name use_text)
          (λ c. set (given read (text_of X parent name) (get c)) c)
  unfolding on_text
  on_text-Does parent name use_text read get set same h = record {
    does = λ c c' s s' e. elim (Option-cases (text_of X parent name)) [
      | inl n ↦
          let went : goes_on c s ≡ goes_on c' s' = sym (rw (n, on_text) refl) ∙ e in
          rw n (sym (goes_on-inj went) ∙ same c)
      | inr (text, t) ↦
          let went : use_text text c s ≡ goes_on c' s' = sym (rw (t, on_text) refl) ∙ e in
          rw t ((h text).does c c' s s' went)
    ];
  }

  pub put-Does :
      (set : Bytes → Settings → Settings) (text : Bytes)
      → Does (put X F process second_group set text) (set text)
  put-Does set text = record { does = λ c c' s s' e. sym (goes_on-inj e) }

  if_goes_on :
      (b : Bool) (c c' : Settings) (s s' : F.Files)
      → ◌≡◌ {A = Step F} (if b then goes_on c s else exits) (goes_on c' s')
      → c ≡ c'
  if_goes_on true c c' s s' e = goes_on-inj e
  if_goes_on false c c' s s' e = cc

  pub need_path-Does :
      (set : Bytes → Settings → Settings) (checked : Bytes → Settings → Bytes) (check_write : Bool)
      (text : Bytes)
      → Does
          (λ c s. need_path X F process second_group (checked text c) check_write (set text c) s)
          (set text)
  need_path-Does set checked check_write text = record {
    does = λ c c' s s' e. sym (
        if_goes_on (check_path F process (checked text c) check_write true s).0 (set text c) c' _ s'
          e);
  }

  pub use_socket-Does :
      (text : Bytes)
      → Does
          (use_socket X F process second_group text)
          (λ c. record c { server_socket_path = text })
  use_socket-Does text = record { does = λ c c' s s' e. sym (goes_on-inj e) }

  pub use_time-Does :
      (text : Bytes)
      → Does
          (use_time X F process second_group text)
          (λ c. record c { time_update = some (get_seconds second_group text) })
  use_time-Does text = record {
    does = λ c c' s s' e. elim (Bool-cases (get_seconds second_group text == 2 ^ 32 - 1)) [
      | inl wrong ↦ let clash : exits ≡ goes_on c' s' = sym (rw wrong refl) ∙ e in cc
      | inr right ↦
          let went : goes_on (record c { time_update = some (get_seconds second_group text) }) s
              ≡ goes_on c' s' =
            sym (rw right refl) ∙ e in
          sym (goes_on-inj went)
    ];
  }

  pub need_text-Does :
      (parent : X.Element) (name : Bytes) (get : Settings → Bytes)
      (set : Bytes → Settings → Settings)
      → Does
          (need_text X F process second_group parent name set)
          (λ c. set (given as_it_is (text_of X parent name) (get c)) c)
  need_text-Does parent name get set = record {
    does = λ c c' s s' e. elim (Option-cases (text_of X parent name)) [
      | inl n ↦ let clash : exits ≡ goes_on c' s' = sym (rw (need_text, n) refl) ∙ e in cc
      | inr (text, t) ↦
          let went : goes_on (set text c) s ≡ goes_on c' s' = sym (rw (need_text, t) refl) ∙ e in
          rw t (sym (goes_on-inj went))
    ];
  }

module _ {X : Xml} {F : FileSystem} {process : Process} {second_group : Bytes → Option Bytes} where
  -- A stage before others, and the end of them.
  infixr 5 ◌>>◌
  pub ◌>>◌ :
      {stage : Stage X F process second_group} {stages : List (Stage X F process second_group)}
      {f g : Settings → Settings}
      → Does X F process second_group stage f
      → DoesAll X F process second_group stages g
      → DoesAll X F process second_group (stage ∷ stages) (λ c. g (f c))
  ◌>>◌ {stage} {stages} {f} {g} hf hg = record {
    all = run_cons X F process second_group stage stages f g hf hg.all;
  }

  pub stop : DoesAll X F process second_group [] (λ c. c)
  stop = record { all = run_nil X F process second_group }
