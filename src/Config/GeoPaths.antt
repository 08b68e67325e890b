-- ===== src/Config/GeoPaths.antt =====
-- Which of the two paths of GeoIP src/Config.cpp checks.
use worker_log.Base.{
  ◌≡◌, refl, ap, ◌∙◌, Bool, true, false, Option, some, List, [], ◌∷◌, Bytes, codes, if◌then◌else◌,
  Bool-cases, inl, inr,
}
use worker_log.BoostHelpers.{Process, walked}
use worker_log.BoostHelpers.Paths.{all_passable, check_path-passable}
use worker_log.Config.{Settings}
use worker_log.Config.Load.{goes_on, exits, Stage, run, on_text, need_path, geocity, geocountry}
use worker_log.External.Files.{FileSystem}
use worker_log.External.Xml.{Xml, text_of}

module _ (X : Xml) (F : FileSystem) (process : Process) (second_group : Bytes → Option Bytes)
    (server : X.Element) where
  need_path_read :
      (path : Bytes) (c : Settings) (s : F.Files)
      → need_path X F process second_group path false c s
        ≡ (if all_passable F process s (walked F path true) then goes_on c s else exits)
  need_path_read path c s =
      ap (λ (r : Bool × F.Files). if r.0 then goes_on c r.1 else exits)
        (check_path-passable F process path true s)

  on_text_given :
      (name text : Bytes) (use_text : Bytes → Stage X F process second_group) (c : Settings)
      (s : F.Files)
      → text_of X server name ≡ some text
      → on_text X F process second_group server name use_text c s ≡ use_text text c s
  unfolding on_text
  on_text_given name text use_text c s e = rw (e, on_text) refl

  geocity_given :
      (city : Bytes) (c : Settings) (s : F.Files)
      → text_of X server (codes "geocity_path") ≡ some city
      → geocity X F process second_group server c s ≡ (
          if all_passable F process s (walked F city true)
          then goes_on (record c { geocity_path = city }) s
          else exits)
  unfolding geocity
  geocity_given city c s e =
      on_text_given (codes "geocity_path") city _ c s e
      ∙ need_path_read city (record c { geocity_path = city }) s

  geocountry_given :
      (land : Bytes) (c : Settings) (s : F.Files)
      → text_of X server (codes "geocountry_path") ≡ some land
      → geocountry X F process second_group server c s ≡ (
          if all_passable F process s (walked F c.geocity_path true)
          then goes_on (record c { geocountry_path = land }) s
          else exits)
  unfolding geocountry
  geocountry_given land c s e =
      on_text_given (codes "geocountry_path") land _ c s e
      ∙ need_path_read c.geocity_path (record c { geocountry_path = land }) s

  run_goes_on :
      (stage : Stage X F process second_group) (stages : List (Stage X F process second_group))
      (c c' : Settings) (s s' : F.Files)
      → stage c s ≡ goes_on c' s'
      → run X F process second_group (stage ∷ stages) c s
        ≡ run X F process second_group stages c' s'
  unfolding run
  run_goes_on stage stages c c' s s' e = rw (e, run) refl

  run_exits :
      (stage : Stage X F process second_group) (stages : List (Stage X F process second_group))
      (c : Settings) (s : F.Files)
      → stage c s ≡ exits
      → run X F process second_group (stage ∷ stages) c s ≡ exits
  unfolding run
  run_exits stage stages c s e = rw (e, run) refl

  -- With both paths given, the reading goes on exactly if the one of the cities can be passed, whatever
  -- the one of the countries is: that one is stored, and the first is checked a second time.
  geo_paths :
      (city land : Bytes) (c : Settings) (s : F.Files)
      → text_of X server (codes "geocity_path") ≡ some city
      → text_of X server (codes "geocountry_path") ≡ some land
      → run X F process second_group
          (geocity X F process second_group server
            ∷ geocountry X F process second_group server
            ∷ [])
          c
          s
        ≡ (if all_passable F process s (walked F city true)
            then goes_on (record c { geocity_path = city; geocountry_path = land }) s
            else exits)
  unfolding run
  geo_paths city land c s e e' = elim (Bool-cases (all_passable F process s (walked F city true))) [
    | inl ok ↦
        let c' = record c { geocity_path = city } in
        let c'' = record c { geocity_path = city; geocountry_path = land } in
        let first : geocity X F process second_group server c s ≡ goes_on c' s =
          geocity_given city c s e ∙ rw ok refl in
        let second : geocountry X F process second_group server c' s ≡ goes_on c'' s =
          geocountry_given land c' s e' ∙ rw ok refl in
        rw ok (
          run_goes_on (geocity X F process second_group server)
            (geocountry X F process second_group server ∷ []) c c' s s first
          ∙ run_goes_on (geocountry X F process second_group server) [] c' c'' s s second)
    | inr stopped ↦
        let first : geocity X F process second_group server c s ≡ exits =
          geocity_given city c s e ∙ rw stopped refl in
        rw stopped (
          run_exits (geocity X F process second_group server)
            (geocountry X F process second_group server ∷ []) c s first)
  ]
