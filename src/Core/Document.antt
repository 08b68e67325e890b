-- ===== src/Core/Document.antt =====
-- What `Core::ProcessSaveResults` of src/Core.cpp reads of the parameters and of an offer.
pub mod Laws
use worker_log.Base.{ℕ, Bool, Option, none, some, true, [], ◌≡◌, refl, ◌∙◌, Bytes, codes}
use worker_log.Core.Clock.{ℤ, Clocks, document_time}
use worker_log.External.Json.{JsonLib}

-- A run that reads a value of `S` and may change it; `none` is an exception.
abbrev pub Reader : Type 0 → Type 0 → Type 0
Reader S A = S → Option (A × S)

module _ {S : Type 0} where
  infixl 5 ◌>>=◌
  abbrev pub then_read : {A B : Type 0} → Option (A × S) → (A → Reader S B) → Option (B × S)
  then_read none f = none
  then_read (some (a, s)) f = f a s

  abbrev pub ◌>>=◌ : {A B : Type 0} → Reader S A → (A → Reader S B) → Reader S B
  ◌>>=◌ m f s = then_read (m s) f

  abbrev pub return : {A : Type 0} → A → Reader S A
  return a s = some (a, s)

  -- A getter at a value that has been found.
  abbrev pub got : {A : Type 0} → Option A → Reader S A
  got none s = none
  got (some a) s = some (a, s)

-- `j[key].get<T> ()`, where `operator[]` changes `j`.
abbrev pub ask : (J : JsonLib) → {A : Type 0} → (J.Json → Option A) → Bytes → Reader J.Json A
ask J get key = (λ j. J.index j key) >>= λ v. got (get v)

-- The strings and the number that are read of `params_`.
pub record Shown (J : JsonLib) : Type 0 where
  pub inf : Bytes
  pub inf_int : J.Number
  pub ip : Bytes
  pub cookie : Bytes
  pub country : Bytes
  pub region : Bytes
  pub request : Bytes

-- What is read of an offer up to `project`.
pub record Campaign (J : JsonLib) : Type 0 where
  pub id : Bytes
  pub id_int : J.Number
  pub title : Bytes
  pub social : Bool
  pub token : Bytes
  pub campaign_id : Bytes
  pub account_id : Bytes
  pub campaign_id_int : J.Number
  pub campaign_title : Bytes
  pub project : Bytes

-- A logged impression; `dt` is the time, `search` and `context` stand in `keywords`, and `test` may be
-- unwritten.
pub record Document (J : JsonLib) : Type 0 where
  pub dt : ℤ
  pub shown : Shown J
  pub campaign : Campaign J
  pub type_name : Bytes
  pub is_on_click : Bool
  pub retargeting : Bytes
  pub search : Bytes
  pub context : Bytes
  pub branch : Bytes
  pub conformity : Bytes
  pub matching : Bytes
  pub test : Option Bool

module _ (J : JsonLib) where
  unfoldable pub read_shown : Reader J.Json (Shown J)
  read_shown = do
    inf ← ask J J.get_string (codes "informer_id")
    inf_int ← ask J J.get_number (codes "informer_id_int")
    ip ← ask J J.get_string (codes "ip")
    cookie ← ask J J.get_string (codes "cookie")
    country ← ask J J.get_string (codes "country")
    region ← ask J J.get_string (codes "region")
    request ← ask J J.get_string (codes "request")
    return (record {
      inf = inf;
      inf_int = inf_int;
      ip = ip;
      cookie = cookie;
      country = country;
      region = region;
      request = request;
    })

  -- The `builder` chain over an offer, in three steps. The order of its reads is not fixed by the
  -- language, and whichever throws, the document is lost.
  pub build_branch : ℤ → Shown J → Option Bool → Campaign J → Bytes → Reader J.Json (Document J)
  build_branch dt shown test campaign retargeting = do
    branch ← ask J J.get_string (codes "branch")
    return (record {
      dt = dt;
      shown = shown;
      campaign = campaign;
      type_name = codes "teaser";
      is_on_click = true;
      retargeting = retargeting;
      search = [];
      context = [];
      branch = branch;
      conformity = codes "place";
      matching = [];
      test = test;
    })

  pub build_retargeting : ℤ → Shown J → Option Bool → Campaign J → Reader J.Json (Document J)
  unfolding build_branch
  build_retargeting dt shown test campaign = do
    retargeting ← ask J J.get_string (codes "retargeting")
    build_branch dt shown test campaign retargeting

  pub read_campaign : Reader J.Json (Campaign J)
  read_campaign = do
    id ← ask J J.get_string (codes "guid")
    id_int ← ask J J.get_number (codes "id")
    title ← ask J J.get_string (codes "title")
    social ← ask J J.get_boolean (codes "campaign_social")
    token ← ask J J.get_string (codes "token")
    campaign_id ← ask J J.get_string (codes "campaign_guid")
    account_id ← ask J J.get_string (codes "campaign_account")
    campaign_id_int ← ask J J.get_number (codes "campaign_id")
    campaign_title ← ask J J.get_string (codes "campaign_title")
    project ← ask J J.get_string (codes "campaign_project")
    return (record {
      id = id;
      id_int = id_int;
      title = title;
      social = social;
      token = token;
      campaign_id = campaign_id;
      account_id = account_id;
      campaign_id_int = campaign_id_int;
      campaign_title = campaign_title;
      project = project;
    })

  unfoldable pub build : ℤ → Shown J → Option Bool → Reader J.Json (Document J)
  unfolding read_campaign build_retargeting
  build dt shown test = do campaign ← read_campaign; build_retargeting dt shown test campaign
