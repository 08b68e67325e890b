-- ===== src/GeoIpTools.antt =====
-- src/GeoIPTools.cpp and include/GeoIPTools.h: where an address is, by the GeoIP library.
use worker_log.Base.{◌≡◌, refl, Option, none, some, Bytes, codes, Option-cases, inl, inr}

infixl 5 ◌>>=◌
abbrev pub ◌>>=◌ : {A B : Type 0} → Option A → (A → Option B) → Option B
◌>>=◌ none f = none
◌>>=◌ (some a) f = f a

-- `GeoIPRecord`, by the fields that are read; a null pointer is `none`.
pub record GeoIpRecord : Type 0 where
  pub country_code : Bytes
  pub region : Bytes
  pub city : Option Bytes

-- The library, by the calls that are made.
pub record GeoIp : Type 1 where
  pub Handle : Type 0
  pub open_file : Bytes → Option Handle
  pub country_code_by_addr : Handle → Bytes → Option Bytes
  pub record_by_addr : Handle → Bytes → Option GeoIpRecord
  pub region_name_by_code : Bytes → Bytes → Option Bytes

abbrev pub not_found : Bytes
not_found = codes "NOT FOUND"

module _ (G : GeoIp) where
  pub record GeoIpTools : Type 0 where
    pub geo_country : Option G.Handle
    pub geo_city : Option G.Handle

  -- The constructor, from the two paths of the configuration.
  abbrev pub open_tools : Bytes → Bytes → GeoIpTools
  open_tools country_path city_path = record {
    geo_country = G.open_file country_path;
    geo_city = G.open_file city_path;
  }

  -- `GeoIPTools::Instance`: what is there is kept.
  unfoldable pub instance_of : Option GeoIpTools → Bytes → Bytes → GeoIpTools
  instance_of none country_path city_path = open_tools country_path city_path
  instance_of (some tools) country_path city_path = tools

  unfoldable pub country_code_by_addr : GeoIpTools → Bytes → Bytes
  country_code_by_addr this ip = elim this.geo_country [
    | none ↦ not_found
    | some handle ↦ elim (G.country_code_by_addr handle ip) [
      | none ↦ not_found
      | some country ↦ country
    ]
  ]

  unfoldable pub region_code_by_addr : GeoIpTools → Bytes → Bytes
  region_code_by_addr this ip = elim this.geo_city [
    | none ↦ not_found
    | some handle ↦ elim (G.record_by_addr handle ip) [
      | none ↦ not_found
      | some found ↦ elim (G.region_name_by_code found.country_code found.region) [
        | none ↦ not_found
        | some region_name ↦ region_name
      ]
    ]
  ]

  -- `none` is a null pointer that a string is made of.
  unfoldable pub city_code_by_addr : GeoIpTools → Bytes → Option Bytes
  city_code_by_addr this ip = elim this.geo_city [
    | none ↦ some not_found
    | some handle ↦ elim (G.record_by_addr handle ip) [
      | none ↦ some not_found
      | some found ↦ found.city
    ]
  ]

  abbrev pub or_not_found : Option Bytes → Bytes
  or_not_found none = not_found
  or_not_found (some name) = name

  -- What is known of the region of an address.
  unfoldable pub region_at : GeoIpTools → Bytes → Option Bytes
  region_at this ip = do
    handle ← this.geo_city
    found ← G.record_by_addr handle ip
    G.region_name_by_code found.country_code found.region

  -- A region that is known is given by its name, and any other one by the text NOT FOUND.
  pub region_code_by_addr_lem :
      (this : GeoIpTools) (ip : Bytes)
      → region_code_by_addr this ip ≡ or_not_found (region_at this ip)
  unfolding region_code_by_addr region_at
  region_code_by_addr_lem this ip = elim (Option-cases this.geo_city) [
    | inl closed ↦ rw (closed, region_code_by_addr, region_at) refl
    | inr (handle, opened) ↦ elim (Option-cases (G.record_by_addr handle ip)) [
      | inl unknown ↦ rw (opened, region_code_by_addr, region_at, unknown) refl
      | inr (found, there) ↦
          elim (Option-cases (G.region_name_by_code found.country_code found.region)) [
            | inl unnamed ↦ rw (opened, region_code_by_addr, region_at, there, unnamed) refl
            | inr (name, named) ↦ rw (opened, region_code_by_addr, region_at, there, named) refl
          ]
    ]
  ]
