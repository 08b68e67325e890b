-- ===== src/Offer.antt =====
-- src/Offer.cpp and include/Offer.h: an offer, and the branch that a selection gives it. `float` is a
-- parameter, with the product by 1000 that is taken of a rating.
use worker_log.Base.{ℕ, Bool, true, false, Bytes, codes, equal, ◌==◌, if◌then◌else◌}
use worker_log.EBranch
use worker_log.EBranch.{
  EBranchT, t1, t2, t3, t4, t5, tmax, EBranchL, l2, l3, l4, l5, l6, l7, l8, l10, l11, l12, l13, l14,
  l15, l16, l17, l18, l19, l20, l21, l30,
}

-- `Offer::Type`.
pub data OfferType : Type 0 where
  banner teazer unknown : OfferType

unfoldable pub type_from_string : Bytes → OfferType
type_from_string stype =
    if equal stype (codes "banner")
    then banner
    else if equal stype (codes "teaser")
    then teazer
    else unknown

unfoldable pub type_from_int : ℕ → OfferType
type_from_int stype = if stype == 0 then banner else if stype == 1 then teazer else unknown

unfoldable pub type_to_string : OfferType → Bytes
type_to_string banner = codes "banner"
type_to_string teazer = codes "teaser"
type_to_string unknown = codes "unknown"

pub record Float : Type 1 where
  pub Value : Type 0
  -- `1000 * x`.
  pub thousandfold : Value → Value

-- What the constructor is given of an offer; the members that it leaves alone are left out.
pub record Offer (F : Float) : Type 0 where
  pub id_int : ℕ
  pub campaign_id : ℕ
  pub offer_type : OfferType
  pub branch : EBranchL
  pub rating : F.Value
  pub unique_hits : ℕ
  pub height : ℕ
  pub width : ℕ
  pub is_on_click : Bool
  pub social : Bool
  pub account_id : Bytes
  pub unique_by_campaign : ℕ
  pub recommended : Bytes
  pub retid : Bytes
  pub retargeting_type : Bytes
  pub retargeting : Bool
  pub brending : Bool
  pub is_recommended : Bool
  pub html_notification : Bool

module _ (F : Float) where
  -- `Offer::Offer`, without DUMMY; an `int` is the bits of a 32-bit number.
  abbrev pub make :
      ℕ
      → ℕ
      → ℕ
      → F.Value
      → ℕ
      → ℕ
      → ℕ
      → Bool
      → Bool
      → Bytes
      → ℕ
      → Bytes
      → Bytes
      → Bytes
      → Bool
      → Bool
      → Bool
      → Bool
      → Offer F
  make id_int campaign_id type_int rating unique_hits height width is_on_click social account_id
        unique_by_campaign recommended retid retargeting_type retargeting brending is_recommended
        html_notification =
      record {
        id_int = id_int;
        campaign_id = campaign_id;
        offer_type = type_from_int type_int;
        branch = l30;
        rating = rating;
        unique_hits = unique_hits;
        height = height;
        width = width;
        is_on_click = is_on_click;
        social = social;
        account_id = account_id;
        unique_by_campaign = unique_by_campaign;
        recommended = recommended;
        retid = retid;
        retargeting_type = retargeting_type;
        retargeting = retargeting;
        brending = brending;
        is_recommended = is_recommended;
        html_notification = html_notification;
      }

  -- `branch = b;`, and the same with `rating = 1000 * rating;`.
  abbrev put : EBranchL → Offer F → Offer F × Bool
  put b o = (record o { branch = b }, true)

  abbrev put_raised : EBranchL → Offer F → Offer F × Bool
  put_raised b o = (record o { branch = b; rating = F.thousandfold o.rating }, true)

  -- The `switch` over the branch, the type and whether it is paid by clicks.
  chosen : EBranchT → OfferType → Bool → Offer F → Offer F × Bool
  chosen tmax type on_click o = (o, false)
  chosen t1 banner true o = put l7 o
  chosen t1 banner false o = put_raised l2 o
  chosen t1 teazer true o = put l17 o
  chosen t1 teazer false o = put_raised l12 o
  chosen t1 unknown on_click o = (o, false)
  chosen t2 banner true o = put l8 o
  chosen t2 banner false o = put_raised l3 o
  chosen t2 teazer true o = put l18 o
  chosen t2 teazer false o = put l13 o
  chosen t2 unknown on_click o = (o, false)
  chosen t3 banner true o = put_raised l4 o
  chosen t3 banner false o = put_raised l3 o
  chosen t3 teazer true o = put l19 o
  chosen t3 teazer false o = put l14 o
  chosen t3 unknown on_click o = (o, false)
  chosen t4 banner true o = put l10 o
  chosen t4 banner false o = put_raised l5 o
  chosen t4 teazer true o = put l20 o
  chosen t4 teazer false o = put l15 o
  chosen t4 unknown on_click o = (o, false)
  chosen t5 banner true o = put l11 o
  chosen t5 banner false o = put_raised l6 o
  chosen t5 teazer true o = put l21 o
  chosen t5 teazer false o = put l16 o
  chosen t5 unknown on_click o = (o, false)

  -- `Offer::setBranch`: the offer afterwards, and the result.
  unfoldable pub set_branch : EBranchT → Offer F → Offer F × Bool
  unfolding chosen
  set_branch tbranch o = chosen tbranch o.offer_type o.is_on_click o

  abbrev pub get_branch : Offer F → Bytes
  get_branch o = EBranch.to_string o.branch
