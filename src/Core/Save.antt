-- ===== src/Core/Save.antt =====
-- `Core::ProcessSaveResults` of src/Core.cpp.
use worker_log.Base.{Bool, not, Option, none, some, List, [], ◌∷◌, ◌++◌, codes, if◌then◌else◌}
use worker_log.Core.Clock.{ℤ, Clocks, document_time}
use worker_log.External.Json.{JsonLib}
use worker_log.Core.{Counters, increment}
use worker_log.Core.Document.{Shown, Document, ask, read_shown, build}
use worker_log.Params.{Params}

-- The MongoDB client: whether it is connected, and whether a batch is taken or refused with an
-- exception.
pub record Client (J : JsonLib) : Type 0 where
  pub connected : Bool
  pub insert_many : List (Document J) → Bool

-- How the handler ended, with the counters: it threw, or it returned and wrote these documents.
pub data Saved (J : JsonLib) : Type 0 where
  thrown : Counters → Saved J
  saved : Counters → List (Document J) → Saved J

module _ (J : JsonLib) where
  count_offer : Bool → Counters → Counters
  count_offer retargeting c =
      if not retargeting
      then record c { offer_processed = increment c.offer_processed }
      else record c { retargeting_processed = increment c.retargeting_processed }

  count_social : Bool → Counters → Counters
  count_social social c =
      if social then record c { social_processed = increment c.social_processed } else c

  -- The two tests behind `push_back`, on the offer as the reads have left it.
  unfoldable pub count : J.Json → Counters → (Counters → Saved J) → Saved J
  unfolding count_offer count_social
  count it c next = elim (ask J J.get_boolean (codes "retargeting") it) [
    | none ↦ thrown c
    | some (retargeting, it') ↦
        let c' = count_offer retargeting c in
        elim (ask J J.get_boolean (codes "campaign_social") it') [
          | none ↦ thrown c'
          | some (social, _) ↦ next (count_social social c')
        ]
  ]

  -- The end of the handler.
  unfoldable pub write : Client J → List (Document J) → Counters → Saved J
  write client documents c =
      if client.connected
      then if client.insert_many documents then saved c documents else thrown c
      else saved c []

  -- The loop over the offers that are left.
  unfoldable pub save_offers :
      Client J → ℤ → Shown J → Option Bool → List (Document J) → List J.Json → Counters → Saved J
  unfolding count write
  save_offers client dt shown test documents [] c = write client documents c
  save_offers client dt shown test documents (it ∷ offers) c = elim (build J dt shown test it) [
    | none ↦ thrown c
    | some (doc, it') ↦
        count it' c (save_offers client dt shown test (documents ++ doc ∷ []) offers)
  ]

  -- The handler.
  unfoldable pub process_save_results : Client J → Clocks → Params J → Counters → Saved J
  unfolding save_offers
  process_save_results client clocks p c =
      let c' = record c { request_processed = increment c.request_processed } in
      elim (read_shown J p.params) [
        | none ↦ thrown c'
        | some (shown, _) ↦
            save_offers client (document_time clocks) shown p.test_mode [] (J.elements p.offers) c'
      ]
