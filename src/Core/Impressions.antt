-- ===== src/Core/Impressions.antt =====
-- What `ProcessSaveResults` of src/Core.cpp logs of a batch of offers.
use worker_log.Base.{
  ◌≡◌, ◌≢◌, ◌⊎◌, Bool-cases, refl, Bool, Option, Option-cases, inl, inr, List, [], ◌∷◌,
}
use worker_log.Core.Clock.{ℤ, Clocks, document_time}
use worker_log.External.Json.{JsonLib, IsJsonLib}
use worker_log.Core.{Counters, increment}
use worker_log.Core.Document.{Shown, Document, read_shown, build}
use worker_log.Core.Document.Laws.{ask-build}
use worker_log.Core.Save.{Client, thrown, saved, write, count, save_offers, process_save_results}
use worker_log.Params.{Params}

-- One more request, and nothing else counted.
abbrev pub count_request : Counters → Counters
count_request c = record c { request_processed = increment c.request_processed }

List-cases {ℓ} : {A : Type ℓ} → (xs : List A) → (xs ≡ []) ⊎ (xs ≢ [])
List-cases [] = inl refl
List-cases (x ∷ xs) = inr (λ e. cc)

module _ (J : JsonLib) (L : IsJsonLib J) (client : Client J) (dt : ℤ) where
  save_offers-cons :
      (shown : Shown J) (test : Option Bool) (docs : List (Document J)) (it : J.Json)
      (offers : List J.Json) (c : Counters)
      → save_offers J client dt shown test docs (it ∷ offers) c ≡ thrown c
  unfolding save_offers
  save_offers-cons shown test docs it offers c = elim (Option-cases (build J dt shown test it)) [
    | inl n ↦ rw (n, save_offers)
    | inr ((doc, it'), e) ↦ rw (e, save_offers, ask-build J L dt shown test it e, count)
  ]

  save_offers_thrown :
      (shown : Shown J) (test : Option Bool) (offers : List J.Json) (c : Counters)
      → offers ≢ []
      → save_offers J client dt shown test [] offers c ≡ thrown c
  save_offers_thrown shown test [] c ne = absurd (ne refl)
  save_offers_thrown shown test (it ∷ offers) c ne = save_offers-cons shown test [] it offers c

  save_offers_none :
      (shown : Shown J) (test : Option Bool) (c : Counters)
      → (save_offers J client dt shown test [] [] c ≡ thrown c)
        ⊎ (save_offers J client dt shown test [] [] c ≡ saved c [])
  unfolding save_offers write
  save_offers_none shown test c = elim (Bool-cases client.connected) [
    | inr off ↦ inr (rw off refl)
    | inl on ↦ elim (Bool-cases (client.insert_many [])) [
      | inl taken ↦ inr (rw (on, taken) refl)
      | inr refused ↦ inl (rw (on, refused) refl)
    ]
  ]

module _ (J : JsonLib) (L : IsJsonLib J) (client : Client J) (clocks : Clocks) where
  -- A request with offers logs nothing: the handler throws, having counted the request and none of the
  -- offers. A document is built only where `retargeting` is a text, and it is then tested as a Boolean.
  process_save_results_throws :
      (p : Params J) (c : Counters)
      → J.elements p.offers ≢ []
      → process_save_results J client clocks p c ≡ thrown (count_request c)
  unfolding process_save_results
  process_save_results_throws p c ne = elim (Option-cases (read_shown J p.params)) [
    | inl n ↦ rw (n, process_save_results)
    | inr ((shown, rest), e) ↦
        rw (e, process_save_results)
          (save_offers_thrown J L client (document_time clocks) shown p.test_mode _ _ ne)
  ]

  -- So that, with offers or without, no document is written and one request is counted.
  pub process_save_results-cases :
      (p : Params J) (c : Counters)
      → (process_save_results J client clocks p c ≡ thrown (count_request c))
        ⊎ (process_save_results J client clocks p c ≡ saved (count_request c) [])
  unfolding process_save_results
  process_save_results-cases p c = elim (Option-cases (read_shown J p.params)) [
    | inl n ↦ inl (rw (n, process_save_results) refl)
    | inr ((shown, rest), e) ↦ elim (List-cases (J.elements p.offers)) [
      | inl n ↦
          rw (e, process_save_results, n)
            (save_offers_none J L client (document_time clocks) shown p.test_mode (count_request c))
      | inr more ↦ inl (process_save_results_throws p c more)
    ]
  ]
