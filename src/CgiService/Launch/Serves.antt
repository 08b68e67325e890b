-- ===== src/CgiService/Launch/Serves.antt =====
-- What the constructor of `CgiService` in src/CgiService.cpp has done when it leaves threads that serve.
use worker_log.Base.{
  ℕ, zero, suc, ◌+◌, ◌*◌, ◌%◌, ◌^◌, ◌≤◌, ◌<◌, ◌==◌, ==_iff, ◌≡◌, refl, sym, ◌∙◌, ap, Bool, true,
  some, Bytes, codes, if◌then◌else◌, Bool-cases, Option-cases, inl, inr, arith,
}
use worker_log.CgiService.Database.{MongoDatabase, check_log_database}
use worker_log.CgiService.Launch.{thrown, quits, serves, is_negative, create_threads, launch}

serves-inj : {D : Type 0} {d d' : D} {n n' : ℕ} → serves d n ≡ serves d' n' → (d ≡ d') × (n ≡ n')
serves-inj e = (cc, cc)

module _ (M : MongoDatabase) where
  create_threads-serves :
      (creates : ℕ → Bool) (d d' : M.Data) (count i n : ℕ)
      → create_threads M creates d count i ≡ serves d' n
      → (d ≡ d') × (n ≡ i + count) × ((j : ℕ) → i ≤ j → j < n → creates j ≡ true)
  unfolding create_threads
  create_threads-serves creates d d' zero i n h =
      let (same, all) = serves-inj h in
      (same, omega (arith, all), λ j low high. absurd (omega (arith, all)))
  create_threads-serves creates d d' (suc count) i n h = elim (Bool-cases (creates i)) [
    | inl made ↦
        let rest : create_threads M creates d count (i + 1) ≡ serves d' n =
          sym (rw made refl) ∙ h in
        let (same, all, others) = create_threads-serves creates d d' count (i + 1) n rest in
        (
          same,
          omega (arith, all),
          λ j low high. elim (Bool-cases (j == i)) [
            | inl first ↦ ap creates ((==_iff j i).0 first) ∙ made
            | inr later ↦ others j (ground arith) high
          ],
        )
    | inr failed ↦
        let clash : quits (codes "creating thread failed") ≡ serves d' n =
          sym (rw failed refl) ∙ h in
        cc
  ]

-- What holds when so many threads serve the database `d'`.
pub record IsServing (M : MongoDatabase) (is_uri : Bytes → Bool)
    (url collection socket_path : Bytes) (children : ℕ) (open_socket : Bytes → ℕ → Bool)
    (creates : ℕ → Bool) (d d' : M.Data) (n : ℕ) : Type 0 where
  pub address : is_uri url ≡ true
  pub checked : check_log_database M collection d ≡ some d'
  pub socket : open_socket socket_path (children * 4 % 2 ^ 32) ≡ true
  pub count : n ≡ (if is_negative children then 0 else children)
  pub made : (i : ℕ) → i < n → creates i ≡ true

module _ (M : MongoDatabase) (is_uri : Bytes → Bool) (url collection socket_path : Bytes)
    (children : ℕ) (open_socket : Bytes → ℕ → Bool) (creates : ℕ → Bool) (d d' : M.Data)
    (n : ℕ) where
  pub launch-IsServing :
      launch M is_uri url collection socket_path children open_socket creates d ≡ serves d' n
      → IsServing M is_uri url collection socket_path children open_socket creates d d' n
  unfolding launch
  launch-IsServing h = elim (Bool-cases (is_uri url)) [
    | inr refused ↦ let clash : thrown ≡ serves d' n = sym (rw refused refl) ∙ h in cc
    | inl address ↦ elim (Option-cases (check_log_database M collection d)) [
      | inl failed ↦ let clash : thrown ≡ serves d' n = sym (rw (address, failed) refl) ∙ h in cc
      | inr (d₁, checked) ↦ elim (Bool-cases (open_socket socket_path (children * 4 % 2 ^ 32))) [
        | inr closed ↦
            let clash : quits (codes "Error open socket. exit") ≡ serves d' n =
              sym (rw (address, checked, closed) refl) ∙ h in
            cc
        | inl socket ↦ elim (Bool-cases (is_negative ((children + 1) % 2 ^ 32))) [
          | inl negative ↦
              let clash : thrown ≡ serves d' n =
                sym (rw (address, checked, socket, negative) refl) ∙ h in
              cc
          | inr fits ↦
              let (same, all, made) =
                create_threads-serves M creates d₁ d' (if is_negative children then 0 else children)
                  0 n (sym (rw (address, checked, socket, fits) refl) ∙ h) in
              record {
                address = address;
                checked = checked ∙ ap some same;
                socket = socket;
                count = omega (arith, all);
                made = λ i lt. made i (omega arith) lt;
              }
        ]
      ]
    ]
  ]
