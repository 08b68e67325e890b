-- ===== src/CgiService/Threads/Counts.antt =====
-- What the shared counter of src/CgiService.cpp's threads says of the requests that were served.
use worker_log.Base.{
  ℕ, zero, suc, ◌+◌, ◌%◌, ◌^◌, ◌≤◌, ◌≡◌, ◌≢◌, refl, sym, ◌∙◌, ◌==◌, arith, Bool-cases, inl, inr,
  ◌⊎◌, subst,
}
use worker_log.CgiService.Threads.{
  Pc, idle, loaded, Threads, set_pc, Access, load, store, Run, begin, after,
}

set_pc-cases :
    (pc : ℕ → Pc) (i : ℕ) (p : Pc) (j : ℕ) {q : Pc} → set_pc pc i p j ≡ q → (p ≡ q) ⊎ (pc j ≡ q)
set_pc-cases pc i p j e = elim (Bool-cases (j == i)) [
  | inl same ↦ inl (sym (rw same refl) ∙ e)
  | inr other ↦ inr (sym (rw other refl) ∙ e)
]

-- No thread has loaded, and the counter does not hold, more than what was served.
record IsBounded (s : Threads) : Type 0 where
  bounded : s.counter ≤ s.served
  held : (i value : ℕ) → s.pc i ≡ loaded value → value ≤ s.served

Access-IsBounded : {n : ℕ} {s t : Threads} → Access n s t → IsBounded s → IsBounded t
Access-IsBounded {s} (load i lt free) h = record {
  bounded = h.bounded;
  held = λ j value e. elim (set_pc-cases s.pc i (loaded s.counter) j e) [
    | inl mine ↦ ground (arith, h.bounded, mine)
    | inr other ↦ h.held j value other
  ];
}
Access-IsBounded {s} (store i value lt has) h = record {
  bounded = omega (arith, h.held i value has);
  held = λ j v e. elim (set_pc-cases s.pc i idle j e) [
    | inl mine ↦ cc
    | inr other ↦ omega (arith, h.held j v other)
  ];
}

Run-IsBounded : {n : ℕ} {s : Threads} → Run n s → IsBounded s
Run-IsBounded begin = record { bounded = omega arith; held = λ i value e. cc }
Run-IsBounded (after r a) = Access-IsBounded a (Run-IsBounded r)

-- With one thread, what it has loaded is the counter, and the counter is the number of increments.
record IsExact (s : Threads) : Type 0 where
  exact : s.counter ≡ s.served % 2 ^ 64
  current : (value : ℕ) → s.pc 0 ≡ loaded value → value ≡ s.counter

Access-IsExact : {s t : Threads} → Access 1 s t → IsExact s → IsExact t
Access-IsExact (load zero lt free) h = record {
  exact = h.exact;
  current = λ value e. ground (arith, e);
}
Access-IsExact (load (suc i) lt free) h = absurd (omega (arith, lt))
Access-IsExact (store zero value lt has) h = record {
  exact = omega (arith, h.exact, h.current value has);
  current = λ v e. cc;
}
Access-IsExact (store (suc i) value lt has) h = absurd (omega (arith, lt))

Run-IsExact : {s : Threads} → Run 1 s → IsExact s
Run-IsExact begin = record { exact = refl; current = λ value e. cc }
Run-IsExact (after r a) = Access-IsExact a (Run-IsExact r)

-- However the accesses of the threads to the counter are ordered, it is at most the number of requests
-- that were counted; with one thread it is that number, in 64 bits.
pub Run-counter :
    {n : ℕ} {s : Threads}
    → Run n s
    → (s.counter ≤ s.served) × (n ≡ 1 → s.counter ≡ s.served % 2 ^ 64)
Run-counter {s} r =
    ((Run-IsBounded r).bounded, λ one. (Run-IsExact (subst (λ k. Run k s) one r)).exact)

-- Thread 0 has loaded 0 while another has served so many requests.
record IsStale (n served : ℕ) (s : Threads) : Type 0 where
  run : Run n s
  count : s.served ≡ served
  stale : s.pc 0 ≡ loaded 0
  free : (i : ℕ) → i ≢ 0 → s.pc i ≡ idle

IsStale-first : (n : ℕ) → 2 ≤ n → (s : Threads) × IsStale n 0 s
IsStale-first n many = (
  _,
  record {
    run = after begin (load 0 (omega arith) refl);
    count = refl;
    stale = refl;
    free = λ i other. ground (arith, other);
  },
)

-- Thread 1 serves one more request.
IsStale-next :
    (n served : ℕ) (s : Threads)
    → 2 ≤ n
    → IsStale n served s
    → (t : Threads) × IsStale n (served + 1) t
IsStale-next n served s many h = (
  _,
  record {
    run =
        after (after h.run (load 1 (omega arith) (h.free 1 (λ e. cc))))
          (store 1 s.counter (omega arith) refl);
    count = omega (arith, h.count);
    stale = h.stale;
    free = λ i other. ground (arith, h.free i other);
  },
)

IsStale-after : (n : ℕ) → 2 ≤ n → (served : ℕ) → (s : Threads) × IsStale n served s
IsStale-after n many zero = IsStale-first n many
IsStale-after n many (suc served) =
    let (s, h) = IsStale-after n many served in
    let (t, k) = IsStale-next n served s many h in (t, subst (λ m. IsStale n m t) (omega arith) k)

-- With two threads or more the counter may be 1 after any number of requests, with every thread between
-- two of them.
pub Run-stale :
    (n served : ℕ)
    → 2 ≤ n
    → (s : Threads) × Run n s
      × (s.counter ≡ 1)
      × (s.served ≡ served + 1)
      × ((i : ℕ) → s.pc i ≡ idle)
Run-stale n served many =
    let (s, h) = IsStale-after n many served in
    (
      _,
      after h.run (store 0 0 (omega arith) h.stale),
      refl,
      omega (arith, h.count),
      λ i. elim (Bool-cases (i == 0)) [
        | inl first ↦ rw first refl
        | inr other ↦ rw other (h.free i (ground (arith, other)))
      ],
    )
