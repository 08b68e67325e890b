-- ===== src/CgiService/Accepting/OneByOne.antt =====
-- That the lock of src/CgiService.cpp keeps the threads apart, and that it never stops all of them.
use worker_log.Base.{
  ℕ, ◌<◌, ◌≡◌, ◌≢◌, refl, sym, ap, subst, ◌∙◌, Bool, true, false, Bool-cases, inl, inr, Option,
  none, some, some-inj, Option-cases, ◌==◌, ==_iff,
}
use worker_log.CgiService.Accepting.{
  Place, begins, waits, accepts, got_request, got_error, handles, left, Line, set_place, Moves,
  inits, cannot_init, locks, takes, fails, unlocks, unlocks_to_leave, returns, Reaches, start, step,
}

-- Between `pthread_mutex_lock` and `pthread_mutex_unlock`.
abbrev pub is_inside : Place → Bool
is_inside accepts = true
is_inside got_request = true
is_inside got_error = true
is_inside begins = false
is_inside waits = false
is_inside handles = false
is_inside left = false

abbrev owns : Option ℕ → ℕ → Bool
owns none i = false
owns (some j) i = i == j

-- The owner of the lock, and nobody else, is inside.
abbrev IsOwned : Line → Type 0
IsOwned s = (i : ℕ) → is_inside (s.place i) ≡ owns s.owner i

set_place_other :
    (place : ℕ → Place) (i : ℕ) (p : Place) (j : ℕ)
    → (j == i) ≡ false
    → set_place place i p j ≡ place j
set_place_other place i p j other = rw other refl

-- The thread `i` goes to a place, and the others stay where they are.
set_place-IsOwned :
    (s : Line) (i : ℕ) (p : Place) (owner : Option ℕ)
    → is_inside p ≡ owns owner i
    → ((j : ℕ) → (j == i) ≡ false → owns s.owner j ≡ owns owner j)
    → IsOwned s
    → IsOwned (record { owner = owner; place = set_place s.place i p })
set_place-IsOwned s i p owner here others h j = elim (Bool-cases (j == i)) [
  | inl same ↦ rw same (here ∙ ap (owns owner) (sym ((==_iff j i).0 same)))
  | inr other ↦ rw other (h j ∙ others j other)
]

owns_lem : (owner : Option ℕ) (i : ℕ) → owns owner i ≡ true → owner ≡ some i
owns_lem none i h = cc
owns_lem (some j) i h = ap some (sym ((==_iff i j).0 h))

-- A thread that is inside is the owner, and no other is.
owner_inside : (s : Line) (i : ℕ) → IsOwned s → is_inside (s.place i) ≡ true → s.owner ≡ some i
owner_inside s i h inside = owns_lem s.owner i (sym (h i) ∙ inside)

owns_other :
    (s : Line) (i j : ℕ)
    → IsOwned s
    → is_inside (s.place i) ≡ true
    → (j == i) ≡ false
    → owns s.owner j ≡ false
owns_other s i j h inside other = ap (λ o. owns o j) (owner_inside s i h inside) ∙ other

Moves-IsOwned : (n : ℕ) {s t : Line} → Moves n s t → IsOwned s → IsOwned t
Moves-IsOwned n {s} (inits i below at) h =
    set_place-IsOwned s i waits s.owner (sym (ap is_inside at) ∙ h i) (λ j other. refl) h
Moves-IsOwned n {s} (cannot_init i below at) h =
    set_place-IsOwned s i left s.owner (sym (ap is_inside at) ∙ h i) (λ j other. refl) h
Moves-IsOwned n {s} (locks i below at free) h =
    set_place-IsOwned s i accepts (some i) (sym ((==_iff i i).1 refl))
      (λ j other. ap (λ o. owns o j) free ∙ sym other) h
Moves-IsOwned n {s} (takes i below at) h =
    set_place-IsOwned s i got_request s.owner (sym (ap is_inside at) ∙ h i) (λ j other. refl) h
Moves-IsOwned n {s} (fails i below at) h =
    set_place-IsOwned s i got_error s.owner (sym (ap is_inside at) ∙ h i) (λ j other. refl) h
Moves-IsOwned n {s} (unlocks i below at) h =
    set_place-IsOwned s i handles none refl (λ j other. owns_other s i j h (ap is_inside at) other)
      h
Moves-IsOwned n {s} (unlocks_to_leave i below at) h =
    set_place-IsOwned s i left none refl (λ j other. owns_other s i j h (ap is_inside at) other) h
Moves-IsOwned n {s} (returns i below at) h =
    set_place-IsOwned s i waits s.owner (sym (ap is_inside at) ∙ h i) (λ j other. refl) h

Reaches-IsOwned : (n : ℕ) {s : Line} → Reaches n s → IsOwned s
Reaches-IsOwned n start = λ i. refl
Reaches-IsOwned n (step r m) = Moves-IsOwned n m (Reaches-IsOwned n r)

-- However many threads there are and in whatever order they go: no two are between the lock and the
-- unlock of `accept_mutex` at once, so that one thread at most is in `FCGX_Accept_r`.
pub Reaches-is_inside :
    (n : ℕ) (s : Line) (i j : ℕ)
    → Reaches n s
    → is_inside (s.place i) ≡ true
    → is_inside (s.place j) ≡ true
    → i ≡ j
Reaches-is_inside n s i j r hi hj =
    let h = Reaches-IsOwned n r in some-inj (sym (owner_inside s i h hi) ∙ owner_inside s j h hj)

-- Who is inside is one of the threads.
abbrev IsBelow : ℕ → Line → Type 0
IsBelow n s = (i : ℕ) → is_inside (s.place i) ≡ true → i < n

set_place-IsBelow :
    (n : ℕ) (s : Line) (i : ℕ) (p : Place) (owner : Option ℕ)
    → i < n
    → IsBelow n s
    → IsBelow n (record { owner = owner; place = set_place s.place i p })
set_place-IsBelow n s i p owner below h j inside = elim (Bool-cases (j == i)) [
  | inl same ↦ subst (λ k. k < n) (sym ((==_iff j i).0 same)) below
  | inr other ↦ h j (ap is_inside (sym (set_place_other s.place i p j other)) ∙ inside)
]

Moves-IsBelow : (n : ℕ) {s t : Line} → Moves n s t → IsBelow n s → IsBelow n t
Moves-IsBelow n {s} (inits i below at) h = set_place-IsBelow n s i waits s.owner below h
Moves-IsBelow n {s} (cannot_init i below at) h = set_place-IsBelow n s i left s.owner below h
Moves-IsBelow n {s} (locks i below at free) h = set_place-IsBelow n s i accepts (some i) below h
Moves-IsBelow n {s} (takes i below at) h = set_place-IsBelow n s i got_request s.owner below h
Moves-IsBelow n {s} (fails i below at) h = set_place-IsBelow n s i got_error s.owner below h
Moves-IsBelow n {s} (unlocks i below at) h = set_place-IsBelow n s i handles none below h
Moves-IsBelow n {s} (unlocks_to_leave i below at) h = set_place-IsBelow n s i left none below h
Moves-IsBelow n {s} (returns i below at) h = set_place-IsBelow n s i waits s.owner below h

Reaches-IsBelow : (n : ℕ) {s : Line} → Reaches n s → IsBelow n s
Reaches-IsBelow n start = λ i inside. cc
Reaches-IsBelow n (step r m) = Moves-IsBelow n m (Reaches-IsBelow n r)

pub CanMove : ℕ → Line → Type 0
CanMove n s = (t : Line) × Moves n s t

-- A thread can move, if the lock is free where it waits.
move :
    (n : ℕ) (s : Line) (i : ℕ) (p : Place)
    → i < n
    → s.place i ≡ p
    → p ≢ left
    → (p ≡ waits → s.owner ≡ none)
    → CanMove n s
unfolding CanMove
move n s i begins below at stays free = (_, inits i below at)
move n s i waits below at stays free = (_, locks i below at (free refl))
move n s i accepts below at stays free = (_, takes i below at)
move n s i got_request below at stays free = (_, unlocks i below at)
move n s i got_error below at stays free = (_, unlocks_to_leave i below at)
move n s i handles below at stays free = (_, returns i below at)
move n s i left below at stays free = absurd (stays refl)

-- The owner, who has left neither the lock nor the loop, can move.
owner_moves : (n : ℕ) (s : Line) (k : ℕ) → Reaches n s → s.owner ≡ some k → CanMove n s
owner_moves n s k r e =
    let own : owns s.owner k ≡ true = ap (λ o. owns o k) e ∙ (==_iff k k).1 refl in
    let inside : is_inside (s.place k) ≡ true = Reaches-IsOwned n r k ∙ own in
    move n s k (s.place k) (Reaches-IsBelow n r k inside) refl
      (λ gone. let clash : true ≡ false = sym inside ∙ ap is_inside gone in cc)
      (λ waiting. let clash : true ≡ false = sym inside ∙ ap is_inside waiting in cc)

-- As long as one of the threads has not left its loop, some thread can go on: the lock does not stop
-- them all.
pub Reaches-CanMove :
    (n : ℕ) (s : Line) (i : ℕ) → Reaches n s → i < n → s.place i ≢ left → CanMove n s
Reaches-CanMove n s i r below stays = elim (Option-cases s.owner) [
  | inl free ↦ move n s i (s.place i) below refl stays (λ waiting. free)
  | inr (k, e) ↦ owner_moves n s k r e
]
