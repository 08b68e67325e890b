-- ===== src/CgiService/Accepting.antt =====
-- The lock `accept_mutex` of `CgiService::Serve` in src/CgiService.cpp: the threads take requests from
-- the socket one at a time, and handle them at once.
pub mod OneByOne
use worker_log.Base.{ℕ, ◌<◌, ◌≡◌, Option, none, some, ◌==◌, if◌then◌else◌}

-- Where a thread is: in front of `FCGX_InitRequest` and its loop, in front of the lock, in `FCGX_Accept_r` with the lock, with what it
-- gave and the lock still held, in `ProcessRequest`, or behind the loop.
pub data Place : Type 0 where
  begins : Place
  waits accepts : Place
  got_request got_error : Place
  handles left : Place

-- Who holds the lock, and where every thread is.
pub record Line : Type 0 where
  pub owner : Option ℕ
  pub place : ℕ → Place

abbrev pub set_place : (ℕ → Place) → ℕ → Place → ℕ → Place
set_place place i p j = if j == i then p else place j

abbrev pub at_first : Line
at_first = record { owner = none; place = λ i. begins }

-- A step of the thread `i` of `n`: it comes to its loop or leaves without a request, it locks, `FCGX_Accept_r` gives it a request or an error, it unlocks
-- and goes on to handle the request or leaves the loop, or it has handled the request.
pub data Moves (n : ℕ) (s : Line) : Line → Type 0 where
  inits :
      (i : ℕ)
      → i < n
      → s.place i ≡ begins
      → Moves n s (record s { place = set_place s.place i waits })
  cannot_init :
      (i : ℕ)
      → i < n
      → s.place i ≡ begins
      → Moves n s (record s { place = set_place s.place i left })
  locks :
      (i : ℕ)
      → i < n
      → s.place i ≡ waits
      → s.owner ≡ none
      → Moves n s (record { owner = some i; place = set_place s.place i accepts })
  takes :
      (i : ℕ)
      → i < n
      → s.place i ≡ accepts
      → Moves n s (record s { place = set_place s.place i got_request })
  fails :
      (i : ℕ)
      → i < n
      → s.place i ≡ accepts
      → Moves n s (record s { place = set_place s.place i got_error })
  unlocks :
      (i : ℕ)
      → i < n
      → s.place i ≡ got_request
      → Moves n s (record { owner = none; place = set_place s.place i handles })
  unlocks_to_leave :
      (i : ℕ)
      → i < n
      → s.place i ≡ got_error
      → Moves n s (record { owner = none; place = set_place s.place i left })
  returns :
      (i : ℕ)
      → i < n
      → s.place i ≡ handles
      → Moves n s (record s { place = set_place s.place i waits })

pub data Reaches (n : ℕ) : Line → Type 0 where
  start : Reaches n at_first
  step : {s t : Line} → Reaches n s → Moves n s t → Reaches n t
