-- ===== src/Tests/Accepting.antt =====
-- The lock of src/CgiService.cpp with two threads, and the theorems there.
use worker_log.Base.{ℕ, some, ◌≡◌, refl, arith}
use worker_log.CgiService.Accepting.{
  Line, Place, begins, accepts, got_request, handles, waits, set_place, inits, locks, takes,
  unlocks, Reaches, start, step,
}
use worker_log.CgiService.Accepting.OneByOne.{Reaches-is_inside, CanMove, Reaches-CanMove}

-- The thread 0 has taken a request and given back the lock, and the thread 1 has it.
abbrev in_turn : ℕ → Place
in_turn =
    set_place
      (set_place
        (set_place (set_place (set_place (set_place (λ i. begins) 0 waits) 1 waits) 0 accepts) 0
          got_request)
        0 handles)
      1 accepts

abbrev taken : Line
taken = record { owner = some 1; place = in_turn }

two_in_turn : Reaches 2 taken
two_in_turn =
    step
      (step
        (step
          (step (step (step start (inits 0 (omega arith) refl)) (inits 1 (omega arith) refl))
            (locks 0 (omega arith) refl refl))
          (takes 0 (omega arith) refl))
        (unlocks 0 (omega arith) refl))
      (locks 1 (omega arith) refl refl)

Reaches-is_inside_example : ◌≡◌ {A = ℕ} 1 1
Reaches-is_inside_example = Reaches-is_inside 2 taken 1 1 two_in_turn refl refl

Reaches-CanMove_example : CanMove 2 taken
Reaches-CanMove_example = Reaches-CanMove 2 taken 0 two_in_turn (omega arith) (λ e. cc)
