-- ===== src/Base/Dict.antt =====
-- A `std::map<std::string, V>` by what the program does with it: `find` and assignment by `[]`.
use mathlib.Core.Path.{◌≡◌, refl}
use mathlib.Core.Option.{Option, none, some}
use native.Mathlib.Omega.{arith}
use worker_log.Base.Cond.{if◌then◌else◌}
use worker_log.Base.Text.{Bytes, equal, equal_iff}

pub data Dict {ℓ} (V : Type ℓ) : Type ℓ where
  vacant : Dict V
  holds : Bytes → V → Dict V → Dict V

module _ {ℓ} {V : Type ℓ} where
  unfoldable pub find : Dict V → Bytes → Option V
  find vacant key = none
  find (holds name value rest) key = if equal name key then some value else find rest key

  unfoldable pub assign : Dict V → Bytes → V → Dict V
  assign vacant key new = holds key new vacant
  assign (holds name value rest) key new =
      if equal name key then holds name new rest else holds name value (assign rest key new)

  pub find-assign :
      (dict : Dict V) (key : Bytes) (new : V) (asked : Bytes)
      → find (assign dict key new) asked ≡ (if equal key asked then some new else find dict asked)
  unfolding find assign
  find-assign vacant key new asked = refl
  find-assign (holds name value rest) key new asked =
      let later = find-assign rest key new asked in
      let same = equal_iff name key in
      ground (arith, later, same, equal_iff name asked, equal_iff key asked)
