-- ===== src/CgiService/CookieHeader.antt =====
-- The value of the service's cookie in the header HTTP_COOKIE, as `CgiService::ProcessRequest` of
-- src/CgiService.cpp looks for it.
pub mod Laws
use worker_log.Base.{
  ℕ, ◌≡◌, ◌≢◌, refl, ◌∙◌, ap, Bool, true, false, ◌&&◌, ◌||◌, List, [], ◌∷◌, ◌++◌, ◌==◌, Bytes, All,
  Lacks, Lacks-append, if◌then◌else◌, append_assoc, arith,
}
use worker_log.External.Boost.{Boost, IsBoost, join}

unfoldable pub starts_with : Bytes → Bytes → Bool
starts_with [] s = true
starts_with (p ∷ ps) [] = false
starts_with (p ∷ ps) (c ∷ s) = if p == c then starts_with ps s else false

-- `s.find (part) != npos`.
unfoldable pub contains : Bytes → Bytes → Bool
unfolding starts_with
contains part [] = starts_with part []
contains part (c ∷ s) = starts_with part (c ∷ s) || contains part s

module _ (B : Boost) where
  -- `name_value[1]`, if there are two parts.
  second_of_two : List Bytes → Bytes → Bytes
  second_of_two (name ∷ value ∷ []) old = value
  second_of_two _ old = old

  -- The loop over the parts of the header.
  unfoldable pub read_parts : Bytes → List Bytes → Bytes → Bytes
  unfolding second_of_two contains
  read_parts name [] value = value
  read_parts name (part ∷ parts) value =
      read_parts name parts
        (if contains name part then second_of_two (B.split b'=' part) value else value)

  unfoldable pub read_cookie : Bytes → Bytes → Bytes
  unfolding read_parts
  read_cookie name header = read_parts name (B.split b';' header) []
