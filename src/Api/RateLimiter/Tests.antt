-- ===== src/Api/RateLimiter/Tests.antt =====
-- Runs of the rate limiter.
use legacy_store.Base.{
  ℕ, ◌≡◌, ◌<◌, ◌+◌, refl, arith, true, false, List, [], ◌∷◌, none, some, Text, codes,
}
use legacy_store.Api.RateLimiter.{Limiter, new_limiter, allow}
use legacy_store.Api.RateLimiter.Bound.{calls, allowed, allowed_in_window, AreBefore}
use legacy_store.Api.RateLimiter.Refinement.{IsValid, Refines, live, allow-Refines}

-- Two tries in ten seconds.
abbrev two : Limiter
two = new_limiter 2 10

abbrev more : List (Text × ℕ)
more = (codes "a", 1) ∷ (codes "b", 2) ∷ (codes "a", 3) ∷ []

two-IsValid : IsValid two
unfolding new_limiter
two-IsValid = record { keys_once = tt; window_pos = omega arith }

two-live : live two 0 (codes "a") ≡ none
unfolding legacy_store.Base.Dict.lookup new_limiter
two-live = refl

more-AreBefore : AreBefore (0 + two.window) more
unfolding new_limiter
more-AreBefore = (omega arith, (omega arith, (omega arith, tt)))

two-limit : 0 < two.limit
unfolding new_limiter
two-limit = omega arith

third_run : allowed two (codes "a") ((codes "a", 0) ∷ more) ≡ 2
unfolding allowed legacy_store.Base.eqb allow legacy_store.Base.Dict.lookup new_limiter
    legacy_store.Base.Dict.insert legacy_store.Api.RateLimiter.sweep
third_run = refl

allowed_in_window_example :
    allowed two (codes "a") ((codes "a", 0) ∷ more)
    ≡ Prim.Native.Nat.min (calls (codes "a") ((codes "a", 0) ∷ more)) two.limit
allowed_in_window_example =
    allowed_in_window two (codes "a") 0 more two-IsValid two-live two-limit more-AreBefore

allow-Refines_example :
    Refines two (codes "a") 0 two-IsValid (allow two (codes "a") 0) (live two 0 (codes "a"))
allow-Refines_example = allow-Refines two (codes "a") 0 two-IsValid
