-- ===== src/Middleware/RateLimit/Run.antt =====
-- Runs of a limiter over requests, and the limiter that never sweeps.
use text.Mathlib.Text.{◌==◌ as str_eq}
use gb_522_a16g.Base.{ℕ, ◌+◌, ◌≤◌, String, Bool, ◌&&◌, List, [], ◌∷◌, if◌then◌else◌}
use gb_522_a16g.Middleware.RateLimit.{RateLimiter, allow, admit, current_visitor}

-- A request's key, the time it names and what the clock shows when it is answered.
pub record Arrival : Type 0 where
  pub key : String
  pub now : ℕ
  pub clock : ℕ

-- The answers to requests, in their order.
unfoldable pub answers : RateLimiter → List Arrival → List Bool
answers l [] = []
answers l (a ∷ rest) = let r = allow l a.key a.now a.clock in r.0.0 ∷ answers r.1 rest

-- The limiter after requests.
unfoldable pub after_arrivals : RateLimiter → List Arrival → RateLimiter
after_arrivals l [] = l
after_arrivals l (a ∷ rest) = after_arrivals (allow l a.key a.now a.clock).1 rest

-- The same without the sweep.
unfoldable pub plain_answers : RateLimiter → List Arrival → List Bool
plain_answers l [] = []
plain_answers l (a ∷ rest) =
    let r = admit l a.key a.clock (current_visitor l a.key a.now) in r.0.0 ∷ plain_answers r.1 rest

-- How many requests of the key are let through.
unfoldable pub granted : String → RateLimiter → List Arrival → ℕ
granted key l [] = 0
granted key l (a ∷ rest) =
    let r = allow l a.key a.now a.clock in
    (if str_eq a.key key && r.0.0 then 1 else 0) + granted key r.1 rest

-- The times are those of a clock that does not run backwards, from `t` on.
abbrev pub IsOrderly : ℕ → List Arrival → Type 0
IsOrderly t [] = Unit
IsOrderly t (a ∷ rest) = (t ≤ a.now) × IsOrderly a.now rest
