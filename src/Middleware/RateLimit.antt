-- ===== src/Middleware/RateLimit.antt =====
-- `RateLimiter` of internal/middleware/middleware.go. Its mutex makes each call of `Allow` one step.
pub mod Run
pub mod Settings
pub mod Sweep
pub mod Bound
pub mod Reopen
use text.Mathlib.Text.{◌==◌ as str_eq}
use gb_522_a16g.Base.{
  ℕ, ◌+◌, String, Bool, true, false, ltb, ltb_ℤ, leb_ℤ, Option, none, some, ℤ, pos, sub_ℕ,
  if◌then◌else◌,
}

-- `none` is the zero time.
pub record Visitor : Type 0 where
  pub count : ℕ
  pub expires_at : Option ℕ

-- A key that is not in the map has the zero visitor, which is what a read of the map gives.
pub record RateLimiter : Type 0 where
  pub limit : ℤ
  pub window : ℕ
  pub visitors : String → Visitor
  pub last_sweep : ℕ

abbrev pub no_visitor : Visitor
no_visitor = record { count = 0; expires_at = none }

unfoldable pub new_rate_limiter : ℤ → ℕ → ℕ → RateLimiter
new_rate_limiter limit window now = record {
  limit = limit;
  window = window;
  visitors = λ k. no_visitor;
  last_sweep = now;
}

-- `expiresAt.IsZero() || now.After(expiresAt)`
abbrev pub is_over : Visitor → ℕ → Bool
is_over v now = elim v.expires_at [ none ↦ true | some expires ↦ ltb expires now ]

-- A sweep deletes the visitors whose time is over.
abbrev pub swept : (String → Visitor) → ℕ → String → Visitor
swept visitors now k = if is_over (visitors k) now then no_visitor else visitors k

unfoldable pub sweep : RateLimiter → ℕ → RateLimiter
sweep l now =
    if ltb (l.last_sweep + l.window) now
    then record l { visitors = swept l.visitors now; last_sweep = now }
    else l

-- `current` after the two ifs.
abbrev pub current_visitor : RateLimiter → String → ℕ → Visitor
current_visitor l key now =
    let found = l.visitors key in
    if is_over found now then record { count = 0; expires_at = some (now + l.window) } else found

abbrev pub with_visitor : RateLimiter → String → Visitor → RateLimiter
with_visitor l key v = record l { visitors = λ k. if str_eq k key then v else l.visitors k }

-- The answer from `current` on. `clock` is what time.Until reads.
unfoldable pub admit : RateLimiter → String → ℕ → Visitor → (Bool × ℤ) × RateLimiter
admit l key clock current =
    let retry : ℤ = elim current.expires_at [ none ↦ pos 0 | some expires ↦ sub_ℕ expires clock ] in
    if leb_ℤ l.limit (pos current.count)
    then ((false, retry), l)
    else ((true, retry), with_visitor l key (record current { count = current.count + 1 }))

unfoldable pub allow : RateLimiter → String → ℕ → ℕ → (Bool × ℤ) × RateLimiter
allow l key now clock = let l1 = sweep l now in admit l1 key clock (current_visitor l1 key now)
