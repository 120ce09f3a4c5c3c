-- ===== src/Middleware/RateLimit/Settings.antt =====
-- What a sweep and a request leave as it is.
use gb_522_a16g.Base.{
  ℕ, ◌+◌, ◌≡◌, String, Bool-cases, ltb, leb_ℤ, if◌then◌else◌, inl, inr, pos, pos_part,
}
use gb_522_a16g.Middleware.RateLimit.{Visitor, RateLimiter, no_visitor, is_over, sweep, admit}

pub sweep-visitors :
    (l : RateLimiter) (now : ℕ) (key : String) (P : Visitor → Type 0)
    → P (l.visitors key)
    → P (if is_over (l.visitors key) now then no_visitor else l.visitors key)
    → P ((sweep l now).visitors key)
unfolding sweep
sweep-visitors l now key P kept gone = elim (Bool-cases (ltb (l.last_sweep + l.window) now)) [
  | inl due ↦ rw due gone
  | inr early ↦ rw early kept
]

-- The limit, counted from zero on, and the window.
abbrev pub Settings : ℕ → ℕ → RateLimiter → Type 0
Settings limit window l = (pos_part l.limit ≡ limit) × (l.window ≡ window)

pub sweep-Settings :
    (limit window now : ℕ) (l : RateLimiter)
    → Settings limit window l
    → Settings limit window (sweep l now)
unfolding sweep
sweep-Settings limit window now l h = elim (Bool-cases (ltb (l.last_sweep + l.window) now)) [
  | inl due ↦ rw due h
  | inr early ↦ rw early h
]

pub admit-Settings :
    (limit window : ℕ) (l : RateLimiter) (key : String) (clock : ℕ) (v : Visitor)
    → Settings limit window l
    → Settings limit window (admit l key clock v).1
unfolding admit
admit-Settings limit window l key clock v h = elim (Bool-cases (leb_ℤ l.limit (pos v.count))) [
  | inl full ↦ rw full h
  | inr free ↦ rw free h
]
