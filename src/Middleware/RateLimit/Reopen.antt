-- ===== src/Middleware/RateLimit/Reopen.antt =====
-- A client that was refused is served again.
use text.Mathlib.Text.{◌==◌ as str_eq}
use gb_522_a16g.Base.{
  ℕ, ◌+◌, ◌≤◌, ◌<◌, ◌≡◌, refl, String, true, false, Bool-cases, leb_ℤ, List, [], ◌∷◌, Option, none,
  some, arith, inl, inr, ℤ, pos, negsuc, pos_part, All,
}
use gb_522_a16g.Middleware.RateLimit.{
  Visitor, RateLimiter, is_over, sweep, current_visitor, admit, allow, new_rate_limiter,
}
use gb_522_a16g.Middleware.RateLimit.Settings.{
  Settings, sweep-visitors, admit-Settings, sweep-Settings,
}
use gb_522_a16g.Middleware.RateLimit.Run.{Arrival, after_arrivals, IsOrderly}

-- The end of a window is no later than `until`.
abbrev IsEndBy : ℕ → Option ℕ → Type 0
IsEndBy until none = Unit
IsEndBy until (some expires) = expires ≤ until

abbrev EndsBy : ℕ → Visitor → Type 0
EndsBy until v = IsEndBy until v.expires_at

IsEndBy-later : (until later : ℕ) (e : Option ℕ) → until ≤ later → IsEndBy until e → IsEndBy later e
IsEndBy-later until later none h b = b
IsEndBy-later until later (some expires) h b = omega arith

EndsBy-later : (until later : ℕ) (v : Visitor) → until ≤ later → EndsBy until v → EndsBy later v
EndsBy-later until later v h e = IsEndBy-later until later v.expires_at h e

-- An ended window is over.
is_over_lem :
    (until now count : ℕ) (e : Option ℕ)
    → until < now
    → IsEndBy until e
    → is_over (record { count = count; expires_at = e }) now ≡ true
is_over_lem until now count none h b = refl
is_over_lem until now count (some expires) h b = ground arith

allow-EndsBy :
    (limit window t : ℕ) (l : RateLimiter) (a : Arrival)
    → Settings limit window l
    → t ≤ a.now
    → ((k : String) → EndsBy (t + window) (l.visitors k))
    → (k : String) → EndsBy (a.now + window) ((allow l a.key a.now a.clock).1.visitors k)
unfolding allow admit
allow-EndsBy limit window t l a h since ends k =
    let l1 = sweep l a.now in
    let ends1 : (j : String) → EndsBy (a.now + window) (l1.visitors j) = λ j.
      sweep-visitors l a.now j (EndsBy (a.now + window))
        (EndsBy-later (t + window) (a.now + window) (l.visitors j) (omega arith) (ends j))
        (elim (Bool-cases (is_over (l.visitors j) a.now)) [
          | inl over ↦ rw over tt
          | inr live ↦
              rw live
                (EndsBy-later (t + window) (a.now + window) (l.visitors j) (omega arith) (ends j))
        ]) in
    let current_ends : EndsBy (a.now + window) (current_visitor l1 a.key a.now) =
      elim (Bool-cases (is_over (l1.visitors a.key) a.now)) [
        | inl over ↦ rw over (omega (arith, (sweep-Settings limit window a.now l h).1))
        | inr live ↦ rw live (ends1 a.key)
      ] in
    elim (Bool-cases (leb_ℤ l1.limit (pos (current_visitor l1 a.key a.now).count))) [
      | inl full ↦ rw full (ends1 k)
      | inr free ↦ elim (Bool-cases (str_eq k a.key)) [
        | inl same ↦ rw (free, same) current_ends
        | inr other ↦ rw (free, other) (ends1 k)
      ]
    ]

allow-Settings :
    (limit window : ℕ) (l : RateLimiter) (a : Arrival)
    → Settings limit window l
    → Settings limit window (allow l a.key a.now a.clock).1
unfolding allow
allow-Settings limit window l a h =
    let l1 = sweep l a.now in
    admit-Settings limit window l1 a.key a.clock (current_visitor l1 a.key a.now)
      (sweep-Settings limit window a.now l h)

-- A client whose window is over is let through.
allow-over :
    (limit window now clock : ℕ) (key : String) (l : RateLimiter)
    → Settings limit window l
    → 1 ≤ limit
    → is_over (l.visitors key) now ≡ true
    → (allow l key now clock).0.0 ≡ true
unfolding allow admit
allow-over limit window now clock key l h some_limit over =
    let l1 = sweep l now in
    let over1 : is_over (l1.visitors key) now ≡ true =
      sweep-visitors l now key (λ v. is_over v now ≡ true) over (rw over refl) in
    let free : leb_ℤ l1.limit (pos 0) ≡ false =
      leb_ℤ-free l1.limit (omega (arith, (sweep-Settings limit window now l h).0)) in
    rw (over1, free) refl
  where
    leb_ℤ-free : (i : ℤ) → 1 ≤ pos_part i → leb_ℤ i (pos 0) ≡ false
    leb_ℤ-free (pos n) b = ground arith
    leb_ℤ-free (negsuc n) b = ground arith

after_arrivals-EndsBy :
    (limit window t last : ℕ) (l : RateLimiter) (arrivals : List Arrival)
    → Settings limit window l
    → IsOrderly t arrivals
    → t ≤ last
    → All (λ (a : Arrival). a.now ≤ last) arrivals
    → ((k : String) → EndsBy (t + window) (l.visitors k))
    → Settings limit window (after_arrivals l arrivals)
      × ((k : String) → EndsBy (last + window) ((after_arrivals l arrivals).visitors k))
unfolding after_arrivals
after_arrivals-EndsBy limit window t last l [] h orderly before within ends =
    (h, λ k. EndsBy-later (t + window) (last + window) (l.visitors k) (omega arith) (ends k))
after_arrivals-EndsBy limit window t last l (a ∷ rest) h (since, orderly) before (here, within)
      ends =
    after_arrivals-EndsBy limit window a.now last (allow l a.key a.now a.clock).1 rest
      (allow-Settings limit window l a h) orderly here within
      (allow-EndsBy limit window t l a h since ends)

-- However many requests came, when more than the window has passed since the last of them a request of
-- any client is let through, if the limit is at least one and the limiter was new when they began.
pub allow-reopens :
    (limit window t last now clock : ℕ) (arrivals : List Arrival) (key : String)
    → IsOrderly t arrivals
    → t ≤ last
    → All (λ (a : Arrival). a.now ≤ last) arrivals
    → 1 ≤ limit
    → last + window < now
    → (allow (after_arrivals (new_rate_limiter (pos limit) window t) arrivals) key now clock).0.0
      ≡ true
unfolding new_rate_limiter
allow-reopens limit window t last now clock arrivals key orderly before within some_limit waited =
    let l = after_arrivals (new_rate_limiter (pos limit) window t) arrivals in
    let (h, ends) =
      after_arrivals-EndsBy limit window t last (new_rate_limiter (pos limit) window t) arrivals
        (refl, refl) orderly before within (λ k. tt) in
    let v = l.visitors key in
    allow-over limit window now clock key l h some_limit
      (is_over_lem (last + window) now v.count v.expires_at waited (ends key))
