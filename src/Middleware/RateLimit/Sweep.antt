-- ===== src/Middleware/RateLimit/Sweep.antt =====
-- The sweep only frees memory.
use text.Mathlib.Text.{◌==◌ as str_eq}
use gb_522_a16g.Base.{
  ℕ, ◌+◌, ◌≤◌, ◌≡◌, refl, sym, ap, pos, ap₂, ◌⊎◌, inl, inr, String, true, false, Bool-cases, ltb,
  leb_ℤ, List, [], ◌∷◌, Option, none, some, if◌then◌else◌, arith,
}
use gb_522_a16g.Middleware.RateLimit.{
  Visitor, RateLimiter, no_visitor, is_over, sweep, current_visitor, admit, allow,
}
use gb_522_a16g.Middleware.RateLimit.Run.{Arrival, answers, plain_answers, IsOrderly}

-- The visitors are the same, or one was swept away whose time was over anyway.
abbrev Agrees : ℕ → Visitor → Visitor → Type 0
Agrees now swept_one kept =
    (swept_one ≡ kept) ⊎ ((swept_one ≡ no_visitor) × (is_over kept now ≡ true))

-- The limiters differ in nothing but visitors that were swept away.
record Follows (now : ℕ) (l s : RateLimiter) : Type 0 where
  limit_lem : l.limit ≡ s.limit
  window_lem : l.window ≡ s.window
  agrees : (k : String) → Agrees now (l.visitors k) (s.visitors k)

is_over-later :
    (v : Visitor) (now later : ℕ) → now ≤ later → is_over v now ≡ true → is_over v later ≡ true
is_over-later v now later h over = go v.expires_at over
  where
    go :
        (e : Option ℕ)
        → (elim e [ none ↦ true | some expires ↦ ltb expires now ]) ≡ true
        → (elim e [ none ↦ true | some expires ↦ ltb expires later ]) ≡ true
    go none o = refl
    go (some expires) o = ground arith

Agrees-later : (now later : ℕ) (a b : Visitor) → now ≤ later → Agrees now a b → Agrees later a b
Agrees-later now later a b h (inl same) = inl same
Agrees-later now later a b h (inr (gone, over)) = inr (gone, is_over-later b now later h over)

Agrees-swept :
    (now : ℕ) (a b : Visitor)
    → Agrees now a b
    → Agrees now (if is_over a now then no_visitor else a) b
Agrees-swept now a b (inl same) = elim (Bool-cases (is_over a now)) [
  | inl over ↦ rw over (inr (refl, rw (sym same) over))
  | inr live ↦ rw live (inl same)
]
Agrees-swept now a b (inr (gone, over)) = rw gone (inr (refl, over))

sweep-Follows : (now : ℕ) (l s : RateLimiter) → Follows now l s → Follows now (sweep l now) s
unfolding sweep
sweep-Follows now l s h = elim (Bool-cases (ltb (l.last_sweep + l.window) now)) [
  | inl due ↦ rw due (record {
    limit_lem = h.limit_lem;
    window_lem = h.window_lem;
    agrees = λ k. Agrees-swept now (l.visitors k) (s.visitors k) (h.agrees k);
  })
  | inr early ↦ rw early h
]

-- The visitor of the request is the same in both.
same_current :
    (now : ℕ) (window : ℕ) (a b : Visitor)
    → Agrees now a b
    → (if is_over a now then record { count = 0; expires_at = some (now + window) } else a)
      ≡ (if is_over b now then record { count = 0; expires_at = some (now + window) } else b)
same_current now window a b (inl same) = rw same refl
same_current now window a b (inr (gone, over)) = rw (gone, over) refl

admit-Follows :
    (now : ℕ) (l s : RateLimiter) (key : String) (clock : ℕ) (v : Visitor)
    → Follows now l s
    → ((admit l key clock v).0 ≡ (admit s key clock v).0)
      × Follows now (admit l key clock v).1 (admit s key clock v).1
unfolding admit
admit-Follows now l s key clock v h = elim (Bool-cases (leb_ℤ s.limit (pos v.count))) [
  | inl full ↦
      let full' : leb_ℤ l.limit (pos v.count) ≡ true = rw h.limit_lem full in
      rw (full, full') (refl, h)
  | inr free ↦
      let free' : leb_ℤ l.limit (pos v.count) ≡ false = rw h.limit_lem free in
      rw (free, free')
        (
          refl,
          record {
            limit_lem = h.limit_lem;
            window_lem = h.window_lem;
            agrees = λ k. elim (Bool-cases (str_eq k key)) [
              | inl same ↦ rw same (inl refl)
              | inr other ↦ rw other (h.agrees k)
            ];
          },
        )
]

plain_lem :
    (t : ℕ) (l s : RateLimiter) (arrivals : List Arrival)
    → Follows t l s
    → IsOrderly t arrivals
    → answers l arrivals ≡ plain_answers s arrivals
unfolding answers plain_answers allow
plain_lem t l s [] h orderly = refl
plain_lem t l s (a ∷ rest) h (later, orderly) =
    let l1 = sweep l a.now in
    let moved : Follows a.now l s = record {
      limit_lem = h.limit_lem;
      window_lem = h.window_lem;
      agrees = λ k. Agrees-later t a.now (l.visitors k) (s.visitors k) later (h.agrees k);
    } in
    let f = sweep-Follows a.now l s moved in
    let v = current_visitor s a.key a.now in
    let same : current_visitor l1 a.key a.now ≡ v =
      rw f.window_lem
        (same_current a.now s.window (l1.visitors a.key) (s.visitors a.key) (f.agrees a.key)) in
    let (answer, next) = admit-Follows a.now l1 s a.key a.clock v f in
    rw same (
      ap₂ ◌∷◌ (ap (λ r. r.0) answer) (
        plain_lem a.now (admit l1 a.key a.clock v).1 (admit s a.key a.clock v).1 rest next orderly))

-- Sweeping changes no answer: as long as the clock does not run backwards, requests are answered as by
-- a limiter that never deletes a visitor.
pub answers-plain :
    (l : RateLimiter) (t : ℕ) (arrivals : List Arrival)
    → IsOrderly t arrivals
    → answers l arrivals ≡ plain_answers l arrivals
answers-plain l t arrivals orderly =
    plain_lem t l l arrivals
      (record { limit_lem = refl; window_lem = refl; agrees = λ k. inl refl }) orderly
