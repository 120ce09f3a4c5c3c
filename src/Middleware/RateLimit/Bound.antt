-- ===== src/Middleware/RateLimit/Bound.antt =====
-- How many requests of a client a limiter lets through.
use text.Mathlib.Text.{◌==◌ as str_eq}
use text.Mathlib.TextEquality.{eq_iff}
use gb_522_a16g.Base.{
  ℕ, ◌+◌, ◌-◌, ◌*◌, ◌≤◌, ◌≡◌, refl, sym, ◌∙◌, negsuc, String, true, false, ◌&&◌, Bool-cases, ltb,
  leb, leb_ℤ, List, [], ◌∷◌, Option, none, some, if◌then◌else◌, arith, inl, inr, ℤ, pos, pos_part,
  All,
}
use gb_522_a16g.Middleware.RateLimit.{
  Visitor, RateLimiter, no_visitor, is_over, sweep, current_visitor, admit, allow,
}
use gb_522_a16g.Middleware.RateLimit.Settings.{
  Settings, sweep-visitors, admit-Settings, sweep-Settings,
}
use gb_522_a16g.Middleware.RateLimit.Run.{Arrival, granted, IsOrderly}

-- The requests that may still be let through up to `until`, of a visitor as it is at `now`: what its
-- window leaves, and a whole new window if this one ends before.
abbrev budget : ℕ → ℕ → ℕ → Visitor → ℕ
budget limit until now v = elim v.expires_at [
  | none ↦ limit
  | some expires ↦
      if ltb expires now
      then limit
      else (if leb until expires then limit - v.count else (limit - v.count) + limit)
]

-- The visitor of the key after a request that found `v`.
abbrev served : ℕ → ℕ → ℕ → Visitor → Visitor
served limit window now v =
    let current =
      if is_over v now then record { count = 0; expires_at = some (now + window) } else v in
    if leb limit current.count then v else record current { count = current.count + 1 }

abbrev let_through : ℕ → ℕ → ℕ → Visitor → ℕ
let_through limit window now v =
    let current =
      if is_over v now then record { count = 0; expires_at = some (now + window) } else v in
    if leb limit current.count then 0 else 1

budget_later :
    (limit until now later count : ℕ) (e : Option ℕ)
    → now ≤ later
    → later ≤ until
    → budget limit until later (record { count = count; expires_at = e })
      ≤ budget limit until now (record { count = count; expires_at = e })
budget_later limit until now later count none h u = omega arith
budget_later limit until now later count (some expires) h u = ground arith

budget-served :
    (limit window until now count : ℕ) (e : Option ℕ)
    → now ≤ until
    → until ≤ now + window
    → let v : Visitor = record { count = count; expires_at = e } in
      let_through limit window now v + budget limit until now (served limit window now v)
      ≤ budget limit until now v
budget-served limit window until now count none u w = ground arith
budget-served limit window until now count (some expires) u w = ground arith

-- The sweep changes no budget.
budget_swept :
    (limit until now count : ℕ) (e : Option ℕ)
    → let v : Visitor = record { count = count; expires_at = e } in
      budget limit until now (if is_over v now then no_visitor else v) ≡ budget limit until now v
budget_swept limit until now count none = refl
budget_swept limit until now count (some expires) = ground arith

leb-pos_part : (limit : ℤ) (count : ℕ) → leb_ℤ limit (pos count) ≡ leb (pos_part limit) count
leb-pos_part (pos n) count = ground arith
leb-pos_part (negsuc n) count = ground arith

-- A request of another key leaves the visitor alone.
admit-other :
    (l : RateLimiter) (key other : String) (clock : ℕ) (v : Visitor)
    → str_eq other key ≡ false
    → (admit l key clock v).1.visitors other ≡ l.visitors other
unfolding admit
admit-other l key other clock v h = elim (Bool-cases (leb_ℤ l.limit (pos v.count))) [
  | inl full ↦ rw full refl
  | inr free ↦ rw free (rw h refl)
]

-- A request of the key is `served`.
admit-served :
    (limit window : ℕ) (l : RateLimiter) (key : String) (now clock : ℕ)
    → Settings limit window l
    → let r = admit l key clock (current_visitor l key now) in
      let v = l.visitors key in
      (r.1.visitors key ≡ served limit window now v)
      × ((if r.0.0 then 1 else 0) ≡ let_through limit window now v)
unfolding admit
admit-served limit window l key now clock (same_limit, same_window) =
    let v = current_visitor l key now in
    let same : str_eq key key ≡ true = (eq_iff key key).1 refl in
    elim (Bool-cases (leb_ℤ l.limit (pos v.count))) [
      | inl full ↦
          let full' : leb (pos_part l.limit) v.count ≡ true =
            sym (leb-pos_part l.limit v.count) ∙ full in
          rw (sym same_limit, sym same_window, full, full') (refl, refl)
      | inr free ↦
          let free' : leb (pos_part l.limit) v.count ≡ false =
            sym (leb-pos_part l.limit v.count) ∙ free in
          rw (sym same_limit, sym same_window, free, free', same) (refl, refl)
    ]

str_eq-sym : (s t : String) → str_eq s t ≡ false → str_eq t s ≡ false
str_eq-sym s t h = elim (Bool-cases (str_eq t s)) [
  | inl same ↦ let there : str_eq s t ≡ true = (eq_iff s t).1 (sym ((eq_iff t s).0 same)) in cc
  | inr differ ↦ differ
]

-- One request uses the budget that it takes.
admit-budget :
    (limit window until : ℕ) (key : String) (l : RateLimiter) (a : Arrival)
    → Settings limit window l
    → a.now ≤ until
    → until ≤ a.now + window
    → let r = admit l a.key a.clock (current_visitor l a.key a.now) in
      (if str_eq a.key key && r.0.0 then 1 else 0) + budget limit until a.now (r.1.visitors key)
      ≤ budget limit until a.now (l.visitors key)
admit-budget limit window until key l a h before_end fits = elim (Bool-cases (str_eq a.key key)) [
  | inl same ↦
      let it : a.key ≡ key = (eq_iff a.key key).0 same in
      let v = l.visitors a.key in
      let (now_served, through) = admit-served limit window l a.key a.now a.clock h in
      let pays = budget-served limit window until a.now v.count v.expires_at before_end fits in
      rw (same, sym it, now_served, through) pays
  | inr differ ↦
      rw
        (
          differ,
          admit-other l a.key key a.clock (current_visitor l a.key a.now)
              (str_eq-sym a.key key differ),
        )
        (omega arith)
]

allow-budget :
    (limit window until t : ℕ) (key : String) (l : RateLimiter) (a : Arrival)
    → Settings limit window l
    → t ≤ a.now
    → a.now ≤ until
    → until ≤ a.now + window
    → let r = allow l a.key a.now a.clock in
      ((if str_eq a.key key && r.0.0 then 1 else 0) + budget limit until a.now (r.1.visitors key)
        ≤ budget limit until t (l.visitors key))
      × Settings limit window r.1
unfolding allow
allow-budget limit window until t key l a h since before_end fits =
    let l1 = sweep l a.now in
    let kept : Settings limit window l1 = sweep-Settings limit window a.now l h in
    let old = l.visitors key in
    let aged : budget limit until a.now old ≤ budget limit until t old =
      budget_later limit until t a.now old.count old.expires_at since before_end in
    let cleaned : budget limit until a.now (l1.visitors key) ≡ budget limit until a.now old =
      sweep-visitors l a.now key (λ x. budget limit until a.now x ≡ budget limit until a.now old)
        refl (budget_swept limit until a.now old.count old.expires_at) in
    let used = admit-budget limit window until key l1 a kept before_end fits in
    (
      omega (arith, aged, cleaned, used),
      admit-Settings limit window l1 a.key a.clock (current_visitor l1 a.key a.now) kept,
    )

granted-budget :
    (limit window until t : ℕ) (key : String) (l : RateLimiter) (arrivals : List Arrival)
    → Settings limit window l
    → IsOrderly t arrivals
    → All (λ (a : Arrival). a.now ≤ until) arrivals
    → until ≤ t + window
    → granted key l arrivals ≤ budget limit until t (l.visitors key)
unfolding granted
granted-budget limit window until t key l [] h orderly within fits = omega arith
granted-budget limit window until t key l (a ∷ rest) h (since, orderly) (before_end, within) fits =
    let r = allow l a.key a.now a.clock in
    let (pays, kept) = allow-budget limit window until t key l a h since before_end (omega arith) in
    let later =
      granted-budget limit window until a.now key r.1 rest kept orderly within (omega arith) in
    omega (arith, pays, later)

-- In any span of time as long as the window at most twice the limit of a client's requests are let
-- through, and at most the limit if the client's window is over when the span begins, however many
-- requests of it and of others come; a limit below zero counts as zero. The clock does not run
-- backwards.
pub granted-bounds :
    (key : String) (l : RateLimiter) (t : ℕ) (arrivals : List Arrival)
    → IsOrderly t arrivals
    → All (λ (a : Arrival). a.now ≤ t + l.window) arrivals
    → (granted key l arrivals ≤ 2 * pos_part l.limit)
      × (is_over (l.visitors key) t ≡ true → granted key l arrivals ≤ pos_part l.limit)
granted-bounds key l t arrivals orderly within =
    let h =
      granted-budget (pos_part l.limit) l.window (t + l.window) t key l arrivals (refl, refl)
        orderly within (omega arith) in
    let v = l.visitors key in
    (
      omega (arith, h, budget-le (pos_part l.limit) (t + l.window) t v.count v.expires_at),
      λ over.
          omega
            (arith, h, budget-over (pos_part l.limit) (t + l.window) t v.count v.expires_at over),
    )
  where
    budget-le :
        (limit until now count : ℕ) (e : Option ℕ)
        → budget limit until now (record { count = count; expires_at = e }) ≤ 2 * limit
    budget-le limit until now count none = omega arith
    budget-le limit until now count (some expires) = ground arith

    budget-over :
        (limit until now count : ℕ) (e : Option ℕ)
        → is_over (record { count = count; expires_at = e }) now ≡ true
        → budget limit until now (record { count = count; expires_at = e }) ≤ limit
    budget-over limit until now count none h = omega arith
    budget-over limit until now count (some expires) h = ground arith
