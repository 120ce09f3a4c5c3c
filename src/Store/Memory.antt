-- ===== src/Store/Memory.antt =====
-- An engine in memory: a value at which the parameter `Engine` can be instantiated. `faults` says
-- which of the next statements and transactions the driver fails; past its end none.
use Prim.Native.Nat.{max}
use gb_522_a16g.Base.{
  ℕ, suc, ◌<◌, ◌≡◌, ◌⊎◌, refl, inl, inr, List, [], ◌∷◌, Bool, true, false, String, Result, ok, err,
  panic, driver, arith, All,
}
use gb_522_a16g.Store.Defs.{
  Tables, Stamp, Statement, Action, Engine, IsFresh, Executed, Committed, IsSound,
}

pub record Memory (F : Type 0) : Type 0 where
  pub content : Tables F
  pub clock : ℕ
  pub faults : List Bool

module _ {A : Type 0} (f : A → ℕ) where
  abbrev max_by : List A → ℕ
  max_by [] = 0
  max_by (x ∷ xs) = max (f x) (max_by xs)

  max_by-bounds : (xs : List A) (n : ℕ) → max_by xs < n → All (λ x. f x < n) xs
  max_by-bounds [] n h = tt
  max_by-bounds (x ∷ xs) n h = (omega arith, max_by-bounds xs n (omega arith))

-- One id above all that a table uses.
abbrev next_id : {A : Type 0} → (A → ℕ) → List A → ℕ
next_id f rows = suc (max_by f rows)

module _ {F : Type 0} where
  abbrev stamp_of : ℕ → Tables F → Stamp
  stamp_of clock t = record {
    now = clock;
    scan = [];
    fresh_route = next_id (λ c. c.id) t.routes;
    fresh_case = next_id (λ c. c.id) t.cases;
    fresh_trace = next_id (λ c. c.id) t.traces;
    fresh_event = next_id (λ c. c.id) t.events;
    fresh_audit = next_id (λ c. c.id) t.audits;
    fresh_user = next_id (λ c. c.id) t.users;
  }

  stamp_of-IsFresh : (clock : ℕ) (t : Tables F) → IsFresh (stamp_of clock t) t
  stamp_of-IsFresh clock t = record {
    routes_below = max_by-bounds _ t.routes _ (omega arith);
    cases_below = max_by-bounds _ t.cases _ (omega arith);
    traces_below = max_by-bounds _ t.traces _ (omega arith);
    events_below = max_by-bounds _ t.events _ (omega arith);
    audits_below = max_by-bounds _ t.audits _ (omega arith);
    users_below = max_by-bounds _ t.users _ (omega arith);
  }

  -- The call at a state whose faults are listed first.
  abbrev faulty : {R : Type 0} → List Bool → Action (Memory F) R → Action (Memory F) R
  faulty [] m d = m d
  faulty (false ∷ later) m d = m (record d { faults = later })
  faulty (true ∷ later) m d = (err (driver "connection lost"), record d { faults = later })

  abbrev run : {R : Type 0} → Statement F R → Action (Memory F) R
  run s d = let r = s (stamp_of d.clock d.content) d.content in (r.0, record d { content = r.1 })

  abbrev settle : {R : Type 0} → Tables F → Result R × Memory F → Result R × Memory F
  settle t (ok a, d) = (ok a, d)
  settle t (err e, d) = (err e, record d { content = t })
  settle t (panic, d) = (panic, record d { content = t })

  abbrev commit : {R : Type 0} → Action (Memory F) R → Action (Memory F) R
  commit body d = settle d.content (body d)

  run-Executed :
      {R : Type 0} (s : Statement F R) (faults : List Bool) (d : Memory F)
      → Executed (λ (x : Memory F). x.content) s d (faulty faults (run s) d)
  run-Executed s [] d =
      inr (stamp_of d.clock d.content, stamp_of-IsFresh d.clock d.content, refl, refl)
  run-Executed s (false ∷ later) d =
      inr (stamp_of d.clock d.content, stamp_of-IsFresh d.clock d.content, refl, refl)
  run-Executed s (true ∷ later) d = inl ("connection lost", refl, refl)

  settle-Committed :
      {R : Type 0} (x : Result R × Memory F) (d : Memory F)
      → Committed (λ (m : Memory F). m.content) x d (settle d.content x)
  settle-Committed (ok a, d1) d = (refl, refl)
  settle-Committed (err e, d1) d = (refl, refl)
  settle-Committed (panic, d1) d = (refl, refl)

  commit-Committed :
      {R : Type 0} (body : Action (Memory F) R) (faults : List Bool) (d : Memory F)
      → let r = faulty faults (commit body) d in
        ((m : String) × (r.0 ≡ err (driver m)) × (r.1.content ≡ d.content))
        ⊎ ((d0 : Memory F) × (d0.content ≡ d.content)
            × Committed (λ (m : Memory F). m.content) (body d0) d r)
  commit-Committed body [] d = inr (d, refl, settle-Committed (body d) d)
  commit-Committed body (false ∷ later) d =
      let d0 = record d { faults = later } in inr (d0, refl, settle-Committed (body d0) d)
  commit-Committed body (true ∷ later) d = inl ("connection lost", refl, refl)

abbrev pub memory : (F : Type 0) → Engine F
memory F = record {
  Db = Memory F;
  tables = λ d. d.content;
  now = λ d. d.clock;
  exec = λ s d. faulty d.faults (run s) d;
  transaction = λ body d. faulty d.faults (commit body) d;
}

pub memory-IsSound : (F : Type 0) → IsSound (memory F)
memory-IsSound F = record {
  exec_lem = λ s d. run-Executed s d.faults d;
  transaction_lem = λ body d. commit-Committed body d.faults d;
}
