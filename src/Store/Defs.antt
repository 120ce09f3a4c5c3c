-- ===== src/Store/Defs.antt =====
-- Tables, statements and the engine that runs them.
use gb_522_a16g.Base.{
  ℕ, Bool, true, false, ◌<◌, ◌≡◌, ◌⊎◌, List, String, Result, ok, err, panic, GoError, driver, All,
}
use gb_522_a16g.Model.{FiberRoute, LocalizationCase, TraceCapture, EventMarker, AuditLog}
use gb_522_a16g.Model.Account.{User}

pub record Tables (F : Type 0) : Type 0 where
  pub routes : List (FiberRoute F)
  pub cases : List (LocalizationCase F)
  pub traces : List (TraceCapture F)
  pub events : List (EventMarker F)
  pub audits : List (AuditLog F)
  pub users : List User

-- What the engine adds to a statement: the time, the order in which it comes to the rows of a query,
-- as neighbours that change places one after the other, and for each table, which numbers its rows by
-- itself, the first of the ids that it hands out next.
pub record Stamp : Type 0 where
  pub now : ℕ
  pub scan : List ℕ
  pub fresh_route : ℕ
  pub fresh_case : ℕ
  pub fresh_trace : ℕ
  pub fresh_event : ℕ
  pub fresh_audit : ℕ
  pub fresh_user : ℕ

abbrev pub Statement : Type 0 → Type 0 → Type 0
Statement F R = Stamp → Tables F → Result R × Tables F

-- A call that works on the database.
abbrev pub Action : Type 0 → Type 0 → Type 0
Action Db A = Db → Result A × Db

-- `now` is time.Now().
pub record Engine (F : Type 0) : Type 1 where
  pub Db : Type 0
  pub tables : Db → Tables F
  pub now : Db → ℕ
  pub exec : {R : Type 0} → Statement F R → Action Db R
  pub transaction : {R : Type 0} → Action Db R → Action Db R

-- The ids of a table from the stamp on are used by no row of it.
pub record IsFresh {F : Type 0} (stamp : Stamp) (t : Tables F) : Type 0 where
  pub routes_below : All (λ (c : FiberRoute F). c.id < stamp.fresh_route) t.routes
  pub cases_below : All (λ (c : LocalizationCase F). c.id < stamp.fresh_case) t.cases
  pub traces_below : All (λ (c : TraceCapture F). c.id < stamp.fresh_trace) t.traces
  pub events_below : All (λ (c : EventMarker F). c.id < stamp.fresh_event) t.events
  pub audits_below : All (λ (c : AuditLog F). c.id < stamp.fresh_audit) t.audits
  pub users_below : All (λ (c : User). c.id < stamp.fresh_user) t.users

-- A statement fails in the driver and changes nothing, or does what it says.
abbrev pub Executed :
    {F Db R : Type 0} → (Db → Tables F) → Statement F R → Db → Result R × Db → Type 0
Executed tables s d (r, d') =
    ((m : String) × (r ≡ err (driver m)) × (tables d' ≡ tables d))
    ⊎ ((stamp : Stamp) × IsFresh stamp (tables d)
        × (r ≡ (s stamp (tables d)).0)
        × (tables d' ≡ (s stamp (tables d)).1))

-- A transaction cannot be begun or committed and changes nothing, or it returns what its body does:
-- with the body's changes if that is a value, and with none otherwise.
abbrev pub Committed :
    {F Db R : Type 0} → (Db → Tables F) → Result R × Db → Db → Result R × Db → Type 0
Committed tables (ok a, d1) d (r, d') = (r ≡ ok a) × (tables d' ≡ tables d1)
Committed tables (err e, d1) d (r, d') = (r ≡ err e) × (tables d' ≡ tables d)
Committed tables (panic, d1) d (r, d') = (r ≡ panic) × (tables d' ≡ tables d)

pub record IsSound {F : Type 0} (engine : Engine F) : Type 1 where
  pub exec_lem :
      {R : Type 0} (s : Statement F R) (d : engine.Db)
      → Executed engine.tables s d (engine.exec s d)
  pub transaction_lem :
      {R : Type 0} (body : Action engine.Db R) (d : engine.Db)
      → ((m : String) × ((engine.transaction body d).0 ≡ err (driver m))
          × (engine.tables (engine.transaction body d).1 ≡ engine.tables d))
        ⊎ ((d0 : engine.Db) × (engine.tables d0 ≡ engine.tables d)
            × Committed engine.tables (body d0) d (engine.transaction body d))

module _ {Db A : Type 0} where
  abbrev pub pure : A → Action Db A
  pure a d = (ok a, d)

  abbrev pub fail : GoError → Action Db A
  fail e d = (err e, d)

abbrev pub mapped : {A : Type 0} → (GoError → GoError) → Result A → Result A
mapped f (ok a) = ok a
mapped f (err e) = err (f e)
mapped f panic = panic

-- `if err != nil { return …, f(err) }`
abbrev pub map_err : {Db A : Type 0} → (GoError → GoError) → Action Db A → Action Db A
map_err f m d = (mapped f (m d).0, (m d).1)

abbrev pub handle :
    {Db A B : Type 0} → (GoError → Action Db B) → (A → Action Db B) → Result A → Action Db B
handle h f (ok a) d = f a d
handle h f (err e) d = h e d
handle h f panic d = (panic, d)

-- `if err != nil { h } else { f }`
abbrev pub on_error :
    {Db A B : Type 0} → Action Db A → (GoError → Action Db B) → (A → Action Db B) → Action Db B
on_error m h f d = handle h f (m d).0 (m d).1

infixl 5 ◌>>=◌ ◌>>◌
abbrev pub ◌>>=◌ : {Db A B : Type 0} → Action Db A → (A → Action Db B) → Action Db B
m >>= f = on_error m fail f

abbrev pub ◌>>◌ : {Db A B : Type 0} → Action Db A → Action Db B → Action Db B
m >> k = m >>= λ _. k

-- A call whose error is dropped, `_ = …`.
abbrev pub ignore : {Db A : Type 0} → Action Db A → Action Db (Unit {0})
ignore m = on_error m (λ _. pure tt) (λ _. pure tt)

-- `if test { return …, e }`
abbrev pub refuse_if : {Db : Type 0} → Bool → GoError → Action Db (Unit {0})
refuse_if true e = fail e
refuse_if false e = pure tt

-- A computation that does not touch the database.
abbrev pub lift : {Db A : Type 0} → Result A → Action Db A
lift r d = (r, d)
