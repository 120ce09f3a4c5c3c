-- ===== src/Store/Laws.antt =====
-- Rules for what a call leaves behind: its result and the tables.
use gb_522_a16g.Base.{◌≡◌, refl, ap, inl, inr, String, Result, ok, err, panic, GoError, driver}
use gb_522_a16g.Store.Defs.{
  ◌>>=◌, Tables, Stamp, Statement, Action, fail, handle, Engine, IsFresh, IsSound, Committed,
  on_error, mapped,
}

module _ {F : Type 0} (engine : Engine F) where
  open engine use {Db, tables, exec, transaction}

  -- The call, made at `d`, ends with a result and tables that satisfy `Q`.
  abbrev pub Ends : {A : Type 0} → (Result A → Tables F → Type 0) → Action Db A → Db → Type 0
  Ends Q m d = Q (m d).0 (tables (m d).1)

  -- What must hold after a call for the rest to run to `Q`: the rest starts from a state with the
  -- tables that the call left.
  abbrev pub Handled :
      {A B : Type 0}
      → (Result B → Tables F → Type 0)
      → (GoError → Action Db B)
      → (A → Action Db B)
      → Result A
      → Tables F
      → Type 0
  Handled Q h f (ok a) t = (d : Db) → tables d ≡ t → Ends Q (f a) d
  Handled Q h f (err e) t = (d : Db) → tables d ≡ t → Ends Q (h e) d
  Handled Q h f panic t = Q panic t

  abbrev pub Then :
      {A B : Type 0}
      → (Result B → Tables F → Type 0)
      → (A → Action Db B)
      → Result A
      → Tables F
      → Type 0
  Then Q f (ok a) t = (d : Db) → tables d ≡ t → Ends Q (f a) d
  Then Q f (err e) t = Q (err e) t
  Then Q f panic t = Q panic t

  -- The body's changes count only if it returned a value.
  abbrev pub Atomic :
      {A : Type 0} → (Result A → Tables F → Type 0) → Tables F → Result A → Tables F → Type 0
  Atomic Q t (ok a) t' = Q (ok a) t'
  Atomic Q t (err e) t' = Q (err e) t
  Atomic Q t panic t' = Q panic t

  module _ {A B : Type 0} (Q : Result B → Tables F → Type 0) where
    handle-Ends :
        (h : GoError → Action Db B) (f : A → Action Db B) (r : Result A) (d : Db)
        → Handled Q h f r (tables d)
        → Q (handle h f r d).0 (tables (handle h f r d).1)
    handle-Ends h f (ok a) d k = k d refl
    handle-Ends h f (err e) d k = k d refl
    handle-Ends h f panic d k = k

    pub on_error-Ends :
        (m : Action Db A) (h : GoError → Action Db B) (f : A → Action Db B) (d : Db)
        → Ends (Handled Q h f) m d
        → Ends Q (on_error m h f) d
    on_error-Ends m h f d k = handle-Ends h f (m d).0 (m d).1 k

    then_ends :
        (f : A → Action Db B) (r : Result A) (d : Db)
        → Then Q f r (tables d)
        → Q (handle fail f r d).0 (tables (handle fail f r d).1)
    then_ends f (ok a) d k = k d refl
    then_ends f (err e) d k = k
    then_ends f panic d k = k

    pub bind-Ends :
        (m : Action Db A) (f : A → Action Db B) (d : Db) → Ends (Then Q f) m d → Ends Q (m >>= f) d
    bind-Ends m f d k = then_ends f (m d).0 (m d).1 k

  module _ (sound : IsSound engine) {A : Type 0} (Q : Result A → Tables F → Type 0) where
    -- A statement.
    pub exec-Ends :
        (s : Statement F A) (d : Db)
        → ((m : String) → Q (err (driver m)) (tables d))
        → ((stamp : Stamp)
            → IsFresh stamp (tables d)
            → Q (s stamp (tables d)).0 (s stamp (tables d)).1)
        → Ends Q (exec s) d
    exec-Ends s d fails runs = elim (sound.exec_lem s d) [
      | inl (m, r, t) ↦ rw (r, t) (fails m)
      | inr (stamp, fresh, r, t) ↦ rw (r, t) (runs stamp fresh)
    ]

    committed_ends :
        (x y : Result A × Db) (d : Db)
        → Committed tables x d y
        → Atomic Q (tables d) x.0 (tables x.1)
        → Q y.0 (tables y.1)
    committed_ends (ok a, d1) y d (r, t) k = rw (r, t) k
    committed_ends (err e, d1) y d (r, t) k = rw (r, t) k
    committed_ends (panic, d1) y d (r, t) k = rw (r, t) k

    -- A transaction.
    pub transaction-Ends :
        (body : Action Db A) (d : Db)
        → ((m : String) → Q (err (driver m)) (tables d))
        → ((d0 : Db) → tables d0 ≡ tables d → Ends (Atomic Q (tables d)) body d0)
        → Ends Q (transaction body) d
    transaction-Ends body d fails runs = elim (sound.transaction_lem body d) [
      | inl (m, r, t) ↦ rw (r, t) (fails m)
      | inr (d0, same, c) ↦ committed_ends (body d0) (transaction body d) d c (runs d0 same)
    ]

-- What a chain that returned a value did.
module _ {Db A B : Type 0} {b : B} {d1 : Db} where
  handle-ok :
      (f : A → Action Db B) (r : Result A) (d : Db)
      → handle fail f r d ≡ (ok b, d1)
      → (a : A) × (r ≡ ok a) × (f a d ≡ (ok b, d1))
  handle-ok f (ok a) d h = (a, refl, h)
  handle-ok f (err e) d h = let no : err e ≡ ok b = ap (λ x. x.0) h in cc
  handle-ok f panic d h = let no : panic ≡ ok b = ap (λ x. x.0) h in cc

  pub bind-ok :
      (m : Action Db A) (f : A → Action Db B) (d : Db)
      → (m >>= f) d ≡ (ok b, d1)
      → (a : A) × ((m d).0 ≡ ok a) × (f a (m d).1 ≡ (ok b, d1))
  bind-ok m f d h = handle-ok f (m d).0 (m d).1 h

pub mapped-ok :
    {A : Type 0} {a : A} (f : GoError → GoError) (r : Result A) → mapped f r ≡ ok a → r ≡ ok a
mapped-ok f (ok x) h = h
mapped-ok f (err e) h = cc
mapped-ok f panic h = cc
