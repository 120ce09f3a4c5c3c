-- ===== src/Store/Keeps.antt =====
-- Calls that only read: they leave the tables as they are, whatever they return.
use gb_522_a16g.Base.{
  ◌≡◌, refl, ◌∙◌, inl, inr, Bool, true, false, if◌then◌else◌, Result, ok, err, panic, GoError,
}
use gb_522_a16g.Store.Defs.{
  Tables, Stamp, Statement, Action, fail, handle, Engine, IsSound, on_error, ◌>>=◌, map_err,
  refuse_if, lift, pure,
}
use gb_522_a16g.Store.Laws.{Ends}

module _ {F : Type 0} (engine : Engine F) where
  open engine use {Db, tables, exec}

  pub record Keeps {A : Type 0} (m : Action Db A) : Type 0 where
    pub at : (d : Db) → tables (m d).1 ≡ tables d

  pub Keeps-pure : {A : Type 0} (a : A) → Keeps (pure a)
  Keeps-pure a = record { at = λ d. refl }

  pub Keeps-fail : {A : Type 0} (e : GoError) → Keeps (fail {A = A} e)
  Keeps-fail e = record { at = λ d. refl }

  pub Keeps-lift : {A : Type 0} (r : Result A) → Keeps (lift r)
  Keeps-lift r = record { at = λ d. refl }

  pub Keeps-refuse_if : (test : Bool) (e : GoError) → Keeps (refuse_if test e)
  Keeps-refuse_if true e = record { at = λ d. refl }
  Keeps-refuse_if false e = record { at = λ d. refl }

  pub Keeps-if :
      {A : Type 0} (test : Bool) (m n : Action Db A)
      → Keeps m
      → Keeps n
      → Keeps (if test then m else n)
  Keeps-if true m n km kn = km
  Keeps-if false m n km kn = kn

  pub Keeps-map_err :
      {A : Type 0} (f : GoError → GoError) (m : Action Db A) → Keeps m → Keeps (map_err f m)
  Keeps-map_err f m k = record { at = λ d. k.at d }

  handle-tables :
      {A B : Type 0} (f : A → Action Db B) (r : Result A) (d : Db)
      → ((a : A) → Keeps (f a))
      → tables (handle fail f r d).1 ≡ tables d
  handle-tables f (ok a) d k = (k a).at d
  handle-tables f (err e) d k = refl
  handle-tables f panic d k = refl

  pub Keeps-bind :
      {A B : Type 0} (m : Action Db A) (f : A → Action Db B)
      → Keeps m
      → ((a : A) → Keeps (f a))
      → Keeps (m >>= f)
  Keeps-bind m f km kf = record { at = λ d. handle-tables f (m d).0 (m d).1 kf ∙ km.at d }

  handled :
      {A B : Type 0} (Q : Result B → Tables F → Type 0) (h : GoError → Action Db B)
      (f : A → Action Db B) (t : Tables F) (r : Result A) (d : Db)
      → tables d ≡ t
      → ((e : GoError) → r ≡ err e → (d' : Db) → tables d' ≡ t → Ends engine Q (h e) d')
      → ((a : A) → r ≡ ok a → (d' : Db) → tables d' ≡ t → Ends engine Q (f a) d')
      → Q panic t
      → Q (handle h f r d).0 (tables (handle h f r d).1)
  handled Q h f t (ok a) d at fails runs stops = runs a refl d at
  handled Q h f t (err e) d at fails runs stops = fails e refl d at
  handled Q h f t panic d at fails runs stops = rw at stops

  -- After a call that only reads, the rest starts from the same tables.
  pub on_error-Keeps :
      {A B : Type 0} (Q : Result B → Tables F → Type 0) (m : Action Db A)
      (h : GoError → Action Db B) (f : A → Action Db B) (t : Tables F) (d : Db)
      → Keeps m
      → tables d ≡ t
      → ((e : GoError) → (m d).0 ≡ err e → (d' : Db) → tables d' ≡ t → Ends engine Q (h e) d')
      → ((a : A) → (m d).0 ≡ ok a → (d' : Db) → tables d' ≡ t → Ends engine Q (f a) d')
      → Q panic t
      → Ends engine Q (on_error m h f) d
  on_error-Keeps Q m h f t d k at fails runs stops =
      handled Q h f t (m d).0 (m d).1 (k.at d ∙ at) fails runs stops

  module _ (sound : IsSound engine) where
    -- A query.
    pub Keeps-exec :
        {A : Type 0} (s : Statement F A)
        → ((stamp : Stamp) (t : Tables F) → (s stamp t).1 ≡ t)
        → Keeps (exec s)
    Keeps-exec s reads = record {
      at = λ d. elim (sound.exec_lem s d) [
        | inl (m, r, same) ↦ same
        | inr (stamp, fresh, r, t) ↦ t ∙ reads stamp (tables d)
      ];
    }

pub ruleset keeps_rules =
    (Keeps-pure, Keeps-fail, Keeps-lift, Keeps-refuse_if, Keeps-if, Keeps-map_err, Keeps-bind)
