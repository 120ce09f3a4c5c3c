-- ===== src/Workflow/Rules.antt =====
-- The services' transactions seen as writes: rules for the calls that they are made of.
use gb_522_a16g.Base.{
  ℕ, ◌<◌, ◌≡◌, refl, sym, ◌⊎◌, inl, inr, Bool, true, ◌==◌, Bool-cases, String, List, [], ◌∷◌,
  Result, ok, err, panic, GoError, driver, err_record_not_found, wrapped, arith, count_if,
}
use gb_522_a16g.Model.{LocalizationCase, AuditLog}
use gb_522_a16g.Store.{
  on_error-Ends, ignore, pure, ◌>>=◌, Tables, Stamp, Statement, Action, Engine, IsFresh, IsSound,
  Ends, Atomic, bind-Ends, exec-Ends, transaction-Ends, mapped, map_err,
}
use gb_522_a16g.Repository.Query.{first, not_found_or}
use gb_522_a16g.Repository.Case.{get_case_statement, require_affected, get}
use gb_522_a16g.Repository.Audit.{create_audit_statement, is_blank}
use gb_522_a16g.Repository.Audit as AuditRepository

pub first-ok :
    {A : Type 0} (p : A → Bool) (xs : List A)
    → ((e : GoError) × (first p xs ≡ err e)) ⊎ ((a : A) × (first p xs ≡ ok a) × (p a ≡ true))
first-ok p [] = inl (err_record_not_found, refl)
first-ok p (x ∷ xs) = elim (Bool-cases (p x)) [
  | inl selected ↦ rw selected (inr (x, refl, selected))
  | inr passed ↦ rw passed (first-ok p xs)
]

module _ {F : Type 0} where
  -- An error and tables that satisfy `E`, or a value and tables that satisfy `P`.
  abbrev pub Outcomes :
      {A : Type 0} → (Tables F → Type 0) → (A → Tables F → Type 0) → Result A → Tables F → Type 0
  Outcomes {A = A} E P r t' = ((e : GoError) × (r ≡ err e) × E t') ⊎ ((a : A) × (r ≡ ok a) × P a t')

  pub Outcomes-imp :
      {A : Type 0} (E E' : Tables F → Type 0) (P P' : A → Tables F → Type 0)
      → ((t : Tables F) → E t → E' t)
      → ((a : A) (t : Tables F) → P a t → P' a t)
      → (r : Result A) (t' : Tables F) → Outcomes E P r t'
      → Outcomes E' P' r t'
  Outcomes-imp E E' P P' f g r t' (inl (e, h, k)) = inl (e, h, f t' k)
  Outcomes-imp E E' P P' f g r t' (inr (a, h, k)) = inr (a, h, g a t' k)

  -- The second tables are those that the statement leaves of the first.
  abbrev pub Changed : {A : Type 0} → Statement F A → Tables F → Tables F → Type 0
  Changed s t t' = (stamp : Stamp) × IsFresh stamp t × (t' ≡ (s stamp t).1)

  -- The case that a query by id finds; the tables stay as they were.
  abbrev pub Read : ℕ → Tables F → LocalizationCase F → Tables F → Type 0
  Read id t c t' =
      (t' ≡ t) × (first (λ (x : LocalizationCase F). x.id == id) t.cases ≡ ok c) × (c.id ≡ id)

  pub mapped-Outcomes :
      {A : Type 0} (E : Tables F → Type 0) (P : A → Tables F → Type 0) (f : GoError → GoError)
      (r : Result A) (t' : Tables F)
      → Outcomes E P r t'
      → Outcomes E P (mapped f r) t'
  mapped-Outcomes E P f r t' (inl (e, h, k)) = rw h (inl (f e, refl, k))
  mapped-Outcomes E P f r t' (inr (a, h, k)) = rw h (inr (a, refl, k))

  Atomic-Outcomes :
      {A : Type 0} (engine : Engine F) (P : A → Tables F → Type 0) (t t' : Tables F) (r : Result A)
      → Outcomes (λ _. Unit {0}) P r t'
      → Atomic engine (Outcomes (λ x. x ≡ t) P) t r t'
  Atomic-Outcomes engine P t t' (ok a) (inl (e, h, k)) = cc
  Atomic-Outcomes engine P t t' (ok a) (inr h) = inr h
  Atomic-Outcomes engine P t t' (err e) h = inl (e, refl, refl)
  Atomic-Outcomes engine P t t' panic (inl (e, h, k)) = cc
  Atomic-Outcomes engine P t t' panic (inr (a, h, k)) = cc

  module _ (engine : Engine F) where
    open engine use {Db, tables, exec, transaction}

    -- The call ends in one of the outcomes.
    abbrev pub EndsIn :
        {A : Type 0} → (Tables F → Type 0) → (A → Tables F → Type 0) → Action Db A → Db → Type 0
    EndsIn E P m d = Ends engine (Outcomes E P) m d

    pub outcomes_then :
        {A B : Type 0} (E : Tables F → Type 0) (P : A → Tables F → Type 0)
        (Q : Result B → Tables F → Type 0) (m : Action Db A) (f : A → Action Db B) (d : Db)
        → EndsIn E P m d
        → ((e : GoError) (t' : Tables F) → E t' → Q (err e) t')
        → ((a : A) (d' : Db) → P a (tables d') → Ends engine Q (f a) d')
        → Ends engine Q (m >>= f) d
    outcomes_then E P Q m f d (inl (e, r, k)) fails runs =
        bind-Ends engine Q m f d (rw r (fails e (tables (m d).1) k))
    outcomes_then E P Q m f d (inr (a, r, k)) fails runs =
        bind-Ends engine Q m f d (rw r (λ d' same. runs a d' (rw same k)))

    -- A call whose error is dropped.
    pub ignore_outcomes :
        {A : Type 0} (E : Tables F → Type 0) (P : A → Tables F → Type 0) (m : Action Db A) (d : Db)
        → EndsIn E P m d
        → EndsIn E (λ _ t'. E t' ⊎ ((a : A) × P a t')) (ignore m) d
    ignore_outcomes E P m d (inl (e, r, k)) =
        on_error-Ends engine (Outcomes E (λ (x : Unit {0}) t'. E t' ⊎ ((a : _) × P a t'))) m
          (λ _. pure tt) (λ _. pure tt) d (rw r (λ d' same. inr (tt, refl, inl (rw same k))))
    ignore_outcomes E P m d (inr (a, r, k)) =
        on_error-Ends engine (Outcomes E (λ (x : Unit {0}) t'. E t' ⊎ ((a : _) × P a t'))) m
          (λ _. pure tt) (λ _. pure tt) d (rw r (λ d' same. inr (tt, refl, inr (a, rw same k))))

  module _ (engine : Engine F) (sound : IsSound engine) where
    open engine use {Db, tables, exec, transaction}

    -- A transaction has the outcomes of its body, but no change with an error.
    pub transaction_outcomes :
        {A : Type 0} (P : A → Tables F → Type 0) (body : Action Db A) (d : Db)
        → ((d0 : Db) → tables d0 ≡ tables d → EndsIn engine (λ _. Unit {0}) P body d0)
        → EndsIn engine (λ t'. t' ≡ tables d) P (transaction body) d
    transaction_outcomes P body d does =
        transaction-Ends engine sound (Outcomes (λ t'. t' ≡ tables d) P) body d
          (λ m. inl (driver m, refl, refl))
          (λ d0 same.
            Atomic-Outcomes engine P (tables d) (tables (body d0).1) (body d0).0 (does d0 same))

    -- A statement whose result does not depend on the stamp.
    pub exec_outcomes :
        {A : Type 0} (message : GoError → GoError) (s : Statement F A) (a : A) (d : Db)
        → ((stamp : Stamp) → (s stamp (tables d)).0 ≡ ok a)
        → EndsIn engine
            (λ t'. t' ≡ tables d)
            (λ x t'. (x ≡ a) × Changed s (tables d) t')
            (map_err message (exec s))
            d
    exec_outcomes message s a d gives =
        mapped-Outcomes (λ t'. t' ≡ tables d) (λ x t'. (x ≡ a) × Changed s (tables d) t') message
          (exec s d).0 (tables (exec s d).1)
          (exec-Ends engine sound
            (Outcomes (λ t'. t' ≡ tables d) (λ x t'. (x ≡ a) × Changed s (tables d) t')) s d
            (λ m. inl (driver m, refl, refl))
            (λ stamp fresh. inr (a, gives stamp, (refl, (stamp, fresh, refl)))))

    require_outcomes :
        (P : Tables F → Type 0) (message : String) (rows : ℕ) (d : Db)
        → P (tables d)
        → EndsIn engine
            (λ _. Unit {0})
            (λ _ t'. P t' × (0 < rows))
            (require_affected message rows)
            d
    require_outcomes P message rows d h = elim (Bool-cases (rows == 0)) [
      | inl none ↦ rw none (inl (_, refl, tt))
      | inr more ↦
          let some_rows : 0 < rows = ground arith in rw more (inr (tt, refl, (h, some_rows)))
    ]

    -- A conditional update and the check that it found its row.
    pub guarded_outcomes :
        (message other_message : String) (p : LocalizationCase F → Bool) (s : Statement F ℕ)
        (d : Db)
        → ((stamp : Stamp) → (s stamp (tables d)).0 ≡ ok (count_if p (tables d).cases))
        → EndsIn engine
            (λ _. Unit {0})
            (λ _ t'. Changed s (tables d) t' × (0 < count_if p (tables d).cases))
            (map_err (wrapped message) (exec s) >>= require_affected other_message)
            d
    guarded_outcomes message other_message p s d counts =
        outcomes_then engine (λ t'. t' ≡ tables d)
          (λ x t'. (x ≡ count_if p (tables d).cases) × Changed s (tables d) t')
          (Outcomes (λ _. Unit {0})
            (λ _ t'. Changed s (tables d) t' × (0 < count_if p (tables d).cases)))
          (map_err (wrapped message) (exec s)) (require_affected other_message) d
          (exec_outcomes (wrapped message) s (count_if p (tables d).cases) d counts)
          (λ e t' h. inl (e, refl, tt))
          (λ rows d' h.
            rw (sym h.0) (require_outcomes (Changed s (tables d)) other_message rows d' h.1))

    -- An audit entry.
    pub audit_outcomes :
        (entry : AuditLog F) (d : Db)
        → EndsIn engine
            (λ t'. t' ≡ tables d)
            (λ _ t'. Changed (create_audit_statement entry) (tables d) t')
            (AuditRepository.create engine entry)
            d
    unfolding AuditRepository.create create_audit_statement
    audit_outcomes entry d = elim (Bool-cases (is_blank entry.request_id)) [
      | inl blank ↦ rw blank (inl (_, refl, refl))
      | inr filled ↦
          let P = λ (_ : Unit {0}) (t' : Tables F).
            Changed (create_audit_statement entry) (tables d) t' in
          let m =
            map_err (wrapped "create immutable audit entry")
              (exec (create_audit_statement entry)) in
          rw filled (
            Outcomes-imp (λ t'. t' ≡ tables d) (λ t'. t' ≡ tables d) (λ x t'. (x ≡ tt) × P x t') P
              (λ t h. h) (λ x t h. h.1) (m d).0 (tables (m d).1)
              (exec_outcomes (wrapped "create immutable audit entry") (create_audit_statement entry)
                tt d (λ stamp. refl)))
    ]

    -- Reading a case.
    pub get_outcomes :
        (id : ℕ) (d : Db)
        → EndsIn engine (λ t'. t' ≡ tables d) (Read id (tables d)) (get engine id) d
    unfolding get get_case_statement
    get_outcomes id d =
        mapped-Outcomes (λ t'. t' ≡ tables d) (Read id (tables d))
          (not_found_or "get localization case") (exec (get_case_statement id) d).0
          (tables (exec (get_case_statement id) d).1)
          (exec-Ends engine sound (Outcomes (λ t'. t' ≡ tables d) (Read id (tables d)))
            (get_case_statement id) d (λ m. inl (driver m, refl, refl))
            (λ stamp fresh.
              elim (first-ok (λ (c : LocalizationCase F). c.id == id) (tables d).cases) [
                | inl (e, h) ↦ inl (e, h, refl)
                | inr (c, h, selected) ↦
                    let is_it : c.id ≡ id = ground arith in inr (c, h, (refl, h, is_it))
              ]))
