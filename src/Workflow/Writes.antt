-- ===== src/Workflow/Writes.antt =====
-- The bodies of the services' transactions: each makes one write and its audit entry.
use gb_522_a16g.Base.{ℕ, suc, ◌≡◌, refl, inl, some}
use gb_522_a16g.Float.{Float64}
use gb_522_a16g.Constants.{pending_review, confirmed, closed}
use gb_522_a16g.Model.{LocalizationCase, AuditLog, Actor, CloseCaseRequest, ConfirmCaseRequest}
use gb_522_a16g.Store.{Tables, Stamp, Action, Engine, IsFresh, IsSound, ◌>>◌}
use gb_522_a16g.Repository.Case.{transition_guard, transition_statement, transition}
use gb_522_a16g.Repository.Audit.{create_audit_statement}
use gb_522_a16g.Repository.Audit as AuditRepository
use gb_522_a16g.Service.Case.Values.{confirm_updates}
use gb_522_a16g.Service.Case.Load.{record_case}
use gb_522_a16g.Service.Case.Review.{confirm_body, close_body}
use gb_522_a16g.Workflow.Defs.{
  Write, confirmation, closing, selects, Affects, IsEntryOf, recorded, perform, Reach, then_write,
}
use gb_522_a16g.Workflow.Rules.{
  Changed, EndsIn, Outcomes, outcomes_then, audit_outcomes, guarded_outcomes, Outcomes-imp,
}

module _ {F : Type 0} ⦃fl : Float64 F⦄ where
  -- The second tables are the first after the write and its audit entry.
  unfoldable pub Written : Write F → Tables F → Tables F → Type 0
  Written w t t' =
      (stamp : Stamp) × (entry : AuditLog F) × (later : Stamp) × IsFresh stamp t
      × Affects w t
      × IsEntryOf w stamp entry
      × (t' ≡ recorded w stamp entry later t)

  pub Written-Reach :
      (w : Write F) (t u t' : Tables F) (n : ℕ) → Reach t u n → Written w u t' → Reach t t' (suc n)
  unfolding Written
  Written-Reach w t u t' n r (stamp, entry, later, fresh, affects, names, e) =
      rw e (then_write r w stamp entry later fresh affects names)

  -- The write's statement has run and has taken effect.
  abbrev pub Performed : Write F → Tables F → Tables F → Type 0
  Performed w t t' = ((stamp : Stamp) × IsFresh stamp t × (t' ≡ perform w stamp t)) × Affects w t

  module _ (engine : Engine F) (sound : IsSound engine) where
    open engine use {Db, tables}

    -- A write followed by its audit entry.
    pub Written-Outcomes :
        (w : Write F) (m : Action Db (Unit {0})) (entry : AuditLog F) (d : Db)
        → EndsIn engine (λ _. Unit {0}) (λ _ t'. Performed w (tables d) t') m d
        → ((stamp : Stamp) → IsEntryOf w stamp entry)
        → EndsIn engine
            (λ _. Unit {0})
            (λ _ t'. Written w (tables d) t')
            (m >> AuditRepository.create engine entry)
            d
    unfolding Written
    Written-Outcomes w m entry d performs names =
        outcomes_then engine (λ _. Unit {0}) (λ _ t'. Performed w (tables d) t')
          (Outcomes (λ _. Unit {0}) (λ _ t'. Written w (tables d) t')) m
          (λ _. AuditRepository.create engine entry) d performs (λ e t' h. inl (e, refl, tt))
          (λ x d1 ((stamp, fresh, at), affects).
            Outcomes-imp (λ t'. t' ≡ tables d1) (λ _. Unit {0})
              (λ _ t'. Changed (create_audit_statement entry) (tables d1) t')
              (λ _ t'. Written w (tables d) t') (λ t h. tt)
              (λ y t (later, later_fresh, e).
                (stamp, entry, later, fresh, affects, names stamp, rw e (rw at refl)))
              (AuditRepository.create engine entry d1).0
              (tables (AuditRepository.create engine entry d1).1)
              (audit_outcomes engine sound entry d1))

    -- The transaction of `Confirm`.
    pub confirm_body_outcomes :
        (id : ℕ) (request : ConfirmCaseRequest F) (actor : Actor) (item : LocalizationCase F)
        (d : Db)
        → EndsIn engine
            (λ _. Unit {0})
            (λ _ t'. Written (confirmation id request.version request actor) (tables d) t')
            (confirm_body engine id request actor item)
            d
    unfolding confirm_body record_case transition transition_statement perform selects Affects
        IsEntryOf
    confirm_body_outcomes id request actor item d =
        let w : Write F = confirmation id request.version request actor in
        Written-Outcomes w
          (transition engine id request.version pending_review confirmed
            (confirm_updates request actor))
          _ d
          (guarded_outcomes engine sound _ _ (transition_guard id request.version pending_review)
            (transition_statement id request.version pending_review confirmed
              (confirm_updates request actor))
            d (λ stamp. refl))
          (λ stamp. (refl, refl, refl, refl))

    -- The transaction of `Close`.
    pub close_body_outcomes :
        (id : ℕ) (request : CloseCaseRequest) (actor : Actor) (item : LocalizationCase F) (now : ℕ)
        (d : Db)
        → EndsIn engine
            (λ _. Unit {0})
            (λ _ t'. Written (closing id request.version now) (tables d) t')
            (close_body engine id request actor item now)
            d
    unfolding close_body record_case transition transition_statement perform selects Affects
        IsEntryOf
    close_body_outcomes id request actor item now d =
        let w : Write F = closing id request.version now in
        Written-Outcomes w
          (transition engine id request.version confirmed closed
            (λ c. record c { closed_at = some now }))
          _ d
          (guarded_outcomes engine sound _ _ (transition_guard id request.version confirmed)
            (transition_statement id request.version confirmed closed
              (λ c. record c { closed_at = some now }))
            d (λ stamp. refl))
          (λ stamp. (refl, refl))
