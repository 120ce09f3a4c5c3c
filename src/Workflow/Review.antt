-- ===== src/Workflow/Review.antt =====
-- `Confirm` and `Close` as writes.
use gb_522_a16g.Base.{
  ℕ, ◌≡◌, refl, sym, ◌⊎◌, inl, inr, err, Result, GoError, true, false, not, ◌&&◌, ◌||◌, Bool, nil,
  app_error, forbidden,
}
use gb_522_a16g.Float.{Float64}
use gb_522_a16g.Constants.{closed, same_status, same_role, reviewer, admin}
use gb_522_a16g.Model.{LocalizationCase, Actor, CloseCaseRequest, ConfirmCaseRequest}
use gb_522_a16g.Store.{◌>>=◌, Tables, Action, Engine, IsSound, Ends, ◌>>◌, map_err, refuse_if}
use gb_522_a16g.Repository.Case.{get}
use gb_522_a16g.Service.Errors.{conflict}
use gb_522_a16g.Service.Case.Values.{get_error}
use gb_522_a16g.Service.Case.Load.{load_case, time_now}
use gb_522_a16g.Service.Case.Review.{confirm, close, confirm_body, close_body}
use gb_522_a16g.Workflow.Defs.{Write, confirmation, closing}
use gb_522_a16g.Workflow.Rules.{
  Read, EndsIn, outcomes_then, mapped-Outcomes, transaction_outcomes, get_outcomes,
}
use gb_522_a16g.Workflow.Writes.{Written, confirm_body_outcomes, close_body_outcomes}

one_of : (a b : Bool) → (not a && not b) ≡ false → (a || b) ≡ true
one_of true b h = refl
one_of false true h = refl
one_of false false h = cc

module _ {F : Type 0} (engine : Engine F) where
  open engine use {Db, tables}

  pub refuse_if-Ends :
      {A : Type 0} (Q : Result A → Tables F → Type 0) (test : Bool) (e : GoError) (f : Action Db A)
      (d : Db)
      → (test ≡ true → Q (err e) (tables d))
      → (test ≡ false → Ends engine Q f d)
      → Ends engine Q (refuse_if test e >> f) d
  refuse_if-Ends Q true e f d fails runs = fails refl
  refuse_if-Ends Q false e f d fails runs = runs refl

module _ {F : Type 0} ⦃fl : Float64 F⦄ (engine : Engine F) (sound : IsSound engine) where
  open engine use {Db, tables, transaction}

  pub load_case_outcomes :
      (id : ℕ) (d : Db)
      → EndsIn engine (λ t'. t' ≡ tables d) (Read id (tables d)) (load_case engine id) d
  unfolding load_case
  load_case_outcomes id d =
      mapped-Outcomes (λ t'. t' ≡ tables d) (Read id (tables d)) get_error (get engine id d).0
        (tables (get engine id d).1) (get_outcomes engine sound id d)

  pub get_keeps : (id : ℕ) (d : Db) → tables (get engine id d).1 ≡ tables d
  get_keeps id d = elim (get_outcomes engine sound id d) [
    | inl (e, h, same) ↦ same
    | inr (c, h, (same, found, is_it)) ↦ same
  ]

  -- A write in a transaction, and the case read again after it.
  saved_and_read :
      (f : GoError → GoError) (id : ℕ) (w : Write F) (t : Tables F) (body : Action Db (Unit {0}))
      (d : Db)
      → tables d ≡ t
      → ((d0 : Db) → EndsIn engine (λ _. Unit {0}) (λ _ t'. Written w (tables d0) t') body d0)
      → Ends engine
          (λ r t'. ((e : GoError) × (r ≡ err e) × (t' ≡ t)) ⊎ Written w t t')
          (map_err f (transaction body) >> get engine id)
          d
  saved_and_read f id w t body d at does =
      let Q = λ (r : Result (LocalizationCase F)) (t' : Tables F).
        ((e : GoError) × (r ≡ err e) × (t' ≡ t)) ⊎ Written w t t' in
      outcomes_then engine (λ t'. t' ≡ t) (λ _ t'. Written w t t') Q (map_err f (transaction body))
        (λ _. get engine id) d
        (mapped-Outcomes (λ t'. t' ≡ t) (λ _ t'. Written w t t') f (transaction body d).0
          (tables (transaction body d).1)
          (rw (sym at) (
            transaction_outcomes engine sound (λ _ t'. Written w (tables d) t') body d
              (λ d0 same. rw (sym same) (does d0)))))
        (λ e t' h. inl (e, refl, h)) (λ x d1 h. inr (rw (get_keeps id d1) h))

  -- `Confirm` changes the tables in one way only. Either it returns an error and leaves them as they
  -- were, or the actor is a reviewer or an admin and the pending case with the request's version was
  -- confirmed with its audit entry, in one transaction.
  pub confirm_writes :
      (id : ℕ) (request : ConfirmCaseRequest F) (actor : Actor) (d : Db)
      → Ends engine
          (λ r t'.
            ((e : GoError) × (r ≡ err e) × (t' ≡ tables d))
            ⊎ ((same_role actor.role reviewer || same_role actor.role admin ≡ true)
                × Written (confirmation id request.version request actor) (tables d) t'))
          (confirm engine id request actor)
          d
  unfolding confirm
  confirm_writes id request actor d =
      let w : Write F = confirmation id request.version request actor in
      let allowed = same_role actor.role reviewer || same_role actor.role admin in
      let Q = λ (r : Result (LocalizationCase F)) (t' : Tables F).
        ((e : GoError) × (r ≡ err e) × (t' ≡ tables d))
        ⊎ ((allowed ≡ true) × Written w (tables d) t') in
      let saving = conflict "case is not pending review or its version changed" in
      let finish : LocalizationCase F → Action Db (LocalizationCase F) = λ item.
        map_err saving (transaction (confirm_body engine id request actor item)) >> get engine id in
      let is_closed = conflict "closed cases cannot be modified" nil in
      let proceed : LocalizationCase F → Action Db (LocalizationCase F) =
        λ item. refuse_if (same_status item.case_status closed) is_closed >> finish item in
      let barred = app_error forbidden 403 "reviewer role is required to confirm a case" nil in
      refuse_if-Ends engine Q
        (not (same_role actor.role reviewer) && not (same_role actor.role admin)) barred
        (load_case engine id >>= proceed) d (λ h. inl (barred, refl, refl))
        (λ permitted.
          outcomes_then engine (λ t'. t' ≡ tables d) (Read id (tables d)) Q (load_case engine id)
            proceed d (load_case_outcomes id d) (λ e t' h. inl (e, refl, h))
            (λ item d1 (same, found, is_it).
              refuse_if-Ends engine Q (same_status item.case_status closed) is_closed (finish item)
                d1 (λ h. inl (is_closed, refl, same))
                (λ is_open.
                  elim (saved_and_read saving id w (tables d)
                    (confirm_body engine id request actor item) d1 same
                    (confirm_body_outcomes engine sound id request actor item)) [
                      | inl unchanged ↦ inl unchanged
                      | inr written ↦ inr (
                        one_of (same_role actor.role reviewer) (same_role actor.role admin)
                            permitted,
                        written,
                      )
                    ])))

  -- `Close` returns an error and leaves the tables as they were, or the confirmed case with the
  -- request's version was closed with its audit entry, in one transaction.
  pub close_writes :
      (id : ℕ) (request : CloseCaseRequest) (actor : Actor) (d : Db)
      → Ends engine
          (λ r t'.
            ((e : GoError) × (r ≡ err e) × (t' ≡ tables d))
            ⊎ ((now : ℕ) × Written (closing id request.version now) (tables d) t'))
          (close engine id request actor)
          d
  unfolding close
  close_writes id request actor d =
      let Q = λ (r : Result (LocalizationCase F)) (t' : Tables F).
        ((e : GoError) × (r ≡ err e) × (t' ≡ tables d))
        ⊎ ((now : ℕ) × Written (closing id request.version now) (tables d) t') in
      let saving = conflict "only a confirmed case with the current version can be closed" in
      let finish : LocalizationCase F → Action Db (LocalizationCase F) = λ item.
        time_now engine >>= λ now.
        map_err saving (transaction (close_body engine id request actor item now))
        >> get engine id in
      outcomes_then engine (λ t'. t' ≡ tables d) (Read id (tables d)) Q (load_case engine id) finish
        d (load_case_outcomes id d) (λ e t' h. inl (e, refl, h))
        (λ item d1 (same, found, is_it).
          let now = engine.now d1 in
          elim (saved_and_read saving id (closing id request.version now) (tables d)
            (close_body engine id request actor item now) d1 same
            (close_body_outcomes engine sound id request actor item now)) [
              | inl unchanged ↦ inl unchanged
              | inr written ↦ inr (now, written)
            ])
