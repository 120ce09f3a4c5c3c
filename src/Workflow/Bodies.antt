-- ===== src/Workflow/Bodies.antt =====
-- The transactions of `Create` and `Analyze`: each makes one write and its audit entry.
use gb_522_a16g.Base.{
  ℕ, ◌-◌, ◌≡◌, refl, sym, ◌∙◌, ap, inl, inr, List, [], ◌∷◌, Bool, true, false, Bool-cases, ltb,
  if◌then◌else◌, count_if, arith, GoError, error_text, wrapped, driver, ltb→lt,
}
use gb_522_a16g.Float.{Float64}
use gb_522_a16g.Constants.{draft, analyzing, pending_review}
use gb_522_a16g.Algorithm.Compare.{Difference}
use gb_522_a16g.Model.{LocalizationCase, CaseParameters, AuditLog, Actor, CreateCaseRequest}
use gb_522_a16g.Store.{
  Tables, Stamp, Action, Engine, IsFresh, IsSound, exec-Ends, map_err, ◌>>◌, pure,
}
use gb_522_a16g.Repository.Query.{update_where}
use gb_522_a16g.Repository.Case.{
  transition_guard, analyzing_guard, stale_guard, transition_statement, save_analysis_statement,
  recover_statement, create_case_statement, transition, save_analysis, recover_stale_analysis,
}
use gb_522_a16g.Repository.Case as CaseRepository
use gb_522_a16g.Repository.Audit.{create_audit_statement}
use gb_522_a16g.Repository.Audit as AuditRepository
use gb_522_a16g.Service.Case.Values.{analysis_lease_timeout, analysis_updates, new_case}
use gb_522_a16g.Service.Snapshot.{snapshot}
use gb_522_a16g.Service.Document.{case_value, no_value}
use gb_522_a16g.Service.Case.Load.{record_case}
use gb_522_a16g.Service.Case.Review.{create_body}
use gb_522_a16g.Service.Case.Analyze.{
  record_recovery, recover_body, start_body, failed_body, completed_body,
}
use gb_522_a16g.Workflow.Defs.{
  Write, creation, start, recovery, failure, completion, selects, Affects, IsEntryOf, perform,
}
use gb_522_a16g.Workflow.Rules.{
  transaction_outcomes, Changed, EndsIn, Outcomes, mapped-Outcomes, outcomes_then, audit_outcomes,
  exec_outcomes, guarded_outcomes, Outcomes-imp,
}
use gb_522_a16g.Workflow.Effects.{lease_length, Expired, Affects-Expired}
use gb_522_a16g.Workflow.Writes.{Written, Written-Outcomes}

module _ {F : Type 0} ⦃fl : Float64 F⦄ where
  -- What the release of a lease leaves: if the case was last written longer ago than a lease lasts, the
  -- write, else nothing.
  abbrev pub Released : Engine F → ℕ → Tables F → Bool → Tables F → Type 0
  Released engine id t true t' =
      (d0 : engine.Db) × (engine.tables d0 ≡ t)
      × Expired id (engine.now d0) t
      × Written (recovery id (engine.now d0 - lease_length)) t t'
  Released engine id t false t' = t' ≡ t

module _ {F : Type 0} ⦃fl : Float64 F⦄ (engine : Engine F) (sound : IsSound engine) where
  open engine use {Db, tables, exec, transaction}

  -- The body makes the write, or fails.
  abbrev pub Makes : {A : Type 0} → Write F → Action Db A → Type 0
  Makes w body = (d : Db) → EndsIn engine (λ _. Unit {0}) (λ _ t'. Written w (tables d) t') body d

  pub start_body-Makes :
      (actor : Actor) (item : LocalizationCase F)
      → Makes (start item.id item.version) (start_body engine actor item)
  unfolding start_body record_case transition transition_statement perform selects Affects IsEntryOf
  start_body-Makes actor item d =
      Written-Outcomes engine sound (start item.id item.version)
        (transition engine item.id item.version draft analyzing
          (λ c. record c { analysis_error = "" }))
        _ d
        (guarded_outcomes engine sound _ _ (transition_guard item.id item.version draft)
          (transition_statement item.id item.version draft analyzing
            (λ c. record c { analysis_error = "" }))
          d (λ stamp. refl))
        (λ stamp. (refl, refl))

  pub failed_body-Makes :
      (actor : Actor) (item : LocalizationCase F) (e : GoError)
      → Makes (failure item.id (error_text e)) (failed_body engine actor item e)
  unfolding failed_body record_case save_analysis save_analysis_statement perform selects Affects
      IsEntryOf
  failed_body-Makes actor item e d =
      Written-Outcomes engine sound (failure item.id (error_text e))
        (save_analysis engine item.id draft (λ c. record c { analysis_error = error_text e })) _ d
        (guarded_outcomes engine sound _ _ (analyzing_guard item.id)
          (save_analysis_statement item.id draft (λ c. record c { analysis_error = error_text e }))
          d (λ stamp. refl))
        (λ stamp. (refl, refl))

  pub completed_body-Makes :
      (actor : Actor) (item : LocalizationCase F) (parameters : CaseParameters F)
      (differences : List (Difference F))
      → Makes
          (completion item.id differences parameters)
          (completed_body engine actor item parameters differences)
  unfolding completed_body record_case save_analysis save_analysis_statement perform selects Affects
      IsEntryOf
  completed_body-Makes actor item parameters differences d =
      Written-Outcomes engine sound (completion item.id differences parameters)
        (save_analysis engine item.id pending_review (analysis_updates differences parameters)) _ d
        (guarded_outcomes engine sound _ _ (analyzing_guard item.id)
          (save_analysis_statement item.id pending_review (analysis_updates differences parameters))
          d (λ stamp. refl))
        (λ stamp. (refl, refl))

  -- An update that selects no row changes nothing.
  update_where-none :
      (p : LocalizationCase F → Bool) (f : LocalizationCase F → LocalizationCase F)
      (rows : List (LocalizationCase F))
      → count_if p rows ≡ 0
      → update_where p f rows ≡ rows
  update_where-none p f [] h = refl
  update_where-none p f (c ∷ rows) h = elim (Bool-cases (p c)) [
    | inl selected ↦ absurd (ground arith)
    | inr passed ↦ rw passed (ap (◌∷◌ c) (update_where-none p f rows (ground arith)))
  ]

  recover_statement-none :
      (id cutoff : ℕ) (stamp : Stamp) (t : Tables F)
      → count_if (stale_guard id cutoff) t.cases ≡ 0
      → (recover_statement id cutoff stamp t).1 ≡ t
  unfolding recover_statement
  recover_statement-none id cutoff stamp t h =
      ap (λ rows. record t { cases = rows }) (update_where-none (stale_guard id cutoff) _ t.cases h)

  -- The audit entry of a write that has run, and a value after it.
  audited :
      {A : Type 0} (w : Write F) (stamp : Stamp) (entry : AuditLog F) (a : A) (t : Tables F)
      (d : Db)
      → IsFresh stamp t
      → Affects w t
      → IsEntryOf w stamp entry
      → tables d ≡ perform w stamp t
      → EndsIn engine
          (λ _. Unit {0})
          (λ x t'. (x ≡ a) × Written w t t')
          (AuditRepository.create engine entry >> pure a)
          d
  unfolding Written
  audited w stamp entry a t d fresh affects names at =
      outcomes_then engine (λ t'. t' ≡ tables d)
        (λ _ t'. Changed (create_audit_statement entry) (tables d) t')
        (Outcomes (λ _. Unit {0}) (λ x t'. (x ≡ a) × Written w t t'))
        (AuditRepository.create engine entry) (λ _. pure a) d (audit_outcomes engine sound entry d)
        (λ e t' h. inl (e, refl, tt))
        (λ x d1 (later, later_fresh, e).
          inr (a, refl, (refl, (stamp, entry, later, fresh, affects, names, e ∙ rw at refl))))

  release_recorded :
      (id : ℕ) (actor : Actor) (item : LocalizationCase F) (stamp : Stamp) (d0 : Db)
      → IsFresh stamp (tables d0)
      → (recovered : Bool)
      → recovered
        ≡ ltb 0 (count_if (stale_guard id (engine.now d0 - lease_length)) (tables d0).cases)
      → (d : Db)
      → tables d ≡ (recover_statement id (engine.now d0 - lease_length) stamp (tables d0)).1
      → EndsIn engine
          (λ _. Unit {0})
          (λ b t'. Released engine id (tables d0) b t')
          (if recovered then record_recovery engine id actor item else pure false)
          d
  unfolding record_recovery record_case perform selects Affects IsEntryOf
  release_recorded id actor item stamp d0 fresh true known d at =
      let t = tables d0 in
      let w : Write F = recovery id (engine.now d0 - lease_length) in
      let m = record_recovery engine id actor item in
      Outcomes-imp (λ _. Unit {0}) (λ _. Unit {0}) (λ x t'. (x ≡ true) × Written w t t')
        (λ b t'. Released engine id t b t') (λ t' h. h)
        (λ x t' (e, written).
          rw e (d0, refl, Affects-Expired id (engine.now d0) t (ltb→lt 0 _ (sym known)), written))
        (m d).0 (tables (m d).1)
        (audited w stamp _ true t d fresh (ltb→lt 0 _ (sym known)) (refl, refl) at)
  release_recorded id actor item stamp d0 fresh false known d at =
      let cutoff = engine.now d0 - lease_length in
      inr (false, refl, at ∙ recover_statement-none id cutoff stamp (tables d0) (ground arith))

  pub recover_body_outcomes :
      (id : ℕ) (actor : Actor) (item : LocalizationCase F) (d : Db)
      → EndsIn engine
          (λ _. Unit {0})
          (λ b t'. Released engine id (tables d) b t')
          (recover_body engine id actor item)
          d
  unfolding recover_body recover_stale_analysis recover_statement
  recover_body_outcomes id actor item d =
      let cutoff = engine.now d - analysis_lease_timeout in
      let count = count_if (stale_guard id cutoff) (tables d).cases in
      let P = λ (b : Bool) (t' : Tables F).
        (b ≡ ltb 0 count) × Changed (recover_statement id cutoff) (tables d) t' in
      let Q = Outcomes (λ _. Unit {0}) (λ b t'. Released engine id (tables d) b t') in
      outcomes_then engine (λ _. Unit {0}) P Q (recover_stale_analysis engine id cutoff)
        (λ recovered. if recovered then record_recovery engine id actor item else pure false) d
        (outcomes_then engine (λ t'. t' ≡ tables d)
          (λ x t'. (x ≡ count) × Changed (recover_statement id cutoff) (tables d) t')
          (Outcomes (λ _. Unit {0}) P)
          (map_err (wrapped "recover stale case analysis") (exec (recover_statement id cutoff)))
          (λ rows. pure (ltb 0 rows)) d
          (exec_outcomes engine sound (wrapped "recover stale case analysis")
            (recover_statement id cutoff) count d (λ stamp. refl))
          (λ e t' h. inl (e, refl, tt))
          (λ rows d' (n, changed). inr (ltb 0 rows, refl, (ap (ltb 0) n, changed))))
        (λ e t' h. inl (e, refl, tt))
        (λ recovered d1 (known, (stamp, fresh, at)).
          release_recorded id actor item stamp d fresh recovered known d1 at)

  pub create_body_outcomes :
      (request : CreateCaseRequest F) (actor : Actor)
      → Makes (creation request actor) (create_body engine request actor)
  unfolding create_body CaseRepository.create create_case_statement record_case perform Affects
      IsEntryOf
  create_body_outcomes request actor d =
      let row = new_case request actor in
      let P = λ (item : LocalizationCase F) (t' : Tables F).
        (stamp : Stamp) × IsFresh stamp (tables d)
        × (t' ≡ (create_case_statement row stamp (tables d)).1)
        × (item.id ≡ stamp.fresh_case) in
      let w : Write F = creation request actor in
      outcomes_then engine (λ t'. t' ≡ tables d) P
        (Outcomes (λ _. Unit {0}) (λ _ t'. Written w (tables d) t'))
        (CaseRepository.create engine row)
        (λ item.
          record_case engine actor "case.created" item.id item.route_id no_value
            (snapshot (case_value item))
          >> pure item)
        d
        (mapped-Outcomes (λ t'. t' ≡ tables d) P (wrapped "create localization case")
          (exec (create_case_statement row) d).0 (tables (exec (create_case_statement row) d).1)
          (exec-Ends engine sound (Outcomes (λ t'. t' ≡ tables d) P) (create_case_statement row) d
            (λ m. inl (driver m, refl, refl))
            (λ stamp fresh. inr (_, refl, (stamp, fresh, refl, refl)))))
        (λ e t' h. inl (e, refl, tt))
        (λ item d1 (stamp, fresh, at, named).
          let m =
            record_case engine actor "case.created" item.id item.route_id no_value
              (snapshot (case_value item))
            >> pure item in
          Outcomes-imp (λ _. Unit {0}) (λ _. Unit {0})
            (λ x t'. (x ≡ item) × Written w (tables d) t') (λ _ t'. Written w (tables d) t')
            (λ t' h. h) (λ x t' h. h.1) (m d1).0 (tables (m d1).1)
            (audited w stamp _ item (tables d) d1 fresh tt (refl, named, refl, refl) at))

  -- A transaction of one write.
  pub Makes-Outcomes :
      {A : Type 0} (f : GoError → GoError) (w : Write F) (body : Action Db A) (t : Tables F)
      (d : Db)
      → Makes w body
      → tables d ≡ t
      → EndsIn engine (λ t'. t' ≡ t) (λ _ t'. Written w t t') (map_err f (transaction body)) d
  Makes-Outcomes f w body t d makes at =
      mapped-Outcomes (λ t'. t' ≡ t) (λ _ t'. Written w t t') f (transaction body d).0
        (tables (transaction body d).1)
        (rw (sym at) (
          transaction_outcomes engine sound (λ _ t'. Written w (tables d) t') body d
            (λ d0 same. rw (sym same) (makes d0))))
