-- ===== src/Workflow/Analyze.antt =====
-- `Analyze` as a run of writes.
use gb_522_a16g.Base.{
  ℕ, ◌+◌, ◌≡◌, refl, sym, ◌⊎◌, inl, inr, List, not, ◌==◌, ok, GoError, nil, app_error,
  algorithm_input, error_text,
}
use gb_522_a16g.Float.{Float64}
use gb_522_a16g.Constants.{analyzing, closed, same_status, can_transition}
use gb_522_a16g.Algorithm.Compare.{Difference}
use gb_522_a16g.Model.{LocalizationCase, CaseParameters, Actor, AnalyzeCaseRequest}
use gb_522_a16g.Store.{
  Tables, Action, Engine, IsSound, Ends, map_err, ◌>>=◌, ◌>>◌, on_error, fail, refuse_if, ignore,
}
use gb_522_a16g.Store.Keeps.{on_error-Keeps}
use gb_522_a16g.Repository.Query.{first}
use gb_522_a16g.Repository.Case.{get}
use gb_522_a16g.Service.Errors.{conflict}
use gb_522_a16g.Service.Case.Values.{analysis_parameters}
use gb_522_a16g.Service.Case.Load.{load_case}
use gb_522_a16g.Service.Case.Analyze.{
  recover_if_analyzing, start_body, compare_events, failed_body, completed_body, save_failure,
  save_differences, analyze,
}
use gb_522_a16g.Workflow.Defs.{Write, start, failure, completion}
use gb_522_a16g.Workflow.Rules.{Read, ignore_outcomes, outcomes_then, transaction_outcomes}
use gb_522_a16g.Workflow.Writes.{Written}
use gb_522_a16g.Workflow.Review.{refuse_if-Ends, load_case_outcomes, get_keeps}
use gb_522_a16g.Workflow.Compared.{Compared, compare_events-Keeps, compare_events-ok}
use gb_522_a16g.Workflow.Bodies.{
  Makes-Outcomes, start_body-Makes, failed_body-Makes, completed_body-Makes,
}
use gb_522_a16g.Workflow.Analysed.{Ready, Prepared, Taken, Begun, Analysed, parameters_lem}
use gb_522_a16g.Workflow.Recovered.{recover_if_analyzing_outcomes}

module _ {F : Type 0} ⦃fl : Float64 F⦄ where
  module _ (engine : Engine F) (sound : IsSound engine) where
    open engine use {Db, tables, exec, transaction}

    saved_outcomes :
        (id : ℕ) (request : AnalyzeCaseRequest F) (actor : Actor)
        (item started : LocalizationCase F) (parameters : CaseParameters F)
        (differences : List (Difference F)) (t v : Tables F) (d : Db)
        → started.id ≡ id
        → Taken engine id item t v
        → parameters ≡ analysis_parameters request item
        → Compared item parameters v differences
        → tables d ≡ v
        → Ends engine
            (Analysed engine id request t)
            (save_differences engine id actor started parameters differences)
            d
    unfolding save_differences
    saved_outcomes id request actor item started parameters differences t v d is_it taken chosen
          compared at =
        let w : Write F = completion started.id differences parameters in
        let saving = conflict "case changed while analysis was saved" in
        let body = completed_body engine actor started parameters differences in
        outcomes_then engine (λ t'. t' ≡ v) (λ _ t'. Written w v t') (Analysed engine id request t)
          (map_err saving (transaction body)) (λ _. get engine id) d
          (Makes-Outcomes engine sound saving w body v d
            (completed_body-Makes engine sound actor started parameters differences) at)
          (λ e t' h. inr ((λ c k. cc), inr (inl (item, rw h taken))))
          (λ x d1 written. inl (
            v,
            item,
            differences,
            taken,
            rw (sym chosen) compared,
            rw (get_keeps engine sound id d1, sym is_it, sym chosen) written,
          ))

    failed_outcomes :
        (id : ℕ) (request : AnalyzeCaseRequest F) (actor : Actor) (item : LocalizationCase F)
        (e : GoError) (t v : Tables F) (d : Db)
        → item.id ≡ id
        → Begun engine id t v
        → tables d ≡ v
        → Ends engine (Analysed engine id request t) (save_failure engine actor item e) d
    unfolding save_failure
    failed_outcomes id request actor item e t v d is_it begun at =
        let w : Write F = failure item.id (error_text e) in
        let body = failed_body engine actor item e in
        outcomes_then engine (λ t'. t' ≡ v) (λ _ t'. (t' ≡ v) ⊎ (Unit {0} × Written w v t'))
          (Analysed engine id request t) (ignore (transaction body))
          (λ _. fail (app_error algorithm_input 422 "case analysis could not be completed" e)) d
          (ignore_outcomes engine (λ t'. t' ≡ v) (λ _ t'. Written w v t') (transaction body) d
            (rw (sym at) (
              transaction_outcomes engine sound (λ _ t'. Written w (tables d) t') body d
                (λ d0 same. rw (sym same) (failed_body-Makes engine sound actor item e d0)))))
          (λ e' t' h. inr ((λ c k. cc), inr (inl (rw h begun))))
          (λ x d1 left. elim left [
            | inl same ↦ inr ((λ c k. cc), inr (inl (rw same begun)))
            | inr (y, written) ↦
                inr ((λ c k. cc), inr (inr (v, error_text e, begun, rw (sym is_it) written)))
          ])

    -- The comparison and what is saved of it.
    abbrev outcome :
        ℕ → AnalyzeCaseRequest F → Actor → LocalizationCase F → Action Db (LocalizationCase F)
    outcome id request actor item =
        let started = record item { case_status = analyzing; version = item.version + 1 } in
        let parameters = analysis_parameters request started in
        on_error (compare_events engine started parameters) (save_failure engine actor started)
          (save_differences engine id actor started parameters)

    -- `Analyze` from the taking of the lease on.
    abbrev lease :
        ℕ → AnalyzeCaseRequest F → Actor → LocalizationCase F → Action Db (LocalizationCase F)
    lease id request actor item =
        map_err (conflict "case changed while analysis was starting")
          (transaction (start_body engine actor item))
        >> outcome id request actor item

    lease_outcomes :
        (id : ℕ) (request : AnalyzeCaseRequest F) (actor : Actor) (item : LocalizationCase F)
        (t u : Tables F) (d : Db)
        → item.id ≡ id
        → first (λ (x : LocalizationCase F). x.id == id) u.cases ≡ ok item
        → Prepared engine id t u
        → tables d ≡ u
        → Ends engine (Analysed engine id request t) (lease id request actor item) d
    lease_outcomes id request actor item t u d is_it found prepared at =
        let w : Write F = start item.id item.version in
        let started = record item { case_status = analyzing; version = item.version + 1 } in
        let parameters = analysis_parameters request started in
        let taking = conflict "case changed while analysis was starting" in
        outcomes_then engine (λ t'. t' ≡ u) (λ _ t'. Written w u t') (Analysed engine id request t)
          (map_err taking (transaction (start_body engine actor item)))
          (λ _. outcome id request actor item) d
          (Makes-Outcomes engine sound taking w (start_body engine actor item) u d
            (start_body-Makes engine sound actor item) at)
          (λ e t' h. inr ((λ c k. cc), inl (rw h prepared)))
          (λ x d1 written.
            let taken : Taken engine id item t (tables d1) =
              (u, prepared, found, rw (sym is_it) written) in
            let begun : Begun engine id t (tables d1) = (item, taken) in
            let chosen = parameters_lem request item analyzing (item.version + 1) in
            on_error-Keeps engine (Analysed engine id request t)
              (compare_events engine started parameters) (save_failure engine actor started)
              (save_differences engine id actor started parameters) (tables d1) d1
              (compare_events-Keeps engine sound started parameters) refl
              (λ e r d2 same.
                failed_outcomes id request actor started e t (tables d1) d2 is_it begun same)
              (λ ds r d2 same.
                saved_outcomes id request actor item started parameters ds t (tables d1) d2 is_it
                  taken chosen (compare_events-ok engine sound started parameters d1 ds r) same)
              (inr ((λ c k. cc), inr (inl begun))))

    pub analyze_writes :
        (id : ℕ) (request : AnalyzeCaseRequest F) (actor : Actor) (d : Db)
        → Ends engine (Analysed engine id request (tables d)) (analyze engine id request actor) d
    unfolding analyze
    analyze_writes id request actor d =
        let Q = Analysed engine id request (tables d) in
        let is_closed = conflict "closed cases cannot be analyzed" nil in
        let not_draft = conflict "case must be in draft before analysis" nil in
        let second : LocalizationCase F → Action Db (LocalizationCase F) = λ item.
          refuse_if (not (can_transition item.case_status analyzing)) not_draft
          >> lease id request actor item in
        let proceed : LocalizationCase F → Action Db (LocalizationCase F) =
          λ item. refuse_if (same_status item.case_status closed) is_closed >> second item in
        outcomes_then engine (λ t'. t' ≡ tables d) (Read id (tables d)) Q (load_case engine id)
          (λ found. recover_if_analyzing engine id actor found >>= proceed) d
          (load_case_outcomes engine sound id d) (λ e t' h. inr ((λ c k. cc), inl (inl h)))
          (λ found d1 (same, is_found, found_it).
            outcomes_then engine (Prepared engine id (tables d)) (Ready engine id (tables d)) Q
              (recover_if_analyzing engine id actor found) proceed d1
              (recover_if_analyzing_outcomes engine sound id actor found (tables d) d1 same is_found
                found_it)
              (λ e t' h. inr ((λ c k. cc), inl h))
              (λ item d2 (prepared, held, is_it).
                refuse_if-Ends engine Q (same_status item.case_status closed) is_closed
                  (second item) d2 (λ h. inr ((λ c k. cc), inl prepared))
                  (λ is_open.
                    refuse_if-Ends engine Q (not (can_transition item.case_status analyzing))
                      not_draft (lease id request actor item) d2
                      (λ h. inr ((λ c k. cc), inl prepared))
                      (λ may.
                        lease_outcomes id request actor item (tables d) (tables d2) d2 is_it held
                          prepared refl))))
