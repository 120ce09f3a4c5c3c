-- ===== src/Service/Case/Analyze.antt =====
-- internal/service/case_service.go: `Analyze` and `compareEvents`.
use gb_522_a16g.Base.{
  ℕ, ◌+◌, ◌-◌, List, map, Bool, true, false, ◌||◌, not, ◌==◌, if◌then◌else◌, GoError, app_error,
  errorf, wrapped, nil, algorithm_input, error_text, length,
}
use gb_522_a16g.Float.{Float64}
use gb_522_a16g.Constants.{draft, analyzing, pending_review, closed, same_status, can_transition}
use gb_522_a16g.Json.{int, text, obj, end, field}
use gb_522_a16g.Algorithm.Compare.{Difference, compare_baseline}
use gb_522_a16g.Model.{LocalizationCase, CaseParameters, Actor, AnalyzeCaseRequest}
use gb_522_a16g.Store.{
  ◌>>=◌, ◌>>◌, Action, Engine, pure, fail, map_err, on_error, ignore, refuse_if, lift,
}
use gb_522_a16g.Service.Errors.{conflict, internal}
use gb_522_a16g.Service.Snapshot.{snapshot}
use gb_522_a16g.Service.Document.{status_value, parameters_value, no_value}
use gb_522_a16g.Repository.Case as CaseRepository
use gb_522_a16g.Repository.Event as EventRepository
use gb_522_a16g.Service.Case.Values.{
  analysis_lease_timeout, analysis_parameters, comparable, analysis_updates,
}
use gb_522_a16g.Service.Case.Load.{time_now, record_case, load_case}

module _ {F : Type 0} ⦃fl : Float64 F⦄ (engine : Engine F) where
  open engine use {Db, transaction}

  -- The audit entry of a released lease.
  unfoldable pub record_recovery : ℕ → Actor → LocalizationCase F → Action Db Bool
  record_recovery id actor item = do
    record_case engine actor "case.analysis_recovered" id item.route_id
        (snapshot (status_value analyzing))
        (snapshot
          (obj (field "reason" (text "worker_expired") (field "status" (text "draft") end))))
    pure true

  -- The transaction that releases a lease of more than ten minutes.
  unfoldable pub recover_body : ℕ → Actor → LocalizationCase F → Action Db Bool
  recover_body id actor item = do
    now ← time_now engine
    recovered ← CaseRepository.recover_stale_analysis engine id (now - analysis_lease_timeout)
    if recovered then record_recovery id actor item else pure false

  unfoldable pub recover_and_reload :
      ℕ → Actor → LocalizationCase F → Action Db (LocalizationCase F)
  recover_and_reload id actor item = do
    recovered ←
        map_err (internal "recover interrupted analysis failed")
          (transaction (recover_body id actor item))
    if recovered
        then map_err (internal "reload recovered case failed") (CaseRepository.get engine id)
        else pure item

  -- The case to analyse: reloaded if its lease was released.
  unfoldable pub recover_if_analyzing :
      ℕ → Actor → LocalizationCase F → Action Db (LocalizationCase F)
  recover_if_analyzing id actor item =
      if same_status item.case_status analyzing then recover_and_reload id actor item else pure item

  -- The transaction that takes the lease.
  unfoldable pub start_body : Actor → LocalizationCase F → Action Db (Unit {0})
  start_body actor item = do
    CaseRepository.transition engine item.id item.version draft analyzing
        (λ c. record c { analysis_error = "" })
    record_case engine actor "case.analysis_started" item.id item.route_id
        (snapshot (status_value item.case_status)) (snapshot (status_value analyzing))

  unfoldable pub compare_events :
      LocalizationCase F → CaseParameters F → Action Db (List (Difference F))
  compare_events item parameters = do
    baseline ←
        map_err (wrapped "load baseline events")
          (EventRepository.for_trace engine item.baseline_trace_id)
    current ←
        map_err (wrapped "load current events")
          (EventRepository.for_trace engine item.current_trace_id)
    refuse_if (length baseline == 0 || length current == 0)
        (errorf "both traces require detected events")
    lift (
        compare_baseline (map comparable baseline) (map comparable current)
          parameters.distance_tolerance_m parameters.loss_increase_db)

  -- The transaction that returns a case whose analysis failed to the draft state.
  unfoldable pub failed_body : Actor → LocalizationCase F → GoError → Action Db (Unit {0})
  failed_body actor item e = do
    CaseRepository.save_analysis engine item.id draft
        (λ c. record c { analysis_error = error_text e })
    record_case engine actor "case.analysis_failed" item.id item.route_id no_value
        (snapshot (obj (field "error" (text (error_text e)) end)))

  -- The transaction that hands a finished analysis to the review.
  unfoldable pub completed_body :
      Actor → LocalizationCase F → CaseParameters F → List (Difference F) → Action Db (Unit {0})
  completed_body actor item parameters differences = do
    CaseRepository.save_analysis engine item.id pending_review
        (analysis_updates differences parameters)
    record_case engine actor "case.analysis_completed" item.id item.route_id no_value (
        snapshot (
          obj (
            field "differences" (int (length differences))
              (field "parameters" (parameters_value parameters) end))))

  -- What `Analyze` does with the outcome of the comparison.
  unfoldable pub save_failure :
      Actor → LocalizationCase F → GoError → Action Db (LocalizationCase F)
  save_failure actor item e = do
    ignore (transaction (failed_body actor item e))
    fail (app_error algorithm_input 422 "case analysis could not be completed" e)

  unfoldable pub save_differences :
      ℕ
      → Actor
      → LocalizationCase F
      → CaseParameters F
      → List (Difference F)
      → Action Db (LocalizationCase F)
  save_differences id actor item parameters differences = do
    map_err (conflict "case changed while analysis was saved")
        (transaction (completed_body actor item parameters differences))
    CaseRepository.get engine id

  unfoldable pub analyze : ℕ → AnalyzeCaseRequest F → Actor → Action Db (LocalizationCase F)
  analyze id request actor = do
    found ← load_case engine id
    item ← recover_if_analyzing id actor found
    refuse_if (same_status item.case_status closed) (conflict "closed cases cannot be analyzed" nil)
    refuse_if (not (can_transition item.case_status analyzing))
        (conflict "case must be in draft before analysis" nil)
    map_err (conflict "case changed while analysis was starting")
        (transaction (start_body actor item))
    let started = record item { case_status = analyzing; version = item.version + 1 }
    let parameters = analysis_parameters request started
    on_error (compare_events started parameters) (save_failure actor started)
        (save_differences id actor started parameters)
