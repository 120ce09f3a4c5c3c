-- ===== src/Service/Case/Review.antt =====
-- internal/service/case_service.go: `Create`, `Confirm` and `Close`.
use gb_522_a16g.Base.{ℕ, some, ◌&&◌, not, ◌==◌, if◌then◌else◌, app_error, nil, forbidden}
use gb_522_a16g.Float.{Float64}
use gb_522_a16g.Constants.{
  pending_review, confirmed, closed, same_status, reviewer, admin, same_role,
}
use gb_522_a16g.Json.{int, text, obj, end, field}
use gb_522_a16g.Model.{
  LocalizationCase, Actor, CreateCaseRequest, ConfirmCaseRequest, CloseCaseRequest,
}
use gb_522_a16g.Store.{◌>>=◌, ◌>>◌, Action, Engine, pure, fail, map_err, refuse_if}
use gb_522_a16g.Service.Errors.{invalid, conflict, internal}
use gb_522_a16g.Service.Snapshot.{snapshot}
use gb_522_a16g.Service.Document.{case_value, confirm_value, no_value}
use gb_522_a16g.Repository.Case as CaseRepository
use gb_522_a16g.Repository.Trace as TraceRepository
use gb_522_a16g.Service.Case.Values.{new_case, confirm_updates}
use gb_522_a16g.Service.Case.Load.{time_now, record_case, load_case}

module _ {F : Type 0} ⦃fl : Float64 F⦄ (engine : Engine F) where
  open engine use {Db, transaction}

  -- One round of the loop over the two traces.
  unfoldable pub check_trace : ℕ → ℕ → Action Db (Unit {0})
  check_trace route_id trace_id = do
    belongs ←
        map_err (internal "validate case traces failed")
          (TraceRepository.belongs_to_route engine trace_id route_id)
    if belongs then pure tt else fail (invalid "both traces must belong to the selected route" nil)

  -- The transaction of `Create`.
  unfoldable pub create_body : CreateCaseRequest F → Actor → Action Db (LocalizationCase F)
  create_body request actor = do
    item ← CaseRepository.create engine (new_case request actor)
    record_case engine actor "case.created" item.id item.route_id no_value
        (snapshot (case_value item))
    pure item

  unfoldable pub create : CreateCaseRequest F → Actor → Action Db (LocalizationCase F)
  create request actor = do
    refuse_if (request.baseline_trace_id == request.current_trace_id)
        (invalid "baseline and current traces must differ" nil)
    check_trace request.route_id request.baseline_trace_id
    check_trace request.route_id request.current_trace_id
    map_err (internal "create case failed") (transaction (create_body request actor))

  -- The transaction of `Confirm`.
  unfoldable pub confirm_body :
      ℕ → ConfirmCaseRequest F → Actor → LocalizationCase F → Action Db (Unit {0})
  confirm_body id request actor item = do
    CaseRepository.transition engine id request.version pending_review confirmed
        (confirm_updates request actor)
    record_case engine actor "case.confirmed" id item.route_id (snapshot (case_value item))
        (snapshot (confirm_value request))

  unfoldable pub confirm : ℕ → ConfirmCaseRequest F → Actor → Action Db (LocalizationCase F)
  confirm id request actor = do
    refuse_if (not (same_role actor.role reviewer) && not (same_role actor.role admin))
        (app_error forbidden 403 "reviewer role is required to confirm a case" nil)
    item ← load_case engine id
    refuse_if (same_status item.case_status closed) (conflict "closed cases cannot be modified" nil)
    map_err (conflict "case is not pending review or its version changed")
        (transaction (confirm_body id request actor item))
    CaseRepository.get engine id

  -- The transaction of `Close`.
  unfoldable pub close_body :
      ℕ → CloseCaseRequest → Actor → LocalizationCase F → ℕ → Action Db (Unit {0})
  close_body id request actor item now = do
    CaseRepository.transition engine id request.version confirmed closed
        (λ c. record c { closed_at = some now })
    record_case engine actor "case.closed" id item.route_id (snapshot (case_value item))
        (snapshot (obj (field "closed_at" (int now) (field "status" (text "closed") end))))

  unfoldable pub close : ℕ → CloseCaseRequest → Actor → Action Db (LocalizationCase F)
  close id request actor = do
    item ← load_case engine id
    now ← time_now engine
    map_err (conflict "only a confirmed case with the current version can be closed")
        (transaction (close_body id request actor item now))
    CaseRepository.get engine id
