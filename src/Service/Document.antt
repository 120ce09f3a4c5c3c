-- ===== src/Service/Document.antt =====
-- The documents that the services put into the audit log: the JSON forms of a case and of the
-- requests, with the keys of the struct tags, and the entry itself.
use gb_522_a16g.Base.{ℕ, String, Option, none, some, List, [], ◌∷◌}
use gb_522_a16g.Constants.{CaseStatus, draft, analyzing, pending_review, confirmed, closed, other}
use gb_522_a16g.Json.{
  Value, null, unreadable, num, int, text, arr, obj, Items, empty, item, Fields, end, field, Column,
  blank, malformed, encoded,
}
use gb_522_a16g.Algorithm.Compare.{Difference, Kind, disappeared, loss_increased, new}
use gb_522_a16g.Model.{LocalizationCase, CaseParameters, ConfirmCaseRequest, AuditLog, Actor}

abbrev pub status_name : CaseStatus → String
status_name draft = "draft"
status_name analyzing = "analyzing"
status_name pending_review = "pending_review"
status_name confirmed = "confirmed"
status_name closed = "closed"
status_name (other s) = s

abbrev pub kind_name : Kind → String
kind_name disappeared = "disappeared"
kind_name loss_increased = "loss_increased"
kind_name new = "new"

module _ {F : Type 0} where
  abbrev pub optional : {A : Type 0} → (A → Value F) → Option A → Value F
  optional f none = null
  optional f (some a) = f a

  -- `omitempty`
  abbrev unless_none : String → Option ℕ → Fields F → Fields F
  unless_none key none rest = rest
  unless_none key (some n) rest = field key (int n) rest

  abbrev pub column : {A : Type 0} → (A → Value F) → Column A → Value F
  column f blank = null
  column f malformed = unreadable
  column f (encoded a) = f a

  abbrev pub parameters_value : CaseParameters F → Value F
  parameters_value p = obj (
      field "distance_tolerance_m" (num p.distance_tolerance_m)
        (field "loss_increase_db" (num p.loss_increase_db) end))

  abbrev pub difference_value : Difference F → Value F
  difference_value d = obj (
      field "kind" (text (kind_name d.kind)) (
        unless_none "baseline_event_id" d.baseline_event_id (
          unless_none "current_event_id" d.current_event_id (
            field "distance_m" (num d.distance_m) (
              field "loss_delta_db" (num d.loss_delta_db)
                (field "confidence" (num d.confidence) end))))))

  abbrev pub items_of : {A : Type 0} → (A → Value F) → List A → Items F
  items_of f [] = empty
  items_of f (x ∷ xs) = item (f x) (items_of f xs)

  abbrev pub case_value : LocalizationCase F → Value F
  case_value c = obj (
      field "id" (int c.id) (
        field "route_id" (int c.route_id) (
          field "baseline_trace_id" (int c.baseline_trace_id) (
            field "current_trace_id" (int c.current_trace_id) (
              field "case_status" (text (status_name c.case_status)) (
                field "estimated_distance_m" (optional num c.estimated_distance_m) (
                  field "uncertainty_m" (optional num c.uncertainty_m) (
                    field "conclusion" (text c.conclusion) (
                      field "reviewer_id" (optional int c.reviewer_id) (
                        field "closed_at" (optional int c.closed_at) (
                          field "analysis_error" (text c.analysis_error) (
                            field "parameters_json" (column parameters_value c.parameters_json) (
                              field "differences_json"
                                (column (λ ds. arr (items_of difference_value ds))
                                  c.differences_json)
                                (field "version" (int c.version) (
                                  field "created_by" (int c.created_by) (
                                    field "created_at" (int c.created_at)
                                      (field "updated_at" (int c.updated_at) end)))))))))))))))))

  abbrev pub status_value : CaseStatus → Value F
  status_value s = obj (field "status" (text (status_name s)) end)

  abbrev pub confirm_value : ConfirmCaseRequest F → Value F
  confirm_value r = obj (
      field "conclusion" (text r.conclusion) (
        field "estimated_distance_m" (num r.estimated_distance_m)
          (field "uncertainty_m" (num r.uncertainty_m) (field "version" (int r.version) end))))

  -- `"{}"`
  abbrev pub no_value : Value F
  no_value = obj end

  -- `audit` of route_service.go; the database fills in the id and the time.
  abbrev pub audit : Actor → String → String → ℕ → Option ℕ → Value F → Value F → AuditLog F
  audit actor action resource resource_id route_id before after = record {
    id = 0;
    actor_id = actor.id;
    actor_name = actor.username;
    action = action;
    resource_type = resource;
    resource_id = resource_id;
    route_id = route_id;
    request_id = actor.request_id;
    before = before;
    after = after;
    created_at = 0;
  }
