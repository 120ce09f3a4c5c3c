-- ===== src/Service/Case/Values.antt =====
-- internal/service/case_service.go: the defaults, the rows and the column updates of the workflow.
use gb_522_a16g.Base.{ℕ, ◌*◌, List, [], Option, none, some, if◌then◌else◌, GoError, is_not_found}
use gb_522_a16g.Float.{Float64, zero_f}
use gb_522_a16g.Constants.{draft}
use gb_522_a16g.Json.{Value, arr, Column, blank, malformed, encoded}
use gb_522_a16g.Algorithm.Compare.{ComparableEvent, Difference, primary_difference}
use gb_522_a16g.Model.{
  LocalizationCase, CaseParameters, EventMarker, Actor, CreateCaseRequest, AnalyzeCaseRequest,
  ConfirmCaseRequest,
}
use gb_522_a16g.Service.Errors.{not_found, internal}
use gb_522_a16g.Service.Snapshot.{encodable}
use gb_522_a16g.Service.Document.{parameters_value, difference_value, items_of}

-- 10 * time.Minute
abbrev pub analysis_lease_timeout : ℕ
analysis_lease_timeout = 10 * 60 * 1_000_000_000

-- `errors.Is(err, repository.ErrNotFound)` gives a 404, anything else a 500.
abbrev pub get_error : GoError → GoError
get_error e =
    if is_not_found e then not_found "case does not exist" else internal "get case failed" e

-- `if x == 0 { x = fallback }`
abbrev pub or_default : {F : Type 0} ⦃fl : Float64 F⦄ → F → F → F
or_default ⦃fl⦄ x fallback = if fl.eq x zero_f then fallback else x

module _ {F : Type 0} ⦃fl : Float64 F⦄ where
  open fl use {dec}

  abbrev pub default_tolerance : F
  default_tolerance = dec 25 0

  abbrev pub default_loss : F
  default_loss = dec 5 1

  -- json.Marshal with its error dropped: text that cannot be written is left out.
  abbrev pub to_column : {A : Type 0} → (A → Value F) → A → Column A
  to_column f a = if encodable (f a) then encoded a else blank

  -- json.Unmarshal with its error dropped.
  abbrev pub saved_parameters : Column (CaseParameters F) → CaseParameters F
  saved_parameters (encoded p) = p
  saved_parameters blank = record { distance_tolerance_m = zero_f; loss_increase_db = zero_f }
  saved_parameters malformed = record { distance_tolerance_m = zero_f; loss_increase_db = zero_f }

  -- The parameters of an analysis: of the request, else those saved, else the defaults.
  unfoldable pub analysis_parameters : AnalyzeCaseRequest F → LocalizationCase F → CaseParameters F
  analysis_parameters request item =
      let saved = saved_parameters item.parameters_json in
      record {
        distance_tolerance_m =
            or_default (or_default request.distance_tolerance_m saved.distance_tolerance_m)
              default_tolerance;
        loss_increase_db =
            or_default (or_default request.loss_increase_db saved.loss_increase_db) default_loss;
      }

  -- The row that `Create` inserts.
  unfoldable pub new_case : CreateCaseRequest F → Actor → LocalizationCase F
  new_case request actor =
      let parameters : CaseParameters F = record {
        distance_tolerance_m = or_default request.distance_tolerance_m default_tolerance;
        loss_increase_db = or_default request.loss_increase_db default_loss;
      } in
      record {
        id = 0;
        route_id = request.route_id;
        baseline_trace_id = request.baseline_trace_id;
        current_trace_id = request.current_trace_id;
        case_status = draft;
        estimated_distance_m = none;
        uncertainty_m = none;
        conclusion = "";
        reviewer_id = none;
        closed_at = none;
        analysis_error = "";
        parameters_json = to_column parameters_value parameters;
        differences_json = encoded [];
        version = 1;
        created_by = actor.id;
        created_at = 0;
        updated_at = 0;
      }

  abbrev pub comparable : EventMarker F → ComparableEvent F
  comparable e = record {
    id = e.id;
    distance_m = e.distance_m;
    insertion_loss_db = e.insertion_loss_db;
    confidence = e.confidence;
  }

  -- `if found { updates["estimated_distance_m"] = …; updates["uncertainty_m"] = … }`
  abbrev pub with_estimate : Option (F × F) → LocalizationCase F → LocalizationCase F
  with_estimate none c = c
  with_estimate (some (distance, uncertainty)) c = record c {
    estimated_distance_m = some distance;
    uncertainty_m = some uncertainty;
  }

  -- The columns that a finished analysis sets.
  unfoldable pub analysis_updates :
      List (Difference F) → CaseParameters F → LocalizationCase F → LocalizationCase F
  analysis_updates differences parameters c =
      let saved = record c {
        differences_json = to_column (λ ds. arr (items_of difference_value ds)) differences;
        parameters_json = to_column parameters_value parameters;
        analysis_error = "";
      } in
      with_estimate (primary_difference differences) saved

  unfoldable pub confirm_updates :
      ConfirmCaseRequest F → Actor → LocalizationCase F → LocalizationCase F
  confirm_updates request actor c = record c {
    conclusion = request.conclusion;
    estimated_distance_m = some request.estimated_distance_m;
    uncertainty_m = some request.uncertainty_m;
    reviewer_id = some actor.id;
  }
