-- ===== src/Model.antt =====
-- internal/model and the parameter types of internal/dto: the rows of the database and the requests.
-- Times are nanoseconds since some start; a JSON column holds what it decodes to.
pub mod Account
pub mod Listing
pub mod Route
pub mod Trace
use gb_522_a16g.Base.{ℤ, ℕ, String, Bool, List, Option}
use gb_522_a16g.Constants.{CaseStatus, EventType, Role}
use gb_522_a16g.Json.{Value, Column}
use gb_522_a16g.Algorithm.Compare.{Difference}

pub record CaseParameters (F : Type 0) : Type 0 where
  pub distance_tolerance_m : F
  pub loss_increase_db : F

pub record LocalizationCase (F : Type 0) : Type 0 where
  pub id : ℕ
  pub route_id : ℕ
  pub baseline_trace_id : ℕ
  pub current_trace_id : ℕ
  pub case_status : CaseStatus
  pub estimated_distance_m : Option F
  pub uncertainty_m : Option F
  pub conclusion : String
  pub reviewer_id : Option ℕ
  pub closed_at : Option ℕ
  pub analysis_error : String
  pub parameters_json : Column (CaseParameters F)
  pub differences_json : Column (List (Difference F))
  pub version : ℕ
  pub created_by : ℕ
  pub created_at : ℕ
  pub updated_at : ℕ

pub record FiberRoute (F : Type 0) : Type 0 where
  pub id : ℕ
  pub route_code : String
  pub name : String
  pub length_m : F
  pub refractive_index : F
  pub launch_connector : String
  pub route_status : String
  pub baseline_trace_id : Option ℕ
  pub created_at : ℕ
  pub updated_at : ℕ

pub record TraceCapture (F : Type 0) : Type 0 where
  pub id : ℕ
  pub route_id : ℕ
  pub wavelength_nm : ℕ
  pub pulse_width_ns : F
  pub sample_interval_ns : F
  pub raw_points_json : Column (List F)
  pub processed_json : Column (List F)
  pub noise_floor_db : F
  pub denoise_window : ℤ
  pub peak_threshold_db : F
  pub merge_window : ℤ
  pub captured_at : ℕ
  pub uploaded_by : ℕ
  pub created_at : ℕ

pub record EventMarker (F : Type 0) : Type 0 where
  pub id : ℕ
  pub trace_id : ℕ
  pub distance_m : F
  pub event_type : EventType
  pub insertion_loss_db : F
  pub reflectance_db : F
  pub confidence : F
  pub algorithm_event_type : EventType
  pub algorithm_distance_m : F
  pub algorithm_insertion_loss_db : F
  pub reviewed : Bool
  pub review_note : String
  pub reviewed_by : Option ℕ
  pub reviewed_at : Option ℕ
  pub created_at : ℕ
  pub updated_at : ℕ

-- `before` and `after` hold JSON text in the program.
pub record AuditLog (F : Type 0) : Type 0 where
  pub id : ℕ
  pub actor_id : ℕ
  pub actor_name : String
  pub action : String
  pub resource_type : String
  pub resource_id : ℕ
  pub route_id : Option ℕ
  pub request_id : String
  pub before : Value F
  pub after : Value F
  pub created_at : ℕ

-- `Actor` of internal/service/auth_service.go.
pub record Actor : Type 0 where
  pub id : ℕ
  pub username : String
  pub role : Role
  pub request_id : String

pub record CreateCaseRequest (F : Type 0) : Type 0 where
  pub route_id : ℕ
  pub baseline_trace_id : ℕ
  pub current_trace_id : ℕ
  pub distance_tolerance_m : F
  pub loss_increase_db : F

pub record AnalyzeCaseRequest (F : Type 0) : Type 0 where
  pub distance_tolerance_m : F
  pub loss_increase_db : F

pub record ConfirmCaseRequest (F : Type 0) : Type 0 where
  pub conclusion : String
  pub estimated_distance_m : F
  pub uncertainty_m : F
  pub version : ℕ

pub record CloseCaseRequest : Type 0 where
  pub version : ℕ

pub record DetectEventsRequest (F : Type 0) : Type 0 where
  pub denoise_window : ℤ
  pub peak_threshold_db : F
  pub merge_window : ℤ

pub record DetectionSummary (F : Type 0) : Type 0 where
  pub trace_id : ℕ
  pub detected_count : ℕ
  pub noise_floor_db : F
  pub threshold_db : F
  pub rejected_count : ℕ

pub record ReviewEventRequest (F : Type 0) : Type 0 where
  pub event_type : EventType
  pub distance_m : Option F
  pub review_note : String
