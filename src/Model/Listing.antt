-- ===== src/Model/Listing.antt =====
-- The query types of internal/dto; `none` is a nil pointer.
use gb_522_a16g.Base.{ℕ, ℤ, String, Bool, Option}
use gb_522_a16g.Constants.{EventType}

pub record RouteQuery : Type 0 where
  pub keyword : String
  pub status : String
  pub page : ℤ
  pub page_size : ℤ

pub record TraceQuery : Type 0 where
  pub route_id : Option ℕ
  pub from : Option ℕ
  pub to : Option ℕ
  pub page : ℤ
  pub page_size : ℤ

pub record EventQuery : Type 0 where
  pub trace_id : Option ℕ
  pub route_id : Option ℕ
  pub event_type : EventType
  pub reviewed : Option Bool
  pub page : ℤ
  pub page_size : ℤ

pub record CaseQuery : Type 0 where
  pub route_id : Option ℕ
  pub status : String
  pub page : ℤ
  pub page_size : ℤ

pub record AuditQuery : Type 0 where
  pub route_id : Option ℕ
  pub actor_name : String
  pub action : String
  pub from : Option ℕ
  pub to : Option ℕ
  pub page : ℤ
  pub page_size : ℤ
