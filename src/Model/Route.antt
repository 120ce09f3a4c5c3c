-- ===== src/Model/Route.antt =====
-- internal/dto/route.go; `none` is a nil pointer.
use gb_522_a16g.Base.{ℕ, String, Option}

pub record CreateRouteRequest (F : Type 0) : Type 0 where
  pub route_code : String
  pub name : String
  pub length_m : F
  pub refractive_index : F
  pub launch_connector : String
  pub route_status : String

pub record UpdateRouteRequest (F : Type 0) : Type 0 where
  pub name : Option String
  pub length_m : Option F
  pub refractive_index : Option F
  pub launch_connector : Option String
  pub route_status : Option String

pub record SetBaselineRequest : Type 0 where
  pub trace_id : ℕ
