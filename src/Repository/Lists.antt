-- ===== src/Repository/Lists.antt =====
-- The `List` methods of internal/repository. `like` is the database's LIKE, between percent signs.
use text.Mathlib.Text.{◌==◌ as str_eq}
use gb_522_a16g.Base.{
  ℕ, String, Bool, true, ◌&&◌, ◌||◌, not, ltb, leb, ◌==◌, List, Option, none, some, find_if,
  if◌then◌else◌,
}
use gb_522_a16g.Base.Text.{trim_space, is_empty}
use gb_522_a16g.Constants.{valid_event, event_name}
use gb_522_a16g.Float.{Float64}
use gb_522_a16g.Model.{FiberRoute, TraceCapture, EventMarker, LocalizationCase, AuditLog}
use gb_522_a16g.Model.Listing.{RouteQuery, TraceQuery, EventQuery, CaseQuery, AuditQuery}
use gb_522_a16g.Service.Document.{status_name}
use gb_522_a16g.Store.{Tables, Action, Engine}
use gb_522_a16g.Repository.Listing.{list_page}

-- A condition that a nil pointer or an empty text leaves out.
abbrev pub if_given : {A : Type 0} → Option A → (A → Bool) → Bool
if_given none p = true
if_given (some a) p = p a

abbrev pub if_filled : String → (String → Bool) → Bool
if_filled s p = is_empty s || p s

abbrev pub has_member : {A : Type 0} → (A → Bool) → List A → Bool
has_member p xs = elim (find_if p xs) [ none ↦ Bool.false | some x ↦ true ]

abbrev pub same_flag : Bool → Bool → Bool
same_flag a b = if a then b else not b

module _ {F : Type 0} where
  abbrev pub route_selected : (String → String → Bool) → RouteQuery → Tables F → FiberRoute F → Bool
  route_selected like query t c =
      if_filled (trim_space query.keyword)
        (λ keyword. like keyword c.route_code || like keyword c.name)
      && if_filled query.status (λ status. str_eq c.route_status status)

  abbrev pub trace_selected : TraceQuery → Tables F → TraceCapture F → Bool
  trace_selected query t c =
      if_given query.route_id (λ id. c.route_id == id)
      && (if_given query.from (λ from. leb from c.captured_at)
          && if_given query.to (λ to. leb c.captured_at to))

  abbrev pub event_selected : EventQuery → Tables F → EventMarker F → Bool
  event_selected query t c =
      if_given query.trace_id (λ id. c.trace_id == id)
      && (if_given query.route_id (λ id.
            has_member (λ (x : TraceCapture F). x.route_id == id && c.trace_id == x.id) t.traces)
          && ((not (valid_event query.event_type)
                || str_eq (event_name c.event_type) (event_name query.event_type))
              && if_given query.reviewed (λ reviewed. same_flag c.reviewed reviewed)))

  abbrev pub case_selected : CaseQuery → Tables F → LocalizationCase F → Bool
  case_selected query t c =
      if_given query.route_id (λ id. c.route_id == id)
      && if_filled query.status (λ status. str_eq (status_name c.case_status) status)

  abbrev pub audit_selected : (String → String → Bool) → AuditQuery → Tables F → AuditLog F → Bool
  audit_selected like query t c =
      if_given query.route_id (λ id. if_given_in c.route_id (λ own. own == id))
      && (if_filled query.actor_name (λ name. like name c.actor_name)
          && (if_filled query.action (λ action. str_eq c.action action)
              && (if_given query.from (λ from. leb from c.created_at)
                  && if_given query.to (λ to. leb c.created_at to))))
    where
      -- A comparison with NULL does not hold.
      if_given_in : Option ℕ → (ℕ → Bool) → Bool
      if_given_in none p = Bool.false
      if_given_in (some n) p = p n

  module _ (engine : Engine F) where
    open engine use {Db}

    unfoldable pub list_routes :
        (String → String → Bool) → RouteQuery → ℕ → ℕ → Action Db (List (FiberRoute F) × ℕ)
    list_routes like query =
        list_page (λ t. t.routes) (λ a b. ltb b.created_at a.created_at) (route_selected like query)
          engine "count fiber routes" "list fiber routes"

    unfoldable pub list_traces : TraceQuery → ℕ → ℕ → Action Db (List (TraceCapture F) × ℕ)
    list_traces query =
        list_page (λ t. t.traces) (λ a b. ltb b.captured_at a.captured_at) (trace_selected query)
          engine "count traces" "list traces"

    unfoldable pub list_events :
        ⦃fl : Float64 F⦄ → EventQuery → ℕ → ℕ → Action Db (List (EventMarker F) × ℕ)
    list_events ⦃fl⦄ query =
        list_page (λ t. t.events)
          (λ a b.
            ltb b.trace_id a.trace_id
            || (a.trace_id == b.trace_id && fl.lt a.distance_m b.distance_m))
          (event_selected query) engine "count events" "list events"

    unfoldable pub list_cases : CaseQuery → ℕ → ℕ → Action Db (List (LocalizationCase F) × ℕ)
    list_cases query =
        list_page (λ t. t.cases) (λ a b. ltb b.created_at a.created_at) (case_selected query) engine
          "count localization cases" "list localization cases"

    unfoldable pub list_audits :
        (String → String → Bool) → AuditQuery → ℕ → ℕ → Action Db (List (AuditLog F) × ℕ)
    list_audits like query =
        list_page (λ t. t.audits) (λ a b. ltb b.created_at a.created_at) (audit_selected like query)
          engine "count audit logs" "list audit logs"
