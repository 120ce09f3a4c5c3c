-- ===== src/Router.antt =====
-- internal/router: which handlers stand before each endpoint. gin matches a method and a path with an
-- endpoint; `Endpoint` names what it can match.
pub mod Gate
pub mod Policy
pub mod Guard
pub mod Routed
pub mod Access
use gb_522_a16g.Base.{String, List, [], ◌∷◌, ℤ}
use gb_522_a16g.Constants.{Role, analyst, reviewer, admin}
use gb_522_a16g.Float.{Float64}
use gb_522_a16g.Store.{Engine}
use gb_522_a16g.Service.Auth.{Tokens, AuthService}
use gb_522_a16g.Middleware.Chain.{
  Request, Reply, Server, LimiterAt, Handler, new_context, request_id_middleware,
  recovery_middleware, cors_middleware, auth_middleware, rbac_middleware, rate_limit_middleware,
}

pub data RouteEndpoint : Type 0 where
  list_routes get_route create_route update_route set_baseline : RouteEndpoint

pub data TraceEndpoint : Type 0 where
  list_traces get_trace import_trace detect_events : TraceEndpoint

pub data EventEndpoint : Type 0 where
  list_events review_event : EventEndpoint

pub data CaseEndpoint : Type 0 where
  list_cases get_case create_case analyze_case confirm_case close_case list_audit : CaseEndpoint

pub data Endpoint : Type 0 where
  health ready login : Endpoint
  of_routes : RouteEndpoint → Endpoint
  of_traces : TraceEndpoint → Endpoint
  of_events : EventEndpoint → Endpoint
  of_cases : CaseEndpoint → Endpoint

abbrev pub analysts : List Role
analysts = analyst ∷ admin ∷ []

abbrev pub reviewers : List Role
reviewers = reviewer ∷ admin ∷ []

module _ {F : Type 0} ⦃fl : Float64 F⦄ (engine : Engine F) (tokens : Tokens) (auth : AuthService)
    (duration_text : ℤ → String) where
  -- The handlers of `Dependencies`.
  abbrev pub Handlers : Type 0
  Handlers = Endpoint → Handler engine

  abbrev pub login_limiter : LimiterAt engine
  login_limiter = record {
    limiter = λ s. s.login_limiter;
    with_limiter = λ s l. record s { login_limiter = l };
  }

  abbrev pub import_limiter : LimiterAt engine
  import_limiter = record {
    limiter = λ s. s.import_limiter;
    with_limiter = λ s l. record s { import_limiter = l };
  }

  abbrev pub analyze_limiter : LimiterAt engine
  analyze_limiter = record {
    limiter = λ s. s.analyze_limiter;
    with_limiter = λ s l. record s { analyze_limiter = l };
  }

  -- `appmw.RBACMiddleware`, `appmw.RateLimitMiddleware`
  abbrev pub only : List Role → Handler engine → Handler engine
  only roles = rbac_middleware engine roles

  abbrev pub limited : LimiterAt engine → String → Handler engine → Handler engine
  limited at scope = rate_limit_middleware engine duration_text at scope

  unfoldable pub register_fiber_routes : Handlers → RouteEndpoint → Handler engine
  register_fiber_routes h list_routes = h (of_routes list_routes)
  register_fiber_routes h get_route = h (of_routes get_route)
  register_fiber_routes h create_route = only analysts (h (of_routes create_route))
  register_fiber_routes h update_route = only analysts (h (of_routes update_route))
  register_fiber_routes h set_baseline = only reviewers (h (of_routes set_baseline))

  unfoldable pub register_trace_routes : Handlers → TraceEndpoint → Handler engine
  register_trace_routes h list_traces = h (of_traces list_traces)
  register_trace_routes h get_trace = h (of_traces get_trace)
  register_trace_routes h import_trace =
      limited import_limiter "trace_import" (only analysts (h (of_traces import_trace)))
  register_trace_routes h detect_events =
      limited analyze_limiter "event_detection" (only analysts (h (of_traces detect_events)))

  unfoldable pub register_event_routes : Handlers → EventEndpoint → Handler engine
  register_event_routes h list_events = h (of_events list_events)
  register_event_routes h review_event = only reviewers (h (of_events review_event))

  unfoldable pub register_case_audit_routes : Handlers → CaseEndpoint → Handler engine
  register_case_audit_routes h list_cases = h (of_cases list_cases)
  register_case_audit_routes h get_case = h (of_cases get_case)
  register_case_audit_routes h create_case = only analysts (h (of_cases create_case))
  register_case_audit_routes h analyze_case =
      limited analyze_limiter "case_analysis" (only analysts (h (of_cases analyze_case)))
  register_case_audit_routes h confirm_case = only reviewers (h (of_cases confirm_case))
  register_case_audit_routes h close_case = only reviewers (h (of_cases close_case))
  register_case_audit_routes h list_audit = only reviewers (h (of_cases list_audit))

  unfoldable pub register : Handlers → Endpoint → Handler engine
  register h health = h health
  register h ready = h ready
  register h login = limited login_limiter "login" (h login)
  register h (of_routes e) = auth_middleware engine tokens auth (register_fiber_routes h e)
  register h (of_traces e) = auth_middleware engine tokens auth (register_trace_routes h e)
  register h (of_events e) = auth_middleware engine tokens auth (register_event_routes h e)
  register h (of_cases e) = auth_middleware engine tokens auth (register_case_audit_routes h e)

  -- The engine of cmd/server/main.go, without its access log: a request that gin matched with the
  -- endpoint.
  unfoldable pub serve :
      List String → Handlers → Endpoint → Request → Server engine → Reply F × Server engine
  serve origins h e request s =
      request_id_middleware engine
        (recovery_middleware engine (cors_middleware engine origins (register h e)))
        (new_context request) s
