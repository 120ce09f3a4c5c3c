-- ===== src/Router/Routed.antt =====
-- The chain of every endpoint behind the authentication.
use gb_522_a16g.Base.{◌≡◌, refl, String, true, false, ℤ}
use gb_522_a16g.Float.{Float64}
use gb_522_a16g.Model.Account.{User}
use gb_522_a16g.Store.{Tables, Engine, IsSound}
use gb_522_a16g.Service.Auth.{Tokens, AuthService}
use gb_522_a16g.Middleware.Chain.{Context, Server, Handler, auth_middleware}
use gb_522_a16g.Router.{
  Endpoint, health, ready, login, of_routes, of_traces, of_events, of_cases, RouteEndpoint,
  list_routes, get_route, create_route, update_route, set_baseline, TraceEndpoint, list_traces,
  get_trace, import_trace, detect_events, EventEndpoint, list_events, review_event, CaseEndpoint,
  list_cases, get_case, create_case, analyze_case, confirm_case, close_case, list_audit, analysts,
  reviewers, Handlers, import_limiter, analyze_limiter, only, register, register_fiber_routes,
  register_trace_routes, register_event_routes, register_case_audit_routes,
}
use gb_522_a16g.Router.Gate.{Gate, CarriesUser, gate_then, auth_gate}
use gb_522_a16g.Router.Policy.{is_public, is_reviewing, is_editing, IsPermitted}
use gb_522_a16g.Router.Guard.{open_gate, analysts_gate, reviewers_gate, edit_gate}

module _ {F : Type 0} ⦃fl : Float64 F⦄ (engine : Engine F) (tokens : Tokens) (auth : AuthService)
    (duration_text : ℤ → String) (sound : IsSound engine) where
  open engine use {tables}

  -- The chain of the endpoint, before a handler.
  abbrev pub routed : Endpoint → Handler engine → Handler engine
  routed e k = register engine tokens auth duration_text (λ _. k) e

  -- An endpoint's chain does not depend on the handlers of the others.
  pub register-routed :
      (e : Endpoint)
      → ◌≡◌ {A = Handlers engine tokens auth duration_text → Handler engine}
          (λ h. register engine tokens auth duration_text h e)
          (λ h. routed e (h e))
  unfolding register register_fiber_routes register_trace_routes register_event_routes
      register_case_audit_routes
  register-routed health = refl
  register-routed ready = refl
  register-routed login = refl
  register-routed (of_routes list_routes) = refl
  register-routed (of_routes get_route) = refl
  register-routed (of_routes create_route) = refl
  register-routed (of_routes update_route) = refl
  register-routed (of_routes set_baseline) = refl
  register-routed (of_traces list_traces) = refl
  register-routed (of_traces get_trace) = refl
  register-routed (of_traces import_trace) = refl
  register-routed (of_traces detect_events) = refl
  register-routed (of_events list_events) = refl
  register-routed (of_events review_event) = refl
  register-routed (of_cases list_cases) = refl
  register-routed (of_cases get_case) = refl
  register-routed (of_cases create_case) = refl
  register-routed (of_cases analyze_case) = refl
  register-routed (of_cases confirm_case) = refl
  register-routed (of_cases close_case) = refl
  register-routed (of_cases list_audit) = refl

  module _ (t : Tables F) (c : Context) (s : Server engine) (u : User)
      (carries : CarriesUser t u c) where
    abbrev opens :
        (e : Endpoint)
        → is_reviewing e ≡ false
        → is_editing e ≡ false
        → Gate engine (IsPermitted t e) (λ k. k) c s
    opens e = open_gate engine tokens auth duration_text t e c s u carries

    abbrev edits :
        (e : Endpoint)
        → is_reviewing e ≡ false
        → is_editing e ≡ true
        → Gate engine (IsPermitted t e) (only engine tokens auth duration_text analysts) c s
    edits e = analysts_gate engine tokens auth duration_text t e c s u carries

    abbrev reviews :
        (e : Endpoint)
        → is_reviewing e ≡ true
        → Gate engine (IsPermitted t e) (only engine tokens auth duration_text reviewers) c s
    reviews e = reviewers_gate engine tokens auth duration_text t e c s u carries

    routes_gate :
        (e : RouteEndpoint)
        → Gate engine
            (IsPermitted t (of_routes e))
            (λ k. register_fiber_routes engine tokens auth duration_text (λ _. k) e)
            c
            s
    unfolding register_fiber_routes
    routes_gate list_routes = opens (of_routes list_routes) refl refl
    routes_gate get_route = opens (of_routes get_route) refl refl
    routes_gate create_route = edits (of_routes create_route) refl refl
    routes_gate update_route = edits (of_routes update_route) refl refl
    routes_gate set_baseline = reviews (of_routes set_baseline) refl

    traces_gate :
        (e : TraceEndpoint)
        → Gate engine
            (IsPermitted t (of_traces e))
            (λ k. register_trace_routes engine tokens auth duration_text (λ _. k) e)
            c
            s
    unfolding register_trace_routes
    traces_gate list_traces = opens (of_traces list_traces) refl refl
    traces_gate get_trace = opens (of_traces get_trace) refl refl
    traces_gate import_trace =
        edit_gate engine tokens auth duration_text (import_limiter engine tokens auth duration_text)
          "trace_import" t (of_traces import_trace) c s u carries (λ l x. refl) refl refl
    traces_gate detect_events =
        edit_gate engine tokens auth duration_text
          (analyze_limiter engine tokens auth duration_text) "event_detection" t
          (of_traces detect_events) c s u carries (λ l x. refl) refl refl

    events_gate :
        (e : EventEndpoint)
        → Gate engine
            (IsPermitted t (of_events e))
            (λ k. register_event_routes engine tokens auth duration_text (λ _. k) e)
            c
            s
    unfolding register_event_routes
    events_gate list_events = opens (of_events list_events) refl refl
    events_gate review_event = reviews (of_events review_event) refl

    cases_gate :
        (e : CaseEndpoint)
        → Gate engine
            (IsPermitted t (of_cases e))
            (λ k. register_case_audit_routes engine tokens auth duration_text (λ _. k) e)
            c
            s
    unfolding register_case_audit_routes
    cases_gate list_cases = opens (of_cases list_cases) refl refl
    cases_gate get_case = opens (of_cases get_case) refl refl
    cases_gate create_case = edits (of_cases create_case) refl refl
    cases_gate analyze_case =
        edit_gate engine tokens auth duration_text
          (analyze_limiter engine tokens auth duration_text) "case_analysis" t
          (of_cases analyze_case) c s u carries (λ l x. refl) refl refl
    cases_gate confirm_case = reviews (of_cases confirm_case) refl
    cases_gate close_case = reviews (of_cases close_case) refl
    cases_gate list_audit = reviews (of_cases list_audit) refl

  behind_auth :
      (e : Endpoint) (chain : Handler engine → Handler engine) (c : Context) (s : Server engine)
      → ((c' : Context) (s' : Server engine) (u : User)
          → CarriesUser (tables s.db) u c'
          → Gate engine (IsPermitted (tables s.db) e) chain c' s')
      → Gate engine
          (IsPermitted (tables s.db) e)
          (λ k. auth_middleware engine tokens auth (chain k))
          c
          s
  behind_auth e chain c s inner =
      let t = tables s.db in
      gate_then engine (λ c'. (u : User) × CarriesUser t u c') (IsPermitted t e)
        (auth_middleware engine tokens auth) chain c s (auth_gate engine tokens auth sound c s)
        (λ c' s' _ p. inner c' s' p.0 p.1)

  pub routed_gate :
      (e : Endpoint) (c : Context) (s : Server engine)
      → is_public e ≡ false
      → Gate engine (IsPermitted (tables s.db) e) (routed e) c s
  unfolding register
  routed_gate health c s h = cc
  routed_gate ready c s h = cc
  routed_gate login c s h = cc
  routed_gate (of_routes e) c s h =
      behind_auth (of_routes e) _ c s (λ c' s' u p. routes_gate (tables s.db) c' s' u p e)
  routed_gate (of_traces e) c s h =
      behind_auth (of_traces e) _ c s (λ c' s' u p. traces_gate (tables s.db) c' s' u p e)
  routed_gate (of_events e) c s h =
      behind_auth (of_events e) _ c s (λ c' s' u p. events_gate (tables s.db) c' s' u p e)
  routed_gate (of_cases e) c s h =
      behind_auth (of_cases e) _ c s (λ c' s' u p. cases_gate (tables s.db) c' s' u p e)
