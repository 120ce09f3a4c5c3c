-- ===== src/Service/Route.antt =====
-- internal/service/route_service.go: `Create`, `Get`, `Update` and `SetBaseline`. `to_upper` is
-- strings.ToUpper.
pub mod Effects
pub mod Create
pub mod Baseline
use gb_522_a16g.Base.{
  ℕ, pos, String, Bool, true, false, Option, none, some, if◌then◌else◌, List, GoError, nil, wrapped,
  app_error, is_not_found,
}
use gb_522_a16g.Base.Text.{trim_space, is_empty}
use gb_522_a16g.Float.{Float64}
use gb_522_a16g.Json.{Value, int, num, text, obj, end, field}
use gb_522_a16g.Model.{FiberRoute, TraceCapture, Actor}
use gb_522_a16g.Model.Route.{CreateRouteRequest, UpdateRouteRequest}
use gb_522_a16g.Model.Listing.{TraceQuery}
use gb_522_a16g.Store.{◌>>=◌, ◌>>◌, Action, Engine, pure, fail, map_err, on_error}
use gb_522_a16g.Service.Errors.{invalid, not_found, conflict, internal}
use gb_522_a16g.Service.Snapshot.{snapshot}
use gb_522_a16g.Service.Document.{audit, no_value, optional}
use gb_522_a16g.Repository.Audit as AuditRepository
use gb_522_a16g.Repository.Route as RouteRepository
use gb_522_a16g.Repository.Trace as TraceRepository
use gb_522_a16g.Repository.Lists as Lists

-- `errors.As(e, &appErr)`, along the chain of wrapped errors.
abbrev pub is_app_error : GoError → Bool
is_app_error (app_error code status message cause) = true
is_app_error (wrapped message e) = is_app_error e
is_app_error _ = false

-- `errors.Is(err, repository.ErrNotFound)`, with the two errors.
abbrev pub route_error : GoError → GoError
route_error e =
    if is_not_found e then not_found "route does not exist" else internal "get route failed" e

abbrev pub or_keep : {A : Type 0} → Option A → A → A
or_keep none a = a
or_keep (some b) a = b

module _ {F : Type 0} where
  -- The document of a route.
  abbrev pub route_value : FiberRoute F → Value F
  route_value c = obj (
      field "id" (int c.id) (
        field "route_code" (text c.route_code) (
          field "name" (text c.name) (
            field "length_m" (num c.length_m) (
              field "refractive_index" (num c.refractive_index) (
                field "launch_connector" (text c.launch_connector) (
                  field "route_status" (text c.route_status) (
                    field "baseline_trace_id" (optional int c.baseline_trace_id) (
                      field "created_at" (int c.created_at)
                        (field "updated_at" (int c.updated_at) end))))))))))

  unfoldable pub new_route : (String → String) → CreateRouteRequest F → FiberRoute F
  new_route to_upper request = record {
    id = 0;
    route_code = to_upper (trim_space request.route_code);
    name = trim_space request.name;
    length_m = request.length_m;
    refractive_index = request.refractive_index;
    launch_connector = trim_space request.launch_connector;
    route_status = if is_empty request.route_status then "active" else request.route_status;
    baseline_trace_id = none;
    created_at = 0;
    updated_at = 0;
  }

  -- `after`
  unfoldable pub updated_route : UpdateRouteRequest F → FiberRoute F → FiberRoute F
  updated_route request before = record before {
    name = elim request.name [ none ↦ before.name | some name ↦ trim_space name ];
    length_m = or_keep request.length_m before.length_m;
    refractive_index = or_keep request.refractive_index before.refractive_index;
    launch_connector = elim request.launch_connector [
      | none ↦ before.launch_connector
      | some name ↦ trim_space name
    ];
    route_status = or_keep request.route_status before.route_status;
  }

  abbrev pub baseline_value : Option ℕ → Value F
  baseline_value trace_id = obj (field "baseline_trace_id" (optional int trace_id) end)

module _ {F : Type 0} ⦃fl : Float64 F⦄ (engine : Engine F) where
  open engine use {Db, transaction}

  -- `tx.Audits.Create(audit(actor, action, "FiberRoute", …))`
  unfoldable pub record_route : Actor → String → ℕ → Value F → Value F → Action Db (Unit {0})
  record_route actor action id before after =
      AuditRepository.create engine (audit actor action "FiberRoute" id (some id) before after)

  -- The route code must not be in use.
  unfoldable pub require_new_code : String → Action Db (Unit {0})
  require_new_code route_code =
      on_error (RouteRepository.get_by_code engine route_code)
        (λ e. if is_not_found e then pure tt else fail e)
        (λ _. fail (conflict "route code already exists" nil))

  -- The transaction of `Create`.
  unfoldable pub create_body : FiberRoute F → Actor → Action Db (FiberRoute F)
  create_body route actor = do
    require_new_code route.route_code
    row ← RouteRepository.create engine route
    record_route actor "route.created" row.id no_value (snapshot (route_value row))
    pure row

  unfoldable pub create :
      (String → String) → CreateRouteRequest F → Actor → Action Db (FiberRoute F)
  create to_upper request actor =
      map_err (λ e. if is_app_error e then e else internal "create route failed" e)
        (transaction (create_body (new_route to_upper request) actor))

  -- `Get`: the route with its last hundred traces.
  unfoldable pub get : ℕ → Action Db (FiberRoute F × List (TraceCapture F))
  get id = do
    route ← map_err route_error (RouteRepository.get engine id)
    traces ← map_err (internal "list route traces failed") (
        Lists.list_traces engine
          (record { route_id = some id; from = none; to = none; page = pos 1; page_size = pos 100 })
          1 100)
    pure (route, traces.0)

  -- The transaction of `Update`.
  unfoldable pub update_body : ℕ → FiberRoute F → FiberRoute F → Actor → Action Db (Unit {0})
  update_body id before after actor = do
    RouteRepository.update engine after
    record_route actor "route.updated" id (snapshot (route_value before))
        (snapshot (route_value after))

  unfoldable pub update : ℕ → UpdateRouteRequest F → Actor → Action Db (FiberRoute F)
  update id request actor = do
    before ← map_err route_error (RouteRepository.get engine id)
    map_err (internal "update route failed")
        (transaction (update_body id before (updated_route request before) actor))
    pure (updated_route request before)

  -- The transaction of `SetBaseline`.
  unfoldable pub set_baseline_body : ℕ → ℕ → FiberRoute F → Actor → Action Db (Unit {0})
  set_baseline_body route_id trace_id route actor = do
    RouteRepository.set_baseline engine route_id trace_id
    record_route actor "route.baseline_changed" route_id
        (snapshot (baseline_value route.baseline_trace_id))
        (snapshot (baseline_value (some trace_id)))

  unfoldable pub set_baseline : ℕ → ℕ → Actor → Action Db (FiberRoute F)
  set_baseline route_id trace_id actor = do
    route ← map_err route_error (RouteRepository.get engine route_id)
    belongs ←
        map_err (internal "validate baseline trace failed")
          (TraceRepository.belongs_to_route engine trace_id route_id)
    if belongs then pure tt else fail (invalid "baseline trace must belong to the route" nil)
    map_err (internal "set baseline failed")
        (transaction (set_baseline_body route_id trace_id route actor))
    pure (record route { baseline_trace_id = some trace_id })
