-- ===== src/Repository/Route.antt =====
-- internal/repository/fiber_route_repository.go, but for `List`. The column of the code has a unique
-- index, so an insert of a code that is in use fails.
use text.Mathlib.Text.{◌==◌ as str_eq}
use gb_522_a16g.Base.{
  ℕ, String, Bool, some, ltb, ◌==◌, [], ◌∷◌, ◌++◌, count_if, if◌then◌else◌, ok, err, driver,
  err_not_found, wrapped,
}
use gb_522_a16g.Model.{FiberRoute}
use gb_522_a16g.Store.{◌>>=◌, Statement, Action, Engine, pure, fail, map_err}
use gb_522_a16g.Repository.Query.{first, update_where, not_found_or}

-- `if result.RowsAffected == 0 { return ErrNotFound }`
abbrev pub require_found : {Db : Type 0} → ℕ → Action Db (Unit {0})
require_found rows = if rows == 0 then fail err_not_found else pure tt

module _ {F : Type 0} where
  abbrev pub has_code : String → FiberRoute F → Bool
  has_code route_code c = str_eq c.route_code route_code

  unfoldable pub create_route_statement : FiberRoute F → Statement F (FiberRoute F)
  create_route_statement route stamp t =
      let row = record route {
        id = stamp.fresh_route;
        created_at = stamp.now;
        updated_at = stamp.now;
      } in
      if ltb 0 (count_if (has_code route.route_code) t.routes)
      then (err (driver "duplicate key value violates unique constraint"), t)
      else (ok row, record t { routes = t.routes ++ row ∷ [] })

  unfoldable pub get_route_statement : ℕ → Statement F (FiberRoute F)
  get_route_statement id stamp t = (first (λ c. c.id == id) t.routes, t)

  unfoldable pub get_by_code_statement : String → Statement F (FiberRoute F)
  get_by_code_statement route_code stamp t = (first (has_code route_code) t.routes, t)

  unfoldable pub update_route_statement : FiberRoute F → Statement F ℕ
  update_route_statement route stamp t = (
    ok (count_if (λ (c : FiberRoute F). c.id == route.id) t.routes),
    record t {
      routes =
          update_where (λ (c : FiberRoute F). c.id == route.id)
            (λ (c : FiberRoute F). record c {
              name = route.name;
              length_m = route.length_m;
              refractive_index = route.refractive_index;
              launch_connector = route.launch_connector;
              route_status = route.route_status;
              updated_at = stamp.now;
            })
            t.routes;
    },
  )

  unfoldable pub set_baseline_statement : ℕ → ℕ → Statement F ℕ
  set_baseline_statement route_id trace_id stamp t = (
    ok (count_if (λ (c : FiberRoute F). c.id == route_id) t.routes),
    record t {
      routes =
          update_where (λ (c : FiberRoute F). c.id == route_id)
            (λ (c : FiberRoute F). record c {
              baseline_trace_id = some trace_id;
              updated_at = stamp.now;
            })
            t.routes;
    },
  )

  module _ (engine : Engine F) where
    open engine use {Db, exec}

    unfoldable pub create : FiberRoute F → Action Db (FiberRoute F)
    create route = map_err (wrapped "create fiber route") (exec (create_route_statement route))

    unfoldable pub get : ℕ → Action Db (FiberRoute F)
    get id = map_err (not_found_or "get fiber route") (exec (get_route_statement id))

    unfoldable pub get_by_code : String → Action Db (FiberRoute F)
    get_by_code route_code =
        map_err (not_found_or "get fiber route by code") (exec (get_by_code_statement route_code))

    unfoldable pub update : FiberRoute F → Action Db (Unit {0})
    update route = do
      rows ← map_err (wrapped "update fiber route") (exec (update_route_statement route))
      require_found rows

    unfoldable pub set_baseline : ℕ → ℕ → Action Db (Unit {0})
    set_baseline route_id trace_id = do
      rows ←
          map_err (wrapped "set route baseline") (exec (set_baseline_statement route_id trace_id))
      require_found rows
