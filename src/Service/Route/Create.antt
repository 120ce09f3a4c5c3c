-- ===== src/Service/Route/Create.antt =====
-- What `Create` of a route writes.
use gb_522_a16g.Base.{
  ℕ, ◌<◌, All, ap, ◌∙◌, ◌≡◌, refl, sym, inl, inr, String, Bool-cases, if◌then◌else◌, ltb, [], ◌∷◌,
  ◌++◌, count_if, Option, some, GoError, nil, driver, wrapped, is_not_found, arith,
}
use gb_522_a16g.Float.{Float64}
use gb_522_a16g.Model.{FiberRoute, AuditLog, Actor}
use gb_522_a16g.Model.Route.{CreateRouteRequest}
use gb_522_a16g.Store.{
  Tables, Stamp, Action, Engine, IsFresh, IsSound, Handled, pure, fail, mapped, map_err,
  on_error-Ends, exec-Ends,
}
use gb_522_a16g.Repository.Query.{not_found_or}
use gb_522_a16g.Repository.Route.{
  has_code, create_route_statement, get_by_code_statement, get_by_code,
}
use gb_522_a16g.Repository.Route as RouteRepository
use gb_522_a16g.Repository.Audit as AuditRepository
use gb_522_a16g.Repository.Audit.{create_audit_statement}
use gb_522_a16g.Service.Errors.{internal, conflict}
use gb_522_a16g.Service.Snapshot.{snapshot}
use gb_522_a16g.Service.Document.{audit, no_value}
use gb_522_a16g.Service.Route.{
  is_app_error, route_value, new_route, record_route, require_new_code, create_body, create,
}
use gb_522_a16g.Service.Route.Effects.{IsRouteOf, IsCreated}
use gb_522_a16g.Workflow.Rules.{
  first-ok, EndsIn, Outcomes, Outcomes-imp, Changed, outcomes_then, mapped-Outcomes,
  transaction_outcomes, audit_outcomes,
}

module _ {F : Type 0} ⦃fl : Float64 F⦄ where
  -- The audit entry of a new route.
  abbrev pub creation_entry : Actor → FiberRoute F → AuditLog F
  creation_entry actor row =
      let id : Option ℕ = some row.id in
      audit actor "route.created" "FiberRoute" row.id id no_value (snapshot (route_value row))

  -- The row was added under a fresh id, and no other has its code.
  abbrev pub Added : FiberRoute F → Tables F → FiberRoute F → Tables F → Type 0
  Added route t row t' =
      (stamp : Stamp) × IsFresh stamp t
      × (row
          ≡ record route { id = stamp.fresh_route; created_at = stamp.now; updated_at = stamp.now })
      × (count_if (has_code route.route_code) t.routes ≡ 0)
      × (t' ≡ record t { routes = t.routes ++ row ∷ [] })

  -- The row was added, and its audit entry after it.
  abbrev pub Inserted : Actor → FiberRoute F → Tables F → FiberRoute F → Tables F → Type 0
  Inserted actor route t row t' =
      (t1 : Tables F) × Added route t row t1
      × Changed (create_audit_statement (creation_entry actor row)) t1 t'

  Inserted-IsCreated :
      (to_upper : String → String) (request : CreateRouteRequest F) (actor : Actor) (t : Tables F)
      (row : FiberRoute F) (t' : Tables F)
      → Inserted actor (new_route to_upper request) t row t'
      → IsCreated to_upper request actor t row t'
  unfolding new_route create_audit_statement
  Inserted-IsCreated to_upper request actor t row t'
        (t1, (stamp, fresh, same_row, none_has, e), (later, later_fresh, e')) =
      let entry = record (creation_entry actor row) {
        id = later.fresh_audit;
        created_at = later.now;
      } in
      let same : t' ≡ record t { routes = t.routes ++ row ∷ []; audits = t.audits ++ entry ∷ [] } =
        e' ∙ ap (λ (x : Tables F). record x { audits = x.audits ++ entry ∷ [] }) e in
      let below : All (λ (c : FiberRoute F). c.id < row.id) t.routes =
        rw same_row fresh.routes_below in
      let is_its : IsRouteOf to_upper request row =
        rw same_row (refl, refl, refl, refl, refl, refl, refl) in
      (entry, is_its, none_has, below, same, (refl, refl, refl, refl, refl, refl))

module _ {F : Type 0} ⦃fl : Float64 F⦄ (engine : Engine F) (sound : IsSound engine) where
  open engine use {Db, tables, exec, transaction}

  require_new_code_outcomes :
      (route_code : String) (d : Db)
      → EndsIn engine
          (λ t'. t' ≡ tables d)
          (λ _ t'. t' ≡ tables d)
          (require_new_code engine route_code)
          d
  unfolding require_new_code get_by_code get_by_code_statement
  require_new_code_outcomes route_code d =
      let Q = Outcomes (λ t'. t' ≡ tables d) (λ (_ : Unit {0}) t'. t' ≡ tables d) in
      let wrap = not_found_or "get fiber route by code" in
      let s = get_by_code_statement route_code in
      let h : GoError → Action Db (Unit {0}) = λ e. if is_not_found e then pure tt else fail e in
      let f : FiberRoute F → Action Db (Unit {0}) =
        λ _. fail (conflict "route code already exists" nil) in
      on_error-Ends engine Q (map_err wrap (exec s)) h f d (
        exec-Ends engine sound (λ r t'. Handled engine Q h f (mapped wrap r) t') s d
          (λ m d1 same. inl (_, refl, same))
          (λ stamp fresh. elim (first-ok (has_code route_code) (tables d).routes) [
            | inl (e, failed) ↦ rw failed (λ d1 same. elim (Bool-cases (is_not_found (wrap e))) [
              | inl missing ↦ rw missing (inr (tt, refl, same))
              | inr broken ↦ rw broken (inl (_, refl, same))
            ])
            | inr (row, found, selected) ↦ rw found (λ d1 same. inl (_, refl, same))
          ]))

  insert_outcomes :
      (route : FiberRoute F) (d : Db)
      → EndsIn engine
          (λ _. Unit {0})
          (Added route (tables d))
          (RouteRepository.create engine route)
          d
  unfolding RouteRepository.create create_route_statement
  insert_outcomes route d =
      let t = tables d in
      let s = create_route_statement route in
      mapped-Outcomes (λ _. Unit {0}) (Added route t) (wrapped "create fiber route") (exec s d).0
        (tables (exec s d).1)
        (exec-Ends engine sound (Outcomes (λ _. Unit {0}) (Added route t)) s d
          (λ m. inl (driver m, refl, tt))
          (λ stamp fresh.
            elim (Bool-cases (ltb 0 (count_if (has_code route.route_code) t.routes))) [
              | inl used ↦ rw used (inl (_, refl, tt))
              | inr unused ↦
                  let none_has : count_if (has_code route.route_code) t.routes ≡ 0 = ground arith in
                  rw unused (inr (_, refl, (stamp, fresh, refl, none_has, refl)))
            ]))

  create_body_outcomes :
      (route : FiberRoute F) (actor : Actor) (d : Db)
      → EndsIn engine
          (λ _. Unit {0})
          (Inserted actor route (tables d))
          (create_body engine route actor)
          d
  unfolding create_body record_route
  create_body_outcomes route actor d =
      let t = tables d in
      let Q = Outcomes (λ _. Unit {0}) (Inserted actor route t) in
      outcomes_then engine (λ t'. t' ≡ t) (λ _ t'. t' ≡ t) Q
        (require_new_code engine route.route_code) _ d
        (require_new_code_outcomes route.route_code d) (λ e t' h. inl (e, refl, tt))
        (λ _ d1 same.
          outcomes_then engine (λ _. Unit {0}) (Added route (tables d1)) Q
            (RouteRepository.create engine route) _ d1 (insert_outcomes route d1)
            (λ e t' h. inl (e, refl, tt))
            (λ row d2 added.
              let entry = creation_entry actor row in
              outcomes_then engine (λ t'. t' ≡ tables d2)
                (λ _ t'. Changed (create_audit_statement entry) (tables d2) t') Q
                (AuditRepository.create engine entry) (λ _. pure row) d2
                (audit_outcomes engine sound entry d2) (λ e t' h. inl (e, refl, tt))
                (λ _ d3 wrote. inr (row, refl, (tables d2, rw (sym same) added, wrote)))))

  -- `Create` of a route returns an error and leaves the tables as they were, or no route had the code of
  -- the request, trimmed and in upper case, and the returned route, which has this code, the request's
  -- name and connector trimmed, its length, index and status ("active" if it gives none) and no baseline,
  -- was added behind the others under an id above theirs, together with one audit entry that names the
  -- route and the actor; nothing else changed.
  pub create_route_writes :
      (to_upper : String → String) (request : CreateRouteRequest F) (actor : Actor) (d : Db)
      → EndsIn engine
          (λ t'. t' ≡ tables d)
          (IsCreated to_upper request actor (tables d))
          (create engine to_upper request actor)
          d
  unfolding create
  create_route_writes to_upper request actor d =
      let route = new_route to_upper request in
      let body = create_body engine route actor in
      let P = IsCreated to_upper request actor (tables d) in
      mapped-Outcomes (λ t'. t' ≡ tables d) P
        (λ e. if is_app_error e then e else internal "create route failed" e) (transaction body d).0
        (tables (transaction body d).1)
        (transaction_outcomes engine sound P body d (λ d0 same.
          Outcomes-imp (λ _. Unit {0}) (λ _. Unit {0}) (Inserted actor route (tables d0)) P
            (λ t h. h)
            (λ row t' h.
              Inserted-IsCreated to_upper request actor (tables d) row t' (rw (sym same) h))
            (body d0).0 (tables (body d0).1) (create_body_outcomes route actor d0)))
