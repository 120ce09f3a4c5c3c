-- ===== src/Service/Route/Baseline.antt =====
-- What `SetBaseline` writes.
use gb_522_a16g.Base.{
  ℕ, ◌<◌, ◌≡◌, refl, sym, ◌∙◌, inl, inr, Bool, Bool-cases, ◌==◌, ◌&&◌, Option, some, count_if, ok,
  driver, wrapped, arith,
}
use gb_522_a16g.Float.{Float64}
use gb_522_a16g.Model.{FiberRoute, TraceCapture, AuditLog, Actor}
use gb_522_a16g.Store.{◌>>◌, Tables, Engine, IsSound, pure, map_err, exec-Ends}
use gb_522_a16g.Repository.Query.{first, not_found_or}
use gb_522_a16g.Repository.Route.{set_baseline_statement, get_route_statement, require_found}
use gb_522_a16g.Repository.Route as RouteRepository
use gb_522_a16g.Repository.Audit as AuditRepository
use gb_522_a16g.Repository.Audit.{create_audit_statement}
use gb_522_a16g.Repository.Trace.{belongs_to_route}
use gb_522_a16g.Service.Errors.{internal}
use gb_522_a16g.Service.Snapshot.{snapshot}
use gb_522_a16g.Service.Document.{audit}
use gb_522_a16g.Service.Route.{
  route_error, baseline_value, record_route, set_baseline_body, set_baseline,
}
use gb_522_a16g.Service.Route.Effects.{IsRebased, rebased_lem}
use gb_522_a16g.Workflow.Rules.{
  first-ok, EndsIn, Outcomes, Outcomes-imp, Changed, outcomes_then, mapped-Outcomes, exec_outcomes,
  transaction_outcomes, audit_outcomes,
}
use gb_522_a16g.Workflow.Create.{Belongs, belongs_to_route_outcomes}

module _ {F : Type 0} ⦃fl : Float64 F⦄ where
  -- The audit entry of a new baseline.
  abbrev pub baseline_entry : Actor → ℕ → ℕ → FiberRoute F → AuditLog F
  baseline_entry actor route_id trace_id route =
      let id : Option ℕ = some route_id in
      audit actor "route.baseline_changed" "FiberRoute" route_id id
        (snapshot (baseline_value route.baseline_trace_id))
        (snapshot (baseline_value (some trace_id)))

  -- The baseline was set in one step, on a route that there is, and the audit entry added after it.
  abbrev pub Rebased : Actor → ℕ → ℕ → FiberRoute F → Tables F → Tables F → Type 0
  Rebased actor route_id trace_id route t t' =
      (t1 : Tables F) × Changed (set_baseline_statement route_id trace_id) t t1
      × (0 < count_if (λ (c : FiberRoute F). c.id == route_id) t.routes)
      × Changed (create_audit_statement (baseline_entry actor route_id trace_id route)) t1 t'

module _ {F : Type 0} ⦃fl : Float64 F⦄ (engine : Engine F) (sound : IsSound engine) where
  open engine use {Db, tables, exec, transaction}

  -- Reading a route.
  pub get_route_outcomes :
      (id : ℕ) (d : Db)
      → EndsIn engine
          (λ t'. t' ≡ tables d)
          (λ c t'.
            (t' ≡ tables d) × (first (λ (c : FiberRoute F). c.id == id) (tables d).routes ≡ ok c))
          (RouteRepository.get engine id)
          d
  unfolding RouteRepository.get get_route_statement
  get_route_outcomes id d =
      let t = tables d in
      let s = get_route_statement id in
      let P = λ (c : FiberRoute F) (t' : Tables F).
        (t' ≡ t) × (first (λ (c : FiberRoute F). c.id == id) t.routes ≡ ok c) in
      mapped-Outcomes (λ t'. t' ≡ t) P (not_found_or "get fiber route") (exec s d).0
        (tables (exec s d).1)
        (exec-Ends engine sound (Outcomes (λ t'. t' ≡ t) P) s d (λ m. inl (driver m, refl, refl))
          (λ stamp fresh. elim (first-ok (λ (c : FiberRoute F). c.id == id) t.routes) [
            | inl (e, h) ↦ inl (e, h, refl)
            | inr (c, h, selected) ↦ inr (c, h, (refl, h))
          ]))

  require_found_outcomes :
      (P : Tables F → Type 0) (rows : ℕ) (d : Db)
      → P (tables d)
      → EndsIn engine (λ _. Unit {0}) (λ _ t'. P t' × (0 < rows)) (require_found rows) d
  require_found_outcomes P rows d h = elim (Bool-cases (rows == 0)) [
    | inl none ↦ rw none (inl (_, refl, tt))
    | inr more ↦ let some_rows : 0 < rows = ground arith in rw more (inr (tt, refl, (h, some_rows)))
  ]

  set_outcomes :
      (route_id trace_id : ℕ) (d : Db)
      → EndsIn engine
          (λ _. Unit {0})
          (λ _ t'.
            Changed (set_baseline_statement route_id trace_id) (tables d) t'
            × (0 < count_if (λ (c : FiberRoute F). c.id == route_id) (tables d).routes))
          (RouteRepository.set_baseline engine route_id trace_id)
          d
  unfolding RouteRepository.set_baseline set_baseline_statement
  set_outcomes route_id trace_id d =
      let t = tables d in
      let n = count_if (λ (c : FiberRoute F). c.id == route_id) t.routes in
      let s = set_baseline_statement route_id trace_id in
      outcomes_then engine (λ t'. t' ≡ t) (λ x t'. (x ≡ n) × Changed s t t')
        (Outcomes (λ _. Unit {0}) (λ _ t'. Changed s t t' × (0 < n)))
        (map_err (wrapped "set route baseline") (exec s)) require_found d
        (exec_outcomes engine sound (wrapped "set route baseline") s n d (λ stamp. refl))
        (λ e t' h. inl (e, refl, tt))
        (λ rows d' h. rw (sym h.0) (require_found_outcomes (Changed s t) rows d' h.1))

  set_baseline_body_outcomes :
      (route_id trace_id : ℕ) (route : FiberRoute F) (actor : Actor) (t : Tables F) (d : Db)
      → tables d ≡ t
      → EndsIn engine
          (λ _. Unit {0})
          (λ _ t'. Rebased actor route_id trace_id route t t')
          (set_baseline_body engine route_id trace_id route actor)
          d
  unfolding set_baseline_body record_route
  set_baseline_body_outcomes route_id trace_id route actor t d at =
      let s = set_baseline_statement route_id trace_id in
      let n = count_if (λ (c : FiberRoute F). c.id == route_id) (tables d).routes in
      let entry = baseline_entry actor route_id trace_id route in
      outcomes_then engine (λ _. Unit {0}) (λ _ t'. Changed s (tables d) t' × (0 < n))
        (Outcomes (λ _. Unit {0}) (λ _ t'. Rebased actor route_id trace_id route t t'))
        (RouteRepository.set_baseline engine route_id trace_id) _ d
        (set_outcomes route_id trace_id d) (λ e t' h. inl (e, refl, tt))
        (λ x d1 (set, found).
          let P = λ (_ : Unit {0}) (t' : Tables F).
            Changed (create_audit_statement entry) (tables d1) t' in
          let m = AuditRepository.create engine entry in
          Outcomes-imp (λ t'. t' ≡ tables d1) (λ _. Unit {0}) P
            (λ _ t'. Rebased actor route_id trace_id route t t') (λ t' h. tt)
            (λ y t' wrote. (tables d1, rw (sym at) set, rw (sym at) found, wrote)) (m d1).0
            (tables (m d1).1) (audit_outcomes engine sound entry d1))

  -- The route and the write that a success comes with.
  abbrev Saved : ℕ → ℕ → Actor → FiberRoute F → Tables F → FiberRoute F → Tables F → Type 0
  Saved route_id trace_id actor route t r t' =
      (r ≡ record route { baseline_trace_id = some trace_id })
      × Rebased actor route_id trace_id route t t'

  save_outcomes :
      (route_id trace_id : ℕ) (route : FiberRoute F) (actor : Actor) (t : Tables F) (d : Db)
      → tables d ≡ t
      → EndsIn engine
          (λ t'. t' ≡ t)
          (Saved route_id trace_id actor route t)
          (map_err
              (internal "set baseline failed")
              (transaction (set_baseline_body engine route_id trace_id route actor))
            >> pure (record route { baseline_trace_id = some trace_id }))
          d
  save_outcomes route_id trace_id route actor t d at =
      let body = set_baseline_body engine route_id trace_id route actor in
      let P = λ (_ : Unit {0}) (t' : Tables F). Rebased actor route_id trace_id route t t' in
      outcomes_then engine (λ t'. t' ≡ tables d) P
        (Outcomes (λ t'. t' ≡ t) (Saved route_id trace_id actor route t))
        (map_err (internal "set baseline failed") (transaction body)) _ d
        (mapped-Outcomes (λ t'. t' ≡ tables d) P (internal "set baseline failed")
          (transaction body d).0 (tables (transaction body d).1)
          (transaction_outcomes engine sound P body d
            (λ d0 same. set_baseline_body_outcomes route_id trace_id route actor t d0 (same ∙ at))))
        (λ e t' h. inl (e, refl, h ∙ at)) (λ _ d1 wrote. inr (_, refl, (refl, wrote)))

  -- `SetBaseline` returns an error and leaves the tables as they were, or the trace belongs to the route,
  -- the route that was found is returned with its new baseline, and in the tables only the columns
  -- `baseline_trace_id` and `updated_at` of the rows with its id have changed and one audit entry was
  -- added, which names the route, the actor, and the old and the new baseline.
  pub set_baseline_writes :
      (route_id trace_id : ℕ) (actor : Actor) (d : Db)
      → EndsIn engine
          (λ t'. t' ≡ tables d)
          (λ r t'.
            Belongs trace_id route_id (tables d)
            × ((route : FiberRoute F) × (first
                    (λ (c : FiberRoute F). c.id == route_id)
                    (tables d).routes
                  ≡ ok route)
                × (r ≡ record route { baseline_trace_id = some trace_id })
                × IsRebased actor route_id trace_id route.baseline_trace_id (tables d) t'
                × (0 < count_if (λ (c : FiberRoute F). c.id == route_id) (tables d).routes)))
          (set_baseline engine route_id trace_id actor)
          d
  unfolding set_baseline
  set_baseline_writes route_id trace_id actor d =
      let t = tables d in
      let Q =
        Outcomes (λ t'. t' ≡ t)
          (λ (r : FiberRoute F) t'.
            Belongs trace_id route_id t
            × ((route : FiberRoute F) × (first (λ (c : FiberRoute F). c.id == route_id) t.routes
                  ≡ ok route)
                × (r ≡ record route { baseline_trace_id = some trace_id })
                × IsRebased actor route_id trace_id route.baseline_trace_id t t'
                × (0 < count_if (λ (c : FiberRoute F). c.id == route_id) t.routes))) in
      let get = RouteRepository.get engine route_id in
      let Found = λ (c : FiberRoute F) (t' : Tables F).
        (t' ≡ t) × (first (λ (c : FiberRoute F). c.id == route_id) t.routes ≡ ok c) in
      outcomes_then engine (λ t'. t' ≡ t) Found Q (map_err route_error get) _ d
        (mapped-Outcomes (λ t'. t' ≡ t) Found route_error (get d).0 (tables (get d).1)
          (get_route_outcomes route_id d))
        (λ e t' h. inl (e, refl, h))
        (λ route d1 (same, found).
          let n =
            count_if (λ (c : TraceCapture F). c.id == trace_id && c.route_id == route_id)
              (tables d1).traces in
          let B = λ (b : Bool) (t' : Tables F). (t' ≡ tables d1) × (b ≡ (n == 1)) in
          let check = belongs_to_route engine trace_id route_id in
          outcomes_then engine (λ t'. t' ≡ tables d1) B Q
            (map_err (internal "validate baseline trace failed") check) _ d1
            (mapped-Outcomes (λ t'. t' ≡ tables d1) B (internal "validate baseline trace failed")
              (check d1).0 (tables (check d1).1)
              (belongs_to_route_outcomes engine sound trace_id route_id d1))
            (λ e t' h. inl (e, refl, h ∙ same))
            (λ belongs d2 (same2, known). elim (Bool-cases belongs) [
              | inl is_own ↦
                  let one : n ≡ 1 = ground arith in
                  let own : Belongs trace_id route_id t = rw (sym same) one in
                  rw is_own
                    (elim (save_outcomes route_id trace_id route actor t d2 (same2 ∙ same)) [
                      | inl failed ↦ inl failed
                      | inr (r, answered, saved) ↦
                          let (t1, set, some_rows, logged) = saved.1 in
                          let rebased =
                            rebased_lem actor route_id trace_id route.baseline_trace_id t t1 _ set
                              logged in
                          inr (r, answered, (own, (route, found, saved.0, rebased, some_rows)))
                    ])
              | inr is_other ↦ rw is_other (inl (_, refl, same2 ∙ same))
            ]))
