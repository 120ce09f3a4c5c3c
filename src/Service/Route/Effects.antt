-- ===== src/Service/Route/Effects.antt =====
-- What `Create` and `SetBaseline` of a route leave in the tables, column by column.
use gb_522_a16g.Base.{
  ℕ, ◌<◌, ◌≡◌, refl, ap, ◌∙◌, String, List, [], ◌∷◌, ◌++◌, map, All, Option, none, some, ◌==◌,
  if◌then◌else◌, Bool, count_if,
}
use gb_522_a16g.Base.Text.{trim_space, is_empty}
use gb_522_a16g.Float.{Float64}
use gb_522_a16g.Json.{obj, field, end, int}
use gb_522_a16g.Model.{FiberRoute, AuditLog, Actor}
use gb_522_a16g.Model.Route.{CreateRouteRequest}
use gb_522_a16g.Store.{Tables}
use gb_522_a16g.Repository.Query.{update_where}
use gb_522_a16g.Repository.Route.{has_code, set_baseline_statement}
use gb_522_a16g.Repository.Audit.{create_audit_statement}
use gb_522_a16g.Service.Snapshot.{snapshot}
use gb_522_a16g.Service.Document.{audit, optional}
use gb_522_a16g.Service.Route.{baseline_value}
use gb_522_a16g.Workflow.Rules.{Changed}

update_where-map :
    {A : Type 0} (p : A → Bool) (f : A → A) (rows : List A)
    → update_where p f rows ≡ map (λ x. if p x then f x else x) rows
update_where-map p f [] = refl
update_where-map p f (x ∷ rows) =
    ap (λ ys. (if p x then f x else x) ∷ ys) (update_where-map p f rows)

module _ {F : Type 0} where
  -- The row of the request: its texts trimmed and its code in upper case, active unless it says
  -- otherwise, with no baseline.
  abbrev pub IsRouteOf : (String → String) → CreateRouteRequest F → FiberRoute F → Type 0
  IsRouteOf to_upper request c =
      (c.route_code ≡ to_upper (trim_space request.route_code))
      × (c.name ≡ trim_space request.name)
      × (c.length_m ≡ request.length_m)
      × (c.refractive_index ≡ request.refractive_index)
      × (c.launch_connector ≡ trim_space request.launch_connector)
      × (c.route_status
          ≡ (if is_empty request.route_status then "active" else request.route_status))
      × (c.baseline_trace_id ≡ none)

  -- The entry names the action, the route and the actor.
  abbrev pub Names : String → ℕ → Actor → AuditLog F → Type 0
  Names action id actor entry =
      (entry.action ≡ action)
      × (entry.resource_type ≡ "FiberRoute")
      × (entry.resource_id ≡ id)
      × (entry.route_id ≡ some id)
      × (entry.actor_id ≡ actor.id)
      × (entry.actor_name ≡ actor.username)

  -- No route had the code; the row was added under an id above all others, with one audit entry, and
  -- nothing else changed.
  abbrev pub IsCreated :
      (String → String) → CreateRouteRequest F → Actor → Tables F → FiberRoute F → Tables F → Type 0
  IsCreated to_upper request actor t row t' =
      (entry : AuditLog F) × IsRouteOf to_upper request row
      × (count_if (has_code (to_upper (trim_space request.route_code))) t.routes ≡ 0)
      × All (λ (c : FiberRoute F). c.id < row.id) t.routes
      × (t' ≡ record t { routes = t.routes ++ row ∷ []; audits = t.audits ++ entry ∷ [] })
      × Names "route.created" row.id actor entry

  -- The route with its new baseline.
  abbrev rebased_row : ℕ → ℕ → ℕ → FiberRoute F → FiberRoute F
  rebased_row route_id trace_id now c =
      if c.id == route_id
      then record c { baseline_trace_id = some trace_id; updated_at = now }
      else c

module _ {F : Type 0} ⦃fl : Float64 F⦄ where
  -- Only the baseline and the update time of the routes with the id changed, and one audit entry was
  -- added, with the baseline before and the one after.
  abbrev pub IsRebased : Actor → ℕ → ℕ → Option ℕ → Tables F → Tables F → Type 0
  IsRebased actor route_id trace_id before t t' =
      (now : ℕ) × (entry : AuditLog F) × (t' ≡ record t {
        routes = map (rebased_row route_id trace_id now) t.routes;
        audits = t.audits ++ entry ∷ [];
      })
      × Names "route.baseline_changed" route_id actor entry
      × (entry.before ≡ snapshot (obj (field "baseline_trace_id" (optional int before) end)))
      × (entry.after ≡ snapshot (obj (field "baseline_trace_id" (int trace_id) end)))

  pub rebased_lem :
      (actor : Actor) (route_id trace_id : ℕ) (before : Option ℕ) (t t1 t' : Tables F)
      → Changed (set_baseline_statement route_id trace_id) t t1
      → Changed
          (create_audit_statement (
            audit actor "route.baseline_changed" "FiberRoute" route_id
              (some route_id)
              (snapshot (baseline_value before))
              (snapshot (baseline_value (some trace_id)))))
          t1
          t'
      → IsRebased actor route_id trace_id before t t'
  unfolding set_baseline_statement create_audit_statement
  rebased_lem actor route_id trace_id before t t1 t' (stamp, fresh, e) (later, later_fresh, e') =
      let entry =
        record (audit actor "route.baseline_changed" "FiberRoute" route_id (some route_id)
          (snapshot (baseline_value before)) (snapshot (baseline_value (some trace_id)))) {
            id = later.fresh_audit;
            created_at = later.now;
          } in
      let same : t' ≡ record t {
        routes = map (rebased_row route_id trace_id stamp.now) t.routes;
        audits = t.audits ++ entry ∷ [];
      } =
        e'
        ∙ ap (λ (x : Tables F). record x { audits = x.audits ++ entry ∷ [] }) e
        ∙ ap (λ rows. record t { routes = rows; audits = t.audits ++ entry ∷ [] })
            (update_where-map (λ (c : FiberRoute F). c.id == route_id) _ t.routes) in
      (stamp.now, entry, same, (refl, refl, refl, refl, refl, refl), refl, refl)
