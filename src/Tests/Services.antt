-- ===== src/Tests/Services.antt =====
-- Calls of the services on a database in memory.
use gb_522_a16g.Base.{
  get_elem?, refl, ℕ, ◌<◌, count_if, ◌+◌, ◌*◌, ◌≤◌, ◌≡◌, ◌⊎◌, [], ◌∷◌, List, none, some, true, Bool,
  ltb, ◌==◌, pos, ℤ, ok, err, GoError,
}
use gb_522_a16g.Float.Fixed.{fixed}
use gb_522_a16g.Constants.{draft}
use gb_522_a16g.Json.{blank, encoded}
use gb_522_a16g.Model.{LocalizationCase, FiberRoute, TraceCapture, AnalyzeCaseRequest}
use gb_522_a16g.Model.Route.{CreateRouteRequest}
use gb_522_a16g.Store.{Tables, Ends}
use gb_522_a16g.Store.Memory.{Memory, memory, memory-IsSound}
use gb_522_a16g.Repository.Query.{first}
use gb_522_a16g.Repository.Listing.{list_page}
use gb_522_a16g.Service.Listing.{listed}
use gb_522_a16g.Service.Listing.Laws.{IsAnswer, listed-IsAnswer}
use gb_522_a16g.Service.Case.Review.{create}
use gb_522_a16g.Service.Route.{set_baseline}
use gb_522_a16g.Service.Route as RouteService
use gb_522_a16g.Service.Route.Create.{create_route_writes}
use gb_522_a16g.Service.Route.Effects as RouteEffects
use gb_522_a16g.Service.Route.Baseline.{set_baseline_writes}
use gb_522_a16g.Workflow.{Reach, creation}
use gb_522_a16g.Workflow.Rules.{EndsIn}
use gb_522_a16g.Workflow.Writes.{Written}
use gb_522_a16g.Workflow.Effects.{IsCreated}
use gb_522_a16g.Workflow.Create.{Belongs, create_writes}
use gb_522_a16g.Workflow.Analysed.{Analysed}
use gb_522_a16g.Workflow.Audited.{entries, calls-audited}
use gb_522_a16g.Workflow.Calls.{Call, creates, analyzes, after_calls, calls-Reach}
use gb_522_a16g.Tests.Workflow.{ann, request_again, case_at}
open fixed use {dec}

abbrev trace_at : ℕ → TraceCapture ℤ
trace_at id = record {
  id = id;
  route_id = 1;
  wavelength_nm = 1550;
  pulse_width_ns = dec 100 0;
  sample_interval_ns = dec 100 0;
  raw_points_json = encoded [];
  processed_json = blank;
  noise_floor_db = dec 0 0;
  denoise_window = pos 5;
  peak_threshold_db = dec 8 1;
  merge_window = pos 3;
  captured_at = 100 + id;
  uploaded_by = 3;
  created_at = 100;
}

abbrev route : FiberRoute ℤ
route = record {
  id = 1;
  route_code = "R1";
  name = "ring";
  length_m = dec 1000 0;
  refractive_index = dec 15 1;
  launch_connector = "LC";
  route_status = "active";
  baseline_trace_id = none;
  created_at = 1;
  updated_at = 1;
}

abbrev stored : Tables ℤ
stored = record {
  routes = route ∷ [];
  cases = case_at draft 1 ∷ [];
  traces = trace_at 11 ∷ trace_at 12 ∷ [];
  events = [];
  audits = [];
  users = [];
}

abbrev database : Memory ℤ
database = record { content = stored; clock = 500; faults = [] }

abbrev analysis : AnalyzeCaseRequest ℤ
analysis = record { distance_tolerance_m = dec 0 0; loss_increase_db = dec 0 0 }

create_writes_example :
    Ends
      (memory ℤ)
      (λ r t'.
        ((e : GoError) × (r ≡ err e) × (t' ≡ stored))
        ⊎ (¬ (request_again.baseline_trace_id ≡ request_again.current_trace_id)
            × Belongs 11 1 stored
            × Belongs 12 1 stored
            × IsCreated request_again ann stored t'
            × Written (creation request_again ann) stored t'))
      (create (memory ℤ) request_again ann)
      database
create_writes_example = create_writes (memory ℤ) (memory-IsSound ℤ) request_again ann database

abbrev two_calls : List (Call ℤ)
two_calls = creates request_again ann ∷ analyzes 7 analysis ann ∷ []

calls-Reach_example :
    (n : ℕ) × Reach stored ((after_calls (memory ℤ) two_calls database).content) n × (n ≤ 3 * 2)
calls-Reach_example = calls-Reach (memory ℤ) (memory-IsSound ℤ) two_calls database

calls-audited_example :
    let t' = (after_calls (memory ℤ) two_calls database).content in
    (c' : LocalizationCase ℤ) × (get_elem? t'.cases 0 ≡ some c')
    × (c'.version + entries 7 stored ≤ 1 + entries 7 t')
    × (entries 7 t' ≡ entries 7 stored → c' ≡ case_at draft 1)
calls-audited_example =
    calls-audited (memory ℤ) (memory-IsSound ℤ) two_calls database 0 (case_at draft 1) refl

abbrev newest_first : TraceCapture ℤ → TraceCapture ℤ → Bool
newest_first a b = ltb b.captured_at a.captured_at

listed-IsAnswer_example :
    EndsIn
      (memory ℤ)
      (λ t'. t' ≡ stored)
      (λ r t'.
        (t' ≡ stored)
        × IsAnswer (λ t. t.traces) newest_first (λ t c. true) (pos 0) (pos 500) stored r)
      (listed "list traces failed" (pos 0) (pos 500) (
        list_page
          (λ t. t.traces)
          newest_first
          (λ t c. true)
          (memory ℤ)
          "count traces"
          "list traces"))
      database
listed-IsAnswer_example =
    listed-IsAnswer (λ t. t.traces) newest_first (λ t c. true) (memory ℤ) (memory-IsSound ℤ)
      "list traces failed" "count traces" "list traces" (pos 0) (pos 500) database

abbrev new_route_request : CreateRouteRequest ℤ
new_route_request = record {
  route_code = "R2";
  name = "spur";
  length_m = dec 500 0;
  refractive_index = dec 15 1;
  launch_connector = "SC";
  route_status = "";
}

create_route_writes_example :
    EndsIn
      (memory ℤ)
      (λ t'. t' ≡ stored)
      (RouteEffects.IsCreated (λ s. s) new_route_request ann stored)
      (RouteService.create (memory ℤ) (λ s. s) new_route_request ann)
      database
create_route_writes_example =
    create_route_writes (memory ℤ) (memory-IsSound ℤ) (λ s. s) new_route_request ann database

set_baseline_writes_example :
    EndsIn
      (memory ℤ)
      (λ t'. t' ≡ stored)
      (λ r t'.
        Belongs 12 1 stored
        × ((before : FiberRoute ℤ) × (first (λ (c : FiberRoute ℤ). c.id == 1) stored.routes
              ≡ ok before)
            × (r ≡ record before { baseline_trace_id = some 12 })
            × RouteEffects.IsRebased ann 1 12 before.baseline_trace_id stored t'
            × (0 < count_if (λ (c : FiberRoute ℤ). c.id == 1) stored.routes)))
      (set_baseline (memory ℤ) 1 12 ann)
      database
set_baseline_writes_example = set_baseline_writes (memory ℤ) (memory-IsSound ℤ) 1 12 ann database
