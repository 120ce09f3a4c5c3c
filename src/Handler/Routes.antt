-- ===== src/Handler/Routes.antt =====
-- internal/handler/fiber_route_handler.go. `like` and `to_upper` are those of the route service.
use gb_522_a16g.Base.{suc, ℤ, pos, negsuc, String, Bool, List}
use gb_522_a16g.Float.{Float64}
use gb_522_a16g.Json.{Value, int, num, arr, obj, end, field}
use gb_522_a16g.Model.{FiberRoute, TraceCapture}
use gb_522_a16g.Model.Route.{CreateRouteRequest, UpdateRouteRequest, SetBaselineRequest}
use gb_522_a16g.Store.{Engine}
use gb_522_a16g.Service.Document.{column, items_of}
use gb_522_a16g.Service.Route.{route_value}
use gb_522_a16g.Service.Route as RouteService
use gb_522_a16g.Service.Listing as Listing
use gb_522_a16g.Middleware.Chain.{Handler}
use gb_522_a16g.Handler.{Binder, actor, query_int, answer, with_id, with_body}
use gb_522_a16g.Handler.Cases.{plain, paged}

module _ {F : Type 0} ⦃fl : Float64 F⦄ where
  open fl use {neg, of_ℕ}

  -- An `int`, which may be below zero.
  abbrev pub int_value : ℤ → Value F
  int_value (pos n) = int n
  int_value (negsuc n) = num (neg (of_ℕ (suc n)))

  abbrev points_value : List F → Value F
  points_value xs = arr (items_of num xs)

  abbrev pub trace_value : TraceCapture F → Value F
  trace_value c = obj (
      field "id" (int c.id) (
        field "route_id" (int c.route_id) (
          field "wavelength_nm" (int c.wavelength_nm) (
            field "pulse_width_ns" (num c.pulse_width_ns) (
              field "sample_interval_ns" (num c.sample_interval_ns) (
                field "raw_points_json" (column points_value c.raw_points_json) (
                  field "processed_points_json" (column points_value c.processed_json) (
                    field "noise_floor_db" (num c.noise_floor_db) (
                      field "denoise_window" (int_value c.denoise_window) (
                        field "peak_threshold_db" (num c.peak_threshold_db) (
                          field "merge_window" (int_value c.merge_window) (
                            field "captured_at" (int c.captured_at) (
                              field "uploaded_by" (int c.uploaded_by)
                                (field "created_at" (int c.created_at) end))))))))))))))

  abbrev pub route_answer : FiberRoute F × List (TraceCapture F) → Value F
  route_answer r =
      obj (field "route" (route_value r.0) (field "traces" (arr (items_of trace_value r.1)) end))

module _ {F : Type 0} ⦃fl : Float64 F⦄ (engine : Engine F) where
  unfoldable pub list_handler : (String → String → Bool) → Handler engine
  list_handler like c =
      answer engine 200 (paged route_value)
        (Listing.list_routes engine like (record {
          keyword = c.request.query "keyword";
          status = c.request.query "status";
          page = query_int c "page" (pos 1);
          page_size = query_int c "page_size" (pos 20);
        }))
        c

  unfoldable pub create_handler : (String → String) → Binder (CreateRouteRequest F) → Handler engine
  create_handler to_upper binder = with_body engine binder (λ request c.
      answer engine 201 (plain route_value) (RouteService.create engine to_upper request (actor c))
        c)

  unfoldable pub get_handler : Handler engine
  get_handler =
      with_id engine (λ id c. answer engine 200 (plain route_answer) (RouteService.get engine id) c)

  unfoldable pub update_handler : Binder (UpdateRouteRequest F) → Handler engine
  update_handler binder = with_id engine (λ id. with_body engine binder (λ request c.
      answer engine 200 (plain route_value) (RouteService.update engine id request (actor c)) c))

  unfoldable pub set_baseline_handler : Binder SetBaselineRequest → Handler engine
  set_baseline_handler binder = with_id engine (λ id. with_body engine binder (λ request c.
      answer engine 200 (plain route_value)
        (RouteService.set_baseline engine id request.trace_id (actor c)) c))
