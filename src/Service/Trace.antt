-- ===== src/Service/Trace.antt =====
-- internal/service/trace_service.go: `Import` and `Get`.
use Prim.Native.String.{◌++◌}
use gb_522_a16g.Base.{
  ℕ, suc, ℤ, pos, pos_part, sub_ℕ, Bool, ◌||◌, ltb, List, [], ◌∷◌, some, if◌then◌else◌, Result, ok,
  err, nil, app_error, algorithm_input, length,
}
use gb_522_a16g.Base.Text.{decimal}
use gb_522_a16g.Float.{Float64}
use gb_522_a16g.Json.{Value, int, num, arr, obj, end, field, Column, blank, malformed, encoded}
use gb_522_a16g.Algorithm.Denoise.{moving_median}
use gb_522_a16g.Algorithm.Detect.{estimate_noise_floor}
use gb_522_a16g.Algorithm.Distance.{sample_distance}
use gb_522_a16g.Model.{TraceCapture, EventMarker, Actor}
use gb_522_a16g.Model.Trace.{ImportTraceRequest, TraceDetail}
use gb_522_a16g.Store.{◌>>=◌, ◌>>◌, Action, Engine, pure, map_err, refuse_if, lift}
use gb_522_a16g.Service.Errors.{invalid, internal}
use gb_522_a16g.Service.Snapshot.{snapshot}
use gb_522_a16g.Service.Document.{audit, no_value, items_of}
use gb_522_a16g.Service.Case.Values.{or_default, to_column}
use gb_522_a16g.Service.Event.{found_or, int_or_default, decoded}
use gb_522_a16g.Repository.Audit as AuditRepository
use gb_522_a16g.Repository.Route as RouteRepository
use gb_522_a16g.Repository.Trace as TraceRepository
use gb_522_a16g.Repository.Event as EventRepository

module _ {F : Type 0} ⦃fl : Float64 F⦄ where
  open fl use {dec, lt, neg, mul, is_nan, is_inf}

  abbrev pub out_of_range : F → Bool
  out_of_range point =
      is_nan point || (is_inf point || (lt point (neg (dec 200 0)) || lt (dec 100 0) point))

  -- The loop over the samples, from the index on.
  unfoldable pub check_points : ℕ → List F → Result (Unit {0})
  check_points i [] = ok tt
  check_points i (point ∷ points) =
      let rest = check_points (suc i) points in
      if out_of_range point
      then err (invalid ("sample " ++ (decimal i ++ " is outside the supported dB range")) nil)
      else rest

  unfoldable pub new_trace : ImportTraceRequest F → ℤ → F → ℤ → List F → F → Actor → TraceCapture F
  new_trace request window threshold merge filtered noise actor = record {
    id = 0;
    route_id = request.route_id;
    wavelength_nm = request.wavelength_nm;
    pulse_width_ns = request.pulse_width_ns;
    sample_interval_ns = request.sample_interval_ns;
    raw_points_json = to_column (λ xs. arr (items_of num xs)) request.points;
    processed_json = to_column (λ xs. arr (items_of num xs)) filtered;
    noise_floor_db = noise;
    denoise_window = window;
    peak_threshold_db = threshold;
    merge_window = merge;
    captured_at = request.captured_at;
    uploaded_by = actor.id;
    created_at = 0;
  }

  -- Both windows are above zero once the algorithms have accepted the first and the request's checks the
  -- second.
  abbrev pub import_value : ImportTraceRequest F → TraceCapture F → Value F
  import_value request row = obj (
      field "denoise_window" (int (pos_part row.denoise_window)) (
        field "merge_window" (int (pos_part row.merge_window)) (
          field "peak_threshold_db" (num row.peak_threshold_db) (
            field "point_count" (int (length request.points))
              (field "wavelength_nm" (int request.wavelength_nm) end)))))

  -- `len(column) > 0`, and then json.Unmarshal; no text leaves the slice empty.
  abbrev pub decoded_or_empty : Column (List F) → Result (List F)
  decoded_or_empty blank = ok []
  decoded_or_empty malformed = decoded malformed
  decoded_or_empty (encoded xs) = ok xs

  unfoldable pub trace_detail : TraceCapture F → List F → List F → TraceDetail F
  trace_detail trace raw processed = record {
    id = trace.id;
    route_id = trace.route_id;
    wavelength_nm = trace.wavelength_nm;
    pulse_width_ns = trace.pulse_width_ns;
    sample_interval_ns = trace.sample_interval_ns;
    points = raw;
    processed_points = processed;
    noise_floor_db = trace.noise_floor_db;
    denoise_window = trace.denoise_window;
    peak_threshold_db = trace.peak_threshold_db;
    merge_window = trace.merge_window;
    captured_at = trace.captured_at;
    uploaded_by = trace.uploaded_by;
  }

  module _ (engine : Engine F) where
    open engine use {Db, transaction}

    -- The transaction of `Import`.
    unfoldable pub import_body :
        ImportTraceRequest F → TraceCapture F → ℕ → Actor → Action Db (TraceCapture F)
    import_body request trace route_id actor = do
      row ← TraceRepository.create engine trace
      AuditRepository.create engine (
          audit actor "trace.imported" "TraceCapture" row.id (some route_id) no_value
            (snapshot (import_value request row)))
      pure row

    unfoldable pub import_trace : ℕ → ImportTraceRequest F → Actor → Action Db (TraceCapture F)
    import_trace max_points request actor = do
      refuse_if (ltb max_points (length request.points))
          (invalid ("trace exceeds the " ++ (decimal max_points ++ "-point limit")) nil)
      lift (check_points 0 request.points)
      route ←
          map_err (found_or "route does not exist" "load route failed")
            (RouteRepository.get engine request.route_id)
      let window = int_or_default request.denoise_window (pos 5)
      let threshold = or_default request.peak_threshold_db (dec 8 1)
      let merge = int_or_default request.merge_window (pos 3)
      filtered ←
          map_err (invalid "trace denoising failed") (lift (moving_median request.points window))
      noise ←
          map_err (app_error algorithm_input 422 "not enough trace samples for noise estimation")
            (lift (estimate_noise_floor filtered))
      last_distance ← map_err (invalid "distance conversion failed") (
          lift (
            sample_distance (sub_ℕ (length request.points) 1) request.sample_interval_ns
              route.refractive_index))
      refuse_if (lt last_distance (mul route.length_m (dec 5 2)))
          (invalid "trace sampling range covers less than five percent of the route" nil)
      map_err (internal "import trace failed") (
          transaction (
            import_body request (new_trace request window threshold merge filtered noise actor)
              route.id actor))

    unfoldable pub get : ℕ → Action Db (TraceDetail F × List (EventMarker F))
    get id = do
      trace ←
          map_err (found_or "trace does not exist" "get trace failed")
            (TraceRepository.get engine id)
      raw ←
          map_err (internal "decode raw trace points failed") (lift (decoded trace.raw_points_json))
      processed ←
          map_err (internal "decode processed trace points failed")
            (lift (decoded_or_empty trace.processed_json))
      events ← map_err (internal "list trace events failed") (EventRepository.for_trace engine id)
      pure (trace_detail trace raw processed, events)
