-- ===== src/Service/Event.antt =====
-- internal/service/event_service.go: `Detect` and `Review`.
use gb_522_a16g.Base.{
  ℕ, zero, String, ℤ, pos, pos_part, List, map, true, false, not, none, some, if◌then◌else◌, ok,
  err, Result, GoError, app_error, errorf, nil, algorithm_input, is_not_found, length,
}
use gb_522_a16g.Float.{Float64}
use gb_522_a16g.Constants.{valid_event, event_name}
use gb_522_a16g.Json.{
  Value, bool, num, int, text, arr, obj, end, field, Column, blank, malformed, encoded,
}
use gb_522_a16g.Algorithm.Denoise.{moving_median}
use gb_522_a16g.Algorithm.Detect.{DetectedEvent, estimate_noise_floor, detect}
use gb_522_a16g.Model.{
  TraceCapture, EventMarker, Actor, DetectEventsRequest, DetectionSummary, ReviewEventRequest,
}
use gb_522_a16g.Store.{◌>>=◌, ◌>>◌, Action, Engine, pure, map_err, refuse_if, lift}
use gb_522_a16g.Service.Errors.{invalid, not_found, internal}
use gb_522_a16g.Service.Snapshot.{snapshot}
use gb_522_a16g.Service.Document.{optional, items_of, audit, no_value}
use gb_522_a16g.Service.Case.Values.{or_default, to_column}
use gb_522_a16g.Service.Case.Load.{time_now}
use gb_522_a16g.Repository.Audit as AuditRepository
use gb_522_a16g.Repository.Trace as TraceRepository
use gb_522_a16g.Repository.Event as EventRepository
use gb_522_a16g.Repository.Route as RouteRepository

-- `if errors.Is(err, repository.ErrNotFound)`, with the two errors.
abbrev pub found_or : String → String → GoError → GoError
found_or missing failed e = if is_not_found e then not_found missing else internal failed e

-- `if n == 0 { n = fallback }`
abbrev pub int_or_default : ℤ → ℤ → ℤ
int_or_default (pos zero) fallback = fallback
int_or_default n fallback = n

-- `json.Unmarshal(trace.RawPointsJSON, &raw)`
abbrev pub decoded : {A : Type 0} → Column A → Result A
decoded blank = err (errorf "unexpected end of JSON input")
decoded malformed = err (errorf "json: cannot unmarshal")
decoded (encoded a) = ok a

module _ {F : Type 0} ⦃fl : Float64 F⦄ where
  open fl use {dec, lt}

  -- The parameters of a detection: of the request, else of the trace, else the defaults.
  unfoldable pub detection_parameters :
      DetectEventsRequest F → TraceCapture F → DetectEventsRequest F
  detection_parameters request trace = record {
    denoise_window =
        int_or_default (int_or_default request.denoise_window trace.denoise_window) (pos 5);
    peak_threshold_db =
        or_default (or_default request.peak_threshold_db trace.peak_threshold_db) (dec 8 1);
    merge_window = int_or_default (int_or_default request.merge_window trace.merge_window) (pos 3);
  }

  -- The row of a detected event; the algorithm's values are kept beside those that a review edits.
  unfoldable pub detected_marker : ℕ → DetectedEvent F → EventMarker F
  detected_marker trace_id item = record {
    id = 0;
    trace_id = trace_id;
    distance_m = item.distance_m;
    event_type = item.event_type;
    insertion_loss_db = item.insertion_loss_db;
    reflectance_db = item.reflectance_db;
    confidence = item.confidence;
    algorithm_event_type = item.event_type;
    algorithm_distance_m = item.distance_m;
    algorithm_insertion_loss_db = item.insertion_loss_db;
    reviewed = false;
    review_note = "";
    reviewed_by = none;
    reviewed_at = none;
    created_at = 0;
    updated_at = 0;
  }

  -- The document of a detection. Both windows are above zero once the algorithms have accepted them.
  abbrev pub detection_value : DetectEventsRequest F → F → ℕ → ℕ → Value F
  detection_value p noise detected rejected = obj (
      field "denoise_window" (int (pos_part p.denoise_window)) (
        field "detected" (int detected) (
          field "merge_window" (int (pos_part p.merge_window)) (
            field "noise_floor_db" (num noise) (
              field "peak_threshold_db" (num p.peak_threshold_db)
                (field "rejected_out_of_bounds" (int rejected) end))))))

  abbrev pub event_value : EventMarker F → Value F
  event_value e = obj (
      field "id" (int e.id) (
        field "trace_id" (int e.trace_id) (
          field "distance_m" (num e.distance_m) (
            field "event_type" (text (event_name e.event_type)) (
              field "insertion_loss_db" (num e.insertion_loss_db) (
                field "reflectance_db" (num e.reflectance_db) (
                  field "confidence" (num e.confidence) (
                    field "algorithm_event_type" (text (event_name e.algorithm_event_type)) (
                      field "algorithm_distance_m" (num e.algorithm_distance_m) (
                        field "algorithm_insertion_loss_db" (num e.algorithm_insertion_loss_db) (
                          field "reviewed" (bool e.reviewed) (
                            field "review_note" (text e.review_note) (
                              field "reviewed_by" (optional int e.reviewed_by) (
                                field "reviewed_at" (optional int e.reviewed_at) (
                                  field "created_at" (int e.created_at)
                                    (field "updated_at" (int e.updated_at) end))))))))))))))))

  -- The event as the review leaves it, before the time and the reviewer are set.
  unfoldable pub edited : ReviewEventRequest F → EventMarker F → EventMarker F
  edited request event = record event {
    event_type = request.event_type;
    distance_m = elim request.distance_m [ none ↦ event.distance_m | some distance ↦ distance ];
  }

  abbrev pub signed_off : ReviewEventRequest F → Actor → ℕ → EventMarker F → EventMarker F
  signed_off request actor now event = record event {
    reviewed = true;
    review_note = request.review_note;
    reviewed_by = some actor.id;
    reviewed_at = some now;
  }

  module _ (engine : Engine F) where
    open engine use {Db, transaction}

    -- The transaction of `Detect`.
    unfoldable pub detect_body :
        DetectEventsRequest F
        → TraceCapture F
        → ℕ
        → List F
        → F
        → List (EventMarker F)
        → ℕ
        → Actor
        → Action Db (Unit {0})
    detect_body p trace route_id filtered noise events rejected actor = do
      TraceRepository.update_processing engine trace.id
          (to_column (λ xs. arr (items_of num xs)) filtered) noise p.denoise_window
          p.peak_threshold_db p.merge_window
      EventRepository.replace_for_trace engine trace.id events
      AuditRepository.create engine (
          audit actor "trace.events_detected" "TraceCapture" trace.id (some route_id) no_value
            (snapshot (detection_value p noise (length events) rejected)))

    unfoldable pub detect_events :
        ℕ → DetectEventsRequest F → Actor → Action Db (DetectionSummary F)
    detect_events trace_id request actor = do
      trace ←
          map_err (found_or "trace does not exist" "get trace failed")
            (TraceRepository.get engine trace_id)
      route ←
          map_err (internal "get trace route failed") (RouteRepository.get engine trace.route_id)
      raw ← map_err (internal "decode raw trace failed") (lift (decoded trace.raw_points_json))
      let p = detection_parameters request trace
      filtered ←
          map_err (app_error algorithm_input 422 "trace denoising failed")
            (lift (moving_median raw p.denoise_window))
      noise ←
          map_err (app_error algorithm_input 422 "noise floor estimation failed")
            (lift (estimate_noise_floor filtered))
      (detected, rejected) ← map_err (app_error algorithm_input 422 "event detection failed") (
          lift (
            detect filtered p.peak_threshold_db p.merge_window trace.sample_interval_ns
              route.refractive_index route.length_m))
      let events = map (detected_marker trace.id) detected
      map_err (internal "save detected events failed")
          (transaction (detect_body p trace route.id filtered noise events rejected actor))
      pure (record {
        trace_id = trace.id;
        detected_count = length events;
        noise_floor_db = noise;
        threshold_db = p.peak_threshold_db;
        rejected_count = rejected;
      })

    -- The transaction of `Review`.
    unfoldable pub review_body : EventMarker F → EventMarker F → ℕ → Actor → Action Db (Unit {0})
    review_body before event route_id actor = do
      EventRepository.review engine event
      AuditRepository.create engine (
          audit actor "event.reviewed" "EventMarker" event.id (some route_id)
            (snapshot (event_value before)) (snapshot (event_value event)))

    unfoldable pub review_event : ℕ → ReviewEventRequest F → Actor → Action Db (EventMarker F)
    review_event id request actor = do
      refuse_if (not (valid_event request.event_type)) (invalid "event_type is not supported" nil)
      before ←
          map_err (found_or "event does not exist" "get event failed")
            (EventRepository.get engine id)
      trace ←
          map_err (internal "get event trace failed") (TraceRepository.get engine before.trace_id)
      route ←
          map_err (internal "get event route failed") (RouteRepository.get engine trace.route_id)
      let reviewed_event = edited request before
      refuse_if (lt route.length_m reviewed_event.distance_m)
          (invalid "reviewed distance exceeds route length" nil)
      now ← time_now engine
      let event = signed_off request actor now reviewed_event
      map_err (internal "review event failed")
          (transaction (review_body before event route.id actor))
      pure event
