-- ===== src/Handler/Traces.antt =====
-- internal/handler/trace_handler.go and audit_handler.go. `read_time` is time.Parse of RFC 3339.
use gb_522_a16g.Base.{
  ℕ, pos, String, Bool, List, [], ◌∷◌, Option, none, if◌then◌else◌, Result, ok, err, panic,
}
use gb_522_a16g.Base.Text.{is_empty}
use gb_522_a16g.Float.{Float64}
use gb_522_a16g.Json.{Value, null, int, num, text, arr, obj, end, field}
use gb_522_a16g.Model.{EventMarker, AuditLog}
use gb_522_a16g.Model.Trace.{ImportTraceRequest, TraceDetail}
use gb_522_a16g.Store.{Action, Engine}
use gb_522_a16g.Service.Document.{optional, items_of}
use gb_522_a16g.Service.Event.{event_value}
use gb_522_a16g.Service.Trace.{import_trace, get}
use gb_522_a16g.Service.Listing as Listing
use gb_522_a16g.Middleware.Chain.{Context, Reply, replied, panicked, Handler}
use gb_522_a16g.Handler.{Binder, actor, query_uint, query_int, answer, with_id, with_body}
use gb_522_a16g.Handler.Cases.{plain, paged}
use gb_522_a16g.Handler.Routes.{int_value, trace_value}

-- An empty or malformed time leaves the query's pointer nil.
abbrev query_time : (String → Option ℕ) → Context → String → Option ℕ
query_time read_time c key =
    let value = c.request.query key in if is_empty value then none else read_time value

module _ {F : Type 0} ⦃fl : Float64 F⦄ where
  -- The processed points of a trace are never an empty list, so an empty one is the nil slice.
  abbrev processed_value : List F → Value F
  processed_value [] = null
  processed_value (x ∷ xs) = arr (items_of num (x ∷ xs))

  abbrev pub detail_value : TraceDetail F → Value F
  detail_value c = obj (
      field "id" (int c.id) (
        field "route_id" (int c.route_id) (
          field "wavelength_nm" (int c.wavelength_nm) (
            field "pulse_width_ns" (num c.pulse_width_ns) (
              field "sample_interval_ns" (num c.sample_interval_ns) (
                field "points" (arr (items_of num c.points)) (
                  field "processed_points" (processed_value c.processed_points) (
                    field "noise_floor_db" (num c.noise_floor_db) (
                      field "denoise_window" (int_value c.denoise_window) (
                        field "peak_threshold_db" (num c.peak_threshold_db) (
                          field "merge_window" (int_value c.merge_window) (
                            field "captured_at" (int c.captured_at)
                              (field "uploaded_by" (int c.uploaded_by) end)))))))))))))

  abbrev pub trace_answer : TraceDetail F × List (EventMarker F) → Value F
  trace_answer r =
      obj (field "events" (arr (items_of event_value r.1)) (field "trace" (detail_value r.0) end))

  -- The program writes `before` and `after` as the texts of these documents.
  abbrev pub audit_value : AuditLog F → Value F
  audit_value c = obj (
      field "id" (int c.id) (
        field "actor_id" (int c.actor_id) (
          field "actor_name" (text c.actor_name) (
            field "action" (text c.action) (
              field "resource_type" (text c.resource_type) (
                field "resource_id" (int c.resource_id) (
                  field "route_id" (optional int c.route_id) (
                    field "request_id" (text c.request_id) (
                      field "before" c.before
                        (field "after" c.after (field "created_at" (int c.created_at) end)))))))))))

module _ {F : Type 0} ⦃fl : Float64 F⦄ (engine : Engine F) where
  open engine use {Db}

  unfoldable pub list_handler : (String → Option ℕ) → Handler engine
  list_handler read_time c =
      answer engine 200 (paged trace_value)
        (Listing.list_traces engine (record {
          route_id = query_uint c "route_id";
          from = query_time read_time c "from";
          to = query_time read_time c "to";
          page = query_int c "page" (pos 1);
          page_size = query_int c "page_size" (pos 20);
        }))
        c

  unfoldable pub import_handler : ℕ → Binder (ImportTraceRequest F) → Handler engine
  import_handler max_points binder = with_body engine binder (λ request c.
      answer engine 201 (plain trace_value) (import_trace engine max_points request (actor c)) c)

  unfoldable pub get_handler : Handler engine
  get_handler = with_id engine (λ id c. answer engine 200 (plain trace_answer) (get engine id) c)

  unfoldable pub audit_handler : (String → String → Bool) → (String → Option ℕ) → Handler engine
  audit_handler like read_time c =
      answer engine 200 (paged audit_value)
        (Listing.list_audits engine like (record {
          route_id = query_uint c "route_id";
          actor_name = c.request.query "actor";
          action = c.request.query "action";
          from = query_time read_time c "from";
          to = query_time read_time c "to";
          page = query_int c "page" (pos 1);
          page_size = query_int c "page_size" (pos 50);
        }))
        c

  unfoldable pub health_handler : Handler engine
  health_handler c s = (
    replied 200 c.headers (
        obj (
          field "service" (text "fiber-otdr-fault-localization") (field "status" (text "ok") end))),
    s,
  )

  abbrev pub status_reply : ℕ → String → Context → Reply F
  status_reply status message c = replied status c.headers (obj (field "status" (text message) end))

  abbrev pub readiness : Result (Unit {0}) → Context → Reply F
  readiness (ok x) c = status_reply 200 "ready" c
  readiness (err e) c = status_reply 503 "not_ready" c
  readiness panic c = panicked c.headers

  -- `ping` is `Ping` of the store.
  unfoldable pub ready_handler : Action Db (Unit {0}) → Handler engine
  ready_handler ping c s = let r = ping s.db in (readiness r.0 c, record s { db = r.1 })
