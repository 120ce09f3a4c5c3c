-- ===== src/Handler/Events.antt =====
-- internal/handler/event_handler.go.
use text.Mathlib.Text.{◌==◌ as str_eq}
use gb_522_a16g.Base.{pos, String, List, [], ◌∷◌, if◌then◌else◌}
use gb_522_a16g.Config.{parse_bool}
use gb_522_a16g.Constants.{EventType, unsupported, event_types, event_name}
use gb_522_a16g.Float.{Float64}
use gb_522_a16g.Json.{Value, int, num, obj, end, field}
use gb_522_a16g.Model.{DetectEventsRequest, DetectionSummary, ReviewEventRequest}
use gb_522_a16g.Store.{Engine}
use gb_522_a16g.Service.Event.{event_value, detect_events, review_event}
use gb_522_a16g.Service.Listing as Listing
use gb_522_a16g.Middleware.Chain.{Handler}
use gb_522_a16g.Handler.{Binder, actor, query_uint, query_int, answer, with_id, with_body}
use gb_522_a16g.Handler.Cases.{plain, paged}

-- `constants.EventType(s)`
abbrev named_event : String → List EventType → EventType
named_event s [] = unsupported s
named_event s (e ∷ es) = if str_eq (event_name e) s then e else named_event s es

unfoldable pub event_of : String → EventType
event_of s = named_event s event_types

module _ {F : Type 0} where
  abbrev pub summary_value : DetectionSummary F → Value F
  summary_value r = obj (
      field "trace_id" (int r.trace_id) (
        field "detected_count" (int r.detected_count) (
          field "noise_floor_db" (num r.noise_floor_db) (
            field "threshold_db" (num r.threshold_db)
              (field "rejected_out_of_bounds" (int r.rejected_count) end)))))

module _ {F : Type 0} ⦃fl : Float64 F⦄ (engine : Engine F) where
  -- An empty or malformed `reviewed` leaves the query's pointer nil.
  unfoldable pub list_handler : Handler engine
  list_handler c =
      answer engine 200 (paged event_value)
        (Listing.list_events engine (record {
          trace_id = query_uint c "trace_id";
          route_id = query_uint c "route_id";
          event_type = event_of (c.request.query "event_type");
          reviewed = parse_bool (c.request.query "reviewed");
          page = query_int c "page" (pos 1);
          page_size = query_int c "page_size" (pos 50);
        }))
        c

  unfoldable pub detect_handler : Binder (DetectEventsRequest F) → Handler engine
  detect_handler binder = with_id engine (λ id. with_body engine binder (λ request c.
      answer engine 200 (plain summary_value) (detect_events engine id request (actor c)) c))

  unfoldable pub review_handler : Binder (ReviewEventRequest F) → Handler engine
  review_handler binder = with_id engine (λ id. with_body engine binder (λ request c.
      answer engine 200 (plain event_value) (review_event engine id request (actor c)) c))
