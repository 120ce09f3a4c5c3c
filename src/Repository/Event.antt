-- ===== src/Repository/Event.antt =====
-- internal/repository/event_repository.go.
pub mod Laws
use gb_522_a16g.Base.{
  ◌+◌, ◌++◌, suc, [], ◌∷◌, true, false, not, ◌&&◌, count_if, if◌then◌else◌, err_not_found, ℕ, List,
  Bool, ◌==◌, ok, wrapped, filter_if, sort_by,
}
use gb_522_a16g.Float.{Float64}
use gb_522_a16g.Model.{EventMarker}
use gb_522_a16g.Repository.Listing.{arranged}
use gb_522_a16g.Repository.Query.{first, update_where, not_found_or}
use gb_522_a16g.Store.{◌>>=◌, ◌>>◌, pure, fail, Statement, Action, Engine, map_err}

module _ {F : Type 0} ⦃fl : Float64 F⦄ where
  -- `Order("distance_m ASC")`
  abbrev pub nearer : EventMarker F → EventMarker F → Bool
  nearer a b = fl.lt a.distance_m b.distance_m

  unfoldable pub for_trace_statement : ℕ → Statement F (List (EventMarker F))
  for_trace_statement trace_id stamp t = (
    ok (
        sort_by nearer (
          filter_if (λ (e : EventMarker F). e.trace_id == trace_id)
            (arranged stamp.scan t.events))),
    t,
  )

  unfoldable pub for_trace : (engine : Engine F) → ℕ → Action engine.Db (List (EventMarker F))
  for_trace engine trace_id =
      map_err (wrapped "list events for trace") (engine.exec (for_trace_statement trace_id))

module _ {F : Type 0} where
  unfoldable pub get_event_statement : ℕ → Statement F (EventMarker F)
  get_event_statement id stamp t = (first (λ c. c.id == id) t.events, t)

  unfoldable pub get : (engine : Engine F) → ℕ → Action engine.Db (EventMarker F)
  get engine id = map_err (not_found_or "get event marker") (engine.exec (get_event_statement id))

  -- `Where("trace_id = ? AND reviewed = ?", traceID, false).Delete`
  unfoldable pub clear_unreviewed_statement : ℕ → Statement F (Unit {0})
  clear_unreviewed_statement trace_id stamp t = (
    ok tt,
    record t {
      events =
          filter_if (λ (e : EventMarker F). not (e.trace_id == trace_id && not e.reviewed))
            t.events;
    },
  )

  -- The rows of a batch take the ids that follow.
  unfoldable pub numbered : ℕ → ℕ → List (EventMarker F) → List (EventMarker F)
  numbered now id [] = []
  numbered now id (e ∷ events) =
      record e { id = id; created_at = now; updated_at = now } ∷ numbered now (suc id) events

  unfoldable pub create_events_statement : List (EventMarker F) → Statement F (Unit {0})
  create_events_statement events stamp t =
      (ok tt, record t { events = t.events ++ numbered stamp.now stamp.fresh_event events })

  unfoldable pub create_events :
      (engine : Engine F) → List (EventMarker F) → Action engine.Db (Unit {0})
  create_events engine [] = pure tt
  create_events engine (e ∷ events) =
      map_err (wrapped "create detected events")
        (engine.exec (create_events_statement (e ∷ events)))

  unfoldable pub replace_for_trace :
      (engine : Engine F) → ℕ → List (EventMarker F) → Action engine.Db (Unit {0})
  replace_for_trace engine trace_id events = do
    map_err (wrapped "clear unreviewed events") (engine.exec (clear_unreviewed_statement trace_id))
    create_events engine events

  -- The columns that a review sets; gorm sets `updated_at`.
  abbrev pub reviewed_as : EventMarker F → ℕ → EventMarker F → EventMarker F
  reviewed_as event now c = record c {
    event_type = event.event_type;
    distance_m = event.distance_m;
    reviewed = true;
    review_note = event.review_note;
    reviewed_by = event.reviewed_by;
    reviewed_at = event.reviewed_at;
    updated_at = now;
  }

  unfoldable pub review_statement : EventMarker F → Statement F ℕ
  review_statement event stamp t = (
    ok (count_if (λ (c : EventMarker F). c.id == event.id) t.events),
    record t {
      events =
          update_where (λ (c : EventMarker F). c.id == event.id) (reviewed_as event stamp.now)
            t.events;
    },
  )

  unfoldable pub review : (engine : Engine F) → EventMarker F → Action engine.Db (Unit {0})
  review engine event = do
    rows ← map_err (wrapped "review event marker") (engine.exec (review_statement event))
    if rows == 0 then fail err_not_found else pure tt
