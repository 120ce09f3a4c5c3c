-- ===== src/Repository/Trace.antt =====
-- internal/repository/trace_repository.go.
use gb_522_a16g.Base.{
  ℤ, if◌then◌else◌, err_not_found, List, [], ◌∷◌, ◌++◌, ℕ, Bool, ◌&&◌, ◌==◌, ok, wrapped, count_if,
}
use gb_522_a16g.Model.{TraceCapture}
use gb_522_a16g.Json.{Column}
use gb_522_a16g.Repository.Query.{first, update_where, not_found_or}
use gb_522_a16g.Store.{fail, ◌>>=◌, Statement, Action, Engine, pure, map_err}

module _ {F : Type 0} where
  unfoldable pub count_belonging_statement : ℕ → ℕ → Statement F ℕ
  count_belonging_statement trace_id route_id stamp t = (
    ok (count_if (λ (c : TraceCapture F). c.id == trace_id && c.route_id == route_id) t.traces),
    t,
  )

  unfoldable pub belongs_to_route : (engine : Engine F) → ℕ → ℕ → Action engine.Db Bool
  belongs_to_route engine trace_id route_id = do
    count ←
        map_err (wrapped "check trace route")
          (engine.exec (count_belonging_statement trace_id route_id))
    pure (count == 1)

  -- The row gets its id and its time.
  unfoldable pub create_trace_statement : TraceCapture F → Statement F (TraceCapture F)
  create_trace_statement trace stamp t =
      let row = record trace { id = stamp.fresh_trace; created_at = stamp.now } in
      (ok row, record t { traces = t.traces ++ row ∷ [] })

  unfoldable pub create : (engine : Engine F) → TraceCapture F → Action engine.Db (TraceCapture F)
  create engine trace =
      map_err (wrapped "create trace capture") (engine.exec (create_trace_statement trace))

  unfoldable pub get_trace_statement : ℕ → Statement F (TraceCapture F)
  get_trace_statement id stamp t = (first (λ c. c.id == id) t.traces, t)

  unfoldable pub get : (engine : Engine F) → ℕ → Action engine.Db (TraceCapture F)
  get engine id = map_err (not_found_or "get trace capture") (engine.exec (get_trace_statement id))

  unfoldable pub update_processing_statement : ℕ → Column (List F) → F → ℤ → F → ℤ → Statement F ℕ
  update_processing_statement id processed noise window threshold merge stamp t = (
    ok (count_if (λ (c : TraceCapture F). c.id == id) t.traces),
    record t {
      traces =
          update_where (λ (c : TraceCapture F). c.id == id)
            (λ (c : TraceCapture F). record c {
              processed_json = processed;
              noise_floor_db = noise;
              denoise_window = window;
              peak_threshold_db = threshold;
              merge_window = merge;
            })
            t.traces;
    },
  )

  unfoldable pub update_processing :
      (engine : Engine F) → ℕ → Column (List F) → F → ℤ → F → ℤ → Action engine.Db (Unit {0})
  update_processing engine id processed noise window threshold merge = do
    rows ←
        map_err (wrapped "update trace processing")
          (engine.exec (update_processing_statement id processed noise window threshold merge))
    if rows == 0 then fail err_not_found else pure tt
