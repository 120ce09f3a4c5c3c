-- ===== src/Service/Listing.antt =====
-- The `List` methods of internal/service and `normalizePage` of internal/service/route_service.go.
pub mod Laws
use gb_522_a16g.Base.{ℕ, ℤ, pos, pos_part, String, Bool, ltb_ℤ, List, if◌then◌else◌}
use gb_522_a16g.Float.{Float64}
use gb_522_a16g.Model.{FiberRoute, TraceCapture, EventMarker, LocalizationCase, AuditLog}
use gb_522_a16g.Model.Account.{Pagination}
use gb_522_a16g.Model.Listing.{RouteQuery, TraceQuery, EventQuery, CaseQuery, AuditQuery}
use gb_522_a16g.Store.{◌>>=◌, Action, Engine, pure, map_err}
use gb_522_a16g.Service.Errors.{internal}
use gb_522_a16g.Repository.Lists as Lists

-- The page and its size.
unfoldable pub normalize_page : ℤ → ℤ → ℤ × ℤ
normalize_page page size =
    let p = if ltb_ℤ page (pos 1) then pos 1 else page in
    let at_least = if ltb_ℤ size (pos 1) then pos 20 else size in
    let at_most = if ltb_ℤ (pos 100) at_least then pos 100 else at_least in (p, at_most)

-- What every `List` does with the repository's.
unfoldable pub listed :
    {Db A : Type 0}
    → String
    → ℤ
    → ℤ
    → (ℕ → ℕ → Action Db (List A × ℕ))
    → Action Db (List A × Pagination)
listed failed page size reads = do
  found ←
      map_err (internal failed)
        (reads (pos_part (normalize_page page size).0) (pos_part (normalize_page page size).1))
  pure (
    found.0,
    record {
      page = (normalize_page page size).0;
      page_size = (normalize_page page size).1;
      total = found.1;
    },
  )

module _ {F : Type 0} (engine : Engine F) where
  open engine use {Db}

  unfoldable pub list_routes :
      (String → String → Bool) → RouteQuery → Action Db (List (FiberRoute F) × Pagination)
  list_routes like query =
      listed "list routes failed" query.page query.page_size (Lists.list_routes engine like query)

  unfoldable pub list_traces : TraceQuery → Action Db (List (TraceCapture F) × Pagination)
  list_traces query =
      listed "list traces failed" query.page query.page_size (Lists.list_traces engine query)

  unfoldable pub list_events :
      ⦃fl : Float64 F⦄ → EventQuery → Action Db (List (EventMarker F) × Pagination)
  list_events query =
      listed "list events failed" query.page query.page_size (Lists.list_events engine query)

  unfoldable pub list_cases : CaseQuery → Action Db (List (LocalizationCase F) × Pagination)
  list_cases query =
      listed "list cases failed" query.page query.page_size (Lists.list_cases engine query)

  unfoldable pub list_audits :
      (String → String → Bool) → AuditQuery → Action Db (List (AuditLog F) × Pagination)
  list_audits like query =
      listed "list audit entries failed" query.page query.page_size
        (Lists.list_audits engine like query)
