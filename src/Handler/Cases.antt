-- ===== src/Handler/Cases.antt =====
-- internal/handler/case_handler.go.
use gb_522_a16g.Base.{pos, pos_part, List, Option, none, some}
use gb_522_a16g.Float.{Float64}
use gb_522_a16g.Json.{Value, null, Column, blank, int, arr, obj, end, field}
use gb_522_a16g.Algorithm.Compare.{Difference}
use gb_522_a16g.Model.{
  LocalizationCase, CreateCaseRequest, AnalyzeCaseRequest, ConfirmCaseRequest, CloseCaseRequest,
}
use gb_522_a16g.Model.Account.{Pagination}
use gb_522_a16g.Store.{Engine}
use gb_522_a16g.Service.Document.{case_value, difference_value, items_of}
use gb_522_a16g.Service.Case.Review.{create, confirm, close}
use gb_522_a16g.Service.Case.Analyze.{analyze}
use gb_522_a16g.Service.Case.Load.{get}
use gb_522_a16g.Service.Listing as Listing
use gb_522_a16g.Middleware.Chain.{Handler}
use gb_522_a16g.Handler.{Binder, actor, query_uint, query_int, answer, with_id, with_body}

module _ {F : Type 0} where
  -- No meta data.
  abbrev pub plain : {A : Type 0} → (A → Value F) → A → Value F × Option (Value F)
  plain f a = (f a, none)

  -- The page and its size are at least 1.
  abbrev pub pagination_value : Pagination → Value F
  pagination_value p = obj (
      field "page" (int (pos_part p.page))
        (field "page_size" (int (pos_part p.page_size)) (field "total" (int p.total) end)))

  abbrev pub paged : {A : Type 0} → (A → Value F) → List A × Pagination → Value F × Option (Value F)
  paged f r = (arr (items_of f r.0), some (pagination_value r.1))

  -- A column without text leaves the slice nil, which is written as `null`.
  abbrev differences_value : Column (List (Difference F)) → List (Difference F) → Value F
  differences_value blank differences = null
  differences_value _ differences = arr (items_of difference_value differences)

  abbrev pub case_answer : LocalizationCase F × List (Difference F) → Value F
  case_answer r = obj (
      field "case" (case_value r.0)
        (field "differences" (differences_value r.0.differences_json r.1) end))

module _ {F : Type 0} ⦃fl : Float64 F⦄ (engine : Engine F) where
  unfoldable pub list_handler : Handler engine
  list_handler c =
      answer engine 200 (paged case_value)
        (Listing.list_cases engine (record {
          route_id = query_uint c "route_id";
          status = c.request.query "status";
          page = query_int c "page" (pos 1);
          page_size = query_int c "page_size" (pos 20);
        }))
        c

  unfoldable pub create_handler : Binder (CreateCaseRequest F) → Handler engine
  create_handler binder =
      with_body engine binder
        (λ request c. answer engine 201 (plain case_value) (create engine request (actor c)) c)

  unfoldable pub get_handler : Handler engine
  get_handler = with_id engine (λ id c. answer engine 200 (plain case_answer) (get engine id) c)

  unfoldable pub analyze_handler : Binder (AnalyzeCaseRequest F) → Handler engine
  analyze_handler binder = with_id engine (λ id.
      with_body engine binder
        (λ request c. answer engine 200 (plain case_value) (analyze engine id request (actor c)) c))

  unfoldable pub confirm_handler : Binder (ConfirmCaseRequest F) → Handler engine
  confirm_handler binder = with_id engine (λ id.
      with_body engine binder
        (λ request c. answer engine 200 (plain case_value) (confirm engine id request (actor c)) c))

  unfoldable pub close_handler : Binder CloseCaseRequest → Handler engine
  close_handler binder = with_id engine (λ id.
      with_body engine binder
        (λ request c. answer engine 200 (plain case_value) (close engine id request (actor c)) c))
