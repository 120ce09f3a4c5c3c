-- ===== src/Repository/Listing.antt =====
-- `Count`, then `Order(…).Offset(…).Limit(…).Find`: how every `List` of internal/repository reads a page.
-- SQL leaves the order of rows that the ordering does not tell apart open; here it is the one in which
-- the engine comes to them, which may be another with each query.
pub mod Laws
use gb_522_a16g.Base.{
  zero, suc, [], ◌∷◌, ℕ, ◌-◌, ◌*◌, ◌%◌, ◌^◌, String, Bool, ltb, List, take, drop, filter_if,
  count_if, sort_by, if◌then◌else◌, ok, wrapped,
}
use gb_522_a16g.Store.{◌>>=◌, Tables, Statement, Action, Engine, pure, map_err}

-- `(query.Page - 1) * query.PageSize` on 64 bits, for a page and a size that are at least 1; gorm
-- leaves out an offset below zero.
unfoldable pub offset : ℕ → ℕ → ℕ
offset page size = let n = ((page - 1) * size) % 2 ^ 64 in if ltb n (2 ^ 63) then n else 0

module _ {A : Type 0} where
  -- The row at the place and the next one change places.
  abbrev swapped : ℕ → List A → List A
  swapped zero (x ∷ y ∷ rows) = y ∷ x ∷ rows
  swapped zero rows = rows
  swapped (suc k) [] = []
  swapped (suc k) (x ∷ rows) = x ∷ swapped k rows

  -- The rows in the order in which the engine comes to them.
  unfoldable pub arranged : List ℕ → List A → List A
  arranged [] rows = rows
  arranged (k ∷ scan) rows = swapped k (arranged scan rows)

module _ {A : Type 0} (order : A → A → Bool) (selects : A → Bool) where
  -- The rows of a page of the ordered selection.
  unfoldable pub page_of : ℕ → ℕ → List A → List A
  page_of page size rows =
      take size (drop (offset page size) (sort_by order (filter_if selects rows)))

-- `selects` may look at other tables, as a subquery does.
module _ {F A : Type 0} (rows : Tables F → List A) (order : A → A → Bool)
    (selects : Tables F → A → Bool) where
  unfoldable pub count_statement : Statement F ℕ
  count_statement stamp t = (ok (count_if (selects t) (rows t)), t)

  unfoldable pub find_statement : ℕ → ℕ → Statement F (List A)
  find_statement page size stamp t =
      (ok (page_of order (selects t) page size (arranged stamp.scan (rows t))), t)

  -- The errors are wrapped in the two messages.
  unfoldable pub list_page :
      (engine : Engine F) → String → String → ℕ → ℕ → Action engine.Db (List A × ℕ)
  list_page engine counting listing page size = do
    total ← map_err (wrapped counting) (engine.exec count_statement)
    found ← map_err (wrapped listing) (engine.exec (find_statement page size))
    pure (found, total)
