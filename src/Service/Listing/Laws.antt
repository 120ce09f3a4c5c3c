-- ===== src/Service/Listing/Laws.antt =====
-- What a caller of a `List` gets, whatever page it asks for.
use mathlib.Core.List.{Perm}
use gb_522_a16g.Base.{
  ◌⊎◌, ◌-◌, ◌*◌, ◌^◌, take, drop, sort_by, filter_if, ℕ, ◌≤◌, ◌≡◌, refl, inl, inr, String, Bool,
  true, false, List, length, count_if, All, ℤ, pos, negsuc, pos_part, ◌≤ℤ◌, ltb_ℤ, if◌then◌else◌,
  arith,
}
use gb_522_a16g.Model.Account.{Pagination}
use gb_522_a16g.Store.{Tables, Engine, IsSound, map_err}
use gb_522_a16g.Service.Errors.{internal}
use gb_522_a16g.Repository.Listing.{list_page, page_of}
use gb_522_a16g.Repository.Listing.Laws.{page_of-stretch, IsPage, list_page-IsPage}
use gb_522_a16g.Service.Listing.{normalize_page, listed}
use gb_522_a16g.Workflow.Rules.{EndsIn, Outcomes, outcomes_then, mapped-Outcomes}

kept_page :
    (page : ℤ)
    → let p = if ltb_ℤ page (pos 1) then pos 1 else page in (pos 1 ≤ℤ p) × (ltb_ℤ p (pos 1) ≡ false)
kept_page (pos p) = ground arith
kept_page (negsuc p) = ground arith

kept_size :
    (size : ℤ)
    → let s = if ltb_ℤ size (pos 1) then pos 20 else size in
      let r = if ltb_ℤ (pos 100) s then pos 100 else s in
      (pos 1 ≤ℤ r) × (r ≤ℤ pos 100) × (ltb_ℤ r (pos 1) ≡ false) × (ltb_ℤ (pos 100) r ≡ false)
kept_size (pos n) = ground arith
kept_size (negsuc n) = ground arith

-- Whatever page is asked for, the one that is read is at least the first and holds one to a hundred
-- rows, and asking for that one reads it again.
pub normalize_page-bounds :
    (page size : ℤ)
    → let r = normalize_page page size in
      (pos 1 ≤ℤ r.0) × (pos 1 ≤ℤ r.1) × (r.1 ≤ℤ pos 100) × (normalize_page r.0 r.1 ≡ r)
unfolding normalize_page
normalize_page-bounds page size =
    let (first_up, at_first) = kept_page page in
    let (some_rows, few_rows, above, below) = kept_size size in
    (first_up, some_rows, few_rows, rw (at_first, above, below) refl)

module _ {F A : Type 0} (rows : Tables F → List A) (order : A → A → Bool)
    (selects : Tables F → A → Bool) where
  -- The answer: the page that `normalize_page` gives of the selected rows in their order, which leaves
  -- the order of some rows to the engine, and how many are selected.
  abbrev pub IsAnswer : ℤ → ℤ → Tables F → List A × Pagination → Type 0
  IsAnswer page size t r =
      let (p, n) = normalize_page page size in
      ((seen : List A) × Perm (rows t) seen
        × (r.0 ≡ page_of order (selects t) (pos_part p) (pos_part n) seen)
        × ((2 ^ 63 ≤ (pos_part p - 1) * pos_part n)
            ⊎ (r.0
                ≡ take (pos_part n) (
                    drop ((pos_part p - 1) * pos_part n)
                      (sort_by order (filter_if (selects t) seen))))))
      × (r.1.total ≡ count_if (selects t) (rows t))
      × (r.1.page ≡ p)
      × (r.1.page_size ≡ n)
      × All (λ x. selects t x ≡ true) r.0
      × (length r.0 ≤ 100)

  -- A listing changes nothing. It fails with the database, or it answers the rows of the page that
  -- `normalizePage` gives for the one asked for, all of them selected and at most a hundred, with the
  -- number of all that are selected. With all rows of the table taken in some order, the page has of the
  -- selected ones, sorted stably, those after the rows of the pages before, unless the number of these
  -- does not fit in a signed 64-bit integer.
  pub listed-IsAnswer :
      (engine : Engine F)
      → IsSound engine
      → (failed counting listing : String) (page size : ℤ) (d : engine.Db)
      → EndsIn engine
          (λ t'. t' ≡ engine.tables d)
          (λ r t'. (t' ≡ engine.tables d) × IsAnswer page size (engine.tables d) r)
          (listed failed page size (list_page rows order selects engine counting listing))
          d
  unfolding listed
  listed-IsAnswer engine sound failed counting listing page size d =
      let t = engine.tables d in
      let p = pos_part (normalize_page page size).0 in
      let n = pos_part (normalize_page page size).1 in
      let (first_up, some_rows, few_rows, again) = normalize_page-bounds page size in
      let m = list_page rows order selects engine counting listing p n in
      let P =
        λ (found : List A × ℕ) (t' : Tables F). (t' ≡ t) × IsPage rows order selects p n t found in
      outcomes_then engine (λ t'. t' ≡ t) P
        (Outcomes (λ t'. t' ≡ t)
          (λ (r : List A × Pagination) t'. (t' ≡ t) × IsAnswer page size t r))
        (map_err (internal failed) m) _ d
        (mapped-Outcomes (λ t'. t' ≡ t) P (internal failed) (m d).0 (engine.tables (m d).1)
          (list_page-IsPage rows order selects engine sound counting listing p n d))
        (λ e t' h. inl (e, refl, h))
        (λ found d1 (same, ((seen, perm, page_rows), total, selected, few)).
          let all = sort_by order (filter_if (selects t) seen) in
          let stretch : (2 ^ 63 ≤ (p - 1) * n) ⊎ (found.0 ≡ take n (drop ((p - 1) * n) all)) =
            rw page_rows (page_of-stretch order (selects t) p n seen) in
          inr (
            _,
            refl,
            (
              same,
              (
                (seen, perm, page_rows, stretch),
                total,
                refl,
                refl,
                selected,
                at_most (normalize_page page size).1 (length found.0) few_rows few,
              ),
            ),
          ))
    where
      at_most : (i : ℤ) (k : ℕ) → i ≤ℤ pos 100 → k ≤ pos_part i → k ≤ 100
      at_most (pos n) k h e = omega arith
      at_most (negsuc n) k h e = omega arith
