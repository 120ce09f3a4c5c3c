-- ===== src/Repository/Listing/Laws.antt =====
-- The pages of a listing, and what a listing returns.
use mathlib.Core.List.{Perm}
use mathlib.Core.List.Perm
use gb_522_a16g.Base.{
  zero, suc, sym, driver, ltb→lt, ◌⊎◌, ℕ, ◌-◌, ◌*◌, ◌%◌, ◌^◌, ◌≤◌, ◌<◌, ◌≡◌, refl, ap, ◌∙◌, inl,
  inr, String, Bool, true, Bool-cases, ltb, List, [], ◌∷◌, take, drop, length, filter_if, count_if,
  sort_by, All, All-take, All-drop, All-sort_by, length-take, if◌then◌else◌, ok, GoError, wrapped,
  arith,
}
use gb_522_a16g.Store.{Stamp, Statement, Tables, Engine, IsSound, exec-Ends, mapped, map_err, pure}
use gb_522_a16g.Repository.Listing.{
  offset, swapped, arranged, page_of, count_statement, find_statement, list_page,
}
use gb_522_a16g.Workflow.Rules.{
  mapped-Outcomes, EndsIn, Outcomes, outcomes_then, exec_outcomes, Outcomes-imp, Changed,
}

unwrapped : (n : ℕ) → n < 2 ^ 63 → (if ltb (n % 2 ^ 64) (2 ^ 63) then n % 2 ^ 64 else 0) ≡ n
unwrapped n h = ground arith

-- The rows before a page, as long as their number fits in a signed 64-bit integer.
pub offset_lem : (page size : ℕ) → (page - 1) * size < 2 ^ 63 → offset page size ≡ (page - 1) * size
unfolding offset
offset_lem page size h = unwrapped ((page - 1) * size) h

All-filter_if : {A : Type 0} (p : A → Bool) (xs : List A) → All (λ x. p x ≡ true) (filter_if p xs)
All-filter_if p [] = tt
All-filter_if p (x ∷ xs) = elim (Bool-cases (p x)) [
  | inl selected ↦ rw selected (selected, All-filter_if p xs)
  | inr passed ↦ rw passed (All-filter_if p xs)
]

module _ {A : Type 0} where
  swapped-Perm : (k : ℕ) (rows : List A) → Perm rows (swapped k rows)
  swapped-Perm zero [] = Perm.refl []
  swapped-Perm zero (x ∷ []) = Perm.refl (x ∷ [])
  swapped-Perm zero (x ∷ y ∷ rows) = Perm.swap y x rows
  swapped-Perm (suc k) [] = Perm.refl []
  swapped-Perm (suc k) (x ∷ rows) = Perm.cons x (swapped-Perm k rows)

  -- The engine comes to every row once.
  pub arranged-Perm : (scan : List ℕ) (rows : List A) → Perm rows (arranged scan rows)
  unfolding arranged
  arranged-Perm [] rows = Perm.refl rows
  arranged-Perm (k ∷ scan) rows =
      Perm.trans (arranged-Perm scan rows) (swapped-Perm k (arranged scan rows))

module _ {A : Type 0} (order : A → A → Bool) (selects : A → Bool) where
  -- The page is the stretch of the ordered selection that its number and size say, unless the number
  -- of rows before it does not fit.
  pub page_of-stretch :
      (page size : ℕ) (rows : List A)
      → (2 ^ 63 ≤ (page - 1) * size)
        ⊎ (page_of order selects page size rows
            ≡ take size (drop ((page - 1) * size) (sort_by order (filter_if selects rows))))
  unfolding page_of
  page_of-stretch page size rows = elim (Bool-cases (ltb ((page - 1) * size) (2 ^ 63))) [
    | inl fits ↦ inr (rw (offset_lem page size (ltb→lt _ _ fits)) refl)
    | inr too_far ↦ inl (ground arith)
  ]

  page_of-All :
      (page size : ℕ) (rows : List A)
      → All (λ x. selects x ≡ true) (page_of order selects page size rows)
  unfolding page_of
  page_of-All page size rows =
      let P = λ (x : A). selects x ≡ true in
      let all = sort_by order (filter_if selects rows) in
      All-take P size (drop (offset page size) all) (
        All-drop P (offset page size) all
          (All-sort_by order P (filter_if selects rows) (All-filter_if selects rows)))

  page_of-length :
      (page size : ℕ) (rows : List A) → length (page_of order selects page size rows) ≤ size
  unfolding page_of
  page_of-length page size rows =
      let all = sort_by order (filter_if selects rows) in
      rw (length-take size (drop (offset page size) all)) (omega arith)

module _ {F A : Type 0} (rows : Tables F → List A) (order : A → A → Bool)
    (selects : Tables F → A → Bool) where
  -- The rows and the count that the tables give, with the rows in some order before the query's.
  abbrev pub IsPage : ℕ → ℕ → Tables F → List A × ℕ → Type 0
  IsPage page size t found =
      ((seen : List A) × Perm (rows t) seen × (found.0 ≡ page_of order (selects t) page size seen))
      × (found.1 ≡ count_if (selects t) (rows t))
      × All (λ x. selects t x ≡ true) found.0
      × (length found.0 ≤ size)

  module _ (engine : Engine F) (sound : IsSound engine) where
    open engine use {Db, tables, exec}

    -- A query whose result does not depend on the stamp.
    query_outcomes :
        {R : Type 0} (message : GoError → GoError) (s : Statement F R) (a : R) (d : Db)
        → ((stamp : Stamp) → s stamp (tables d) ≡ (ok a, tables d))
        → EndsIn engine
            (λ t'. t' ≡ tables d)
            (λ x t'. (x ≡ a) × (t' ≡ tables d))
            (map_err message (exec s))
            d
    query_outcomes message s a d gives =
        Outcomes-imp (λ t'. t' ≡ tables d) (λ t'. t' ≡ tables d)
          (λ x t'. (x ≡ a) × Changed s (tables d) t') (λ x t'. (x ≡ a) × (t' ≡ tables d))
          (λ t' h. h) (λ x t' (e, (stamp, fresh, k)). (e, k ∙ ap (λ r. r.1) (gives stamp)))
          (mapped message (exec s d).0) (tables (exec s d).1)
          (exec_outcomes engine sound message s a d (λ stamp. ap (λ r. r.0) (gives stamp)))

    -- The rows of a page, in an order that the statement leaves to the engine.
    find_outcomes :
        (message : String) (page size : ℕ) (d : Db)
        → EndsIn engine
            (λ t'. t' ≡ tables d)
            (λ x t'.
              (t' ≡ tables d)
              × ((seen : List A) × Perm (rows (tables d)) seen
                  × (x ≡ page_of order (selects (tables d)) page size seen)))
            (map_err (wrapped message) (exec (find_statement rows order selects page size)))
            d
    unfolding find_statement
    find_outcomes message page size d =
        let t = tables d in
        let P = λ (x : List A) (t' : Tables F).
          (t' ≡ t)
          × ((seen : List A) × Perm (rows t) seen
              × (x ≡ page_of order (selects t) page size seen)) in
        let s = find_statement rows order selects page size in
        mapped-Outcomes (λ t'. t' ≡ t) P (wrapped message) (exec s d).0 (tables (exec s d).1)
          (exec-Ends engine sound (Outcomes (λ t'. t' ≡ t) P) s d (λ m. inl (driver m, refl, refl))
            (λ stamp fresh. inr (
              _,
              refl,
              (refl, (arranged stamp.scan (rows t), arranged-Perm stamp.scan (rows t), refl)),
            )))

    pub list_page-IsPage :
        (counting listing : String) (page size : ℕ) (d : Db)
        → EndsIn engine
            (λ t'. t' ≡ tables d)
            (λ found t'. (t' ≡ tables d) × IsPage page size (tables d) found)
            (list_page rows order selects engine counting listing page size)
            d
    unfolding list_page count_statement find_statement
    list_page-IsPage counting listing page size d =
        let t = tables d in
        let Q =
          Outcomes (λ t'. t' ≡ t)
            (λ (found : List A × ℕ) t'. (t' ≡ t) × IsPage page size t found) in
        let total = count_if (selects t) (rows t) in
        let count = count_statement rows order selects in
        outcomes_then engine (λ t'. t' ≡ t) (λ x t'. (x ≡ total) × (t' ≡ t)) Q
          (map_err (wrapped counting) (exec count)) _ d
          (query_outcomes (wrapped counting) count total d (λ stamp. refl))
          (λ e t' h. inl (e, refl, h))
          (λ n d1 (same_n, same).
            let Found = λ (x : List A) (t' : Tables F).
              (t' ≡ tables d1)
              × ((seen : List A) × Perm (rows (tables d1)) seen
                  × (x ≡ page_of order (selects (tables d1)) page size seen)) in
            outcomes_then engine (λ t'. t' ≡ tables d1) Found Q
              (map_err (wrapped listing) (exec (find_statement rows order selects page size)))
              (λ x. pure (x, n)) d1 (find_outcomes listing page size d1)
              (λ e t' h. inl (e, refl, h ∙ same))
              (λ x d2 (same2, (seen, perm, is_page)).
                let in_t : x ≡ page_of order (selects t) page size seen = rw (sym same) is_page in
                inr (
                  (x, n),
                  refl,
                  (
                    same2 ∙ same,
                    (
                      (seen, rw (sym same) perm, in_t),
                      same_n,
                      rw in_t (page_of-All order (selects t) page size seen),
                      rw in_t (page_of-length order (selects t) page size seen),
                    ),
                  ),
                )))
