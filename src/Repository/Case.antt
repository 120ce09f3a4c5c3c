-- ===== src/Repository/Case.antt =====
-- internal/repository/case_repository.go. The conditional updates are the lock of the case workflow:
-- each is one statement, so it is given by what it does to the rows.
use gb_522_a16g.Base.{
  ℕ, ◌+◌, String, ◌++◌, [], ◌∷◌, Bool, ◌&&◌, ltb, ◌==◌, if◌then◌else◌, ok, err_invalid_transaction,
  wrapped, count_if,
}
use gb_522_a16g.Constants.{CaseStatus, draft, analyzing, same_status}
use gb_522_a16g.Model.{LocalizationCase}
use gb_522_a16g.Store.{◌>>=◌, Statement, Action, Engine, pure, fail, map_err}
use gb_522_a16g.Repository.Query.{update_where, first, not_found_or}

module _ {F : Type 0} where
  -- The condition of `Transition`.
  abbrev pub transition_guard : ℕ → ℕ → CaseStatus → LocalizationCase F → Bool
  transition_guard id version from c =
      c.id == id && (c.version == version && same_status c.case_status from)

  -- The condition of `SaveAnalysis`, which does not name the version.
  abbrev pub analyzing_guard : ℕ → LocalizationCase F → Bool
  analyzing_guard id c = c.id == id && same_status c.case_status analyzing

  -- The condition of `RecoverStaleAnalysis`.
  abbrev pub stale_guard : ℕ → ℕ → LocalizationCase F → Bool
  stale_guard id cutoff c =
      c.id == id && (same_status c.case_status analyzing && ltb c.updated_at cutoff)

  -- The columns that each conditional update sets beside the caller's; gorm sets `updated_at`.
  abbrev pub advance : ℕ → CaseStatus → LocalizationCase F → LocalizationCase F
  advance now to c = record c { case_status = to; version = c.version + 1; updated_at = now }

  abbrev pub expired : LocalizationCase F → LocalizationCase F
  expired c = record c { analysis_error = "previous analysis worker expired; please retry" }

  unfoldable pub transition_statement :
      ℕ → ℕ → CaseStatus → CaseStatus → (LocalizationCase F → LocalizationCase F) → Statement F ℕ
  transition_statement id version from to updates stamp t = (
    ok (count_if (transition_guard id version from) t.cases),
    record t {
      cases =
          update_where (transition_guard id version from) (λ c. advance stamp.now to (updates c))
            t.cases;
    },
  )

  unfoldable pub save_analysis_statement :
      ℕ → CaseStatus → (LocalizationCase F → LocalizationCase F) → Statement F ℕ
  save_analysis_statement id status updates stamp t = (
    ok (count_if (analyzing_guard id) t.cases),
    record t {
      cases = update_where (analyzing_guard id) (λ c. advance stamp.now status (updates c)) t.cases;
    },
  )

  unfoldable pub recover_statement : ℕ → ℕ → Statement F ℕ
  recover_statement id cutoff stamp t = (
    ok (count_if (stale_guard id cutoff) t.cases),
    record t {
      cases =
          update_where (stale_guard id cutoff) (λ c. advance stamp.now draft (expired c)) t.cases;
    },
  )

  unfoldable pub create_case_statement : LocalizationCase F → Statement F (LocalizationCase F)
  create_case_statement item stamp t =
      let row = record item {
        id = stamp.fresh_case;
        created_at = stamp.now;
        updated_at = stamp.now;
      } in
      (ok row, record t { cases = t.cases ++ row ∷ [] })

  unfoldable pub get_case_statement : ℕ → Statement F (LocalizationCase F)
  get_case_statement id stamp t = (first (λ c. c.id == id) t.cases, t)

-- `if result.RowsAffected == 0 { return … }`
abbrev pub require_affected : {Db : Type 0} → String → ℕ → Action Db (Unit {0})
require_affected message rows =
    if rows == 0 then fail (wrapped message err_invalid_transaction) else pure tt

module _ {F : Type 0} (engine : Engine F) where
  open engine use {Db, exec}

  unfoldable pub create : LocalizationCase F → Action Db (LocalizationCase F)
  create item = map_err (wrapped "create localization case") (exec (create_case_statement item))

  unfoldable pub get : ℕ → Action Db (LocalizationCase F)
  get id = map_err (not_found_or "get localization case") (exec (get_case_statement id))

  unfoldable pub transition :
      ℕ
      → ℕ
      → CaseStatus
      → CaseStatus
      → (LocalizationCase F → LocalizationCase F)
      → Action Db (Unit {0})
  transition id version from to updates = do
    rows ←
        map_err (wrapped "transition localization case")
          (exec (transition_statement id version from to updates))
    require_affected "case state or version changed" rows

  unfoldable pub save_analysis :
      ℕ → CaseStatus → (LocalizationCase F → LocalizationCase F) → Action Db (Unit {0})
  save_analysis id status updates = do
    rows ← map_err (wrapped "save case analysis") (exec (save_analysis_statement id status updates))
    require_affected "case is no longer analyzing" rows

  unfoldable pub recover_stale_analysis : ℕ → ℕ → Action Db Bool
  recover_stale_analysis id cutoff = do
    rows ← map_err (wrapped "recover stale case analysis") (exec (recover_statement id cutoff))
    pure (ltb 0 rows)
