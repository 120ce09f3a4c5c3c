-- ===== src/Service/Case/Load.antt =====
-- internal/service/case_service.go: loading a case, its error mapping and its audit entries.
use gb_522_a16g.Base.{ℕ, String, some, List, [], Result, ok, err, errorf}
use gb_522_a16g.Float.{Float64}
use gb_522_a16g.Json.{Value, Column, blank, malformed, encoded}
use gb_522_a16g.Algorithm.Compare.{Difference}
use gb_522_a16g.Service.Errors.{internal}
use gb_522_a16g.Model.{LocalizationCase, Actor}
use gb_522_a16g.Store.{◌>>=◌, Action, Engine, pure, map_err, lift}
use gb_522_a16g.Service.Document.{audit}
use gb_522_a16g.Repository.Case as CaseRepository
use gb_522_a16g.Repository.Audit as AuditRepository
use gb_522_a16g.Service.Case.Values.{get_error}

module _ {F : Type 0} ⦃fl : Float64 F⦄ (engine : Engine F) where
  open engine use {Db, transaction}

  abbrev pub time_now : Action Db ℕ
  time_now d = (ok (engine.now d), d)

  -- `tx.Audits.Create(audit(actor, action, "LocalizationCase", …))`
  unfoldable pub record_case : Actor → String → ℕ → ℕ → Value F → Value F → Action Db (Unit {0})
  record_case actor action id route_id before after =
      AuditRepository.create engine
        (audit actor action "LocalizationCase" id (some route_id) before after)

  -- `Get` with its errors told apart.
  unfoldable pub load_case : ℕ → Action Db (LocalizationCase F)
  load_case id = map_err get_error (CaseRepository.get engine id)

  -- json.Unmarshal of the differences, if there is text.
  unfoldable pub case_differences : LocalizationCase F → Result (List (Difference F))
  case_differences item = decoded_differences item.differences_json
    where
      decoded_differences : Column (List (Difference F)) → Result (List (Difference F))
      decoded_differences blank = ok []
      decoded_differences malformed = err (errorf "json: cannot unmarshal")
      decoded_differences (encoded differences) = ok differences

  -- `Get` of the service.
  unfoldable pub get : ℕ → Action Db (LocalizationCase F × List (Difference F))
  get id = do
    item ← load_case id
    differences ← map_err (internal "decode case differences failed") (lift (case_differences item))
    pure (item, differences)
