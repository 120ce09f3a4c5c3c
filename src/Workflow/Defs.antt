-- ===== src/Workflow/Defs.antt =====
-- The writes of the case workflow, the steps that they make and the histories of a row.
use gb_522_a16g.Base.{List, some, ℕ, suc, ◌+◌, ◌<◌, ◌≡◌, String, Bool, false, true, count_if}
use gb_522_a16g.Float.{Float64}
use gb_522_a16g.Constants.{
  CaseStatus, draft, analyzing, pending_review, confirmed, closed, can_transition,
}
use gb_522_a16g.Algorithm.Compare.{Difference}
use gb_522_a16g.Model.{
  LocalizationCase, CaseParameters, AuditLog, Actor, CreateCaseRequest, ConfirmCaseRequest,
}
use gb_522_a16g.Store.{Tables, Stamp, IsFresh}
use gb_522_a16g.Repository.Case.{
  transition_guard, analyzing_guard, stale_guard, advance, expired, transition_statement,
  save_analysis_statement, recover_statement, create_case_statement,
}
use gb_522_a16g.Repository.Audit.{create_audit_statement}
use gb_522_a16g.Service.Case.Values.{new_case, confirm_updates, analysis_updates}

-- One constructor for each write to a case in the services.
pub data Write (F : Type 0) : Type 0 where
  creation : CreateCaseRequest F → Actor → Write F
  start : ℕ → ℕ → Write F
  recovery : ℕ → ℕ → Write F
  failure : ℕ → String → Write F
  completion : ℕ → List (Difference F) → CaseParameters F → Write F
  confirmation : ℕ → ℕ → ConfirmCaseRequest F → Actor → Write F
  closing : ℕ → ℕ → ℕ → Write F

module _ {F : Type 0} ⦃fl : Float64 F⦄ where
  -- The rows that the write's condition selects; a creation selects none.
  unfoldable pub selects : Write F → LocalizationCase F → Bool
  selects (creation request actor) c = false
  selects (start id version) c = transition_guard id version draft c
  selects (recovery id cutoff) c = stale_guard id cutoff c
  selects (failure id message) c = analyzing_guard id c
  selects (completion id differences parameters) c = analyzing_guard id c
  selects (confirmation id version request actor) c = transition_guard id version pending_review c
  selects (closing id version at) c = transition_guard id version confirmed c

  -- What becomes of a selected row.
  unfoldable pub moved : Write F → ℕ → LocalizationCase F → LocalizationCase F
  moved (creation request actor) now c = c
  moved (start id version) now c = advance now analyzing (record c { analysis_error = "" })
  moved (recovery id cutoff) now c = advance now draft (expired c)
  moved (failure id message) now c = advance now draft (record c { analysis_error = message })
  moved (completion id differences parameters) now c =
      advance now pending_review (analysis_updates differences parameters c)
  moved (confirmation id version request actor) now c =
      advance now confirmed (confirm_updates request actor c)
  moved (closing id version at) now c = advance now closed (record c { closed_at = some at })

  -- The tables after the statement of the write.
  unfoldable pub perform : Write F → Stamp → Tables F → Tables F
  perform (creation request actor) stamp t =
      (create_case_statement (new_case request actor) stamp t).1
  perform (start id version) stamp t =
      (transition_statement id version draft analyzing (λ c. record c { analysis_error = "" }) stamp
        t).1
  perform (recovery id cutoff) stamp t = (recover_statement id cutoff stamp t).1
  perform (failure id message) stamp t =
      (save_analysis_statement id draft (λ c. record c { analysis_error = message }) stamp t).1
  perform (completion id differences parameters) stamp t =
      (save_analysis_statement id pending_review (analysis_updates differences parameters) stamp
        t).1
  perform (confirmation id version request actor) stamp t =
      (transition_statement id version pending_review confirmed (confirm_updates request actor)
        stamp t).1
  perform (closing id version at) stamp t =
      (transition_statement id version confirmed closed (λ c. record c { closed_at = some at })
        stamp t).1

  -- A creation takes effect always, any other write if it selects a row.
  unfoldable pub Affects : Write F → Tables F → Type 0
  Affects (creation request actor) t = Unit
  Affects w t = 0 < count_if (selects w) t.cases

  -- The action and the case that the audit entry of a write names, and who made a case or confirmed it.
  unfoldable pub IsEntryOf : Write F → Stamp → AuditLog F → Type 0
  IsEntryOf (creation request actor) stamp e =
      (e.action ≡ "case.created")
      × (e.resource_id ≡ stamp.fresh_case)
      × (e.actor_id ≡ actor.id)
      × (e.actor_name ≡ actor.username)
  IsEntryOf (start id version) stamp e = (e.action ≡ "case.analysis_started") × (e.resource_id ≡ id)
  IsEntryOf (recovery id cutoff) stamp e =
      (e.action ≡ "case.analysis_recovered") × (e.resource_id ≡ id)
  IsEntryOf (failure id message) stamp e =
      (e.action ≡ "case.analysis_failed") × (e.resource_id ≡ id)
  IsEntryOf (completion id differences parameters) stamp e =
      (e.action ≡ "case.analysis_completed") × (e.resource_id ≡ id)
  IsEntryOf (confirmation id version request actor) stamp e =
      (e.action ≡ "case.confirmed")
      × (e.resource_id ≡ id)
      × (e.actor_id ≡ actor.id)
      × (e.actor_name ≡ actor.username)
  IsEntryOf (closing id version at) stamp e = (e.action ≡ "case.closed") × (e.resource_id ≡ id)

  -- The tables after the write and its audit entry.
  abbrev pub recorded : Write F → Stamp → AuditLog F → Stamp → Tables F → Tables F
  recorded w stamp entry later t = (create_audit_statement entry later (perform w stamp t)).1

  -- The tables that a number of writes lead to, each with its audit entry, in any order and for any
  -- number of clients.
  pub data Reach (t : Tables F) : Tables F → ℕ → Type 0 where
    here : Reach t t 0
    then_write :
        {u : Tables F} {n : ℕ}
        → Reach t u n
        → (w : Write F) (stamp : Stamp) (entry : AuditLog F) (later : Stamp) → IsFresh stamp u
        → Affects w u
        → IsEntryOf w stamp entry
        → Reach t (recorded w stamp entry later u) (suc n)

-- The statuses of a row after a number of moves that `CanTransition` allows.
pub data Moves : CaseStatus → CaseStatus → ℕ → Type 0 where
  stay : {s : CaseStatus} → Moves s s 0
  move : {s t u : CaseStatus} {n : ℕ} → Moves s t n → can_transition t u ≡ true → Moves s u (suc n)

-- What a row keeps and how it moved on: its version counts its moves.
pub record IsLater {F : Type 0} (c c' : LocalizationCase F) : Type 0 where
  pub moves : ℕ
  pub version_lem : c'.version ≡ c.version + moves
  pub path : Moves c.case_status c'.case_status moves
  pub unmoved : moves ≡ 0 → c' ≡ c
  pub same_id : c'.id ≡ c.id
  pub same_route : c'.route_id ≡ c.route_id
  pub same_baseline : c'.baseline_trace_id ≡ c.baseline_trace_id
  pub same_current : c'.current_trace_id ≡ c.current_trace_id
  pub same_creator : c'.created_by ≡ c.created_by
