-- ===== src/Workflow/Effects.antt =====
-- What a confirmation and a creation leave in the tables, column by column.
use gb_522_a16g.Base.{
  ltb→lt, ◌-◌, ℕ, ◌+◌, ◌<◌, ◌≡◌, refl, ◌++◌, [], ◌∷◌, All, String, none, some, get_elem?, true,
  arith, ap,
}
use gb_522_a16g.Float.{Float64}
use gb_522_a16g.Constants.{draft, analyzing, pending_review, confirmed, same_status}
use gb_522_a16g.Model.{LocalizationCase, AuditLog, Actor, CreateCaseRequest, ConfirmCaseRequest}
use gb_522_a16g.Store.{Tables}
use gb_522_a16g.Repository.Case.{transition_statement, create_case_statement}
use gb_522_a16g.Repository.Audit.{create_audit_statement}
use gb_522_a16g.Service.Case.Values.{new_case, confirm_updates}
use gb_522_a16g.Workflow.Defs.{
  Write, creation, recovery, confirmation, selects, perform, Affects, IsEntryOf,
}
use gb_522_a16g.Workflow.Row.{&&-true, update_where-get_elem?}
use gb_522_a16g.Workflow.Lock.{count_if-selected}
use gb_522_a16g.Workflow.Writes.{Written}

-- Ten minutes in nanoseconds.
abbrev pub lease_length : ℕ
lease_length = 600_000_000_000

module _ {F : Type 0} where
  -- The case is being analysed, and was last written longer ago than a lease lasts.
  abbrev pub Expired : ℕ → ℕ → Tables F → Type 0
  Expired id now t =
      (k : ℕ) × (c : LocalizationCase F) × (get_elem? t.cases k ≡ some c)
      × (c.id ≡ id)
      × (same_status c.case_status analyzing ≡ true)
      × (c.updated_at + lease_length < now)

  -- The audit log has one more entry, with the action, the case and the actor.
  abbrev pub Logged : String → ℕ → ℕ → String → Tables F → Tables F → Type 0
  Logged action id who name t t' =
      (entry : AuditLog F) × (t'.audits ≡ t.audits ++ entry ∷ [])
      × (entry.action ≡ action)
      × (entry.resource_id ≡ id)
      × (entry.actor_id ≡ who)
      × (entry.actor_name ≡ name)

  -- The row of a confirmed case.
  abbrev pub confirmed_row : ConfirmCaseRequest F → ℕ → ℕ → LocalizationCase F → LocalizationCase F
  confirmed_row request who now c = record c {
    case_status = confirmed;
    version = c.version + 1;
    conclusion = request.conclusion;
    estimated_distance_m = some request.estimated_distance_m;
    uncertainty_m = some request.uncertainty_m;
    reviewer_id = some who;
    updated_at = now;
  }

  -- The case with the id and the version was pending, is now confirmed by the reviewer, and the
  -- reviewer is in the log.
  abbrev pub IsConfirmed : ℕ → ConfirmCaseRequest F → ℕ → String → Tables F → Tables F → Type 0
  IsConfirmed id request who name t t' =
      (k : ℕ) × (c : LocalizationCase F) × (now : ℕ) × (get_elem? t.cases k ≡ some c)
      × (c.id ≡ id)
      × (c.version ≡ request.version)
      × (same_status c.case_status pending_review ≡ true)
      × (get_elem? t'.cases k ≡ some (confirmed_row request who now c))
      × Logged "case.confirmed" id who name t t'

  -- A draft of the two traces of the route, that nobody has analysed or reviewed.
  abbrev pub IsDraftOf : CreateCaseRequest F → Actor → LocalizationCase F → Type 0
  IsDraftOf request actor c =
      (c.route_id ≡ request.route_id)
      × (c.baseline_trace_id ≡ request.baseline_trace_id)
      × (c.current_trace_id ≡ request.current_trace_id)
      × (c.case_status ≡ draft)
      × (c.version ≡ 1)
      × (c.created_by ≡ actor.id)
      × (c.estimated_distance_m ≡ none)
      × (c.uncertainty_m ≡ none)
      × (c.conclusion ≡ "")
      × (c.reviewer_id ≡ none)
      × (c.closed_at ≡ none)

  -- A draft was added under an id above all others, and its creator is in the log.
  abbrev pub IsCreated : CreateCaseRequest F → Actor → Tables F → Tables F → Type 0
  IsCreated request actor t t' =
      (row : LocalizationCase F) × IsDraftOf request actor row
      × All (λ (c : LocalizationCase F). c.id < row.id) t.cases
      × (t'.cases ≡ t.cases ++ row ∷ [])
      × Logged "case.created" row.id actor.id actor.username t t'

module _ {F : Type 0} ⦃fl : Float64 F⦄ where
  pub Affects-Expired :
      (id now : ℕ) (t : Tables F) → Affects (recovery id (now - lease_length)) t → Expired id now t
  unfolding Affects selects
  Affects-Expired id now t affects =
      let w : Write F = recovery id (now - lease_length) in
      let (k, c, at, selected) = count_if-selected (selects w) t.cases affects in
      let (same_id, more) = &&-true _ _ selected in
      let (same, stale) = &&-true _ _ more in
      let this_id : c.id ≡ id = ground arith in
      let before : c.updated_at < now - lease_length = ltb→lt _ _ stale in
      (k, c, at, this_id, same, omega (arith, before))

  pub Written-IsConfirmed :
      (id : ℕ) (request : ConfirmCaseRequest F) (actor : Actor) (t t' : Tables F)
      → Written (confirmation id request.version request actor) t t'
      → IsConfirmed id request actor.id actor.username t t'
  unfolding Written Affects IsEntryOf selects perform transition_statement create_audit_statement
      confirm_updates
  Written-IsConfirmed id request actor t t'
        (stamp, entry, later, fresh, affects, (action, resource, who, name), e) =
      let w : Write F = confirmation id request.version request actor in
      let (k, c, at, selected) = count_if-selected (selects w) t.cases affects in
      let (same_id, more) = &&-true _ _ selected in
      let (same_version, same) = &&-true _ _ more in
      let this_id : c.id ≡ id = ground arith in
      let this_version : c.version ≡ request.version = ground arith in
      let row = confirmed_row request actor.id stamp.now in
      let after : get_elem? t'.cases k ≡ some (row c) =
        rw (e, update_where-get_elem? (selects w) row t.cases k at, selected) refl in
      let logged : Logged "case.confirmed" id actor.id actor.username t t' = (
        record entry { id = later.fresh_audit; created_at = later.now },
        ap (λ (x : Tables F). x.audits) e,
        action,
        resource,
        who,
        name,
      ) in
      (k, c, stamp.now, at, this_id, this_version, same, after, logged)

  pub Written-IsCreated :
      (request : CreateCaseRequest F) (actor : Actor) (t t' : Tables F)
      → Written (creation request actor) t t'
      → IsCreated request actor t t'
  unfolding Written IsEntryOf perform create_case_statement create_audit_statement new_case
  Written-IsCreated request actor t t'
        (stamp, entry, later, fresh, affects, (action, resource, who, name), e) =
      let logged : Logged "case.created" stamp.fresh_case actor.id actor.username t t' = (
        record entry { id = later.fresh_audit; created_at = later.now },
        ap (λ (x : Tables F). x.audits) e,
        action,
        resource,
        who,
        name,
      ) in
      (
        record (new_case request actor) {
          id = stamp.fresh_case;
          created_at = stamp.now;
          updated_at = stamp.now;
        },
        (refl, refl, refl, refl, refl, refl, refl, refl, refl, refl, refl),
        fresh.cases_below,
        ap (λ (x : Tables F). x.cases) e,
        logged,
      )
