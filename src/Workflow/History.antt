-- ===== src/Workflow/History.antt =====
-- Laws of every history of the case table, whoever writes and in whatever order.
use gb_522_a16g.Base.{
  ℕ, suc, ◌+◌, ◌≤◌, ◌≡◌, refl, sym, ◌∙◌, ap, true, false, arith, some, get_elem?,
}
use gb_522_a16g.Float.{Float64}
use gb_522_a16g.Constants.{
  CaseStatus, draft, analyzing, pending_review, confirmed, closed, other, can_transition,
}
use gb_522_a16g.Model.{LocalizationCase}
use gb_522_a16g.Store.{Tables, Stamp}
use gb_522_a16g.Repository.Case.{
  create_case_statement, transition_statement, recover_statement, save_analysis_statement,
}
use gb_522_a16g.Repository.Audit.{create_audit_statement}
use gb_522_a16g.Workflow.Defs.{
  Write, creation, start, recovery, failure, completion, confirmation, closing, perform, Reach,
  here, then_write, Moves, stay, move, IsLater,
}
use gb_522_a16g.Workflow.Row.{after_write, IsLater-refl, IsLater-after_write, perform-get_elem?}

-- How far a status is from the draft.
abbrev pub rank : CaseStatus → ℕ
rank draft = 0
rank analyzing = 1
rank pending_review = 2
rank confirmed = 3
rank closed = 4
rank (other s) = 0

rank-step : (s t : CaseStatus) → can_transition s t ≡ true → rank t ≤ suc (rank s)
unfolding can_transition
rank-step s draft h = omega arith
rank-step s (other t) h = omega arith
rank-step s analyzing h = omega arith
rank-step pending_review confirmed h = omega arith
rank-step analyzing pending_review h = omega arith
rank-step confirmed closed h = omega arith
rank-step draft confirmed h = cc
rank-step s t h = cc

rank-path : {s t : CaseStatus} {n : ℕ} → Moves s t n → rank t ≤ rank s + n
rank-path stay = omega arith
rank-path (move {t = t} {u = u} p allowed) = omega (arith, rank-path p, rank-step t u allowed)

closed-final : (u : CaseStatus) → can_transition closed u ≡ false
unfolding can_transition
closed-final draft = refl
closed-final analyzing = refl
closed-final pending_review = refl
closed-final confirmed = refl
closed-final closed = refl
closed-final (other s) = refl

from_closed : {s t : CaseStatus} {n : ℕ} → s ≡ closed → Moves s t n → (t ≡ closed) × (n ≡ 0)
from_closed e stay = (e, refl)
from_closed e (move {t = t} {u = u} p allowed) =
    let (at, none_made) = from_closed e p in
    let final : can_transition t u ≡ false = rw at (closed-final u) in cc

module _ {F : Type 0} ⦃fl : Float64 F⦄ where
  -- Whatever writes are made, in whatever order and by whomever, a row stays at its place with its id,
  -- route, traces and creator; its status has moved only along transitions that `CanTransition`
  -- allows, its version has grown by the number of these moves, and with none made it is unchanged.
  pub Reach-IsLater :
      (t t' : Tables F) (n : ℕ) (k : ℕ) (c : LocalizationCase F)
      → Reach t t' n
      → get_elem? t.cases k ≡ some c
      → (c' : LocalizationCase F) × (get_elem? t'.cases k ≡ some c') × IsLater c c'
  unfolding create_audit_statement
  Reach-IsLater t _ _ k c here e = (c, e, IsLater-refl c)
  Reach-IsLater t t' n k c (then_write {u = u} {n = m} r w stamp entry later fresh affects names)
        e =
      let (c1, e1, later1) = Reach-IsLater t u m k c r e in
      (
        after_write w stamp.now c1,
        perform-get_elem? w stamp u k e1,
        IsLater-after_write w stamp.now c c1 later1,
      )

  pub perform-audits :
      (w : Write F) (stamp : Stamp) (t : Tables F) → (perform w stamp t).audits ≡ t.audits
  unfolding perform create_case_statement transition_statement recover_statement
      save_analysis_statement
  perform-audits (creation request actor) stamp t = refl
  perform-audits (start id version) stamp t = refl
  perform-audits (recovery id cutoff) stamp t = refl
  perform-audits (failure id message) stamp t = refl
  perform-audits (completion id differences parameters) stamp t = refl
  perform-audits (confirmation id version request actor) stamp t = refl
  perform-audits (closing id version at) stamp t = refl

  -- A closed case stays exactly as it is under any writes of any clients.
  pub Reach-keeps_closed :
      (t t' : Tables F) (n : ℕ) (k : ℕ) (c : LocalizationCase F)
      → Reach t t' n
      → get_elem? t.cases k ≡ some c
      → c.case_status ≡ closed
      → get_elem? t'.cases k ≡ some c
  Reach-keeps_closed t t' n k c r e is_closed =
      let (c', e', h) = Reach-IsLater t t' n k c r e in
      let same : c' ≡ c = h.unmoved (from_closed is_closed h.path).1 in cc

  -- A case found as a draft and later found in another status has passed at least the statuses
  -- between: its version has grown by the rank of its status or more, by four when it is closed.
  pub Reach-rank :
      (t t' : Tables F) (n : ℕ) (k : ℕ) (c c' : LocalizationCase F)
      → Reach t t' n
      → get_elem? t.cases k ≡ some c
      → get_elem? t'.cases k ≡ some c'
      → c.case_status ≡ draft
      → c.version + rank c'.case_status ≤ c'.version
  Reach-rank t t' n k c c' r e e' is_draft =
      let (c1, e1, h) = Reach-IsLater t t' n k c r e in
      let same : some c1 ≡ some c' = sym e1 ∙ e' in
      let found : c1 ≡ c' = cc in
      let start_rank : rank c.case_status ≡ 0 = ap rank is_draft in
      let bound : rank c1.case_status ≤ rank c.case_status + h.moves = rank-path h.path in
      rw (sym found) (omega (arith, h.version_lem, bound, start_rank))
