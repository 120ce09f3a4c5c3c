-- ===== src/Workflow/Row.antt =====
-- What a single write does to a row of the case table.
use gb_522_a16g.Base.{
  ℕ, suc, ◌≡◌, refl, ◌∙◌, Bool, true, false, ◌&&◌, arith, List, [], ◌∷◌, ◌++◌, some, get_elem?,
  if◌then◌else◌, inl, inr, Bool-cases, Option, none, zero,
}
use gb_522_a16g.Float.{Float64}
use gb_522_a16g.Constants.{
  CaseStatus, draft, analyzing, pending_review, confirmed, closed, other, same_status,
  can_transition,
}
use gb_522_a16g.Algorithm.Compare.{Difference, primary_difference}
use gb_522_a16g.Service.Case.Values.{analysis_updates, with_estimate, confirm_updates}
use gb_522_a16g.Model.{LocalizationCase, CaseParameters}
use gb_522_a16g.Store.{Tables, Stamp}
use gb_522_a16g.Repository.Case.{
  create_case_statement, transition_statement, recover_statement, save_analysis_statement,
}
use gb_522_a16g.Repository.Query.{update_where}
use gb_522_a16g.Workflow.Defs.{
  Write, creation, start, recovery, failure, completion, confirmation, closing, selects, moved,
  perform, stay, move, IsLater,
}

from_draft : (s : CaseStatus) → same_status s draft ≡ true → can_transition s analyzing ≡ true
unfolding can_transition
from_draft draft h = refl
from_draft (other s) h = cc
from_draft analyzing h = cc
from_draft pending_review h = cc
from_draft confirmed h = cc
from_draft closed h = cc

from_analyzing :
    (s : CaseStatus)
    → same_status s analyzing ≡ true
    → (can_transition s draft ≡ true) × (can_transition s pending_review ≡ true)
unfolding can_transition
from_analyzing analyzing h = (refl, refl)
from_analyzing (other s) h = cc
from_analyzing draft h = cc
from_analyzing pending_review h = cc
from_analyzing confirmed h = cc
from_analyzing closed h = cc

from_pending_review :
    (s : CaseStatus) → same_status s pending_review ≡ true → can_transition s confirmed ≡ true
unfolding can_transition
from_pending_review pending_review h = refl
from_pending_review (other s) h = cc
from_pending_review draft h = cc
from_pending_review analyzing h = cc
from_pending_review confirmed h = cc
from_pending_review closed h = cc

from_confirmed : (s : CaseStatus) → same_status s confirmed ≡ true → can_transition s closed ≡ true
unfolding can_transition
from_confirmed confirmed h = refl
from_confirmed (other s) h = cc
from_confirmed draft h = cc
from_confirmed analyzing h = cc
from_confirmed pending_review h = cc
from_confirmed closed h = cc

pub &&-true : (a b : Bool) → (a && b) ≡ true → (a ≡ true) × (b ≡ true)
&&-true true true h = (refl, refl)
&&-true true false h = cc
&&-true false b h = cc

module _ {F : Type 0} ⦃fl : Float64 F⦄ where
  -- The two rows agree on what no write may change.
  abbrev SameCase : LocalizationCase F → LocalizationCase F → Type 0
  SameCase c c' =
      (c'.id ≡ c.id)
      × (c'.route_id ≡ c.route_id)
      × (c'.baseline_trace_id ≡ c.baseline_trace_id)
      × (c'.current_trace_id ≡ c.current_trace_id)
      × (c'.created_by ≡ c.created_by)

  with_estimate_keeps :
      (estimate : Option (F × F)) (c : LocalizationCase F)
      → ((with_estimate estimate c).version ≡ c.version) × SameCase c (with_estimate estimate c)
  with_estimate_keeps none c = (refl, (refl, refl, refl, refl, refl))
  with_estimate_keeps (some estimate) c = (refl, (refl, refl, refl, refl, refl))

  analysis_updates_keeps :
      (differences : List (Difference F)) (parameters : CaseParameters F) (c : LocalizationCase F)
      → ((analysis_updates differences parameters c).version ≡ c.version)
        × SameCase c (analysis_updates differences parameters c)
  unfolding analysis_updates
  analysis_updates_keeps differences parameters c =
      with_estimate_keeps (primary_difference differences) _

  -- A selected row makes one move that `CanTransition` allows.
  pub moved_lem :
      (w : Write F) (now : ℕ) (c : LocalizationCase F)
      → selects w c ≡ true
      → (can_transition c.case_status (moved w now c).case_status ≡ true)
        × ((moved w now c).version ≡ suc c.version)
        × SameCase c (moved w now c)
  unfolding selects moved confirm_updates
  moved_lem (creation request actor) now c h = cc
  moved_lem (start id version) now c h =
      let (same_id, more) = &&-true _ _ h in
      let (same_version, same) = &&-true _ _ more in
      (from_draft c.case_status same, omega arith, (refl, refl, refl, refl, refl))
  moved_lem (recovery id cutoff) now c h =
      let (same_id, more) = &&-true _ _ h in
      let (same, stale) = &&-true _ _ more in
      ((from_analyzing c.case_status same).0, omega arith, (refl, refl, refl, refl, refl))
  moved_lem (failure id message) now c h =
      let (same_id, same) = &&-true _ _ h in
      ((from_analyzing c.case_status same).0, omega arith, (refl, refl, refl, refl, refl))
  moved_lem (completion id differences parameters) now c h =
      let (same_id, same) = &&-true _ _ h in
      let (same_version, kept) = analysis_updates_keeps differences parameters c in
      ((from_analyzing c.case_status same).1, omega (arith, same_version), kept)
  moved_lem (confirmation id version request actor) now c h =
      let (same_id, more) = &&-true _ _ h in
      let (same_version, same) = &&-true _ _ more in
      (from_pending_review c.case_status same, omega arith, (refl, refl, refl, refl, refl))
  moved_lem (closing id version at) now c h =
      let (same_id, more) = &&-true _ _ h in
      let (same_version, same) = &&-true _ _ more in
      (from_confirmed c.case_status same, omega arith, (refl, refl, refl, refl, refl))

  -- The row after the write.
  abbrev pub after_write : Write F → ℕ → LocalizationCase F → LocalizationCase F
  after_write w now c = if selects w c then moved w now c else c

  pub IsLater-refl : (c : LocalizationCase F) → IsLater c c
  IsLater-refl c = record {
    moves = 0;
    version_lem = omega arith;
    path = stay;
    unmoved = λ h. refl;
    same_id = refl;
    same_route = refl;
    same_baseline = refl;
    same_current = refl;
    same_creator = refl;
  }

  -- A write leads on from a row that is later.
  pub IsLater-after_write :
      (w : Write F) (now : ℕ) (c c' : LocalizationCase F)
      → IsLater c c'
      → IsLater c (after_write w now c')
  IsLater-after_write w now c c' h = elim (Bool-cases (selects w c')) [
    | inl selected ↦
        let (allowed, next, (i, r, b, k, a)) = moved_lem w now c' selected in
        rw selected (record {
          moves = suc h.moves;
          version_lem = omega (arith, next, h.version_lem);
          path = move h.path allowed;
          unmoved = λ none_made. absurd (omega arith);
          same_id = i ∙ h.same_id;
          same_route = r ∙ h.same_route;
          same_baseline = b ∙ h.same_baseline;
          same_current = k ∙ h.same_current;
          same_creator = a ∙ h.same_creator;
        })
    | inr passed ↦ rw passed h
  ]

  pub update_where-get_elem? :
      (p : LocalizationCase F → Bool) (f : LocalizationCase F → LocalizationCase F)
      (rows : List (LocalizationCase F)) (k : ℕ) {c : LocalizationCase F}
      → get_elem? rows k ≡ some c
      → get_elem? (update_where p f rows) k ≡ some (if p c then f c else c)
  update_where-get_elem? p f [] k e = cc
  update_where-get_elem? p f (x ∷ rows) zero e = ground arith
  update_where-get_elem? p f (x ∷ rows) (suc k) e = update_where-get_elem? p f rows k e

  append-get_elem? :
      (rows more : List (LocalizationCase F)) (k : ℕ) {c : LocalizationCase F}
      → get_elem? rows k ≡ some c
      → get_elem? (rows ++ more) k ≡ some c
  append-get_elem? [] more k e = cc
  append-get_elem? (x ∷ rows) more zero e = e
  append-get_elem? (x ∷ rows) more (suc k) e = append-get_elem? rows more k e

  -- A row that a write does not create stands after it where it stood.
  pub perform-get_elem? :
      (w : Write F) (stamp : Stamp) (t : Tables F) (k : ℕ) {c : LocalizationCase F}
      → get_elem? t.cases k ≡ some c
      → get_elem? (perform w stamp t).cases k ≡ some (after_write w stamp.now c)
  unfolding perform selects moved create_case_statement transition_statement recover_statement
      save_analysis_statement
  perform-get_elem? (creation request actor) stamp t k e = append-get_elem? t.cases _ k e
  perform-get_elem? (start id version) stamp t k e =
      update_where-get_elem? (selects (start id version)) (moved (start id version) stamp.now)
        t.cases k e
  perform-get_elem? (recovery id cutoff) stamp t k e =
      update_where-get_elem? (selects (recovery id cutoff)) (moved (recovery id cutoff) stamp.now)
        t.cases k e
  perform-get_elem? (failure id message) stamp t k e =
      update_where-get_elem? (selects (failure id message)) (moved (failure id message) stamp.now)
        t.cases k e
  perform-get_elem? (completion id differences parameters) stamp t k e =
      update_where-get_elem? (selects (completion id differences parameters))
        (moved (completion id differences parameters) stamp.now) t.cases k e
  perform-get_elem? (confirmation id version request actor) stamp t k e =
      update_where-get_elem? (selects (confirmation id version request actor))
        (moved (confirmation id version request actor) stamp.now) t.cases k e
  perform-get_elem? (closing id version at) stamp t k e =
      update_where-get_elem? (selects (closing id version at))
        (moved (closing id version at) stamp.now) t.cases k e
