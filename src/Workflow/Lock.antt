-- ===== src/Workflow/Lock.antt =====
-- The version as a lock: of several transitions that name one version of a case only one takes effect.
use gb_522_a16g.Base.{
  Bool, some, zero, ap, get_elem?, count_if-append, All, ℕ, suc, ◌≤◌, ◌<◌, ◌≡◌, refl, true,
  Bool-cases, ◌&&◌, ◌==◌, inl, inr, arith, List, [], ◌∷◌, ok, count_if,
}
use gb_522_a16g.Float.{Float64}
use gb_522_a16g.Constants.{CaseStatus}
use gb_522_a16g.Model.{LocalizationCase}
use gb_522_a16g.Store.{Tables, Stamp, IsFresh}
use gb_522_a16g.Repository.Case.{transition_guard, advance, transition_statement}
use gb_522_a16g.Repository.Case.{create_case_statement, recover_statement, save_analysis_statement}
use gb_522_a16g.Repository.Audit.{create_audit_statement}
use gb_522_a16g.Repository.Query.{update_where}
use gb_522_a16g.Workflow.Defs.{
  Write, creation, start, recovery, failure, completion, confirmation, closing, selects, moved,
  perform, Reach, here, then_write,
}
use gb_522_a16g.Workflow.Row.{moved_lem, update_where-get_elem?}
use gb_522_a16g.Workflow.History.{Reach-IsLater}

module _ {F : Type 0} where
  -- The rows with the id.
  abbrev pub with_id : ℕ → List (LocalizationCase F) → ℕ
  with_id id rows = count_if (λ c. c.id == id) rows

  -- The rows with the id that still have the version.
  abbrev pub with_version : ℕ → ℕ → List (LocalizationCase F) → ℕ
  with_version id version rows = count_if (λ c. c.id == id && c.version == version) rows

  guard-le-version :
      (id version : ℕ) (from : CaseStatus) (rows : List (LocalizationCase F))
      → count_if (transition_guard id version from) rows ≤ with_version id version rows
  guard-le-version id version from [] = omega arith
  guard-le-version id version from (c ∷ rows) =
      ground (arith, guard-le-version id version from rows)

  version-le-id :
      (id version : ℕ) (rows : List (LocalizationCase F))
      → with_version id version rows ≤ with_id id rows
  version-le-id id version [] = omega arith
  version-le-id id version (c ∷ rows) = ground (arith, version-le-id id version rows)

  pub count_if-selected :
      (p : LocalizationCase F → Bool) (rows : List (LocalizationCase F))
      → 0 < count_if p rows
      → (k : ℕ) × (c : LocalizationCase F) × (get_elem? rows k ≡ some c) × (p c ≡ true)
  count_if-selected p [] h = absurd (omega arith)
  count_if-selected p (c ∷ rows) h = elim (Bool-cases (p c)) [
    | inl selected ↦ (0, c, refl, selected)
    | inr passed ↦
        let some_left : 0 < count_if p rows = ground arith in
        let (k, c', e, selected) = count_if-selected p rows some_left in (suc k, c', e, selected)
  ]

  get_elem?-counts :
      (p : LocalizationCase F → Bool) (rows : List (LocalizationCase F)) (k : ℕ)
      {c : LocalizationCase F}
      → get_elem? rows k ≡ some c
      → p c ≡ true
      → 1 ≤ count_if p rows
  get_elem?-counts p [] k e h = cc
  get_elem?-counts p (x ∷ rows) zero e h = ground arith
  get_elem?-counts p (x ∷ rows) (suc k) e h = omega (arith, get_elem?-counts p rows k e h)

  -- The one row with the id has a greater version: no row has the version.
  outdated :
      (id version : ℕ) (rows : List (LocalizationCase F)) (k : ℕ) {c : LocalizationCase F}
      → get_elem? rows k ≡ some c
      → c.id ≡ id
      → version < c.version
      → with_id id rows ≤ 1
      → with_version id version rows ≡ 0
  outdated id version [] k e i v unique = cc
  outdated id version (x ∷ rows) zero {c = c} e i v unique =
      let same : x ≡ c = cc in
      let x_id : x.id ≡ id = rw same i in
      let x_version : version < x.version = rw same v in
      ground (arith, version-le-id id version rows)
  outdated id version (x ∷ rows) (suc k) {c = c} e i v unique =
      let at : (c.id == id) ≡ true = ground arith in
      let counted : 1 ≤ with_id id rows = get_elem?-counts (λ r. r.id == id) rows k e at in
      let rest : with_version id version rows ≡ 0 =
        outdated id version rows k e i v (ground arith) in
      ground arith

  update_where-with_id :
      (id : ℕ) (p : LocalizationCase F → Bool) (f : LocalizationCase F → LocalizationCase F)
      → ((c : LocalizationCase F) → p c ≡ true → (f c).id ≡ c.id)
      → (rows : List (LocalizationCase F)) → with_id id (update_where p f rows) ≡ with_id id rows
  update_where-with_id id p f keeps [] = refl
  update_where-with_id id p f keeps (c ∷ rows) = elim (Bool-cases (p c)) [
    | inl selected ↦ rw (selected, keeps c selected, update_where-with_id id p f keeps rows) refl
    | inr passed ↦ rw (passed, update_where-with_id id p f keeps rows) refl
  ]

  fresh_unused :
      (n : ℕ) (rows : List (LocalizationCase F))
      → All (λ (c : LocalizationCase F). c.id < n) rows
      → with_id n rows ≡ 0
  fresh_unused n [] h = refl
  fresh_unused n (c ∷ rows) (h, hs) = ground (arith, fresh_unused n rows hs)

  -- No two cases share an id.
  unfoldable pub IsUnique : Tables F → Type 0
  IsUnique t = (id : ℕ) → with_id id t.cases ≤ 1

module _ {F : Type 0} ⦃fl : Float64 F⦄ where
  moved-id :
      (w : Write F) (now : ℕ) (c : LocalizationCase F)
      → selects w c ≡ true
      → (moved w now c).id ≡ c.id
  moved-id w now c h = (moved_lem w now c h).2.0

  perform-with_id :
      (w : Write F) (stamp : Stamp) (t : Tables F) (id : ℕ)
      → IsFresh stamp t
      → with_id id t.cases ≤ 1
      → with_id id (perform w stamp t).cases ≤ 1
  unfolding perform selects moved create_case_statement transition_statement recover_statement
      save_analysis_statement
  perform-with_id (creation request actor) stamp t id fresh h =
      let none_yet = fresh_unused stamp.fresh_case t.cases fresh.cases_below in
      elim (Bool-cases (stamp.fresh_case == id)) [
        | inl e ↦
            let here_id : stamp.fresh_case ≡ id = ground arith in
            rw (count_if-append (λ c. c.id == id) t.cases _) (ground arith)
        | inr e ↦ rw (count_if-append (λ c. c.id == id) t.cases _) (ground arith)
      ]
  perform-with_id (start i version) stamp t id fresh h =
      let w : Write F = start i version in
      rw (update_where-with_id id (selects w) (moved w stamp.now) (moved-id w stamp.now) t.cases) h
  perform-with_id (recovery i cutoff) stamp t id fresh h =
      let w : Write F = recovery i cutoff in
      rw (update_where-with_id id (selects w) (moved w stamp.now) (moved-id w stamp.now) t.cases) h
  perform-with_id (failure i message) stamp t id fresh h =
      let w : Write F = failure i message in
      rw (update_where-with_id id (selects w) (moved w stamp.now) (moved-id w stamp.now) t.cases) h
  perform-with_id (completion i differences parameters) stamp t id fresh h =
      let w : Write F = completion i differences parameters in
      rw (update_where-with_id id (selects w) (moved w stamp.now) (moved-id w stamp.now) t.cases) h
  perform-with_id (confirmation i version request actor) stamp t id fresh h =
      let w : Write F = confirmation i version request actor in
      rw (update_where-with_id id (selects w) (moved w stamp.now) (moved-id w stamp.now) t.cases) h
  perform-with_id (closing i version at) stamp t id fresh h =
      let w : Write F = closing i version at in
      rw (update_where-with_id id (selects w) (moved w stamp.now) (moved-id w stamp.now) t.cases) h

  -- Case ids stay unique under any writes.
  pub Reach-IsUnique : (t t' : Tables F) (n : ℕ) → Reach t t' n → IsUnique t → IsUnique t'
  unfolding IsUnique create_audit_statement
  Reach-IsUnique t _ _ here h = h
  Reach-IsUnique t _ _ (then_write {u = u} {n = m} r w stamp entry later fresh affects names) h =
      λ id. perform-with_id w stamp u id fresh (Reach-IsUnique t u m r h id)

  -- Once a transition that named a version of a case has taken effect, then after any further writes
  -- of any clients no transition that names this version of the case affects a row, whatever status it
  -- starts from. The columns that the transition sets leave the id and the version of the row alone.
  pub transition_once :
      (id version : ℕ) (from to : CaseStatus) (updates : LocalizationCase F → LocalizationCase F)
      (stamp : Stamp) (t : Tables F)
      → ((c : LocalizationCase F) → ((updates c).id ≡ c.id) × ((updates c).version ≡ c.version))
      → IsUnique t
      → 0 < count_if (transition_guard id version from) t.cases
      → (t' : Tables F) (n : ℕ)
      → Reach (transition_statement id version from to updates stamp t).1 t' n
      → (from' to' : CaseStatus) (updates' : LocalizationCase F → LocalizationCase F)
        (stamp' : Stamp)
      → (transition_statement id version from' to' updates' stamp' t').0 ≡ ok 0
  unfolding transition_statement IsUnique
  transition_once id version from to updates stamp t keeps unique won t' n r from' to' updates'
        stamp' =
      let p = transition_guard id version from in
      let f = λ (c : LocalizationCase F). advance stamp.now to (updates c) in
      let u = (transition_statement id version from to updates stamp t).1 in
      let (k, c, e, selected) = count_if-selected p t.cases won in
      let e1 : get_elem? u.cases k ≡ some (f c) =
        rw (update_where-get_elem? p f t.cases k e, selected) refl in
      let (c', e2, h) = Reach-IsLater u t' n k (f c) r e1 in
      let unique_u : IsUnique u =
        λ i. rw (update_where-with_id i p f (λ x s. (keeps x).0) t.cases) (unique i) in
      let this_id : c'.id ≡ id = ground (arith, h.same_id, keeps c) in
      let newer : version < c'.version = ground (arith, h.version_lem, keeps c) in
      let one : with_id id t'.cases ≤ 1 = Reach-IsUnique u t' n r unique_u id in
      let gone = outdated id version t'.cases k e2 this_id newer one in
      ap ok (ground (arith, guard-le-version id version from' t'.cases))
