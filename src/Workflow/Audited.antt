-- ===== src/Workflow/Audited.antt =====
-- The audit log as the services leave it: no case moves without an entry that names it.
use gb_522_a16g.Base.{
  ℕ, ◌+◌, ◌≤◌, ◌≡◌, inl, inr, true, ◌==◌, Bool-cases, arith, List, [], ◌∷◌, some, get_elem?,
  count_if, count_if-append,
}
use gb_522_a16g.Float.{Float64}
use gb_522_a16g.Model.{LocalizationCase, AuditLog}
use gb_522_a16g.Store.{Tables, Stamp, Engine, IsSound}
use gb_522_a16g.Repository.Audit.{create_audit_statement}
use gb_522_a16g.Workflow.Defs.{
  Write, creation, start, recovery, failure, completion, confirmation, closing, selects, perform,
  IsEntryOf, Reach, here, then_write, IsLater,
}
use gb_522_a16g.Workflow.Row.{
  moved_lem, after_write, IsLater-refl, IsLater-after_write, perform-get_elem?,
}
use gb_522_a16g.Workflow.History.{perform-audits}
use gb_522_a16g.Workflow.Calls.{Call, after_calls, calls-Reach}

module _ {F : Type 0} where
  -- How many entries of the log name the id.
  abbrev pub entries : ℕ → Tables F → ℕ
  entries id t = count_if (λ (e : AuditLog F). e.resource_id == id) t.audits

module _ {F : Type 0} ⦃fl : Float64 F⦄ where
  -- The entry of a write names the rows that the write selects.
  entry-names :
      (w : Write F) (stamp : Stamp) (entry : AuditLog F) (c : LocalizationCase F)
      → IsEntryOf w stamp entry
      → selects w c ≡ true
      → (entry.resource_id == c.id) ≡ true
  unfolding IsEntryOf selects
  entry-names (creation request actor) stamp entry c names h = cc
  entry-names (start id version) stamp entry c (a, r) h = ground arith
  entry-names (recovery id cutoff) stamp entry c (a, r) h = ground arith
  entry-names (failure id message) stamp entry c (a, r) h = ground arith
  entry-names (completion id differences parameters) stamp entry c (a, r) h = ground arith
  entry-names (confirmation id version request actor) stamp entry c (a, r, who, name) h =
      ground arith
  entry-names (closing id version at) stamp entry c (a, r) h = ground arith

  recorded-entries :
      (w : Write F) (stamp : Stamp) (entry : AuditLog F) (later : Stamp) (t : Tables F) (id : ℕ)
      → entries id (create_audit_statement entry later (perform w stamp t)).1
        ≡ entries id t
          + count_if
              (λ (e : AuditLog F). e.resource_id == id)
              (record entry { id = later.fresh_audit; created_at = later.now } ∷ [])
  unfolding create_audit_statement
  recorded-entries w stamp entry later t id =
      rw (perform-audits w stamp t)
        (count_if-append (λ (e : AuditLog F). e.resource_id == id) t.audits _)

  Reach-entries :
      (t t' : Tables F) (n : ℕ) (k : ℕ) (c : LocalizationCase F)
      → Reach t t' n
      → get_elem? t.cases k ≡ some c
      → (c' : LocalizationCase F) × (get_elem? t'.cases k ≡ some c')
        × IsLater c c'
        × (c'.version + entries c.id t ≤ c.version + entries c.id t')
  unfolding create_audit_statement
  Reach-entries t _ _ k c here e = (c, e, IsLater-refl c, omega arith)
  Reach-entries t t' n k c (then_write {u = u} {n = m} r w stamp entry later fresh affects names)
        e =
      let (c1, e1, later1, bound) = Reach-entries t u m k c r e in
      let more = recorded-entries w stamp entry later u c.id in
      let stands = perform-get_elem? w stamp u k e1 in
      let c2 = after_write w stamp.now c1 in
      let counted : c2.version + entries c.id t ≤ c.version + entries c.id t' =
        elim (Bool-cases (selects w c1)) [
          | inl selected ↦
              let names_it = entry-names w stamp entry c1 names selected in
              let (allowed, next, kept) = moved_lem w stamp.now c1 selected in
              rw selected (ground (arith, later1.same_id))
          | inr passed ↦ rw passed (omega (arith, more, bound))
        ] in
      (c2, stands, IsLater-after_write w stamp.now c c1 later1, counted)

  module _ (engine : Engine F) (sound : IsSound engine) where
    open engine use {Db, tables}

    -- Whatever calls of `Create`, `Analyze`, `Confirm` and `Close` are made one after the other, with
    -- whatever outcomes, a case stays at its place, its version has grown by no more than the number of
    -- new entries of the audit log that name it, and with no such entry it is unchanged.
    pub calls-audited :
        (calls : List (Call F)) (d : Db) (k : ℕ) (c : LocalizationCase F)
        → get_elem? (tables d).cases k ≡ some c
        → let t' = tables (after_calls engine calls d) in
          (c' : LocalizationCase F) × (get_elem? t'.cases k ≡ some c')
          × (c'.version + entries c.id (tables d) ≤ c.version + entries c.id t')
          × (entries c.id t' ≡ entries c.id (tables d) → c' ≡ c)
    calls-audited calls d k c e =
        let t' = tables (after_calls engine calls d) in
        let (n, reached, few) = calls-Reach engine sound calls d in
        let (c', stands, h, bound) = Reach-entries (tables d) t' n k c reached e in
        (c', stands, bound, λ none_new. h.unmoved (omega (arith, h.version_lem, bound, none_new)))
