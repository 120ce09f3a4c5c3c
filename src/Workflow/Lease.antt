-- ===== src/Workflow/Lease.antt =====
-- The lease of an analysis: who may save a result.
use gb_522_a16g.Base.{ℕ, ◌+◌, ◌<◌, ◌≡◌, refl, true, false, arith, List}
use gb_522_a16g.Float.{Float64}
use gb_522_a16g.Constants.{draft, analyzing, pending_review}
use gb_522_a16g.Algorithm.Compare.{Difference}
use gb_522_a16g.Model.{LocalizationCase, CaseParameters}
use gb_522_a16g.Repository.Case.{advance}
use gb_522_a16g.Service.Case.Values.{analysis_updates}
use gb_522_a16g.Workflow.Defs.{start, recovery, completion, selects, moved}
use gb_522_a16g.Workflow.Row.{after_write}

module _ {F : Type 0} ⦃fl : Float64 F⦄ where
  start_selects :
      (c : LocalizationCase F) (version : ℕ)
      → c.version ≡ version
      → c.case_status ≡ draft
      → selects (start c.id version) c ≡ true
  unfolding selects
  start_selects c version v d = rw d (ground arith)

  recovery_selects :
      (c : LocalizationCase F) (id cutoff : ℕ)
      → c.id ≡ id
      → c.case_status ≡ analyzing
      → c.updated_at < cutoff
      → selects (recovery id cutoff) c ≡ true
  unfolding selects
  recovery_selects c id cutoff i a u = rw a (ground arith)

  completion_selects :
      (c : LocalizationCase F) (id : ℕ) (ds : List (Difference F)) (parameters : CaseParameters F)
      → c.id ≡ id
      → c.case_status ≡ analyzing
      → selects (completion id ds parameters) c ≡ true
  unfolding selects
  completion_selects c id ds parameters i a = rw a (ground arith)

  completion_passes :
      (c : LocalizationCase F) (id : ℕ) (ds : List (Difference F)) (parameters : CaseParameters F)
      → c.case_status ≡ pending_review
      → selects (completion id ds parameters) c ≡ false
  unfolding selects
  completion_passes c id ds parameters a = rw a (ground arith)

  -- The version does not guard a save: when the lease of a first worker ran out, was released and was
  -- taken by a second worker, the first worker's late result is saved all the same, over the second
  -- run, and the second worker's own result is then refused.
  pub completion_ignores_lease :
      (c : LocalizationCase F) (cutoff started released retaken_at saved : ℕ)
      (mine theirs : List (Difference F)) (parameters : CaseParameters F)
      → c.case_status ≡ draft
      → started < cutoff
      → let first = after_write (start c.id c.version) started c in
        let second =
          after_write
            (start c.id (c.version + 2))
            retaken_at
            (after_write (recovery c.id cutoff) released first) in
        (second.case_status ≡ analyzing)
        × (second.version ≡ c.version + 3)
        × (selects (completion c.id mine parameters) second ≡ true)
        × (after_write (completion c.id mine parameters) saved second
            ≡ advance saved pending_review (analysis_updates mine parameters second))
        × (selects
              (completion c.id theirs parameters)
              (after_write (completion c.id mine parameters) saved second)
            ≡ false)
  unfolding moved
  completion_ignores_lease c cutoff started released retaken_at saved mine theirs parameters
        is_draft expired =
      let c1 = moved (start c.id c.version) started c in
      let c2 = moved (recovery c.id cutoff) released c1 in
      let c3 = moved (start c.id (c.version + 2)) retaken_at c2 in
      let s1 = start_selects c c.version refl is_draft in
      let s2 = recovery_selects c1 c.id cutoff refl refl expired in
      let s3 = start_selects c2 (c.version + 2) (omega arith) refl in
      let s4 = completion_selects c3 c.id mine parameters refl refl in
      rw (s1, s2, s3, s4)
        (refl, omega arith, refl, refl, completion_passes _ c.id theirs parameters refl)
