-- ===== src/Workflow/Calls.antt =====
-- The services implement the step relation: whatever calls are made, the tables run through writes.
use gb_522_a16g.Base.{◌-◌, ℕ, suc, ◌+◌, ◌*◌, ◌≤◌, inl, inr, arith, List, [], ◌∷◌, length}
use gb_522_a16g.Float.{Float64}
use gb_522_a16g.Model.{
  Actor, CreateCaseRequest, AnalyzeCaseRequest, ConfirmCaseRequest, CloseCaseRequest,
}
use gb_522_a16g.Store.{Tables, Engine, IsSound}
use gb_522_a16g.Service.Case.Review.{create, confirm, close}
use gb_522_a16g.Service.Case.Analyze.{analyze}
use gb_522_a16g.Service.Case.Values.{analysis_parameters}
use gb_522_a16g.Workflow.Effects.{lease_length}
use gb_522_a16g.Workflow.Defs.{
  creation, start, recovery, failure, completion, confirmation, closing, Reach, here,
}
use gb_522_a16g.Workflow.Writes.{Written-Reach}
use gb_522_a16g.Workflow.Review.{confirm_writes, close_writes}
use gb_522_a16g.Workflow.Create.{create_writes}
use gb_522_a16g.Workflow.Analysed.{Prepared, Begun, Analysed}
use gb_522_a16g.Workflow.Analyze.{analyze_writes}

-- A call of the case service that may write.
pub data Call (F : Type 0) : Type 0 where
  creates : CreateCaseRequest F → Actor → Call F
  analyzes : ℕ → AnalyzeCaseRequest F → Actor → Call F
  confirms : ℕ → ConfirmCaseRequest F → Actor → Call F
  closes : ℕ → CloseCaseRequest → Actor → Call F

module _ {F : Type 0} ⦃fl : Float64 F⦄ where
  -- At most so many more writes.
  abbrev Further : Tables F → ℕ → ℕ → Tables F → Type 0
  Further t n more t' = (m : ℕ) × Reach t t' m × (m ≤ n + more)

  Prepared-Further :
      (engine : Engine F) (id : ℕ) (t u u' : Tables F) (n : ℕ)
      → Reach t u n
      → Prepared engine id u u'
      → Further t n 1 u'
  Prepared-Further engine id t u u' n r (inl same) = (n, rw same r, omega arith)
  Prepared-Further engine id t u u' n r (inr (d, at, expired, written)) = (
    suc n,
    Written-Reach (recovery id (engine.now d - lease_length)) t u u' n r written,
    omega arith,
  )

  Begun-Further :
      (engine : Engine F) (id : ℕ) (t u u' : Tables F) (n : ℕ)
      → Reach t u n
      → Begun engine id u u'
      → Further t n 2 u'
  Begun-Further engine id t u u' n r (item, (v, prepared, found, written)) =
      let (m, reached, bound) = Prepared-Further engine id t u v n r prepared in
      (suc m, Written-Reach (start id item.version) t v u' m reached written, omega arith)

  Analysed-Further :
      (engine : Engine F) (id : ℕ) (request : AnalyzeCaseRequest F) (t u u' : Tables F) (n : ℕ)
      (r : _)
      → Reach t u n
      → Analysed engine id request u r u'
      → Further t n 3 u'
  Analysed-Further engine id request t u u' n r reach
        (inl (v, item, ds, taken, compared, written)) =
      let (m, reached, bound) = Begun-Further engine id t u v n reach (item, taken) in
      (
        suc m,
        Written-Reach (completion id ds (analysis_parameters request item)) t v u' m reached
            written,
        omega arith,
      )
  Analysed-Further engine id request t u u' n r reach (inr (no_value, inl prepared)) =
      let (m, reached, bound) = Prepared-Further engine id t u u' n reach prepared in
      (m, reached, omega arith)
  Analysed-Further engine id request t u u' n r reach (inr (no_value, inr (inl begun))) =
      let (m, reached, bound) = Begun-Further engine id t u u' n reach begun in
      (m, reached, omega arith)
  Analysed-Further engine id request t u u' n r reach
        (inr (no_value, inr (inr (v, message, begun, written)))) =
      let (m, reached, bound) = Begun-Further engine id t u v n reach begun in
      (suc m, Written-Reach (failure id message) t v u' m reached written, omega arith)

  module _ (engine : Engine F) where
    open engine use {Db}

    -- The state after a call, whatever it returns.
    unfoldable pub after_call : Call F → Db → Db
    after_call (creates request actor) d = (create engine request actor d).1
    after_call (analyzes id request actor) d = (analyze engine id request actor d).1
    after_call (confirms id request actor) d = (confirm engine id request actor d).1
    after_call (closes id request actor) d = (close engine id request actor d).1

    unfoldable pub after_calls : List (Call F) → Db → Db
    after_calls [] d = d
    after_calls (call ∷ calls) d = after_calls calls (after_call call d)

  module _ (engine : Engine F) (sound : IsSound engine) where
    open engine use {Db, tables}

    call-Further :
        (call : Call F) (t : Tables F) (n : ℕ) (d : Db)
        → Reach t (tables d) n
        → Further t n 3 (tables (after_call engine call d))
    unfolding after_call
    call-Further (creates request actor) t n d r =
        elim (create_writes engine sound request actor d) [
          | inl (e, h, same) ↦ (n, rw same r, omega arith)
          | inr (differ, a, b, made, written) ↦ (
            suc n,
            Written-Reach (creation request actor) t (tables d) _ n r written,
            omega arith,
          )
        ]
    call-Further (analyzes id request actor) t n d r =
        Analysed-Further engine id request t (tables d) _ n _ r
          (analyze_writes engine sound id request actor d)
    call-Further (confirms id request actor) t n d r =
        elim (confirm_writes engine sound id request actor d) [
          | inl (e, h, same) ↦ (n, rw same r, omega arith)
          | inr (may, written) ↦ (
            suc n,
            Written-Reach (confirmation id request.version request actor) t (tables d) _ n r
                written,
            omega arith,
          )
        ]
    call-Further (closes id request actor) t n d r =
        elim (close_writes engine sound id request actor d) [
          | inl (e, h, same) ↦ (n, rw same r, omega arith)
          | inr (now, written) ↦ (
            suc n,
            Written-Reach (closing id request.version now) t (tables d) _ n r written,
            omega arith,
          )
        ]

    calls-Further :
        (calls : List (Call F)) (t : Tables F) (n : ℕ) (d : Db)
        → Reach t (tables d) n
        → Further t n (3 * length calls) (tables (after_calls engine calls d))
    unfolding after_calls
    calls-Further [] t n d r = (n, r, omega arith)
    calls-Further (call ∷ calls) t n d r =
        let (m, reached, bound) = call-Further call t n d r in
        let (k, reached2, bound2) = calls-Further calls t m (after_call engine call d) reached in
        (k, reached2, omega arith)

    -- Whatever calls of `Create`, `Analyze`, `Confirm` and `Close` are made one after the other, with
    -- whatever outcomes, the tables have gone through writes of the workflow with their audit entries
    -- and through nothing else, at most three for each call.
    pub calls-Reach :
        (calls : List (Call F)) (d : Db)
        → (n : ℕ) × Reach (tables d) (tables (after_calls engine calls d)) n
          × (n ≤ 3 * length calls)
    calls-Reach calls d =
        let (n, reached, bound) = calls-Further calls (tables d) 0 d here in
        (n, reached, omega arith)
