-- ===== src/Workflow/Create.antt =====
-- `Create` as a write.
use gb_522_a16g.Base.{
  ℕ, ◌≡◌, refl, sym, ◌∙◌, ◌⊎◌, inl, inr, Bool, Bool-cases, ◌&&◌, ◌==◌, if◌then◌else◌, arith, err,
  Result, GoError, nil, wrapped, count_if,
}
use gb_522_a16g.Float.{Float64}
use gb_522_a16g.Model.{LocalizationCase, TraceCapture, Actor, CreateCaseRequest}
use gb_522_a16g.Store.{Tables, Engine, IsSound, Ends, mapped, map_err, ◌>>◌, pure, fail}
use gb_522_a16g.Repository.Trace.{belongs_to_route, count_belonging_statement}
use gb_522_a16g.Service.Errors.{invalid, internal}
use gb_522_a16g.Service.Case.Review.{check_trace, create_body, create}
use gb_522_a16g.Workflow.Defs.{creation}
use gb_522_a16g.Workflow.Rules.{
  EndsIn, Outcomes, outcomes_then, mapped-Outcomes, exec_outcomes, Outcomes-imp, Changed,
}
use gb_522_a16g.Workflow.Writes.{Written}
use gb_522_a16g.Workflow.Review.{refuse_if-Ends}
use gb_522_a16g.Workflow.Effects.{IsCreated, Written-IsCreated}
use gb_522_a16g.Workflow.Bodies.{Makes-Outcomes, create_body_outcomes}

module _ {F : Type 0} where
  -- Exactly one trace with the id is of the route.
  abbrev pub Belongs : ℕ → ℕ → Tables F → Type 0
  Belongs trace_id route_id t =
      count_if (λ (c : TraceCapture F). c.id == trace_id && c.route_id == route_id) t.traces ≡ 1

module _ {F : Type 0} ⦃fl : Float64 F⦄ (engine : Engine F) (sound : IsSound engine) where
  open engine use {Db, tables, exec, transaction}

  pub belongs_to_route_outcomes :
      (trace_id route_id : ℕ) (d : Db)
      → EndsIn engine
          (λ t'. t' ≡ tables d)
          (λ b t'.
            (t' ≡ tables d)
            × (b ≡ (
                count_if
                  (λ (c : TraceCapture F). c.id == trace_id && c.route_id == route_id)
                  (tables d).traces
                == 1)))
          (belongs_to_route engine trace_id route_id)
          d
  unfolding belongs_to_route count_belonging_statement
  belongs_to_route_outcomes trace_id route_id d =
      let n =
        count_if (λ (c : TraceCapture F). c.id == trace_id && c.route_id == route_id)
          (tables d).traces in
      let s = count_belonging_statement trace_id route_id in
      outcomes_then engine (λ t'. t' ≡ tables d) (λ x t'. (x ≡ n) × (t' ≡ tables d))
        (Outcomes (λ t'. t' ≡ tables d) (λ b t'. (t' ≡ tables d) × (b ≡ (n == 1))))
        (map_err (wrapped "check trace route") (exec s)) (λ count. pure (count == 1)) d
        (Outcomes-imp (λ t'. t' ≡ tables d) (λ t'. t' ≡ tables d)
          (λ x t'. (x ≡ n) × Changed s (tables d) t') (λ x t'. (x ≡ n) × (t' ≡ tables d))
          (λ t' h. h) (λ x t' (e, (stamp, fresh, k)). (e, k))
          (mapped (wrapped "check trace route") (exec s d).0) (tables (exec s d).1)
          (exec_outcomes engine sound (wrapped "check trace route") s n d (λ stamp. refl)))
        (λ e t' h. inl (e, refl, h))
        (λ count d1 (e, same). inr (count == 1, refl, (same, rw e refl)))

  check_trace_outcomes :
      (route_id trace_id : ℕ) (t : Tables F) (d : Db)
      → tables d ≡ t
      → EndsIn engine
          (λ t'. t' ≡ t)
          (λ _ t'. (t' ≡ t) × Belongs trace_id route_id t)
          (check_trace engine route_id trace_id)
          d
  unfolding check_trace
  check_trace_outcomes route_id trace_id t d at =
      let n =
        count_if (λ (c : TraceCapture F). c.id == trace_id && c.route_id == route_id)
          (tables d).traces in
      let P = λ (b : Bool) (t' : Tables F). (t' ≡ tables d) × (b ≡ (n == 1)) in
      let m = belongs_to_route engine trace_id route_id in
      outcomes_then engine (λ t'. t' ≡ tables d) P
        (Outcomes (λ t'. t' ≡ t) (λ _ t'. (t' ≡ t) × Belongs trace_id route_id t))
        (map_err (internal "validate case traces failed") m)
        (λ belongs.
          if belongs
          then pure tt
          else fail (invalid "both traces must belong to the selected route" nil))
        d
        (mapped-Outcomes (λ t'. t' ≡ tables d) P (internal "validate case traces failed") (m d).0
          (tables (m d).1) (belongs_to_route_outcomes trace_id route_id d))
        (λ e t' h. inl (e, refl, h ∙ at))
        (λ belongs d1 (same, known). elim (Bool-cases belongs) [
          | inl yes_it ↦
              let one : n ≡ 1 = ground arith in
              rw yes_it (inr (tt, refl, (same ∙ at, rw (sym at) one)))
          | inr no_it ↦ rw no_it (inl (_, refl, same ∙ at))
        ])

  -- `Create` returns an error and leaves the tables as they were, or the two traces differ, each belongs
  -- to the route, and behind the other cases one was added, under an id above theirs: a draft of version
  -- 1 of the route and of the two traces, made by the actor, with no estimate, conclusion, reviewer or
  -- closing time. The audit log has one more entry, which names this case and the actor by id and name.
  pub create_writes :
      (request : CreateCaseRequest F) (actor : Actor) (d : Db)
      → Ends engine
          (λ r t'.
            ((e : GoError) × (r ≡ err e) × (t' ≡ tables d))
            ⊎ (¬ (request.baseline_trace_id ≡ request.current_trace_id)
                × Belongs request.baseline_trace_id request.route_id (tables d)
                × Belongs request.current_trace_id request.route_id (tables d)
                × IsCreated request actor (tables d) t'
                × Written (creation request actor) (tables d) t'))
          (create engine request actor)
          d
  unfolding create
  create_writes request actor d =
      let baseline = request.baseline_trace_id in
      let current = request.current_trace_id in
      let t = tables d in
      let Q = λ (r : Result (LocalizationCase F)) (t' : Tables F).
        ((e : GoError) × (r ≡ err e) × (t' ≡ t))
        ⊎ (¬ (baseline ≡ current)
            × Belongs baseline request.route_id t
            × Belongs current request.route_id t
            × IsCreated request actor t t'
            × Written (creation request actor) t t') in
      let body = create_body engine request actor in
      let saving = internal "create case failed" in
      let save = map_err saving (transaction body) in
      let check = check_trace engine request.route_id in
      let Checked = λ (trace_id : ℕ) (x : Unit {0}) (t' : Tables F).
        (t' ≡ t) × Belongs trace_id request.route_id t in
      let same_trace = invalid "baseline and current traces must differ" nil in
      refuse_if-Ends engine Q (baseline == current) same_trace
        (check baseline >> (check current >> save)) d (λ h. inl (same_trace, refl, refl))
        (λ differ.
          outcomes_then engine (λ t'. t' ≡ t) (Checked baseline) Q (check baseline)
            (λ x. check current >> save) d (check_trace_outcomes request.route_id baseline t d refl)
            (λ e t' h. inl (e, refl, h))
            (λ x d1 (same, first_in).
              outcomes_then engine (λ t'. t' ≡ t) (Checked current) Q (check current) (λ y. save) d1
                (check_trace_outcomes request.route_id current t d1 same)
                (λ e t' h. inl (e, refl, h))
                (λ y d2 (same2, second_in).
                  elim (Makes-Outcomes engine sound saving (creation request actor) body t d2
                    (create_body_outcomes engine sound request actor) same2) [
                      | inl failed ↦ inl failed
                      | inr (c, r, written) ↦ inr (
                        (λ e. ground arith),
                        first_in,
                        second_in,
                        Written-IsCreated request actor t _ written,
                        written,
                      )
                    ])))
