-- ===== src/Workflow/Recovered.antt =====
-- The first part of `Analyze`, which releases a lease that has run out.
use gb_522_a16g.Base.{
  ℕ, ◌≡◌, refl, sym, inl, inr, Bool, true, false, Bool-cases, ◌==◌, if◌then◌else◌, ok,
}
use gb_522_a16g.Float.{Float64}
use gb_522_a16g.Constants.{analyzing, same_status}
use gb_522_a16g.Model.{LocalizationCase, Actor}
use gb_522_a16g.Store.{Tables, Engine, IsSound, map_err, pure}
use gb_522_a16g.Repository.Query.{first}
use gb_522_a16g.Repository.Case.{get}
use gb_522_a16g.Service.Errors.{internal}
use gb_522_a16g.Service.Case.Analyze.{recover_body, recover_and_reload, recover_if_analyzing}
use gb_522_a16g.Workflow.Rules.{
  Read, EndsIn, Outcomes, outcomes_then, mapped-Outcomes, Outcomes-imp, transaction_outcomes,
  get_outcomes,
}
use gb_522_a16g.Workflow.Bodies.{Released, recover_body_outcomes}
use gb_522_a16g.Workflow.Analysed.{Ready, Prepared}

module _ {F : Type 0} ⦃fl : Float64 F⦄ where
  module _ (engine : Engine F) (sound : IsSound engine) where
    open engine use {Db, tables, exec, transaction}

    reload_outcomes :
        (id : ℕ) (item : LocalizationCase F) (t : Tables F) (recovered : Bool) (d : Db)
        → first (λ (x : LocalizationCase F). x.id == id) t.cases ≡ ok item
        → item.id ≡ id
        → Released engine id t recovered (tables d)
        → EndsIn engine
            (Prepared engine id t)
            (Ready engine id t)
            (if recovered
              then map_err (internal "reload recovered case failed") (get engine id)
              else pure item)
            d
    reload_outcomes id item t true d found is_it (d0, at, expired, written) =
        let g = get engine id d in
        mapped-Outcomes (Prepared engine id t) (Ready engine id t)
          (internal "reload recovered case failed") g.0 (tables g.1)
          (Outcomes-imp (λ t'. t' ≡ tables d) (Prepared engine id t) (Read id (tables d))
            (Ready engine id t) (λ t' same. inr (d0, at, expired, rw same written))
            (λ c t' (same, is_found, it).
              (inr (d0, at, expired, rw same written), rw same is_found, it))
            g.0 (tables g.1) (get_outcomes engine sound id d))
    reload_outcomes id item t false d found is_it same =
        inr (item, refl, (inl same, rw same found, is_it))

    pub recover_if_analyzing_outcomes :
        (id : ℕ) (actor : Actor) (item : LocalizationCase F) (t : Tables F) (d : Db)
        → tables d ≡ t
        → first (λ (x : LocalizationCase F). x.id == id) t.cases ≡ ok item
        → item.id ≡ id
        → EndsIn engine
            (Prepared engine id t)
            (Ready engine id t)
            (recover_if_analyzing engine id actor item)
            d
    unfolding recover_if_analyzing recover_and_reload
    recover_if_analyzing_outcomes id actor item t d at found is_it =
        elim (Bool-cases (same_status item.case_status analyzing)) [
          | inl held ↦
              let saving = internal "recover interrupted analysis failed" in
              let body = recover_body engine id actor item in
              rw held (
                outcomes_then engine (λ t'. t' ≡ t) (Released engine id t)
                  (Outcomes (Prepared engine id t) (Ready engine id t))
                  (map_err saving (transaction body))
                  (λ recovered.
                    if recovered
                    then map_err (internal "reload recovered case failed") (get engine id)
                    else pure item)
                  d
                  (mapped-Outcomes (λ t'. t' ≡ t) (Released engine id t) saving
                    (transaction body d).0 (tables (transaction body d).1)
                    (rw (sym at) (
                      transaction_outcomes engine sound (Released engine id (tables d)) body d
                        (λ d0 same.
                          rw (sym same) (recover_body_outcomes engine sound id actor item d0)))))
                  (λ e t' h. inl (e, refl, inl h))
                  (λ recovered d1 released.
                    reload_outcomes id item t recovered d1 found is_it released))
          | inr free ↦ rw free (inr (item, refl, (inl at, rw at found, is_it)))
        ]
