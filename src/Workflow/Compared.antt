-- ===== src/Workflow/Compared.antt =====
-- What `compareEvents` compares.
use mathlib.Core.List.{Perm}
use gb_522_a16g.Base.{
  ℕ, ◌≡◌, refl, sym, ap, ◌∙◌, inl, inr, List, map, ◌||◌, ◌==◌, sort_by, filter_if, ok, GoError,
  errorf, wrapped, length,
}
use gb_522_a16g.Float.{Float64}
use gb_522_a16g.Algorithm.Compare.{Difference, compare_baseline}
use gb_522_a16g.Model.{LocalizationCase, CaseParameters, EventMarker}
use gb_522_a16g.Store.{
  Tables, Action, Engine, IsSound, map_err, lift, refuse_if, bind-ok, mapped-ok,
}
use gb_522_a16g.Store.Keeps.{
  Keeps, Keeps-exec, Keeps-lift, Keeps-bind, Keeps-map_err, Keeps-refuse_if,
}
use gb_522_a16g.Repository.Listing.{arranged}
use gb_522_a16g.Repository.Listing.Laws.{arranged-Perm}
use gb_522_a16g.Repository.Event.{nearer, for_trace, for_trace_statement}
use gb_522_a16g.Service.Case.Values.{comparable}
use gb_522_a16g.Service.Case.Analyze.{compare_events}

module _ {F : Type 0} ⦃fl : Float64 F⦄ where
  -- The events of a trace by their distance, out of the rows in the order in which they are come to.
  abbrev pub trace_events : ℕ → List (EventMarker F) → List (EventMarker F)
  trace_events trace_id seen =
      sort_by nearer (filter_if (λ (e : EventMarker F). e.trace_id == trace_id) seen)

  -- The differences are those of the events of the current trace from the baseline's.
  abbrev pub Compared :
      LocalizationCase F → CaseParameters F → Tables F → List (Difference F) → Type 0
  Compared item parameters t differences =
      (seen : List (EventMarker F)) × (later : List (EventMarker F)) × Perm t.events seen
      × Perm t.events later
      × (compare_baseline (map comparable (trace_events item.baseline_trace_id seen))
            (map comparable (trace_events item.current_trace_id later))
            parameters.distance_tolerance_m parameters.loss_increase_db
          ≡ ok differences)

  -- The rows that a query of the events of a trace may give.
  abbrev IsEvents : ℕ → Tables F → List (EventMarker F) → Type 0
  IsEvents trace_id t events =
      (seen : List (EventMarker F)) × Perm t.events seen × (events ≡ trace_events trace_id seen)

  module _ (engine : Engine F) (sound : IsSound engine) where
    open engine use {Db, tables, exec}

    for_trace-Keeps : (trace_id : ℕ) → Keeps engine (for_trace engine trace_id)
    unfolding for_trace for_trace_statement
    for_trace-Keeps trace_id =
        Keeps-map_err engine (wrapped "list events for trace") (exec (for_trace_statement trace_id))
          (Keeps-exec engine sound (for_trace_statement trace_id) (λ stamp t. refl))

    for_trace-ok :
        (trace_id : ℕ) (d : Db) (events : List (EventMarker F))
        → (for_trace engine trace_id d).0 ≡ ok events
        → IsEvents trace_id (tables d) events
    unfolding for_trace for_trace_statement
    for_trace-ok trace_id d events h =
        let s = for_trace_statement trace_id in
        let found : (exec s d).0 ≡ ok events =
          mapped-ok (wrapped "list events for trace") (exec s d).0 h in
        elim (sound.exec_lem s d) [
          | inl (m, r, t) ↦ cc
          | inr (stamp, fresh, r, t) ↦
              let seen = arranged stamp.scan (tables d).events in
              let same : ok events ≡ ok (trace_events trace_id seen) = sym found ∙ r in
              (seen, arranged-Perm stamp.scan (tables d).events, cc)
        ]

    abbrev load : ℕ → (GoError → GoError) → Action Db (List (EventMarker F))
    load id message = map_err message (for_trace engine id)

    load-Keeps : (id : ℕ) (message : GoError → GoError) → Keeps engine (load id message)
    load-Keeps id message = Keeps-map_err engine message (for_trace engine id) (for_trace-Keeps id)

    load-ok :
        (id : ℕ) (message : GoError → GoError) (d : Db) (events : List (EventMarker F))
        → (load id message d).0 ≡ ok events
        → IsEvents id (tables d) events
    load-ok id message d events h =
        for_trace-ok id d events (mapped-ok message (for_trace engine id d).0 h)

    pub compare_events-Keeps :
        (item : LocalizationCase F) (parameters : CaseParameters F)
        → Keeps engine (compare_events engine item parameters)
    unfolding compare_events
    compare_events-Keeps item parameters =
        Keeps-bind engine _ _ (load-Keeps item.baseline_trace_id (wrapped "load baseline events"))
          (λ baseline.
            Keeps-bind engine _ _ (load-Keeps item.current_trace_id (wrapped "load current events"))
              (λ current.
                let none = length baseline == 0 || length current == 0 in
                let e = errorf "both traces require detected events" in
                let r =
                  compare_baseline (map comparable baseline) (map comparable current)
                    parameters.distance_tolerance_m parameters.loss_increase_db in
                Keeps-bind engine (refuse_if none e) (λ x. lift r) (Keeps-refuse_if engine none e)
                  (λ x. Keeps-lift engine r)))

    pub compare_events-ok :
        (item : LocalizationCase F) (parameters : CaseParameters F) (d : Db)
        (differences : List (Difference F))
        → (compare_events engine item parameters d).0 ≡ ok differences
        → Compared item parameters (tables d) differences
    unfolding compare_events
    compare_events-ok item parameters d differences h =
        let m = compare_events engine item parameters in
        let ended : m d ≡ (ok differences, (m d).1) = ap (λ r. (r, (m d).1)) h in
        let message = wrapped "load baseline events" in
        let (baseline, read, h1) = bind-ok (load item.baseline_trace_id message) _ d ended in
        let d1 = (load item.baseline_trace_id message d).1 in
        let message2 = wrapped "load current events" in
        let (current, read2, h2) = bind-ok (load item.current_trace_id message2) _ d1 h1 in
        let d2 = (load item.current_trace_id message2 d1).1 in
        let none = length baseline == 0 || length current == 0 in
        let r =
          compare_baseline (map comparable baseline) (map comparable current)
            parameters.distance_tolerance_m parameters.loss_increase_db in
        let (x, passed, h3) =
          bind-ok (refuse_if none (errorf "both traces require detected events")) (λ x. lift r) d2
            h2 in
        let (seen, perm, same_base) = load-ok item.baseline_trace_id message d baseline read in
        let (later, perm2, same_current) =
          load-ok item.current_trace_id message2 d1 current read2 in
        let kept = (load-Keeps item.baseline_trace_id message).at d in
        let result : compare_baseline (map comparable baseline) (map comparable current)
              parameters.distance_tolerance_m parameters.loss_increase_db
            ≡ ok differences =
          ap (λ r. r.0) h3 in
        (seen, later, perm, rw (sym kept) perm2, rw (sym same_base, sym same_current) result)
