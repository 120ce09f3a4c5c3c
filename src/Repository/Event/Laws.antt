-- ===== src/Repository/Event/Laws.antt =====
-- What a review and a new detection leave of the events that are there.
use gb_522_a16g.Base.{
  ℕ, zero, suc, ◌≡◌, ◌∙◌, ◌≢◌, refl, inl, inr, List, [], ◌∷◌, ◌++◌, some, true, false, Bool,
  Bool-cases, not, ◌&&◌, ◌==◌, if◌then◌else◌, get_elem?, All, filter_if, arith,
}
use gb_522_a16g.Model.{EventMarker}
use gb_522_a16g.Store.{Tables, Stamp}
use gb_522_a16g.Repository.Query.{update_where}
use gb_522_a16g.Repository.Event.{
  clear_unreviewed_statement, numbered, reviewed_as, create_events_statement, review_statement,
}

module _ {F : Type 0} where
  filter_if-append :
      (p : EventMarker F → Bool) (xs ys : List (EventMarker F))
      → filter_if p (xs ++ ys) ≡ filter_if p xs ++ filter_if p ys
  filter_if-append p [] ys = refl
  filter_if-append p (x ∷ xs) ys = elim (Bool-cases (p x)) [
    | inl e ↦ rw (e, filter_if-append p xs ys) refl
    | inr e ↦ rw (e, filter_if-append p xs ys) refl
  ]

  -- The events that a new detection of the trace may not touch.
  abbrev pub is_kept : ℕ → EventMarker F → Bool
  is_kept trace_id e = not (e.trace_id == trace_id && not e.reviewed)

  filter_if-filter_if :
      (p : EventMarker F → Bool) (xs : List (EventMarker F))
      → filter_if p (filter_if p xs) ≡ filter_if p xs
  filter_if-filter_if p [] = refl
  filter_if-filter_if p (x ∷ xs) = elim (Bool-cases (p x)) [
    | inl e ↦ rw e (rw (e, filter_if-filter_if p xs) refl)
    | inr e ↦ rw e (filter_if-filter_if p xs)
  ]

  -- The event is of the trace and not reviewed.
  abbrev pub IsUnreviewed : ℕ → EventMarker F → Type 0
  IsUnreviewed trace_id e = (e.trace_id ≡ trace_id) × (e.reviewed ≡ false)

  numbered-dropped :
      (trace_id now id : ℕ) (events : List (EventMarker F))
      → All (IsUnreviewed trace_id) events
      → filter_if (is_kept trace_id) (numbered now id events) ≡ []
  unfolding numbered
  numbered-dropped trace_id now id [] h = refl
  numbered-dropped trace_id now id (e ∷ events) ((same, fresh), hs) =
      let found : (e.trace_id == trace_id) ≡ true = ground arith in
      rw (found, fresh) (numbered-dropped trace_id now (suc id) events hs)

  ++-nil : (xs : List (EventMarker F)) → xs ++ [] ≡ xs
  ++-nil [] = refl
  ++-nil (x ∷ xs) = rw (++-nil xs) refl

  -- Replacing the events of a trace by newly detected ones, which are unreviewed events of that trace,
  -- keeps every reviewed event and every event of another trace, unchanged and in order.
  pub replace_keeps_reviews :
      (trace_id : ℕ) (events : List (EventMarker F)) (clearing creating : Stamp) (t : Tables F)
      → All (IsUnreviewed trace_id) events
      → filter_if
          (is_kept trace_id)
          (create_events_statement events creating
            (clear_unreviewed_statement trace_id clearing t).1).1.events
        ≡ filter_if (is_kept trace_id) t.events
  unfolding create_events_statement clear_unreviewed_statement
  replace_keeps_reviews trace_id events clearing creating t h =
      rw
        (
          filter_if-append (is_kept trace_id) (filter_if (is_kept trace_id) t.events)
              (numbered creating.now creating.fresh_event events),
          filter_if-filter_if (is_kept trace_id) t.events,
          numbered-dropped trace_id creating.now creating.fresh_event events h,
        )
        (++-nil (filter_if (is_kept trace_id) t.events))

  update_where-event :
      (p : EventMarker F → Bool) (f : EventMarker F → EventMarker F) (rows : List (EventMarker F))
      (k : ℕ) {e : EventMarker F}
      → get_elem? rows k ≡ some e
      → get_elem? (update_where p f rows) k ≡ some (if p e then f e else e)
  update_where-event p f [] k h = cc
  update_where-event p f (x ∷ rows) zero h = ground arith
  update_where-event p f (x ∷ rows) (suc k) h = update_where-event p f rows k h

  -- A review leaves at its place every event with its trace and with all that the algorithm found
  -- (type, distance and insertion loss); the event of another id is unchanged, and the reviewed one
  -- carries the review's type, distance, note and reviewer.
  pub review_keeps_findings :
      (event : EventMarker F) (stamp : Stamp) (t : Tables F) (k : ℕ) (e : EventMarker F)
      → get_elem? t.events k ≡ some e
      → (e' : EventMarker F) × (get_elem? (review_statement event stamp t).1.events k ≡ some e')
        × (e'.trace_id ≡ e.trace_id)
        × (e'.algorithm_event_type ≡ e.algorithm_event_type)
        × (e'.algorithm_distance_m ≡ e.algorithm_distance_m)
        × (e'.algorithm_insertion_loss_db ≡ e.algorithm_insertion_loss_db)
        × (e.id ≢ event.id → e' ≡ e)
        × (e.id ≡ event.id
            → (e'.reviewed ≡ true)
              × (e'.event_type ≡ event.event_type)
              × (e'.distance_m ≡ event.distance_m)
              × (e'.review_note ≡ event.review_note)
              × (e'.reviewed_by ≡ event.reviewed_by))
  unfolding review_statement
  review_keeps_findings event stamp t k e h =
      let p = λ (c : EventMarker F). c.id == event.id in
      let at = update_where-event p (reviewed_as event stamp.now) t.events k h in
      elim (Bool-cases (p e)) [
        | inl same ↦
            let is_it : e.id ≡ event.id = ground arith in
            let there : get_elem? (update_where p (reviewed_as event stamp.now) t.events) k
                ≡ some (reviewed_as event stamp.now e) =
              at ∙ rw same refl in
            (
              reviewed_as event stamp.now e,
              there,
              refl,
              refl,
              refl,
              refl,
              (λ other. absurd (other is_it)),
              (λ it. (refl, refl, refl, refl, refl)),
            )
        | inr other ↦
            let there : get_elem? (update_where p (reviewed_as event stamp.now) t.events) k
                ≡ some e =
              at ∙ rw other refl in
            (e, there, refl, refl, refl, refl, (λ h2. refl), (λ it. absurd (ground arith)))
      ]
