-- ===== src/Tests/Events.antt =====
-- The events of a trace: a new detection and a review.
use gb_522_a16g.Base.{
  ℕ, ◌≡◌, ◌≢◌, refl, [], ◌∷◌, none, some, true, false, Bool, ℤ, get_elem?, filter_if,
}
use gb_522_a16g.Float.Fixed.{fixed}
use gb_522_a16g.Constants.{splice, bend}
use gb_522_a16g.Model.{EventMarker}
use gb_522_a16g.Store.{Tables, Stamp}
use gb_522_a16g.Repository.Event.{
  clear_unreviewed_statement, create_events_statement, review_statement,
}
use gb_522_a16g.Repository.Event.Laws.{is_kept, replace_keeps_reviews, review_keeps_findings}
open fixed use {dec}

abbrev marker : ℕ → ℕ → Bool → EventMarker ℤ
marker id trace_id reviewed = record {
  id = id;
  trace_id = trace_id;
  distance_m = dec 51 0;
  event_type = splice;
  insertion_loss_db = dec 2 1;
  reflectance_db = dec 1 0;
  confidence = dec 8 1;
  algorithm_event_type = bend;
  algorithm_distance_m = dec 50 0;
  algorithm_insertion_loss_db = dec 2 1;
  reviewed = reviewed;
  review_note = "";
  reviewed_by = none;
  reviewed_at = none;
  created_at = 1;
  updated_at = 1;
}

abbrev markers : Tables ℤ
markers = record {
  routes = [];
  cases = [];
  traces = [];
  events = marker 1 5 false ∷ marker 2 5 true ∷ marker 3 6 false ∷ [];
  audits = [];
  users = [];
}

abbrev moment : Stamp
moment = record {
  scan = [];
  now = 9;
  fresh_route = 4;
  fresh_case = 4;
  fresh_trace = 4;
  fresh_event = 4;
  fresh_audit = 4;
  fresh_user = 4;
}

replace_keeps_reviews_example :
    filter_if
      (is_kept 5)
      (create_events_statement
        (marker 0 5 false ∷ [])
        moment
        (clear_unreviewed_statement 5 moment markers).1).1.events
    ≡ marker 2 5 true ∷ marker 3 6 false ∷ []
replace_keeps_reviews_example =
    replace_keeps_reviews 5 (marker 0 5 false ∷ []) moment moment markers ((refl, refl), tt)

review_keeps_findings_example :
    (e' : EventMarker ℤ) × (get_elem?
        (review_statement (marker 1 5 false) moment markers).1.events
        0
      ≡ some e')
    × (e'.trace_id ≡ 5)
    × (e'.algorithm_event_type ≡ bend)
    × (e'.algorithm_distance_m ≡ dec 50 0)
    × (e'.algorithm_insertion_loss_db ≡ dec 2 1)
    × ((marker 1 5 false).id ≢ (marker 1 5 false).id → e' ≡ marker 1 5 false)
    × ((marker 1 5 false).id ≡ (marker 1 5 false).id
        → (e'.reviewed ≡ true)
          × (e'.event_type ≡ splice)
          × (e'.distance_m ≡ dec 51 0)
          × (e'.review_note ≡ "")
          × (e'.reviewed_by ≡ none))
review_keeps_findings_example =
    review_keeps_findings (marker 1 5 false) moment markers 0 (marker 1 5 false) refl
