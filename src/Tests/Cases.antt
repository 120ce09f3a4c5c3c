-- ===== src/Tests/Cases.antt =====
-- The comparison, the audit documents and the case workflow on a small database.
use gb_522_a16g.Base.{
  get_elem?, ℕ, ◌*◌, ◌+◌, ◌≡◌, ◌⊎◌, refl, List, [], ◌∷◌, none, some, false, ◌==◌, ℤ, pos, ok,
  IsSorted,
}
use gb_522_a16g.Float.Fixed.{fixed, fixed-IsOrdered, fixed-IsRounded}
use gb_522_a16g.Json.{Value, text, obj, field, end}
use gb_522_a16g.Algorithm.Compare.{
  ComparableEvent, Difference, Kind, disappeared, loss_increased, new, gap, find_match,
  compare_baseline, primary_difference, difference_less,
}
use gb_522_a16g.Algorithm.Compare.Match.{IsFree, find_match_nearest}
use gb_522_a16g.Algorithm.Compare.Balance.{count_kind, compare_baseline_balance}
use gb_522_a16g.Algorithm.Compare.Self.{compare_baseline_self}
use gb_522_a16g.Algorithm.Compare.Primary.{
  estimate, primary_difference_leading, primary_difference_by_order,
}
use gb_522_a16g.Service.Snapshot.{scrub, snapshot}
use gb_522_a16g.Service.Snapshot.Laws.{IsClean, scrub-IsClean, snapshot-IsClean}
open fixed use {dec, lt, le, is_nan, max_value}

-- Thousandths.
abbrev milli : ℕ → ℤ
milli n = pos (n * 1_000_000_000)

abbrev event : ℕ → ℕ → ℕ → ComparableEvent ℤ
event id distance loss = record {
  id = id;
  distance_m = milli distance;
  insertion_loss_db = milli loss;
  confidence = milli 800;
}

abbrev baseline_events : List (ComparableEvent ℤ)
baseline_events = event 1 50000 200 ∷ event 2 400000 300 ∷ []

abbrev current_events : List (ComparableEvent ℤ)
current_events = event 3 55000 900 ∷ event 4 52000 300 ∷ event 5 700000 300 ∷ []

find_match_nearest_example :
    let r =
      (find_match (event 1 50000 200) (λ j. j == 1) (dec 25 0) 0 current_events none max_value).0 in
    ((r ≡ none)
      × ((k : ℕ) (c : ComparableEvent ℤ)
          → IsFree (event 1 50000 200) (λ j. j == 1) (dec 25 0) 0 current_events k c
          → lt (gap (event 1 50000 200) c) max_value ≡ false))
    ⊎ ((m : ℕ) × (c : ComparableEvent ℤ) × (r ≡ some m)
        × IsFree (event 1 50000 200) (λ j. j == 1) (dec 25 0) 0 current_events m c
        × ((k : ℕ) (d : ComparableEvent ℤ)
            → IsFree (event 1 50000 200) (λ j. j == 1) (dec 25 0) 0 current_events k d
            → lt (gap (event 1 50000 200) d) (gap (event 1 50000 200) c) ≡ false))
find_match_nearest_example =
    find_match_nearest fixed-IsOrdered (event 1 50000 200) (λ j. j == 1) (dec 25 0) current_events
      refl

compare_baseline_balance_example :
    (ds : List (Difference ℤ)) × (compare_baseline baseline_events current_events
        (dec 25 0)
        (dec 5 1)
      ≡ ok ds)
    × IsSorted difference_less ds
    × (count_kind disappeared ds + 3 ≡ count_kind new ds + 2)
compare_baseline_balance_example =
    compare_baseline_balance fixed-IsOrdered baseline_events current_events (dec 25 0) (dec 5 1)
      refl refl

compare_baseline_self_example :
    compare_baseline current_events current_events (dec 25 0) (dec 5 1) ≡ ok []
compare_baseline_self_example =
    compare_baseline_self fixed-IsOrdered fixed-IsRounded (dec 25 0) (dec 5 1) refl refl refl
      current_events
      (
        ((refl, refl), (refl, refl)),
        (((refl, refl), (refl, refl)), (((refl, refl), (refl, refl)), tt)),
      )

abbrev difference : Kind → ℕ → Difference ℤ
difference kind confidence = record {
  kind = kind;
  baseline_event_id = some 1;
  current_event_id = some 2;
  distance_m = milli confidence;
  loss_delta_db = milli 700;
  confidence = milli confidence;
}

primary_difference_leading_example :
    (best : Difference ℤ) × (primary_difference
        (difference new 500 ∷ difference loss_increased 700 ∷ difference disappeared 600 ∷ [])
      ≡ some (estimate best))
    × ((k : ℕ) × (get_elem?
            (difference new 500 ∷ difference loss_increased 700 ∷ difference disappeared 600 ∷ [])
            k
          ≡ some best))
    × (best.kind ≡ loss_increased)
    × (lt best.confidence (milli 700) ≡ false)
primary_difference_leading_example =
    primary_difference_leading fixed-IsOrdered (difference loss_increased 700) refl
      (difference new 500 ∷ []) (difference disappeared 600 ∷ []) refl ((refl, refl), tt)
      ((refl, refl), tt)

primary_difference_by_order_example :
    (primary_difference (difference loss_increased 600 ∷ difference new 900 ∷ [])
      ≡ some (estimate (difference new 900)))
    × (primary_difference (difference new 900 ∷ difference loss_increased 600 ∷ [])
        ≡ some (estimate (difference loss_increased 600)))
primary_difference_by_order_example =
    primary_difference_by_order (difference loss_increased 600) (difference new 900) refl (λ h. cc)
      refl

abbrev login : Value ℤ
login = obj (field "user" (text "ana") (field "New-Password" (text "hunter2") end))

scrub-IsClean_example :
    IsClean (scrub login)
    × (IsClean login → scrub login ≡ login)
    × (scrub (scrub login) ≡ scrub login)
scrub-IsClean_example = scrub-IsClean login

snapshot-IsClean_example : IsClean (snapshot login)
snapshot-IsClean_example = snapshot-IsClean login
