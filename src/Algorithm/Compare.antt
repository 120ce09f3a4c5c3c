-- ===== src/Algorithm/Compare.antt =====
-- internal/algorithm/compare.go: the greedy comparison of two event lists.
pub mod Match
pub mod Balance
pub mod Self
pub mod Primary
use gb_522_a16g.Base.{
  ℕ, ◌+◌, List, [], ◌∷◌, ◌++◌, Option, none, some, Bool, false, ◌&&◌, ◌||◌, not, ltb, ◌==◌,
  if◌then◌else◌, Result, ok, errorf, bind, or_panic, fail_if, get_elem?, sort_by,
}
use gb_522_a16g.Float.{Float64, zero_f}

pub record ComparableEvent (F : Type 0) : Type 0 where
  pub id : ℕ
  pub distance_m : F
  pub insertion_loss_db : F
  pub confidence : F

-- The strings "disappeared", "loss_increased" and "new".
pub data Kind : Type 0 where
  disappeared loss_increased new : Kind

-- The constructors stand in the order of the strings.
abbrev kind_rank : Kind → ℕ
kind_rank disappeared = 0
kind_rank loss_increased = 1
kind_rank new = 2

abbrev pub same_kind : Kind → Kind → Bool
same_kind a b = kind_rank a == kind_rank b

pub record Difference (F : Type 0) : Type 0 where
  pub kind : Kind
  pub baseline_event_id : Option ℕ
  pub current_event_id : Option ℕ
  pub distance_m : F
  pub loss_delta_db : F
  pub confidence : F

-- `used[i] = true` on a `map[int]bool`.
abbrev pub mark : (ℕ → Bool) → ℕ → ℕ → Bool
mark used i j = j == i || used j

module _ {F : Type 0} ⦃fl : Float64 F⦄ where
  open fl use {dec, lt, le, eq, sub, mul, div, abs, fmin, fmax, round_int, max_value}

  abbrev round : F → F
  round value = div (round_int (mul value (dec 1000 0))) (dec 1000 0)

  abbrev pub gap : ComparableEvent F → ComparableEvent F → F
  gap base candidate = abs (sub base.distance_m candidate.distance_m)

  -- The inner loop from candidate `i`: the final `match` and `best`.
  unfoldable pub find_match :
      ComparableEvent F
      → (ℕ → Bool)
      → F
      → ℕ
      → List (ComparableEvent F)
      → Option ℕ
      → F
      → Option ℕ × F
  find_match base used tolerance i [] found best = (found, best)
  find_match base used tolerance i (candidate ∷ rest) found best =
      let delta = gap base candidate in
      let hit = not (used i) && (le delta tolerance && lt delta best) in
      find_match base used tolerance (i + 1) rest (if hit then some i else found)
        (if hit then delta else best)

  abbrev pub disappeared_at : ComparableEvent F → Difference F
  disappeared_at base = record {
    kind = disappeared;
    baseline_event_id = some base.id;
    current_event_id = none;
    distance_m = base.distance_m;
    loss_delta_db = zero_f;
    confidence = round (mul base.confidence (dec 9 1));
  }

  abbrev pub loss_increased_at : ComparableEvent F → ComparableEvent F → F → Difference F
  loss_increased_at base candidate loss_delta = record {
    kind = loss_increased;
    baseline_event_id = some base.id;
    current_event_id = some candidate.id;
    distance_m = candidate.distance_m;
    loss_delta_db = round loss_delta;
    confidence = round (fmin base.confidence candidate.confidence);
  }

  abbrev pub new_at : ComparableEvent F → Difference F
  new_at candidate = record {
    kind = new;
    baseline_event_id = none;
    current_event_id = some candidate.id;
    distance_m = candidate.distance_m;
    loss_delta_db = candidate.insertion_loss_db;
    confidence = round candidate.confidence;
  }

  -- The rest of a round of the outer loop, from `match` on.
  unfoldable pub apply_match :
      List (ComparableEvent F)
      → F
      → (ℕ → Bool)
      → ComparableEvent F
      → Option ℕ
      → Result (List (Difference F) × (ℕ → Bool))
  apply_match current loss_increase used base none = ok (disappeared_at base ∷ [], used)
  apply_match current loss_increase used base (some i) =
      bind (or_panic (get_elem? current i)) λ candidate.
        let loss_delta = sub candidate.insertion_loss_db base.insertion_loss_db in
        ok (
          if le loss_increase loss_delta
              then loss_increased_at base candidate loss_delta ∷ []
              else [],
          mark used i,
        )

  -- One round of the outer loop: what it appends, and the marks that it leaves.
  unfoldable pub match_one :
      List (ComparableEvent F)
      → F
      → F
      → (ℕ → Bool)
      → ComparableEvent F
      → Result (List (Difference F) × (ℕ → Bool))
  unfolding apply_match
  match_one current tolerance loss_increase used base =
      apply_match current loss_increase used base
        (find_match base used tolerance 0 current none max_value).0

  unfoldable pub match_all :
      List (ComparableEvent F)
      → F
      → F
      → (ℕ → Bool)
      → List (ComparableEvent F)
      → Result (List (Difference F) × (ℕ → Bool))
  match_all current tolerance loss_increase used [] = ok ([], used)
  match_all current tolerance loss_increase used (base ∷ baseline) =
      bind (match_one current tolerance loss_increase used base) λ (here, used').
        bind (match_all current tolerance loss_increase used' baseline)
          λ (later, used''). ok (here ++ later, used'')

  -- The last loop: the candidates that no baseline event has used.
  unfoldable pub new_from : (ℕ → Bool) → ℕ → List (ComparableEvent F) → List (Difference F)
  new_from used i [] = []
  new_from used i (candidate ∷ rest) =
      if used i then new_from used (i + 1) rest else new_at candidate ∷ new_from used (i + 1) rest

  abbrev pub difference_less : Difference F → Difference F → Bool
  difference_less a b =
      if eq a.distance_m b.distance_m
      then ltb (kind_rank a.kind) (kind_rank b.kind)
      else lt a.distance_m b.distance_m

  unfoldable pub compare_baseline :
      List (ComparableEvent F) → List (ComparableEvent F) → F → F → Result (List (Difference F))
  compare_baseline baseline current tolerance loss_increase =
      bind (fail_if (le tolerance zero_f) (errorf "distance tolerance must be positive")) λ _.
        bind (fail_if (le loss_increase zero_f) (errorf "loss increase threshold must be positive"))
          λ _.
            bind (match_all current tolerance loss_increase (λ i. false) baseline)
              λ (differences, used).
                ok (sort_by difference_less (differences ++ new_from used 0 current))

  -- The loop of `PrimaryDifference`.
  unfoldable pub preferred : Difference F → Difference F → Difference F
  preferred best difference =
      if lt best.confidence difference.confidence
        || (same_kind difference.kind loss_increased && not (same_kind best.kind loss_increased))
      then difference
      else best

  unfoldable pub best_from : Difference F → List (Difference F) → Difference F
  best_from best [] = best
  best_from best (difference ∷ rest) = best_from (preferred best difference) rest

  -- The distance and its uncertainty; `none` is `ok = false`.
  unfoldable pub primary_difference : List (Difference F) → Option (F × F)
  primary_difference [] = none
  primary_difference (difference ∷ rest) =
      let best = best_from difference rest in
      some (best.distance_m, fmax (dec 1 0) (mul (dec 20 0) (sub (dec 1 0) best.confidence)))
