-- ===== src/Algorithm/Compare/Self.antt =====
-- A trace compared with itself shows no difference.
use mathlib.Core.List.{append_assoc}
use gb_522_a16g.Base.{
  ℕ, suc, ◌+◌, ◌≤◌, ◌<◌, ◌≡◌, refl, ◌∙◌, List, [], ◌∷◌, ◌++◌, none, some, Bool, true, false, arith,
  ok, get_elem?, length, length-append, sort_by, All,
}
use gb_522_a16g.Float.{Float64, IsOrdered, IsRounded, IsFinite, zero_f}
use gb_522_a16g.Algorithm.Compare.{
  ComparableEvent, gap, mark, find_match, apply_match, match_one, match_all, new_from,
  compare_baseline,
}
use gb_522_a16g.Algorithm.Compare.Match.{is_hit, find_match-hit, find_match-miss}

-- Exactly the first n indices are marked.
abbrev MarksFirst : ℕ → (ℕ → Bool) → Type 0
MarksFirst n used = ((j : ℕ) → j < n → used j ≡ true) × ((j : ℕ) → n ≤ j → used j ≡ false)

MarksFirst-mark : (n : ℕ) (used : ℕ → Bool) → MarksFirst n used → MarksFirst (suc n) (mark used n)
MarksFirst-mark n used (below, above) =
    (λ j h. ground (arith, below j), λ j h. ground (arith, above j (omega arith)))

module _ {F : Type 0} ⦃fl : Float64 F⦄ where
  open fl use {lt, le, is_nan, sub, max_value}

  -- The event's distance and loss are neither NaN nor infinite.
  abbrev pub IsProper : ComparableEvent F → Type 0
  IsProper e = IsFinite e.distance_m × IsFinite e.insertion_loss_db

  get_elem?-middle :
      (done : List (ComparableEvent F)) (c : ComparableEvent F) (rest : List (ComparableEvent F))
      → get_elem? (done ++ c ∷ rest) (length done) ≡ some c
  get_elem?-middle [] c rest = refl
  get_elem?-middle (d ∷ done) c rest = get_elem?-middle done c rest

  -- Marked candidates are passed over.
  find_match-skip :
      (base : ComparableEvent F) (used : ℕ → Bool) (tolerance : F) (i : ℕ)
      (done rest : List (ComparableEvent F)) (best : F)
      → ((j : ℕ) → j < i + length done → used j ≡ true)
      → find_match base used tolerance i (done ++ rest) none best
        ≡ find_match base used tolerance (i + length done) rest none best
  find_match-skip base used tolerance i [] rest best all =
      let zeroed : i + 0 ≡ i = omega arith in rw zeroed
  find_match-skip base used tolerance i (d ∷ done) rest best all =
      let miss : is_hit base used tolerance i d best ≡ false =
        ground (arith, all i (omega arith)) in
      let shift : i + suc (length done) ≡ i + 1 + length done = omega arith in
      rw (find_match-miss base used tolerance i d (done ++ rest) none best miss, shift)
        (find_match-skip base used tolerance (i + 1) done rest best (λ j h. all j (omega arith)))

  -- When every candidate is marked, none is new.
  new_from-marked :
      (used : ℕ → Bool) (i : ℕ) (current : List (ComparableEvent F))
      → ((j : ℕ) → j < i + length current → used j ≡ true)
      → new_from used i current ≡ []
  unfolding new_from
  new_from-marked used i [] all = refl
  new_from-marked used i (c ∷ rest) all =
      rw (all i (omega arith)) (new_from-marked used (i + 1) rest (λ j h. all j (omega arith)))

  module _ (ordered : IsOrdered F) (rounded : IsRounded F) (tolerance loss_increase : F) where
    open ordered use {lt_asymm, le-not-lt}
    open rounded use {sub_self, abs_zero, abs_nonneg, zero-lt-max, zero_finite}

    -- Nothing is nearer than a gap of zero.
    find_match-keep :
        (base : ComparableEvent F) (used : ℕ → Bool) (i : ℕ) (rest : List (ComparableEvent F))
        (m : ℕ)
        → find_match base used tolerance i rest (some m) zero_f ≡ (some m, zero_f)
    find_match-keep base used i [] m = unfold find_match in refl
    find_match-keep base used i (c ∷ rest) m =
        let miss : is_hit base used tolerance i c zero_f ≡ false =
          ground (arith, abs_nonneg (sub base.distance_m c.distance_m)) in
        rw (find_match-miss base used tolerance i c rest (some m) zero_f miss)
          (find_match-keep base used (i + 1) rest m)

    module _ (num : is_nan tolerance ≡ false) (t : le tolerance zero_f ≡ false)
        (l : le loss_increase zero_f ≡ false) where
      find_match_self :
          (used : ℕ → Bool) (done : List (ComparableEvent F)) (c : ComparableEvent F)
          (rest : List (ComparableEvent F))
          → IsProper c
          → MarksFirst (length done) used
          → find_match c used tolerance 0 (done ++ c ∷ rest) none max_value
            ≡ (some (length done), zero_f)
      find_match_self used done c rest p (below, above) =
          let zeroed : 0 + length done ≡ length done = omega arith in
          let no_gap : gap c c ≡ zero_f = rw (sub_self c.distance_m p.0, gap) abs_zero in
          let free : used (length done) ≡ false = above (length done) (omega arith) in
          let near : le zero_f tolerance ≡ true = ground (
            arith,
            le-not-lt tolerance zero_f,
            le-not-lt zero_f tolerance,
            lt_asymm zero_f tolerance,
            zero_finite,
          ) in
          let hit : is_hit c used tolerance (length done) c max_value ≡ true =
            rw (no_gap, free, near) zero-lt-max in
          find_match-skip c used tolerance 0 done (c ∷ rest) max_value
            (λ j h. below j (omega arith))
          ∙ rw zeroed (
              rw (find_match-hit c used tolerance (length done) c rest none max_value hit, no_gap)
                (find_match-keep c used (length done + 1) rest (length done)))

      match_one_self :
          (used : ℕ → Bool) (done : List (ComparableEvent F)) (c : ComparableEvent F)
          (rest : List (ComparableEvent F))
          → IsProper c
          → MarksFirst (length done) used
          → match_one (done ++ c ∷ rest) tolerance loss_increase used c
            ≡ ok ([], mark used (length done))
      unfolding match_one
      match_one_self used done c rest p marks =
          let no_loss : le loss_increase (sub c.insertion_loss_db c.insertion_loss_db) ≡ false =
            rw (sub_self c.insertion_loss_db p.1) l in
          rw (find_match_self used done c rest p marks, apply_match)
            (rw (get_elem?-middle done c rest) (rw no_loss refl))

      match_all_self :
          (used : ℕ → Bool) (done rest : List (ComparableEvent F))
          → All IsProper rest
          → MarksFirst (length done) used
          → (used' : ℕ → Bool) × (match_all (done ++ rest) tolerance loss_increase used rest
              ≡ ok ([], used'))
            × MarksFirst (length done + length rest) used'
      unfolding match_all
      match_all_self used done [] all marks =
          let e : length done + 0 ≡ length done = omega arith in (used, refl, rw e marks)
      match_all_self used done (c ∷ rest) (p, all) marks =
          let grown : length (done ++ c ∷ []) ≡ suc (length done) =
            omega (arith, length-append done (c ∷ [])) in
          let (used', run, marks') =
            match_all_self (mark used (length done)) (done ++ c ∷ []) rest all
              (rw grown (MarksFirst-mark (length done) used marks)) in
          let regroup : (done ++ c ∷ []) ++ rest ≡ done ++ c ∷ rest =
            append_assoc done (c ∷ []) rest in
          let run' = rw regroup at run in
          let total : length (done ++ c ∷ []) + length rest ≡ length done + suc (length rest) =
            omega (arith, grown) in
          (used', rw (match_one_self used done c rest p marks) (rw run' refl), rw total at marks')

      -- A trace compared with itself, at any tolerance and loss threshold above zero, shows no
      -- difference, if its distances and losses are finite.
      pub compare_baseline_self :
          (events : List (ComparableEvent F))
          → All IsProper events
          → compare_baseline events events tolerance loss_increase ≡ ok []
      unfolding compare_baseline sort_by
      compare_baseline_self events all =
          let (used, run, marks) =
            match_all_self (λ i. false) [] events all
              ((λ j h. absurd (omega arith)), (λ j h. refl)) in
          let none_new = new_from-marked used 0 events marks.0 in rw (t, l, run) (rw none_new refl)
