-- ===== src/Algorithm/Compare/Balance.antt =====
-- Every event of either trace is accounted for: each baseline event has disappeared or has used up
-- one current event, and each current event is new or was used up once.
use gb_522_a16g.Base.{
  ℕ, suc, ◌+◌, ◌≤◌, ◌<◌, ◌≡◌, refl, inl, inr, List, [], ◌∷◌, ◌++◌, none, Bool, true, false, arith,
  Bool-cases, ◌==◌, if◌then◌else◌, ok, get_elem?-lt, length, count_if, count_if-append, sort_by,
  count_if-sort_by, IsSorted, sort_by-IsSorted,
}
use gb_522_a16g.Float.{Float64, IsOrdered, zero_f}
use gb_522_a16g.Algorithm.Compare.{
  ComparableEvent, Difference, Kind, disappeared, new, same_kind, mark, apply_match, disappeared_at,
  loss_increased_at, match_one, match_all, new_from, difference_less, compare_baseline,
}
use gb_522_a16g.Algorithm.Compare.Match.{find_match-origin}

module _ {F : Type 0} ⦃fl : Float64 F⦄ where
  open fl use {lt, le, eq, sub, max_value}

  abbrev pub count_kind : Kind → List (Difference F) → ℕ
  count_kind k ds = count_if (λ d. same_kind d.kind k) ds

  -- How many candidates from index i on are marked.
  abbrev count_used : (ℕ → Bool) → ℕ → List (ComparableEvent F) → ℕ
  count_used used i [] = 0
  count_used used i (c ∷ rest) = (if used i then 1 else 0) + count_used used (i + 1) rest

  count_used-mark_below :
      (used : ℕ → Bool) (m i : ℕ) (current : List (ComparableEvent F))
      → m < i
      → count_used (mark used m) i current ≡ count_used used i current
  count_used-mark_below used m i [] h = refl
  count_used-mark_below used m i (c ∷ rest) h =
      ground (arith, count_used-mark_below used m (i + 1) rest (omega arith))

  count_used-mark :
      (used : ℕ → Bool) (m i : ℕ) (current : List (ComparableEvent F))
      → used m ≡ false
      → i ≤ m
      → m < i + length current
      → count_used (mark used m) i current ≡ suc (count_used used i current)
  count_used-mark used m i [] free lo hi = absurd (omega arith)
  count_used-mark used m i (c ∷ rest) free lo hi = elim (Bool-cases (i == m)) [
    | inl here ↦
        let q : m ≡ i = ground arith in
        let free' : used i ≡ false = rw (← q) free in
        let later = count_used-mark_below used m (i + 1) rest (omega arith) in ground (arith, later)
    | inr further ↦
        ground (arith, count_used-mark used m (i + 1) rest free (ground arith) (omega arith))
  ]

  module _ (current : List (ComparableEvent F)) (tolerance loss_increase : F) where
    -- A round returns at most one difference, none of them new, and uses one candidate up unless
    -- its baseline event has disappeared.
    match_one_balance :
        (used : ℕ → Bool) (base : ComparableEvent F)
        → (ds : List (Difference F)) × (used' : ℕ → Bool) × (match_one current tolerance
              loss_increase used base
            ≡ ok (ds, used'))
          × (count_kind disappeared ds + count_used used' 0 current
              ≡ suc (count_used used 0 current))
          × (count_kind new ds ≡ 0)
    unfolding match_one
    match_one_balance used base =
        elim (find_match-origin base used tolerance 0 current none max_value) [
          | inl same ↦
              (disappeared_at base ∷ [], used, rw (same, apply_match) refl, omega arith, refl)
          | inr (m, c, (at, free, near), r) ↦
              let zeroed : 0 + m ≡ m = omega arith in
              let loss_delta = sub c.insertion_loss_db base.insertion_loss_db in
              let marked =
                count_used-mark used m 0 current (rw zeroed at free) (omega arith)
                  (omega (arith, get_elem?-lt current m at)) in
              (
                (if le loss_increase loss_delta
                    then loss_increased_at base c loss_delta ∷ []
                    else []),
                mark used m,
                rw (r, zeroed, apply_match) (rw at refl),
                ground (arith, marked),
                ground arith,
              )
        ]

    match_all_balance :
        (used : ℕ → Bool) (baseline : List (ComparableEvent F))
        → (ds : List (Difference F)) × (used' : ℕ → Bool) × (match_all current tolerance
              loss_increase used baseline
            ≡ ok (ds, used'))
          × (count_kind disappeared ds + count_used used' 0 current
              ≡ length baseline + count_used used 0 current)
          × (count_kind new ds ≡ 0)
    unfolding match_all
    match_all_balance used [] = ([], used, refl, omega arith, refl)
    match_all_balance used (base ∷ baseline) =
        let (here, used', run, sum, old) = match_one_balance used base in
        let (later, used'', run', sum', old') = match_all_balance used' baseline in
        let split =
          λ (k : Kind). count_if-append (λ (d : Difference F). same_kind d.kind k) here later in
        (
          here ++ later,
          used'',
          rw (run, run') refl,
          omega (arith, split disappeared),
          omega (arith, split new),
        )

  count_new_from :
      (used : ℕ → Bool) (i : ℕ) (current : List (ComparableEvent F))
      → (count_kind new (new_from used i current) + count_used used i current ≡ length current)
        × (count_kind disappeared (new_from used i current) ≡ 0)
  unfolding new_from
  count_new_from used i [] = (refl, refl)
  count_new_from used i (c ∷ rest) = ground (arith, count_new_from used (i + 1) rest)

  unused : (current : List (ComparableEvent F)) (i : ℕ) → count_used (λ j. false) i current ≡ 0
  unused [] i = refl
  unused (c ∷ rest) i = ground (arith, unused rest (i + 1))

  module _ (ordered : IsOrdered F) where
    difference_less_asymm :
        (a b : Difference F) → difference_less a b ≡ true → difference_less b a ≡ false
    difference_less_asymm a b h = ground (
      arith,
      ordered.eq_comm a.distance_m b.distance_m,
      ordered.lt_asymm a.distance_m b.distance_m,
    )

    -- With a tolerance and a loss threshold above zero the comparison returns without error or panic.
    -- Its differences are in order of distance and kind, and they balance: the baseline events that
    -- have not disappeared are as many as the current events that are not new.
    pub compare_baseline_balance :
        (baseline current : List (ComparableEvent F)) (tolerance loss_increase : F)
        → le tolerance zero_f ≡ false
        → le loss_increase zero_f ≡ false
        → (ds : List (Difference F)) × (compare_baseline baseline current tolerance loss_increase
            ≡ ok ds)
          × IsSorted difference_less ds
          × (count_kind disappeared ds + length current ≡ count_kind new ds + length baseline)
    unfolding compare_baseline
    compare_baseline_balance baseline current tolerance loss_increase t l =
        let (ds, used, run, sum, old) =
          match_all_balance current tolerance loss_increase (λ i. false) baseline in
        let fresh = new_from used 0 current in
        let counts = count_new_from used 0 current in
        let split =
          λ (k : Kind). count_if-append (λ (d : Difference F). same_kind d.kind k) ds fresh in
        let kept = λ (k : Kind).
          count_if-sort_by difference_less (λ (d : Difference F). same_kind d.kind k)
            (ds ++ fresh) in
        (
          sort_by difference_less (ds ++ fresh),
          rw (t, l, run) refl,
          sort_by-IsSorted difference_less difference_less_asymm (ds ++ fresh),
          omega (
            arith,
            unused current 0,
            counts,
            split disappeared,
            split new,
            kept disappeared,
            kept new,
          ),
        )
