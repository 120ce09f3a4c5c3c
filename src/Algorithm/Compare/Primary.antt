-- ===== src/Algorithm/Compare/Primary.antt =====
-- The primary difference, from which a case takes its estimated distance.
use gb_522_a16g.Base.{
  ℕ, zero, suc, sym, ◌⊎◌, inl, inr, Bool, if◌then◌else◌, get_elem?, ◌≡◌, ◌≢◌, ◌++◌, refl, List, [],
  ◌∷◌, some, true, false, arith, All,
}
use gb_522_a16g.Float.{Float64, IsOrdered}
use gb_522_a16g.Algorithm.Compare.{
  Difference, loss_increased, same_kind, preferred, best_from, primary_difference,
}

chosen :
    {A : Type 0} (test : Bool) (a b : A)
    → ((if test then b else a) ≡ a) ⊎ ((if test then b else a) ≡ b)
chosen true a b = inr refl
chosen false a b = inl refl

module _ {F : Type 0} ⦃fl : Float64 F⦄ where
  open fl use {lt, is_nan}

  -- The estimate that a difference gives: its distance and the uncertainty of it.
  abbrev pub estimate : Difference F → F × F
  estimate d =
      (d.distance_m, fl.fmax (fl.dec 1 0) (fl.mul (fl.dec 20 0) (fl.sub (fl.dec 1 0) d.confidence)))

  -- A loss increase of at least the confidence of `top`.
  abbrev IsHigh : Difference F → Difference F → Type 0
  IsHigh top d =
      (d.kind ≡ loss_increased)
      × (lt d.confidence top.confidence ≡ false)
      × (is_nan d.confidence ≡ false)

  -- The confidence is a number, and not above that of `top`.
  abbrev pub IsWeaker : Difference F → Difference F → Type 0
  IsWeaker top d = (lt top.confidence d.confidence ≡ false) × (is_nan d.confidence ≡ false)

  preferred_one_of : (best d : Difference F) → (preferred best d ≡ best) ⊎ (preferred best d ≡ d)
  unfolding preferred
  preferred_one_of best d = chosen _ best d

  one_behind :
      (best d held r : Difference F) (rest : List (Difference F)) (k : ℕ)
      → (held ≡ best) ⊎ (held ≡ d)
      → get_elem? (held ∷ rest) k ≡ some r
      → (j : ℕ) × (get_elem? (best ∷ d ∷ rest) j ≡ some r)
  one_behind best d held r rest zero (inl e) h = (0, rw (sym e) h)
  one_behind best d held r rest zero (inr e) h = (1, rw (sym e) h)
  one_behind best d held r rest (suc k) e h = (suc (suc k), h)

  -- The best is one of the differences.
  best_from-get_elem? :
      (best : Difference F) (rest : List (Difference F))
      → (k : ℕ) × (get_elem? (best ∷ rest) k ≡ some (best_from best rest))
  unfolding best_from
  best_from-get_elem? best [] = (0, refl)
  best_from-get_elem? best (d ∷ rest) =
      let (k, e) = best_from-get_elem? (preferred best d) rest in
      one_behind best d (preferred best d) _ rest k (preferred_one_of best d) e

  module _ (ordered : IsOrdered F) (top : Difference F) (num : is_nan top.confidence ≡ false) where
    open ordered use {not-lt_trans, lt_asymm}

    preferred-IsHigh :
        (best d : Difference F) → IsHigh top best → IsWeaker top d → preferred best d ≡ best
    unfolding preferred
    preferred-IsHigh best d (loss, high, num') (weak, num'') =
        let stays : lt best.confidence d.confidence ≡ false =
          not-lt_trans d.confidence top.confidence best.confidence num weak high num'' num' in
        ground arith

    -- Once a difference as good as `top` is held, it stays.
    best_from-IsHigh :
        (best : Difference F) (rest : List (Difference F))
        → IsHigh top best
        → All (IsWeaker top) rest
        → best_from best rest ≡ best
    unfolding best_from
    best_from-IsHigh best [] h hs = refl
    best_from-IsHigh best (d ∷ rest) h (hd, hs) =
        rw (preferred-IsHigh best d h hd) (best_from-IsHigh best rest h hs)

    preferred-IsWeaker :
        (best d : Difference F)
        → IsWeaker top best
        → IsWeaker top d
        → IsWeaker top (preferred best d)
    unfolding preferred
    preferred-IsWeaker best d (a, b) (c, e) = ground arith

    -- Against `top` either `top` wins or a loss increase as good is held.
    preferred-top :
        (best : Difference F)
        → top.kind ≡ loss_increased
        → IsWeaker top best
        → IsHigh top (preferred best top)
    unfolding preferred
    preferred-top best loss (weak, num') = ground (arith, lt_asymm top.confidence top.confidence)

    best_from-top :
        (best : Difference F) (before after : List (Difference F))
        → top.kind ≡ loss_increased
        → IsWeaker top best
        → All (IsWeaker top) before
        → All (IsWeaker top) after
        → IsHigh top (best_from best (before ++ top ∷ after))
    unfolding best_from
    best_from-top best [] after loss weak tt' rest =
        let high = preferred-top best loss weak in
        rw (best_from-IsHigh (preferred best top) after high rest) high
    best_from-top best (d ∷ before) after loss weak (wd, ws) rest =
        best_from-top (preferred best d) before after loss (preferred-IsWeaker best d weak wd) ws
          rest

    -- If one of the differences is a loss increase and none has a higher confidence than it, all of them
    -- numbers, then the estimate is that of one of the differences in the list, which is a loss increase
    -- of no lower confidence, wherever it stands: neither a new nor a disappeared event is preferred.
    pub primary_difference_leading :
        (before after : List (Difference F))
        → top.kind ≡ loss_increased
        → All (IsWeaker top) before
        → All (IsWeaker top) after
        → (best : Difference F) × (primary_difference (before ++ top ∷ after)
            ≡ some (estimate best))
          × ((k : ℕ) × (get_elem? (before ++ top ∷ after) k ≡ some best))
          × (best.kind ≡ loss_increased)
          × (lt best.confidence top.confidence ≡ false)
    unfolding primary_difference
    primary_difference_leading [] after loss none_before rest =
        let high : IsHigh top top =
          (loss, ground (arith, lt_asymm top.confidence top.confidence), num) in
        (top, rw (best_from-IsHigh top after high rest) refl, (0, refl), loss, high.1)
    primary_difference_leading (d ∷ before) after loss (wd, ws) rest =
        let high = best_from-top d before after loss wd ws rest in
        (
          best_from d (before ++ top ∷ after),
          refl,
          best_from-get_elem? d (before ++ top ∷ after),
          high.0,
          high.1,
        )

  -- Of a loss increase and a new or disappeared event of higher confidence the later one in the list
  -- wins, so the estimate hangs on which of them lies further along the fibre.
  pub primary_difference_by_order :
      (loss event : Difference F)
      → loss.kind ≡ loss_increased
      → event.kind ≢ loss_increased
      → lt loss.confidence event.confidence ≡ true
      → (primary_difference (loss ∷ event ∷ []) ≡ some (estimate event))
        × (primary_difference (event ∷ loss ∷ []) ≡ some (estimate loss))
  unfolding primary_difference best_from preferred
  primary_difference_by_order loss event l e h =
      let chosen : (same_kind event.kind loss_increased) ≡ false = ground arith in
      (ground arith, ground arith)
