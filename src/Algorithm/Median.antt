-- ===== src/Algorithm/Median.antt =====
-- The median step that denoise.go and detect.go both write out: sort a bucket, take its middle
-- element or the mean of the middle two.
pub mod Laws
use gb_522_a16g.Base.{
  ◌-◌, ◌/◌, ◌%◌, List, ◌==◌, if◌then◌else◌, Result, ok, bind, or_panic, get_elem?, length, sort_by,
}
use gb_522_a16g.Float.{Float64, float_less}

module _ {F : Type 0} ⦃fl : Float64 F⦄ where
  open fl use {dec, add, div}

  -- On an empty bucket Go's `bucket[middle]` panics.
  unfoldable pub median : List F → Result F
  median bucket =
      let sorted = sort_by float_less bucket in
      let middle = length sorted / 2 in
      if length sorted % 2 == 0
      then (bind (or_panic (get_elem? sorted (middle - 1)))
          λ a. bind (or_panic (get_elem? sorted middle)) λ b. ok (div (add a b) (dec 2 0)))
      else or_panic (get_elem? sorted middle)
