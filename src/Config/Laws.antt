-- ===== src/Config/Laws.antt =====
-- What the rest of the program may count on.
use Prim.Native.String.{len}
use mathlib.Core.Path.{subst}
use text.Mathlib.Text.{◌==◌ as str_eq}
use gb_522_a16g.Base.{
  ℕ, ◌≤◌, ◌≡◌, refl, ap, String, Bool, true, false, ◌&&◌, ◌||◌, not, ltb, ltb_ℤ, ℤ, pos, negsuc,
  ◌≤ℤ◌, if◌then◌else◌, Result, ok, err, GoError, arith,
}
use gb_522_a16g.Config.{Config, load, checked, read_config}

if-ok :
    {A : Type 0} (test : Bool) (e : GoError) (r : Result A) {a : A}
    → (if test then err e else r) ≡ ok a
    → (test ≡ false) × (r ≡ ok a)
if-ok true e r h = cc
if-ok false e r h = (refl, h)

abbrev value_or : {A : Type 0} → A → Result A → A
value_or fallback (ok a) = a
value_or fallback _ = fallback

abbrev IsValid : Config → Type 0
IsValid c =
    (32 ≤ len c.jwt_secret)
    × ((str_eq c.db_driver "postgres" || str_eq c.db_driver "sqlite") ≡ true)
    × (pos 64 ≤ℤ c.max_trace_points)
    × (c.max_trace_points ≤ℤ pos 200000)

points_lem :
    (i : ℤ) → (ltb_ℤ i (pos 64) || ltb_ℤ (pos 200000) i) ≡ false → (pos 64 ≤ℤ i) × (i ≤ℤ pos 200000)
points_lem (pos n) h = ground arith
points_lem (negsuc n) h = ground arith

driver_lem : (a b : Bool) → (not a && not b) ≡ false → (a || b) ≡ true
driver_lem a b h = ground arith

secret_lem : (n : ℕ) → ltb n 32 ≡ false → 32 ≤ n
secret_lem n h = ground arith

checked-IsValid :
    (getenv to_lower quote : String → String) (c0 c : Config)
    → checked getenv to_lower quote c0 ≡ ok c
    → IsValid c
unfolding checked
checked-IsValid getenv to_lower quote c0 c h =
    let (long, h1) = if-ok _ _ _ h in
    let (known, h2) = if-ok _ _ _ h1 in
    let (within, h3) = if-ok _ _ _ h2 in
    let same : c0 ≡ c = ap (value_or c0) h3 in
    let at_least : IsValid c0 = (
      secret_lem (len c0.jwt_secret) long,
      driver_lem (str_eq c0.db_driver "postgres") (str_eq c0.db_driver "sqlite") known,
      (points_lem c0.max_trace_points within).0,
      (points_lem c0.max_trace_points within).1,
    ) in
    subst IsValid same at_least

-- A configuration that was loaded has a secret of at least 32 bytes, one of the two drivers and a limit
-- of 64 to 200000 points, whatever the environment holds.
pub load-bounds :
    (getenv to_lower quote : String → String) (c : Config)
    → load getenv to_lower quote ≡ ok c
    → (32 ≤ len c.jwt_secret)
      × ((str_eq c.db_driver "postgres" || str_eq c.db_driver "sqlite") ≡ true)
      × (pos 64 ≤ℤ c.max_trace_points)
      × (c.max_trace_points ≤ℤ pos 200000)
unfolding load
load-bounds getenv to_lower quote c h =
    checked-IsValid getenv to_lower quote (read_config getenv to_lower quote) c h
