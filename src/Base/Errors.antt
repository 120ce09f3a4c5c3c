-- ===== src/Base/Errors.antt =====
-- Go's error values and the outcome of a call that may return one.
use Prim.Native.Nat.{ℕ}
use Prim.Native.String.{String, ◌++◌}
use mathlib.Core.Bool.{Bool, true, false}
use mathlib.Core.Path.{◌≡◌, refl}
use mathlib.Core.Option.{Option, none, some}

-- The `Code…` constants of internal/service/auth_service.go.
pub data Code : Type 0 where
  invalid_input not_found_code conflict_code unauthorized forbidden algorithm_input internal_code :
      Code

-- `nil` stands where an `AppError` has no cause. `err_not_found` is repository.ErrNotFound,
-- `err_record_not_found` and `err_invalid_transaction` are gorm's, and `driver` is any other error
-- of the database.
pub data GoError : Type 0 where
  nil : GoError
  errorf : String → GoError
  wrapped : String → GoError → GoError
  err_not_found : GoError
  err_invalid_transaction : GoError
  err_record_not_found : GoError
  driver : String → GoError
  app_error : Code → ℕ → String → GoError → GoError

-- `panic` is an index out of range.
pub data Result {ℓ} (A : Type ℓ) : Type ℓ where
  ok : A → Result A
  err : GoError → Result A
  panic : Result A

abbrev pub bind {ℓ κ} : {A : Type ℓ} {B : Type κ} → Result A → (A → Result B) → Result B
bind (ok a) f = f a
bind (err e) f = err e
bind panic f = panic

-- An index expression in a chain.
abbrev pub or_panic {ℓ} : {A : Type ℓ} → Option A → Result A
or_panic none = panic
or_panic (some a) = ok a

-- A guard `if test { return error }`.
abbrev pub fail_if : Bool → GoError → Result (Unit {0})
fail_if true e = err e
fail_if false e = ok tt

-- `errors.Is(e, ErrNotFound)`, along the chain of wrapped errors.
abbrev pub is_not_found : GoError → Bool
is_not_found err_not_found = true
is_not_found (wrapped s e) = is_not_found e
is_not_found (app_error c n s e) = is_not_found e
is_not_found _ = false

-- Inversion of a bind that returned a value.
pub bind-eq-ok {ℓ κ} :
    {A : Type ℓ} {B : Type κ} (m : Result A) (f : A → Result B) {b : B}
    → bind m f ≡ ok b
    → (a : A) × (m ≡ ok a) × (f a ≡ ok b)
bind-eq-ok (ok a) f h = (a, refl, h)
bind-eq-ok (err e) f h = cc
bind-eq-ok panic f h = cc

-- `e.Error()`
abbrev pub error_text : GoError → String
error_text nil = ""
error_text (errorf s) = s
error_text (wrapped s e) = s ++ (": " ++ error_text e)
error_text err_not_found = "record not found"
error_text err_record_not_found = "record not found"
error_text err_invalid_transaction = "invalid transaction"
error_text (driver s) = s
error_text (app_error c n s e) = elim e [ nil ↦ s | _ ↦ s ++ (": " ++ error_text e) ]
