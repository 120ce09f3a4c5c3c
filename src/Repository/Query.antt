-- ===== src/Repository/Query.antt =====
-- The statements that gorm builds: `First`, `Updates`, `Create` and `Count` on one table.
use gb_522_a16g.Base.{
  List, [], ◌∷◌, Bool, if◌then◌else◌, Result, ok, err, GoError, String, wrapped, err_not_found,
  err_record_not_found,
}

module _ {A : Type 0} where
  -- `Where(p).Updates(f)`: the rows after it; `count_if p` of the rows before it are affected.
  abbrev pub update_where : (A → Bool) → (A → A) → List A → List A
  update_where p f [] = []
  update_where p f (x ∷ xs) = (if p x then f x else x) ∷ update_where p f xs

  -- `First`
  abbrev pub first : (A → Bool) → List A → Result A
  first p [] = err err_record_not_found
  first p (x ∷ xs) = if p x then ok x else first p xs

-- `if errors.Is(err, gorm.ErrRecordNotFound) { return ErrNotFound }`, and any other error wrapped.
abbrev pub not_found_or : String → GoError → GoError
not_found_or message err_record_not_found = err_not_found
not_found_or message e = wrapped message e
