-- ===== src/Repository/User.antt =====
-- `UserRepository` of internal/repository/user_repository.go.
use text.Mathlib.Text.{◌==◌ as str_eq}
use gb_522_a16g.Base.{ℕ, String, ◌&&◌, ◌==◌}
use gb_522_a16g.Model.Account.{User}
use gb_522_a16g.Store.{Statement, Action, Engine, map_err}
use gb_522_a16g.Repository.Query.{first, not_found_or}

module _ {F : Type 0} where
  unfoldable pub find_by_username_statement : String → Statement F User
  find_by_username_statement username stamp t =
      (first (λ (u : User). str_eq u.username username && u.active) t.users, t)

  unfoldable pub find_by_username : (engine : Engine F) → String → Action engine.Db User
  find_by_username engine username =
      map_err (not_found_or "find user by username")
        (engine.exec (find_by_username_statement username))

  unfoldable pub find_by_id_statement : ℕ → Statement F User
  find_by_id_statement id stamp t = (first (λ (u : User). u.id == id && u.active) t.users, t)

  unfoldable pub find_by_id : (engine : Engine F) → ℕ → Action engine.Db User
  find_by_id engine id =
      map_err (not_found_or "find user by id") (engine.exec (find_by_id_statement id))
