-- ===== src/Model/Account.antt =====
-- `User` of internal/model/security_audit.go and the types of internal/dto/auth_audit.go.
use gb_522_a16g.Base.{ℕ, ℤ, String, Bool}
use gb_522_a16g.Constants.{Role}

pub record User : Type 0 where
  pub id : ℕ
  pub username : String
  pub password_hash : String
  pub display_name : String
  pub role : Role
  pub active : Bool
  pub created_at : ℕ

pub record LoginRequest : Type 0 where
  pub username : String
  pub password : String

pub record UserView : Type 0 where
  pub id : ℕ
  pub username : String
  pub display_name : String
  pub role : Role

pub record LoginResponse : Type 0 where
  pub token : String
  pub expires_at : ℕ
  pub user : UserView

pub record Pagination : Type 0 where
  pub page : ℤ
  pub page_size : ℤ
  pub total : ℕ
