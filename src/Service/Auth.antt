-- ===== src/Service/Auth.antt =====
-- internal/service/auth_service.go: `Login` and `Parse`. bcrypt and golang-jwt are a parameter.
pub mod Laws
use gb_522_a16g.Base.{
  ℕ, ◌+◌, ◌≤◌, ◌<◌, ◌≡◌, ◌⊎◌, inl, inr, String, Bool, true, not, Option, none, some, if◌then◌else◌,
  GoError, app_error, errorf, nil, unauthorized, is_not_found, ok, err, Result,
}
use gb_522_a16g.Constants.{Role}
use gb_522_a16g.Float.{Float64}
use gb_522_a16g.Model.Account.{User, LoginRequest, LoginResponse}
use gb_522_a16g.Store.{◌>>=◌, ◌>>◌, Action, Engine, pure, fail, map_err, lift}
use gb_522_a16g.Service.Errors.{internal}
use gb_522_a16g.Service.Case.Load.{time_now}
use gb_522_a16g.Repository.User as UserRepository

-- The times are those of the registered claims; the subject prints `user_id`.
pub record Claims : Type 0 where
  pub user_id : ℕ
  pub username : String
  pub role : Role
  pub subject : ℕ
  pub issued_at : ℕ
  pub not_before : ℕ
  pub expires_at : ℕ

pub data SigningMethod : Type 0 where
  hs256 : SigningMethod
  other_method : String → SigningMethod

-- `token.Valid`, and `token.Claims` if it is a `*Claims`.
pub record ParsedToken : Type 0 where
  pub valid : Bool
  pub claims : Option Claims

-- The libraries: bcrypt.CompareHashAndPassword with `none` for a match, jwt.NewNumericDate,
-- SignedString of HS256, and jwt.ParseWithClaims at a time with the function that gives the key.
pub record Tokens : Type 0 where
  pub compare_hash_and_password : String → String → Option GoError
  pub numeric_date : ℕ → ℕ
  pub signed_string : Claims → String → Result String
  pub parse_with_claims : ℕ → String → (SigningMethod → GoError ⊎ String) → GoError ⊎ ParsedToken

-- What their documentation says: a date is not later than its time, and a token that was signed with
-- HS256 is valid under the same key from its `nbf` and before its `exp`, with the user id it was
-- signed with.
pub record IsLawful (tokens : Tokens) : Type 0 where
  pub numeric_date_lem : (t : ℕ) → tokens.numeric_date t ≤ t
  pub parse_lem :
      (claims : Claims) (secret token : String) (now : ℕ) (key : SigningMethod → GoError ⊎ String)
      → tokens.signed_string claims secret ≡ ok token
      → key hs256 ≡ inr secret
      → claims.not_before ≤ now
      → now < claims.expires_at
      → (parsed : Claims) × (tokens.parse_with_claims now token key
          ≡ inr (record { valid = true; claims = some parsed }))
        × (parsed.user_id ≡ claims.user_id)

-- The settings of `AuthService`.
pub record AuthService : Type 0 where
  pub secret : String
  pub ttl : ℕ

abbrev pub unauthorized_error : String → GoError → GoError
unauthorized_error message cause = app_error unauthorized 401 message cause

-- The function that jwt asks for the key.
unfoldable pub key_of : AuthService → SigningMethod → GoError ⊎ String
key_of auth hs256 = inr auth.secret
key_of auth (other_method s) = inl (errorf "unexpected signing method")

abbrev pub require_match : {Db : Type 0} → Option GoError → Action Db (Unit {0})
require_match none = pure tt
require_match (some e) = fail (unauthorized_error "username or password is incorrect" e)

unfoldable pub login_claims : Tokens → User → ℕ → ℕ → Claims
login_claims tokens user now expires = record {
  user_id = user.id;
  username = user.username;
  role = user.role;
  subject = user.id;
  issued_at = tokens.numeric_date now;
  not_before = tokens.numeric_date now;
  expires_at = tokens.numeric_date expires;
}

unfoldable pub login_error : GoError → GoError
login_error e =
    if is_not_found e
    then unauthorized_error "username or password is incorrect" e
    else internal "authentication lookup failed" e

module _ {F : Type 0} ⦃fl : Float64 F⦄ (engine : Engine F) (tokens : Tokens)
    (auth : AuthService) where
  open engine use {Db}

  -- `Login` from `now, expires` on.
  unfoldable pub issue : User → Action Db LoginResponse
  issue user = do
    now ← time_now engine
    until ← time_now engine
    token ←
        map_err (internal "token signing failed") (
          lift (tokens.signed_string (login_claims tokens user now (until + auth.ttl)) auth.secret))
    pure (record {
      token = token;
      expires_at = until + auth.ttl;
      user = record {
        id = user.id;
        username = user.username;
        display_name = user.display_name;
        role = user.role;
      };
    })

  unfoldable pub login : LoginRequest → Action Db LoginResponse
  login request = do
    user ← map_err login_error (UserRepository.find_by_username engine request.username)
    require_match (tokens.compare_hash_and_password user.password_hash request.password)
    issue user

  -- From the claims of a valid token on: the name and the role are the account's.
  unfoldable pub current_claims : Claims → Action Db Claims
  current_claims claims = do
    user ←
        map_err (unauthorized_error "account is inactive")
          (UserRepository.find_by_id engine claims.user_id)
    pure (record claims { username = user.username; role = user.role })

  unfoldable pub with_claims : Option Claims → Action Db Claims
  with_claims none = fail (unauthorized_error "access token claims are invalid" nil)
  with_claims (some claims) = current_claims claims

  unfoldable pub with_parsed : GoError ⊎ ParsedToken → Action Db Claims
  with_parsed (inl e) = fail (unauthorized_error "access token is invalid or expired" e)
  with_parsed (inr token) =
      if not token.valid
      then fail (unauthorized_error "access token is invalid or expired" nil)
      else with_claims token.claims

  unfoldable pub parse : String → Action Db Claims
  parse token = do
    now ← time_now engine
    with_parsed (tokens.parse_with_claims now token (key_of auth))
