-- ===== src/Handler/Login.antt =====
-- `Login` of internal/handler/auth_handler.go.
use gb_522_a16g.Base.{String}
use gb_522_a16g.Constants.{Role, analyst, reviewer, admin, other_role}
use gb_522_a16g.Float.{Float64}
use gb_522_a16g.Json.{Value, int, text, obj, end, field}
use gb_522_a16g.Model.Account.{LoginRequest, LoginResponse}
use gb_522_a16g.Store.{Engine}
use gb_522_a16g.Service.Auth.{Tokens, AuthService, login}
use gb_522_a16g.Middleware.Chain.{Handler}
use gb_522_a16g.Handler.{Binder, answer, with_body}
use gb_522_a16g.Handler.Cases.{plain}

abbrev pub role_name : Role → String
role_name analyst = "analyst"
role_name reviewer = "reviewer"
role_name admin = "admin"
role_name (other_role s) = s

abbrev pub login_value : {F : Type 0} → LoginResponse → Value F
login_value r = obj (
    field "token" (text r.token) (
      field "expires_at" (int r.expires_at) (
        field "user"
          (obj (
            field "id" (int r.user.id) (
              field "username" (text r.user.username) (
                field "display_name" (text r.user.display_name)
                  (field "role" (text (role_name r.user.role)) end)))))
          end)))

unfoldable pub login_handler :
    {F : Type 0} ⦃fl : Float64 F⦄ (engine : Engine F)
    → Tokens
    → AuthService
    → Binder LoginRequest
    → Handler engine
login_handler engine tokens auth binder =
    with_body engine binder
      (λ request c. answer engine 200 (plain login_value) (login engine tokens auth request) c)
