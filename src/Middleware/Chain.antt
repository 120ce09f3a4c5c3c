-- ===== src/Middleware/Chain.antt =====
-- The handlers of internal/middleware/middleware.go. A gin handler is a function from the context and
-- the server to the reply, and `c.Next()` is a call of the rest of the chain. The access log only writes
-- to the log, and is left out.
use Prim.Native.String.{len, ◌++◌}
use gb_522_a16g.Base.{
  ℕ, zero, suc, ◌/◌, String, Bool, ◌||◌, not, ltb, List, [], ◌∷◌, ℤ, pos, negsuc, Option, none,
  some, if◌then◌else◌, Result, ok, err, panic,
}
use gb_522_a16g.Base.Text.{trim_space, after_prefix, is_empty, mem_text}
use gb_522_a16g.Constants.{Role, same_role}
use gb_522_a16g.Float.{Float64}
use gb_522_a16g.Json.{Value, null, text, obj, end, field}
use gb_522_a16g.Store.{Engine}
use gb_522_a16g.Service.Auth.{Claims, Tokens, AuthService, parse}
use gb_522_a16g.Middleware.RateLimit.{RateLimiter, allow}

-- What a chain and its handler read of a request: headers, the path's id, the query and the body. `drawn` is the hex text of the bytes that crypto/rand gives, if it
-- gives any, and `dated` the time as the request id writes it.
pub record Request : Type 0 where
  pub x_request_id : String
  pub authorization : String
  pub origin : String
  pub client_ip : String
  pub is_options : Bool
  pub id_param : String
  pub query : String → String
  pub body : String
  pub drawn : Option String
  pub dated : String

-- The request, what `c.Set` has put beside it, and the headers of the reply.
pub record Context : Type 0 where
  pub request : Request
  pub request_id : String
  pub user_id : Option ℕ
  pub username : Option String
  pub role : Option Role
  pub headers : List (String × String)

abbrev pub new_context : Request → Context
new_context r = record {
  request = r;
  request_id = "";
  user_id = none;
  username = none;
  role = none;
  headers = [];
}

-- `panicked` is a panic on its way to the recovery handler.
pub data Reply (F : Type 0) : Type 0 where
  replied : ℕ → List (String × String) → Value F → Reply F
  panicked : List (String × String) → Reply F

abbrev pub set_header : String → String → Context → Context
set_header key value c = record c { headers = (key, value) ∷ c.headers }

unfoldable pub request_id_of : Request → String
request_id_of r =
    let id = trim_space r.x_request_id in
    if is_empty id || ltb 80 (len id) then elim r.drawn [ none ↦ r.dated | some hex ↦ hex ] else id

-- `time.Duration(retry.Seconds())`, cut towards zero.
abbrev pub seconds : ℤ → ℤ
seconds (pos n) = pos (n / 1_000_000_000)
seconds (negsuc n) = let s = suc n / 1_000_000_000 in elim s [ zero ↦ pos 0 | suc k ↦ negsuc k ]

abbrev pub is_role : Role → List Role → Bool
is_role role [] = Bool.false
is_role role (r ∷ roles) = same_role role r || is_role role roles

unfoldable pub cors_headers : List String → Context → Context
cors_headers origins c =
    if mem_text c.request.origin origins
    then set_header "Access-Control-Allow-Methods" "GET, POST, PATCH, PUT, OPTIONS" (
        set_header "Access-Control-Allow-Headers" "Authorization, Content-Type, X-Request-ID" (
          set_header "Vary" "Origin" (set_header "Access-Control-Allow-Origin" c.request.origin c)))
    else c

module _ {F : Type 0} where
  unfoldable pub error_body : String → String → String → Value F
  error_body code message request_id = obj (
      field "error"
        (obj (
          field "code" (text code)
            (field "message" (text message) (field "request_id" (text request_id) end))))
        end)

  -- `c.AbortWithStatusJSON` with an error.
  abbrev pub refused : ℕ → String → String → Context → Reply F
  refused status code message c = replied status c.headers (error_body code message c.request_id)

  module _ (engine : Engine F) where
    open engine use {Db}

    pub record Server : Type 0 where
      pub db : Db
      pub login_limiter : RateLimiter
      pub import_limiter : RateLimiter
      pub analyze_limiter : RateLimiter

    abbrev pub Handler : Type 0
    Handler = Context → Server → Reply F × Server

    unfoldable pub request_id_middleware : Handler → Handler
    request_id_middleware next c s =
        let id = request_id_of c.request in
        next (set_header "X-Request-ID" id (record c { request_id = id })) s

    abbrev pub recovered : String → Reply F × Server → Reply F × Server
    recovered id (replied status headers body, s) = (replied status headers body, s)
    recovered id (panicked headers, s) =
        (replied 500 headers (error_body "INTERNAL_ERROR" "unexpected server error" id), s)

    unfoldable pub recovery_middleware : Handler → Handler
    recovery_middleware next c s = recovered c.request_id (next c s)

    unfoldable pub unauthorized : String → Handler
    unauthorized message c s = (refused 401 "AUTH_REQUIRED" message c, s)

    unfoldable pub allow_role : List Role → Option Role → Handler → Handler
    allow_role roles none next c s = (panicked c.headers, s)
    allow_role roles (some role) next c s =
        if not (is_role role roles)
        then (refused 403 "FORBIDDEN" "role is not permitted for this operation" c, s)
        else next c s

    unfoldable pub rbac_middleware : List Role → Handler → Handler
    rbac_middleware roles next c s = allow_role roles c.role next c s

    unfoldable pub cors_middleware : List String → Handler → Handler
    cors_middleware origins next c s =
        let c1 = cors_headers origins c in
        if c.request.is_options then (replied 204 c1.headers null, s) else next c1 s

    -- The limiter of a chain and where the server keeps it.
    pub record LimiterAt : Type 0 where
      pub limiter : Server → RateLimiter
      pub with_limiter : Server → RateLimiter → Server

    -- `duration_text` is `String` of a time.Duration.
    unfoldable pub rate_limit_middleware : (ℤ → String) → LimiterAt → String → Handler → Handler
    rate_limit_middleware duration_text at scope next c s =
        let now = engine.now s.db in
        let r = allow (at.limiter s) (scope ++ (":" ++ c.request.client_ip)) now now in
        let s1 = at.with_limiter s r.1 in
        if not r.0.0
        then (
          refused 429 "RATE_LIMITED" "request rate limit exceeded"
              (set_header "Retry-After" (duration_text (seconds r.0.1)) c),
          s1,
        )
        else next c s1

    module _ ⦃fl : Float64 F⦄ (tokens : Tokens) (auth : AuthService) where
      unfoldable pub with_claims : Handler → Result Claims → Handler
      with_claims next (ok claims) c s =
          next
            (record c {
              user_id = some claims.user_id;
              username = some claims.username;
              role = some claims.role;
            })
            s
      with_claims next (err e) c s = unauthorized "access token is invalid or expired" c s
      with_claims next panic c s = (panicked c.headers, s)

      unfoldable pub with_bearer : Handler → Option String → Handler
      with_bearer next none c s = unauthorized "bearer token is required" c s
      with_bearer next (some token) c s =
          let r = parse engine tokens auth (trim_space token) s.db in
          with_claims next r.0 c (record s { db = r.1 })

      unfoldable pub auth_middleware : Handler → Handler
      auth_middleware next c s =
          with_bearer next (after_prefix "Bearer " (trim_space c.request.authorization)) c s
