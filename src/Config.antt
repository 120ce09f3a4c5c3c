-- ===== src/Config.antt =====
-- internal/config/config.go. `getenv` is os.Getenv and `to_lower` strings.ToLower, `quote`
-- the verb `%q` of fmt; a duration counts
-- nanoseconds.
pub mod Laws
use Prim.Native.Char.{code}
use Prim.Native.String.{len, ◌++◌}
use text.Mathlib.Text.{◌==◌ as str_eq}
use gb_522_a16g.Base.{
  ℕ, zero, suc, ◌*◌, ◌^◌, ℤ, pos, negsuc, String, Bool, true, false, ◌&&◌, ◌||◌, not, ltb, ◌==◌,
  ltb_ℤ, List, [], ◌∷◌, Option, none, some, if◌then◌else◌, Result, ok, err, errorf,
}
use gb_522_a16g.Base.Text.{trim_space, is_empty, mem_text, decimal, read_digits, split_commas}

pub record Config : Type 0 where
  pub port : String
  pub db_driver : String
  pub db_dsn : String
  pub db_auto_migrate : Bool
  pub jwt_secret : String
  pub cors_origins : List String
  pub max_trace_points : ℤ
  pub log_level : String
  pub shutdown_timeout : ℕ
  pub access_token_ttl : ℕ
  pub login_rate_limit : ℤ
  pub import_rate_limit : ℤ
  pub analyze_rate_limit : ℤ

-- A number that fits in an `int`.
abbrev signed : Bool → Option ℕ → Option ℤ
signed negative none = none
signed false (some n) = if ltb n (2 ^ 63) then some (pos n) else none
signed true (some zero) = some (pos 0)
signed true (some (suc n)) = if ltb n (2 ^ 63) then some (negsuc n) else none

abbrev unsigned_digits : String → Option ℕ
unsigned_digits s = if is_empty s then none else read_digits 0 s

-- strconv.Atoi, with `none` for an error.
unfoldable pub atoi : String → Option ℤ
atoi String.[] = none
atoi (String.◌∷◌ c rest) =
    if code c == b'-'
    then signed true (unsigned_digits rest)
    else signed false (unsigned_digits (if code c == b'+' then rest else String.◌∷◌ c rest))

-- strconv.ParseBool
unfoldable pub parse_bool : String → Option Bool
parse_bool s =
    if mem_text s ("1" ∷ "t" ∷ "T" ∷ "TRUE" ∷ "true" ∷ "True" ∷ [])
    then some true
    else (if mem_text s ("0" ∷ "f" ∷ "F" ∷ "FALSE" ∷ "false" ∷ "False" ∷ [])
        then some false
        else none)

abbrev or_fallback : {A : Type 0} → A → Option A → A
or_fallback fallback none = fallback
or_fallback fallback (some a) = a

abbrev trimmed_parts : List String → List String
trimmed_parts [] = []
trimmed_parts (part ∷ parts) =
    let rest = trimmed_parts parts in
    if is_empty (trim_space part) then rest else trim_space part ∷ rest

unfoldable pub split : String → List String
split value = let parts = split_commas value in trimmed_parts (parts.0 ∷ parts.1)

module _ (getenv : String → String) (to_lower quote : String → String) where
  unfoldable pub env : String → String → String
  env key fallback =
      let value = trim_space (getenv key) in if is_empty value then fallback else value

  -- A text that is no `int` gives the fallback; the fallbacks are natural numbers.
  unfoldable pub env_int : String → ℕ → ℤ
  env_int key fallback = or_fallback (pos fallback) (atoi (env key (decimal fallback)))

  unfoldable pub env_bool : String → Bool → Bool
  env_bool key fallback =
      or_fallback fallback (parse_bool (env key (if fallback then "true" else "false")))

  -- `c`, before the checks.
  unfoldable pub read_config : Config
  read_config = record {
    port = env "PORT" "8080";
    db_driver = to_lower (env "DB_DRIVER" "postgres");
    db_dsn =
        env "DB_DSN"
          "host=localhost user=otdr_app password=otdr_local_password dbname=fiber_otdr port=5432 sslmode=disable";
    db_auto_migrate = env_bool "DB_AUTO_MIGRATE" true;
    jwt_secret = env "JWT_SECRET" "development-secret-change-me-at-least-32-bytes";
    cors_origins = split (env "CORS_ORIGINS" "http://localhost:18522");
    max_trace_points = env_int "MAX_TRACE_POINTS" 20000;
    log_level = env "LOG_LEVEL" "info";
    shutdown_timeout = 10 * 1_000_000_000;
    access_token_ttl = 8 * 60 * 60 * 1_000_000_000;
    login_rate_limit = env_int "LOGIN_RATE_LIMIT" 30;
    import_rate_limit = env_int "IMPORT_RATE_LIMIT" 40;
    analyze_rate_limit = env_int "ANALYZE_RATE_LIMIT" 60;
  }

  -- The checks of `Load`.
  unfoldable pub checked : Config → Result Config
  checked c =
      if ltb (len c.jwt_secret) 32
      then err (errorf "JWT_SECRET must contain at least 32 characters")
      else (if not (str_eq c.db_driver "postgres") && not (str_eq c.db_driver "sqlite")
          then err (errorf ("unsupported DB_DRIVER " ++ quote c.db_driver))
          else (if ltb_ℤ c.max_trace_points (pos 64) || ltb_ℤ (pos 200000) c.max_trace_points
              then err (errorf "MAX_TRACE_POINTS must be between 64 and 200000")
              else ok c))

  unfoldable pub load : Result Config
  load = checked read_config
