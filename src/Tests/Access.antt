-- ===== src/Tests/Access.antt =====
-- Logins, requests and the limiter.
use gb_522_a16g.Json.{null}
use gb_522_a16g.Base.{
  if◌then◌else◌, nil, inl, ℕ, zero, suc, ◌*◌, ◌≤◌, ◌≡◌, ◌⊎◌, refl, sym, ap, ◌∙◌, Result, inr,
  String, [], ◌∷◌, List, none, some, true, false, ℤ, pos, ok, arith,
}
use gb_522_a16g.Float.Fixed.{fixed}
use text.Mathlib.Text.{◌==◌ as str_eq}
use gb_522_a16g.Constants.{reviewer, pending_review}
use gb_522_a16g.Model.Account.{User, LoginResponse}
use gb_522_a16g.Store.{Tables}
use gb_522_a16g.Store.Memory.{Memory, memory, memory-IsSound}
use gb_522_a16g.Repository.User.{
  find_by_id, find_by_id_statement, find_by_username, find_by_username_statement,
}
use gb_522_a16g.Service.Auth.{
  Claims, Tokens, IsLawful, AuthService, login, parse, issue, login_claims, login_error,
}
use gb_522_a16g.Service.Auth.Laws.{parse-login}
use gb_522_a16g.Middleware.RateLimit.{RateLimiter, admit, sweep, new_rate_limiter, allow, is_over}
use gb_522_a16g.Middleware.RateLimit.Run.{Arrival, answers, plain_answers, granted, after_arrivals}
use gb_522_a16g.Middleware.RateLimit.Sweep.{answers-plain}
use gb_522_a16g.Middleware.RateLimit.Bound.{granted-bounds}
use gb_522_a16g.Middleware.RateLimit.Reopen.{allow-reopens}
use gb_522_a16g.Middleware.Chain.{replied, Request, Server}
use gb_522_a16g.Router.{Handlers, serve, of_cases, confirm_case}
use gb_522_a16g.Model.{ConfirmCaseRequest}
use gb_522_a16g.Handler.{Binder}
use gb_522_a16g.Handler.Cases.{confirm_handler}
use gb_522_a16g.Handler.Confirm.{ConfirmedBy, serve-ConfirmedBy}
use gb_522_a16g.Tests.Workflow.{request, case_at}
use gb_522_a16g.Router.Access.{IsHandled, IsRefused, serve-IsPermitted}

abbrev arrival : String → ℕ → Arrival
arrival key now = record { key = key; now = now; clock = now }

-- Four requests of one client and one of another, the last after the window.
abbrev arrivals : List Arrival
arrivals = arrival "a" 5 ∷ arrival "a" 6 ∷ arrival "b" 7 ∷ arrival "a" 8 ∷ arrival "a" 70 ∷ []

abbrev two_a_minute : RateLimiter
two_a_minute = new_rate_limiter (pos 2) 60 0

answers_run : answers two_a_minute arrivals ≡ true ∷ true ∷ true ∷ false ∷ true ∷ []
unfolding answers allow admit sweep new_rate_limiter
answers_run = refl

answers-plain_example : answers two_a_minute arrivals ≡ plain_answers two_a_minute arrivals
answers-plain_example =
    answers-plain two_a_minute 0 arrivals
      (omega arith, (omega arith, (omega arith, (omega arith, (omega arith, tt)))))

abbrev early_arrivals : List Arrival
early_arrivals = arrival "a" 5 ∷ arrival "a" 6 ∷ arrival "a" 8 ∷ []

granted-bounds_example :
    (granted "a" two_a_minute early_arrivals ≤ 2 * 2)
    × (is_over (two_a_minute.visitors "a") 0 ≡ true → granted "a" two_a_minute early_arrivals ≤ 2)
unfolding new_rate_limiter
granted-bounds_example =
    granted-bounds "a" two_a_minute 0 early_arrivals (omega arith, (omega arith, (omega arith, tt)))
      (omega arith, (omega arith, (omega arith, tt)))

allow-reopens_example :
    (allow (after_arrivals (new_rate_limiter (pos 2) 60 0) early_arrivals) "a" 69 69).0.0 ≡ true
allow-reopens_example =
    allow-reopens 2 60 0 8 69 69 early_arrivals "a" (omega arith, (omega arith, (omega arith, tt)))
      (omega arith) (omega arith, (omega arith, (omega arith, tt))) (omega arith) (omega arith)

abbrev ann_user : User
ann_user = record {
  id = 4;
  username = "ann";
  password_hash = "hash of secret";
  display_name = "Ann";
  role = reviewer;
  active = true;
  created_at = 0;
}

-- A library whose tokens write the user id in strokes.
abbrev strokes : ℕ → String
strokes zero = String.[]
strokes (suc n) = String.◌∷◌ "I" (strokes n)

abbrev count_strokes : String → ℕ
count_strokes String.[] = zero
count_strokes (String.◌∷◌ c s) = suc (count_strokes s)

count_strokes-strokes : (n : ℕ) → count_strokes (strokes n) ≡ n
count_strokes-strokes zero = refl
count_strokes-strokes (suc n) = omega (arith, count_strokes-strokes n)

abbrev counted : Result String → ℕ
counted (ok s) = count_strokes s
counted _ = 0

abbrev claims_of : ℕ → Claims
claims_of id = record {
  user_id = id;
  username = "";
  role = reviewer;
  subject = id;
  issued_at = 0;
  not_before = 0;
  expires_at = 0;
}

abbrev stroke_tokens : Tokens
stroke_tokens = record {
  compare_hash_and_password = λ hash password. none;
  numeric_date = λ t. t;
  signed_string = λ claims secret. ok (strokes claims.user_id);
  parse_with_claims = λ now token key.
      inr (record { valid = true; claims = some (claims_of (count_strokes token)) });
}

stroke_tokens-IsLawful : IsLawful stroke_tokens
stroke_tokens-IsLawful = record {
  numeric_date_lem = λ t. omega arith;
  parse_lem = λ claims secret token now key signed keyed since before_end. (
    claims_of (count_strokes token),
    refl,
    sym (ap counted signed) ∙ count_strokes-strokes claims.user_id,
  );
}

abbrev accounts : Tables ℤ
accounts = record {
  routes = [];
  cases = case_at pending_review 4 ∷ [];
  traces = [];
  events = [];
  audits = [];
  users = ann_user ∷ [];
}

abbrev at_time : ℕ → Memory ℤ
at_time now = record { content = accounts; clock = now; faults = [] }

abbrev settings : AuthService
settings = record { secret = "s"; ttl = 100 }

abbrev response : LoginResponse
response = record {
  token = "IIII";
  expires_at = 110;
  user = record { id = 4; username = "ann"; display_name = "Ann"; role = reviewer };
}

parse-login_example :
    (claims : Claims) × ((parse (memory ℤ) stroke_tokens settings "IIII" (at_time 50)).0
      ≡ ok claims)
    × (claims.user_id ≡ 4)
    × (claims.username ≡ "ann")
    × (claims.role ≡ reviewer)
unfolding login find_by_id find_by_id_statement find_by_username find_by_username_statement
    login_error issue login_claims
parse-login_example =
    parse-login (memory ℤ) stroke_tokens settings stroke_tokens-IsLawful
      (record { username = "ann"; password = "secret" }) (at_time 10) (at_time 10) (at_time 50)
      response ann_user logged_in (omega arith) (omega arith) found
  where
    logged_in :
        login
          (memory ℤ)
          stroke_tokens
          settings
          (record { username = "ann"; password = "secret" })
          (at_time 10)
        ≡ (ok response, at_time 10)
    logged_in = refl

    found : (find_by_id (memory ℤ) 4 (at_time 50)).0 ≡ ok ann_user
    found = refl

abbrev confirming : Request
confirming = record {
  x_request_id = "r-1";
  authorization = "Bearer IIII";
  origin = "http://localhost:18522";
  client_ip = "10.0.0.1";
  is_options = false;
  id_param = "7";
  query = λ key. "";
  body = "{}";
  drawn = none;
  dated = "";
}

abbrev server : Server (memory ℤ)
server = record {
  db = at_time 50;
  login_limiter = two_a_minute;
  import_limiter = two_a_minute;
  analyze_limiter = two_a_minute;
}

serve-IsPermitted_example :
    IsHandled
      (memory ℤ)
      stroke_tokens
      settings
      (λ n. "0s")
      []
      (of_cases confirm_case)
      confirming
      server
    ⊎ IsRefused
        (memory ℤ)
        stroke_tokens
        settings
        (λ n. "0s")
        []
        (of_cases confirm_case)
        confirming
        server
serve-IsPermitted_example =
    serve-IsPermitted (memory ℤ) stroke_tokens settings (λ n. "0s") (memory-IsSound ℤ) []
      (of_cases confirm_case) confirming server refl

-- The body "{}" carries this request.
abbrev reading : Binder (ConfirmCaseRequest ℤ)
reading = record {
  decode = λ body. if str_eq body "{}" then inr request else inl nil;
  validate = λ r. none;
}

abbrev handlers : Handlers (memory ℤ) stroke_tokens settings (λ n. "0s")
handlers (of_cases confirm_case) = confirm_handler (memory ℤ) reading
handlers _ = λ c s. (replied 200 c.headers null, s)

serve-ConfirmedBy_example :
    let t' =
      (serve
        (memory ℤ)
        stroke_tokens
        settings
        (λ n. "0s")
        []
        handlers
        (of_cases confirm_case)
        confirming
        server).1.db.content in
    (t' ≡ accounts)
    ⊎ ConfirmedBy
        (memory ℤ)
        (memory-IsSound ℤ)
        reading
        stroke_tokens
        settings
        (λ n. "0s")
        accounts
        t'
serve-ConfirmedBy_example =
    serve-ConfirmedBy (memory ℤ) (memory-IsSound ℤ) reading stroke_tokens settings (λ n. "0s") []
      handlers confirming server refl
