-- ===== src/Service/Auth/Laws.antt =====
-- What a login and the tokens that it gives promise.
use gb_522_a16g.Base.{
  ℕ, ◌+◌, ◌≤◌, ◌<◌, ◌≡◌, refl, sym, ap, ◌∙◌, ◌⊎◌, inl, inr, String, true, ◌&&◌, ◌==◌, Bool-cases,
  Option, none, some, GoError, ok, Result, arith, driver,
}
use gb_522_a16g.Float.{Float64}
use gb_522_a16g.Model.Account.{User, LoginRequest, LoginResponse}
use gb_522_a16g.Service.Errors.{internal}
use gb_522_a16g.Store.{lift, Tables, Engine, IsSound, map_err, exec-Ends, bind-ok, mapped-ok}
use gb_522_a16g.Repository.Query.{first, not_found_or}
use gb_522_a16g.Repository.User.{find_by_id, find_by_id_statement, find_by_username}
use gb_522_a16g.Workflow.Rules.{first-ok, Outcomes, EndsIn, mapped-Outcomes, outcomes_then}
use gb_522_a16g.Service.Auth.{
  Claims, ParsedToken, Tokens, IsLawful, AuthService, key_of, require_match, login_claims,
  login_error, issue, login, current_claims, with_claims, with_parsed, parse, unauthorized_error,
}

-- The account that a query by id finds.
abbrev pub account : {F : Type 0} → Tables F → ℕ → Result User
account t id = first (λ (u : User). u.id == id && u.active) t.users

-- The claims name an active account and carry its name and role.
abbrev pub IsCurrent : {F : Type 0} → Tables F → Claims → Type 0
IsCurrent t claims =
    (u : User) × (account t claims.user_id ≡ ok u)
    × (u.active ≡ true)
    × (claims.username ≡ u.username)
    × (claims.role ≡ u.role)

module _ {F : Type 0} ⦃fl : Float64 F⦄ (engine : Engine F) (tokens : Tokens)
    (auth : AuthService) where
  open engine use {Db, tables}

  module _ (sound : IsSound engine) where
    find_outcomes :
        (id : ℕ) (d : Db)
        → EndsIn engine
            (λ t'. t' ≡ tables d)
            (λ u t'. (t' ≡ tables d) × (account (tables d) id ≡ ok u) × (u.active ≡ true))
            (find_by_id engine id)
            d
    unfolding find_by_id find_by_id_statement
    find_outcomes id d =
        let P = λ (u : User) (t' : Tables F).
          (t' ≡ tables d) × (account (tables d) id ≡ ok u) × (u.active ≡ true) in
        let s = find_by_id_statement id in
        mapped-Outcomes (λ t'. t' ≡ tables d) P (not_found_or "find user by id") (engine.exec s d).0
          (tables (engine.exec s d).1)
          (exec-Ends engine sound (Outcomes (λ t'. t' ≡ tables d) P) s d
            (λ m. inl (driver m, refl, refl))
            (λ stamp fresh.
              elim (first-ok (λ (u : User). u.id == id && u.active) (tables d).users) [
                | inl (e, h) ↦ inl (e, h, refl)
                | inr (u, h, selected) ↦
                    let active : u.active ≡ true = ground arith in inr (u, h, (refl, h, active))
              ]))

    abbrev ParsedClaims : Db → Claims → Tables F → Type 0
    ParsedClaims d claims t' = (t' ≡ tables d) × IsCurrent (tables d) claims

    current_claims_outcomes :
        (claims : Claims) (d : Db)
        → EndsIn engine
            (λ t'. t' ≡ tables d)
            (ParsedClaims d)
            (current_claims engine tokens auth claims)
            d
    unfolding current_claims
    current_claims_outcomes claims d =
        let P = λ (u : User) (t' : Tables F).
          (t' ≡ tables d) × (account (tables d) claims.user_id ≡ ok u) × (u.active ≡ true) in
        let look = find_by_id engine claims.user_id in
        outcomes_then engine (λ t'. t' ≡ tables d) P
          (Outcomes (λ t'. t' ≡ tables d) (ParsedClaims d))
          (map_err (unauthorized_error "account is inactive") look) _ d
          (mapped-Outcomes (λ t'. t' ≡ tables d) P (unauthorized_error "account is inactive")
            (look d).0 (tables (look d).1) (find_outcomes claims.user_id d))
          (λ e t' same. inl (e, refl, same))
          (λ u d' h. inr (_, refl, (h.0, (u, h.1, h.2, refl, refl))))

    with_claims_outcomes :
        (claims : Option Claims) (d : Db)
        → EndsIn engine
            (λ t'. t' ≡ tables d)
            (ParsedClaims d)
            (with_claims engine tokens auth claims)
            d
    unfolding with_claims
    with_claims_outcomes none d = inl (_, refl, refl)
    with_claims_outcomes (some claims) d = current_claims_outcomes claims d

    with_parsed_outcomes :
        (x : GoError ⊎ ParsedToken) (d : Db)
        → EndsIn engine (λ t'. t' ≡ tables d) (ParsedClaims d) (with_parsed engine tokens auth x) d
    unfolding with_parsed
    with_parsed_outcomes (inl e) d = inl (_, refl, refl)
    with_parsed_outcomes (inr token) d = elim (Bool-cases token.valid) [
      | inl valid ↦ rw valid (with_claims_outcomes token.claims d)
      | inr broken ↦ rw broken (inl (_, refl, refl))
    ]

    -- Parsing changes nothing, and the claims that it returns are those of an active account.
    pub parse-IsCurrent :
        (token : String) (d : Db)
        → EndsIn engine (λ t'. t' ≡ tables d) (ParsedClaims d) (parse engine tokens auth token) d
    unfolding parse
    parse-IsCurrent token d =
        with_parsed_outcomes (tokens.parse_with_claims (engine.now d) token (key_of auth)) d

  -- What a login that answered a response did.
  record Granted (request : LoginRequest) (d : Db) (response : LoginResponse) (d1 : Db)
      : Type 0 where
    user : User
    found : (find_by_username engine request.username d).0 ≡ ok user
    matches : tokens.compare_hash_and_password user.password_hash request.password ≡ none
    signed :
        tokens.signed_string
          (login_claims tokens user (engine.now d1) (engine.now d1 + auth.ttl))
          auth.secret
        ≡ ok response.token
    named : response.user.id ≡ user.id

  require_match-ok :
      {d : Db} (x : Option GoError)
      → (require_match x d).0 ≡ ok tt
      → (x ≡ none) × ((require_match x d).1 ≡ d)
  require_match-ok none h = (refl, refl)
  require_match-ok (some e) h = cc

  abbrev answered_token : Result LoginResponse → String
  answered_token (ok response) = response.token
  answered_token _ = ""

  abbrev answered_id : Result LoginResponse → ℕ
  answered_id (ok response) = response.user.id
  answered_id _ = 0

  issue_inverse :
      (user : User) (d : Db) (response : LoginResponse) (d1 : Db)
      → issue engine tokens auth user d ≡ (ok response, d1)
      → (tokens.signed_string
            (login_claims tokens user (engine.now d1) (engine.now d1 + auth.ttl))
            auth.secret
          ≡ ok response.token)
        × (response.user.id ≡ user.id)
  unfolding issue
  issue_inverse user d response d1 h =
      let r =
        tokens.signed_string (login_claims tokens user (engine.now d) (engine.now d + auth.ttl))
          auth.secret in
      let (token, signed, done) =
        bind-ok (map_err (internal "token signing failed") (lift r)) _ d h in
      let same : d ≡ d1 = ap (λ x. x.1) done in
      let ended : d1 ≡ d = sym same in
      let given : token ≡ response.token = ap (λ x. answered_token x.0) done in
      let named : user.id ≡ response.user.id = ap (λ x. answered_id x.0) done in
      rw (ended, sym given, sym named) (mapped-ok (internal "token signing failed") r signed, refl)

  login_inverse :
      (request : LoginRequest) (d : Db) (response : LoginResponse) (d1 : Db)
      → login engine tokens auth request d ≡ (ok response, d1)
      → Granted request d response d1
  unfolding login
  login_inverse request d response d1 h =
      let find = find_by_username engine request.username in
      let (user, looked, h1) = bind-ok (map_err login_error find) _ d h in
      let d' = (find d).1 in
      let check = tokens.compare_hash_and_password user.password_hash request.password in
      let (_, checked, h2) =
        bind-ok (require_match check) (λ _. issue engine tokens auth user) d' h1 in
      let (matches, same) = require_match-ok {d = d'} check checked in
      let (signed, named) = issue_inverse user (require_match check d').1 response d1 h2 in
      record {
        user = user;
        found = mapped-ok login_error (find d).0 looked;
        matches = matches;
        signed = signed;
        named = named;
      }

  current_claims-found :
      (claims : Claims) (u : User) (d : Db)
      → (find_by_id engine claims.user_id d).0 ≡ ok u
      → (current_claims engine tokens auth claims d).0
        ≡ ok (record claims { username = u.username; role = u.role })
  unfolding current_claims
  current_claims-found claims u d h = rw h refl

  -- A token that a login gave is taken back within its time: if the account still exists and the lookup
  -- of it does not fail, `Parse` returns claims with the account's id and with the name and the role
  -- that it has now.
  pub parse-login :
      IsLawful tokens
      → (request : LoginRequest) (d d1 d2 : Db) (response : LoginResponse) (u : User)
      → login engine tokens auth request d ≡ (ok response, d1)
      → engine.now d1 ≤ engine.now d2
      → engine.now d2 < tokens.numeric_date (engine.now d1 + auth.ttl)
      → (find_by_id engine response.user.id d2).0 ≡ ok u
      → (claims : Claims) × ((parse engine tokens auth response.token d2).0 ≡ ok claims)
        × (claims.user_id ≡ response.user.id)
        × (claims.username ≡ u.username)
        × (claims.role ≡ u.role)
  unfolding parse with_parsed with_claims key_of login_claims
  parse-login lawful request d d1 d2 response u h since before_end found =
      let g = login_inverse request d response d1 h in
      let issued = login_claims tokens g.user (engine.now d1) (engine.now d1 + auth.ttl) in
      let (parsed, taken, same_id) =
        lawful.parse_lem issued auth.secret response.token (engine.now d2) (key_of auth) g.signed
          refl (omega (arith, lawful.numeric_date_lem (engine.now d1))) before_end in
      let same : parsed.user_id ≡ response.user.id = same_id ∙ sym g.named in
      (
        record parsed { username = u.username; role = u.role },
        rw taken (current_claims-found parsed u d2 (rw same found)),
        same,
        refl,
        refl,
      )
