-- ===== src/Router/Gate.antt =====
-- What a chain of handlers does before the last one: it goes on to it, or it answers itself.
use Prim.Native.String.{◌++◌}
use gb_522_a16g.Base.{
  ℕ, ◌≡◌, refl, ap, ◌∙◌, ◌⊎◌, inl, inr, String, true, ◌||◌, ◌==◌, Bool-cases, List, Option, none,
  some, ℤ, ok,
}
use gb_522_a16g.Base.Text.{after_prefix, trim_space}
use gb_522_a16g.Constants.{Role}
use gb_522_a16g.Float.{Float64}
use gb_522_a16g.Model.Account.{User}
use gb_522_a16g.Store.{Tables, Engine, IsSound}
use gb_522_a16g.Service.Auth.{Tokens, AuthService}
use gb_522_a16g.Service.Auth.Laws.{account, parse-IsCurrent}
use gb_522_a16g.Middleware.RateLimit.{allow}
use gb_522_a16g.Middleware.Chain.{
  Context, Reply, replied, panicked, Server, LimiterAt, Handler, refused, is_role, auth_middleware,
  with_bearer, with_claims, unauthorized, rbac_middleware, allow_role, rate_limit_middleware,
}

-- The statuses with which a chain refuses a request.
abbrev pub IsRefusal : {F : Type 0} → Reply F → Type 0
IsRefusal (replied status headers body) =
    ((status == 204) || ((status == 401) || ((status == 403) || (status == 429)))) ≡ true
IsRefusal (panicked headers) = ⊥

-- The context carries the id, the name and the role of an active account.
abbrev pub CarriesUser : {F : Type 0} → Tables F → User → Context → Type 0
CarriesUser t u c =
    (id : ℕ) × (c.user_id ≡ some id)
    × (account t id ≡ ok u)
    × (u.active ≡ true)
    × (c.username ≡ some u.username)
    × (c.role ≡ some u.role)

module _ {F : Type 0} (engine : Engine F) where
  open engine use {tables}

  -- What the chain does with whatever follows it.
  abbrev pub Runs :
      (Handler engine → Handler engine)
      → Context
      → Server engine
      → (Handler engine → Reply F × Server engine)
      → Type 0
  Runs chain c s does = ◌≡◌ {A = Handler engine → Reply F × Server engine} (λ k. chain k c s) does

  -- The chain at the context calls what follows it at one that satisfies `P`, or it refuses the
  -- request; it leaves the tables as they are.
  abbrev pub Gate :
      (Context → Type 0) → (Handler engine → Handler engine) → Context → Server engine → Type 0
  Gate P chain c s =
      ((c' : Context) × (s' : Server engine) × Runs chain c s (λ k. k c' s')
        × (tables s'.db ≡ tables s.db)
        × (c'.request_id ≡ c.request_id)
        × P c')
      ⊎ ((o : Reply F) × (s' : Server engine) × Runs chain c s (λ k. (o, s'))
          × (tables s'.db ≡ tables s.db)
          × IsRefusal o)

  -- One chain before another.
  pub gate_then :
      (P Q : Context → Type 0) (first second : Handler engine → Handler engine) (c : Context)
      (s : Server engine)
      → Gate P first c s
      → ((c' : Context) (s' : Server engine)
          → tables s'.db ≡ tables s.db
          → P c'
          → Gate Q second c' s')
      → Gate Q (λ k. first (second k)) c s
  gate_then P Q first second c s (inl (c1, s1, run, same, id, p)) next = elim (next c1 s1 same p) [
    | inl (c2, s2, run2, same2, id2, q) ↦
        inl (c2, s2, ap (λ f k. f (second k)) run ∙ run2, same2 ∙ same, id2 ∙ id, q)
    | inr (o, s2, run2, same2, refusal) ↦
        inr (o, s2, ap (λ f k. f (second k)) run ∙ run2, same2 ∙ same, refusal)
  ]
  gate_then P Q first second c s (inr (o, s1, run, same, refusal)) next =
      inr (o, s1, ap (λ f k. f (second k)) run, same, refusal)

  pub gate_imp :
      (P Q : Context → Type 0) (chain : Handler engine → Handler engine) (c : Context)
      (s : Server engine)
      → ((c' : Context) → P c' → Q c')
      → Gate P chain c s
      → Gate Q chain c s
  gate_imp P Q chain c s f (inl (c1, s1, run, same, id, p)) = inl (c1, s1, run, same, id, f c1 p)
  gate_imp P Q chain c s f (inr h) = inr h

  pub limited_gate :
      (duration_text : ℤ → String) (at : LimiterAt engine) (scope : String) (P : Context → Type 0)
      (c : Context) (s : Server engine)
      → ((l : _) → (at.with_limiter s l).db ≡ s.db)
      → P c
      → Gate P (rate_limit_middleware engine duration_text at scope) c s
  unfolding rate_limit_middleware
  limited_gate duration_text at scope P c s same p =
      let r =
        allow (at.limiter s) (scope ++ (":" ++ c.request.client_ip)) (engine.now s.db)
          (engine.now s.db) in
      elim (Bool-cases r.0.0) [
        | inl served ↦
            rw served (inl (c, at.with_limiter s r.1, refl, ap tables (same r.1), refl, p))
        | inr over ↦ rw over (inr (_, at.with_limiter s r.1, refl, ap tables (same r.1), refl))
      ]

  -- The role handler at a context whose role is known.
  pub only_gate :
      (roles : List Role) (role : Role) (P : Context → Type 0) (c : Context) (s : Server engine)
      → c.role ≡ some role
      → P c
      → Gate
          (λ c'. P c' × (c'.role ≡ some role) × (is_role role roles ≡ true))
          (rbac_middleware engine roles)
          c
          s
  unfolding rbac_middleware allow_role
  only_gate roles role P c s known p =
      let at_role : Runs (rbac_middleware engine roles) c s
          (λ k. allow_role engine roles (some role) k c s) =
        ap (λ x (k : Handler engine). allow_role engine roles x k c s) known in
      elim (Bool-cases (is_role role roles)) [
        | inl fits ↦
            let runs : Runs (allow_role engine roles (some role)) c s (λ k. k c s) = rw fits refl in
            inl (c, s, at_role ∙ runs, refl, refl, (p, known, fits))
        | inr other ↦
            let runs : Runs (allow_role engine roles (some role)) c s
                (λ k. (refused 403 "FORBIDDEN" "role is not permitted for this operation" c, s)) =
              rw other refl in
            inr (_, s, at_role ∙ runs, refl, refl)
      ]

  module _ ⦃fl : Float64 F⦄ (tokens : Tokens) (auth : AuthService) (sound : IsSound engine) where
    pub auth_gate :
        (c : Context) (s : Server engine)
        → Gate
            (λ c'. (u : User) × CarriesUser (tables s.db) u c')
            (auth_middleware engine tokens auth)
            c
            s
    unfolding auth_middleware with_bearer with_claims unauthorized
    auth_gate c s = bearer (after_prefix "Bearer " (trim_space c.request.authorization))
      where
        bearer :
            (token : Option String)
            → Gate
                (λ c'. (u : User) × CarriesUser (tables s.db) u c')
                (λ next. with_bearer engine tokens auth next token)
                c
                s
        bearer none = inr (_, s, refl, refl, refl)
        bearer (some token) =
            elim (parse-IsCurrent engine tokens auth sound (trim_space token) s.db) [
              | inl (e, h, same) ↦ rw h (inr (_, _, refl, same, refl))
              | inr (claims, h, (same, (u, found, active, username, role))) ↦ rw h (
                  inl (
                    _,
                    _,
                    refl,
                    same,
                    refl,
                    (u, (claims.user_id, refl, found, active, ap some username, ap some role)),
                  ))
            ]
