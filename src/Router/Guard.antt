-- ===== src/Router/Guard.antt =====
-- The chains of the endpoints let through those who may use them.
use gb_522_a16g.Base.{◌≡◌, refl, String, true, false, ◌||◌, [], ◌∷◌, some, ℤ, arith, inl}
use gb_522_a16g.Constants.{Role, analyst, reviewer, admin, same_role}
use gb_522_a16g.Float.{Float64}
use gb_522_a16g.Model.Account.{User}
use gb_522_a16g.Store.{Tables, Engine}
use gb_522_a16g.Service.Auth.{Tokens, AuthService}
use gb_522_a16g.Middleware.RateLimit.{RateLimiter}
use gb_522_a16g.Middleware.Chain.{LimiterAt, Context, Server, is_role}
use gb_522_a16g.Router.{Endpoint, analysts, reviewers, only, limited}
use gb_522_a16g.Router.Gate.{Gate, CarriesUser, gate_then, gate_imp, limited_gate, only_gate}
use gb_522_a16g.Router.Policy.{is_reviewing, is_editing, IsPermitted}

is_role-pair :
    (role a b : Role)
    → is_role role (a ∷ b ∷ []) ≡ true
    → (same_role role a || same_role role b) ≡ true
is_role-pair role a b h = ground arith

module _ {F : Type 0} ⦃fl : Float64 F⦄ (engine : Engine F) (tokens : Tokens) (auth : AuthService)
    (duration_text : ℤ → String) where
  module _ (t : Tables F) (e : Endpoint) (c : Context) (s : Server engine) (u : User)
      (carries : CarriesUser t u c) where
    -- An endpoint that every account may use.
    pub open_gate :
        is_reviewing e ≡ false → is_editing e ≡ false → Gate engine (IsPermitted t e) (λ k. k) c s
    open_gate r w = inl (c, s, refl, refl, refl, (u, carries, rw (r, w) refl))

    pub analysts_gate :
        is_reviewing e ≡ false
        → is_editing e ≡ true
        → Gate engine (IsPermitted t e) (only engine tokens auth duration_text analysts) c s
    analysts_gate r w =
        gate_imp engine
          (λ c'. CarriesUser t u c' × (c'.role ≡ some u.role) × (is_role u.role analysts ≡ true))
          (IsPermitted t e) (only engine tokens auth duration_text analysts) c s
          (λ c' h. (u, h.0, rw (r, w) (is_role-pair u.role analyst admin h.2)))
          (only_gate engine analysts u.role (CarriesUser t u) c s carries.5 carries)

    pub reviewers_gate :
        is_reviewing e ≡ true
        → Gate engine (IsPermitted t e) (only engine tokens auth duration_text reviewers) c s
    reviewers_gate r =
        gate_imp engine
          (λ c'. CarriesUser t u c' × (c'.role ≡ some u.role) × (is_role u.role reviewers ≡ true))
          (IsPermitted t e) (only engine tokens auth duration_text reviewers) c s
          (λ c' h. (u, h.0, rw r (is_role-pair u.role reviewer admin h.2)))
          (only_gate engine reviewers u.role (CarriesUser t u) c s carries.5 carries)

  pub edit_gate :
      (at : LimiterAt engine) (scope : String) (t : Tables F) (e : Endpoint) (c : Context)
      (s : Server engine) (u : User)
      → CarriesUser t u c
      → ((l : RateLimiter) (x : Server engine) → (at.with_limiter x l).db ≡ x.db)
      → is_reviewing e ≡ false
      → is_editing e ≡ true
      → Gate engine
          (IsPermitted t e)
          (λ k.
            limited engine tokens auth duration_text at scope
              (only engine tokens auth duration_text analysts k))
          c
          s
  edit_gate at scope t e c s u carries same r w =
      gate_then engine (CarriesUser t u) (IsPermitted t e)
        (limited engine tokens auth duration_text at scope)
        (only engine tokens auth duration_text analysts) c s
        (limited_gate engine duration_text at scope (CarriesUser t u) c s (λ l. same l s) carries)
        (λ c' s' _ carries'. analysts_gate t e c' s' u carries' r w)
