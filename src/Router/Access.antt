-- ===== src/Router/Access.antt =====
-- Who reaches which handler.
use gb_522_a16g.Base.{
  ◌≡◌, refl, sym, ap, ◌∙◌, ◌⊎◌, inl, inr, String, Bool, false, List, if◌then◌else◌, Bool-cases, ℤ,
}
use gb_522_a16g.Base.Text.{mem_text}
use gb_522_a16g.Float.{Float64}
use gb_522_a16g.Json.{null}
use gb_522_a16g.Store.{Engine, IsSound}
use gb_522_a16g.Service.Auth.{Tokens, AuthService}
use gb_522_a16g.Middleware.Chain.{
  Request, Context, Reply, replied, panicked, Server, recovered, request_id_of, set_header,
  new_context, request_id_middleware, recovery_middleware, cors_middleware, cors_headers,
}
use gb_522_a16g.Router.{Endpoint, Handlers, register, serve}
use gb_522_a16g.Router.Gate.{IsRefusal}
use gb_522_a16g.Router.Policy.{is_public, IsPermitted}
use gb_522_a16g.Router.Routed.{routed, register-routed, routed_gate}

cors_headers_id :
    (origins : List String) (c : Context) → (cors_headers origins c).request_id ≡ c.request_id
unfolding cors_headers
cors_headers_id origins c = elim (Bool-cases (mem_text c.request.origin origins)) [
  | inl known ↦ rw known refl
  | inr other ↦ rw other refl
]

module _ {F : Type 0} ⦃fl : Float64 F⦄ (engine : Engine F) (tokens : Tokens) (auth : AuthService)
    (duration_text : ℤ → String) where
  open engine use {tables}

  recovered-refusal :
      (id : String) (o : Reply F) (s : Server engine)
      → IsRefusal o
      → recovered engine id (o, s) ≡ (o, s)
  recovered-refusal id (replied status headers body) s r = refl
  recovered-refusal id (panicked headers) s r = elim r [ ]

  -- The replies to the request, for all handlers.
  abbrev pub Replies :
      List String
      → Endpoint
      → Request
      → Server engine
      → (Handlers engine tokens auth duration_text → Reply F × Server engine)
      → Type 0
  Replies origins e request s does =
      ◌≡◌ {A = Handlers engine tokens auth duration_text → Reply F × Server engine}
        (λ h. serve engine tokens auth duration_text origins h e request s) does

  -- The request is handed to the handler of the endpoint, whose panic the recovery handler catches.
  abbrev pub IsHandled : List String → Endpoint → Request → Server engine → Type 0
  IsHandled origins e request s =
      (c : Context) × (s' : Server engine) × Replies origins e request s
        (λ h. recovered engine c.request_id (h e c s'))
      × (tables s'.db ≡ tables s.db)
      × (c.request_id ≡ request_id_of request)
      × IsPermitted (tables s.db) e c

  -- The request is refused before any handler runs.
  abbrev pub IsRefused : List String → Endpoint → Request → Server engine → Type 0
  IsRefused origins e request s =
      (o : Reply F) × (s' : Server engine) × Replies origins e request s (λ h. (o, s'))
      × (tables s'.db ≡ tables s.db)
      × IsRefusal o

  -- A request to an endpoint other than the health checks and the login is either refused with 204, 401,
  -- 403 or 429 before its handler runs, or handed to it under the id, the name and the role that an
  -- active account has at that moment, and only if the role may use the endpoint. Neither changes the
  -- database, and a handler that panics is answered 500.
  pub serve-IsPermitted :
      IsSound engine
      → (origins : List String) (e : Endpoint) (request : Request) (s : Server engine)
      → is_public e ≡ false
      → IsHandled origins e request s ⊎ IsRefused origins e request s
  unfolding serve request_id_middleware recovery_middleware cors_middleware
  serve-IsPermitted sound origins e request s protected =
      let id = request_id_of request in
      let c1 = set_header "X-Request-ID" id (record (new_context request) { request_id = id }) in
      let c2 = cors_headers origins c1 in
      let same_id = cors_headers_id origins c1 in
      let answer : Bool → Handlers engine tokens auth duration_text → Reply F × Server engine =
        λ b h. recovered engine id (
          if b
          then (replied 204 c2.headers null, s)
          else register engine tokens auth duration_text h e c2 s) in
      elim (Bool-cases request.is_options) [
        | inl preflight ↦ inr (_, s, ap answer preflight, refl, refl)
        | inr plain ↦
            let entered : Replies origins e request s (λ h.
              recovered engine id (routed engine tokens auth duration_text sound e (h e) c2 s)) =
              ap answer plain
              ∙ ap (λ f h. recovered engine id (f h c2 s))
                  (register-routed engine tokens auth duration_text sound e) in
            elim (routed_gate engine tokens auth duration_text sound e c2 s protected) [
              | inl (c, s', run, same, kept_id, permitted) ↦
                  let here : c.request_id ≡ id = kept_id ∙ same_id in
                  inl (
                    c,
                    s',
                    entered
                        ∙ ap (λ f h. recovered engine id (f (h e))) run
                        ∙ ap (λ x h. recovered engine x (h e c s')) (sym here),
                    same,
                    here,
                    permitted,
                  )
              | inr (o, s', run, same, refusal) ↦ inr (
                o,
                s',
                entered
                    ∙ ap (λ f h. recovered engine id (f (h e))) run
                    ∙ ap (λ x h. x) (recovered-refusal id o s' refusal),
                same,
                refusal,
              )
            ]
      ]
