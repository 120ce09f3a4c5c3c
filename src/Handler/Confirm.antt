-- ===== src/Handler/Confirm.antt =====
-- A confirmation, from the request to the tables.
use mathlib.Core.Path.{subst}
use gb_522_a16g.Base.{
  ℕ, ◌≡◌, refl, sym, ap, ◌∙◌, ◌⊎◌, inl, inr, String, true, List, Option, none, some, ℤ, GoError, ok,
  ◌||◌, ◌&&◌, ◌==◌, arith,
}
use gb_522_a16g.Float.{Float64}
use gb_522_a16g.Constants.{reviewer, admin, same_role}
use gb_522_a16g.Model.{Actor, ConfirmCaseRequest}
use gb_522_a16g.Model.Account.{User}
use gb_522_a16g.Store.{Tables, Engine, IsSound}
use gb_522_a16g.Service.Auth.{Tokens, AuthService}
use gb_522_a16g.Service.Auth.Laws.{account}
use gb_522_a16g.Service.Case.Review.{confirm}
use gb_522_a16g.Middleware.Chain.{Request, Context, Reply, replied, panicked, Server, recovered}
use gb_522_a16g.Router.{Handlers, of_cases, confirm_case, serve}
use gb_522_a16g.Router.Access.{serve-IsPermitted}
use gb_522_a16g.Handler.{
  Binder, actor, positive, parse_uint, given_id, given_body, given_valid, with_id, with_body,
  answer,
}
use gb_522_a16g.Handler.Cases.{plain, confirm_handler}
use gb_522_a16g.Service.Document.{case_value}
use gb_522_a16g.Workflow.{confirmation}
use gb_522_a16g.Workflow.Writes.{Written}
use gb_522_a16g.Workflow.Rules.{first-ok}
use gb_522_a16g.Workflow.Effects.{IsConfirmed, Written-IsConfirmed}
use gb_522_a16g.Workflow.Review.{confirm_writes}

-- What `actor` puts for a missing value.
abbrev id_or_zero : Option ℕ → ℕ
id_or_zero none = 0
id_or_zero (some id) = id

abbrev name_or_empty : Option String → String
name_or_empty none = ""
name_or_empty (some name) = name

-- The account that is found by an id has it.
account_id : {F : Type 0} (t : Tables F) (id : ℕ) (u : User) → account t id ≡ ok u → u.id ≡ id
account_id t id u found = elim (first-ok (λ (u : User). u.id == id && u.active) t.users) [
  | inl (e, none_found) ↦ cc
  | inr (v, is_found, selected) ↦
      let same : v ≡ u = cc in
      let this_id : v.id ≡ id = ground arith in sym (ap (λ (x : User). x.id) same) ∙ this_id
]

module _ {F : Type 0} ⦃fl : Float64 F⦄ (engine : Engine F) (sound : IsSound engine)
    (binder : Binder (ConfirmCaseRequest F)) where
  open engine use {Db, tables}

  -- Nothing was written, or one case was confirmed in the name of the actor.
  abbrev Confirms : Actor → Tables F → Tables F → Type 0
  Confirms who t t' =
      (t' ≡ t)
      ⊎ ((id : ℕ) × (request : ConfirmCaseRequest F) × Written
            (confirmation id request.version request who) t t')

  confirm_handler-Confirms :
      (c : Context) (s : Server engine)
      → Confirms (actor c) (tables s.db) (tables (confirm_handler engine binder c s).1.db)
  unfolding confirm_handler with_id with_body answer
  confirm_handler-Confirms c s = by_id (positive (parse_uint c.request.id_param))
    where
      by_valid :
          (id : ℕ) (request : ConfirmCaseRequest F) (problem : Option GoError)
          → Confirms (actor c) (tables s.db) (
              tables
                (given_valid engine
                  (λ r c'. answer engine 200 (plain case_value) (confirm engine id r (actor c')) c')
                  request
                  problem
                  c
                  s).1.db)
      by_valid id request (some e) = inl refl
      by_valid id request none = elim (confirm_writes engine sound id request (actor c) s.db) [
        | inl (e, r, same) ↦ inl same
        | inr (may, written) ↦ inr (id, request, written)
      ]

      by_body :
          (id : ℕ) (x : GoError ⊎ ConfirmCaseRequest F)
          → Confirms (actor c) (tables s.db) (
              tables
                (given_body engine binder
                  (λ r c'. answer engine 200 (plain case_value) (confirm engine id r (actor c')) c')
                  x
                  c
                  s).1.db)
      by_body id (inl e) = inl refl
      by_body id (inr request) = by_valid id request (binder.validate request)

      by_id :
          (x : Option ℕ)
          → Confirms (actor c) (tables s.db) (
              tables
                (given_id engine
                  (λ id. with_body engine binder (λ r c'.
                    answer engine 200 (plain case_value) (confirm engine id r (actor c')) c'))
                  x
                  c
                  s).1.db)
      by_id none = inl refl
      by_id (some id) = by_body id (binder.decode c.request.body)

  module _ (tokens : Tokens) (auth : AuthService) (duration_text : ℤ → String) where
    recovered-server :
        (id : String) (r : Reply F) (s : Server engine) → (recovered engine id (r, s)).1 ≡ s
    recovered-server id (replied status headers body) s = refl
    recovered-server id (panicked headers) s = refl

    -- The account that a confirmation is made by.
    abbrev pub ConfirmedBy : Tables F → Tables F → Type 0
    ConfirmedBy t t' =
        (who : Actor) × (u : User) × (id : ℕ) × (request : ConfirmCaseRequest F) × (account t who.id
          ≡ ok u)
        × (u.active ≡ true)
        × (who.username ≡ u.username)
        × ((same_role u.role reviewer || same_role u.role admin) ≡ true)
        × IsConfirmed id request u.id u.username t t'
        × Written (confirmation id request.version request who) t t'

    -- A request to the confirmation endpoint writes nothing, or it confirms one pending case in the name
    -- of an active account that is a reviewer's or an administrator's at that moment: the row is then
    -- confirmed, its reviewer is the id of that account, and the one new audit entry says that this id,
    -- under the account's name, has confirmed this case.
    pub serve-ConfirmedBy :
        (origins : List String) (h : Handlers engine tokens auth duration_text) (request : Request)
        (s : Server engine)
        → h (of_cases confirm_case) ≡ confirm_handler engine binder
        → let t' =
            tables
              (serve engine tokens auth duration_text origins h
                (of_cases confirm_case)
                request
                s).1.db in
          (t' ≡ tables s.db) ⊎ ConfirmedBy (tables s.db) t'
    unfolding actor
    serve-ConfirmedBy origins h request s wired =
        elim (serve-IsPermitted engine tokens auth duration_text sound origins
          (of_cases confirm_case) request s refl) [
            | inr (o, s', run, same, refusal) ↦ inl (ap (λ f. tables (f h).1.db) run ∙ same)
            | inl (c, s', run, same, id, (u, (n, has_id, found, active, has_name, has_role), may)) ↦
                let wrote : tables
                      (serve engine tokens auth duration_text origins h (of_cases confirm_case)
                        request s).1.db
                    ≡ tables (confirm_handler engine binder c s').1.db =
                  ap (λ f. tables (f h).1.db) run
                  ∙ ap (λ r. tables r.db)
                      (recovered-server c.request_id (h (of_cases confirm_case) c s').0
                        (h (of_cases confirm_case) c s').1)
                  ∙ ap (λ k. tables (k c s').1.db) wired in
                elim (confirm_handler-Confirms c s') [
                  | inl kept ↦ inl (wrote ∙ kept ∙ same)
                  | inr (case_id, confirmation_request, written) ↦
                      let who = actor c in
                      let same_id : who.id ≡ n = ap id_or_zero has_id in
                      let same_name : who.username ≡ u.username = ap name_or_empty has_name in
                      let known : account (tables s.db) who.id ≡ ok u = rw same_id found in
                      let from_start =
                        subst
                          (λ x.
                            Written
                              (confirmation case_id confirmation_request.version
                                confirmation_request who)
                              x (tables (confirm_handler engine binder c s').1.db))
                          same written in
                      let t1 = tables (confirm_handler engine binder c s').1.db in
                      let row =
                        Written-IsConfirmed case_id confirmation_request who (tables s.db) t1
                          from_start in
                      let own_id : who.id ≡ u.id = sym (account_id (tables s.db) who.id u known) in
                      let row2 =
                        subst
                          (λ n.
                            IsConfirmed case_id confirmation_request n who.username (tables s.db)
                              t1)
                          own_id row in
                      let row3 =
                        subst
                          (λ n. IsConfirmed case_id confirmation_request u.id n (tables s.db) t1)
                          same_name row2 in
                      inr (
                        subst (λ x. ConfirmedBy (tables s.db) x) (sym wrote)
                          (
                            who, u, case_id, confirmation_request, known, active, same_name, may,
                            row3, from_start,
                          ))
                ]
          ]
