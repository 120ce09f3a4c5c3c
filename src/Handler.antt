-- ===== src/Handler.antt =====
-- internal/handler: from a request to a service and back. JSON decoding and the validator are a
-- parameter, `Binder`.
pub mod Cases
pub mod Routes
pub mod Events
pub mod Login
pub mod Traces
pub mod Confirm
use gb_522_a16g.Base.{
  ℕ, zero, ◌^◌, ℤ, String, Bool, ltb, ◌==◌, Option, none, some, if◌then◌else◌, Result, ok, err,
  panic, GoError, Code, invalid_input, not_found_code, conflict_code, unauthorized, forbidden,
  algorithm_input, internal_code, app_error, wrapped, errorf, error_text, ◌⊎◌, inl, inr,
}
use Prim.Native.String.{◌++◌}
use gb_522_a16g.Base.Text.{is_empty, read_digits}
use gb_522_a16g.Config.{atoi}
use gb_522_a16g.Constants.{Role, other_role}
use gb_522_a16g.Json.{Value, text, obj, end, field}
use gb_522_a16g.Model.{Actor}
use gb_522_a16g.Store.{Action, Engine}
use gb_522_a16g.Middleware.Chain.{
  Request, Context, Reply, replied, panicked, Server, Handler, error_body,
}

-- The `Code…` constants' strings.
abbrev pub code_text : Code → String
code_text invalid_input = "INVALID_INPUT"
code_text not_found_code = "NOT_FOUND"
code_text conflict_code = "STATE_CONFLICT"
code_text unauthorized = "AUTH_REQUIRED"
code_text forbidden = "FORBIDDEN"
code_text algorithm_input = "ALGORITHM_INPUT_INSUFFICIENT"
code_text internal_code = "INTERNAL_ERROR"

-- ShouldBindJSON and the validator's Struct for one type of request; `none` is no error.
pub record Binder (A : Type 0) : Type 0 where
  pub decode : String → GoError ⊎ A
  pub validate : A → Option GoError

-- strconv.ParseUint in base 10 with 64 bits
unfoldable pub parse_uint : String → Option ℕ
parse_uint s = elim (if is_empty s then none else read_digits 0 s) [
  | none ↦ none
  | some n ↦ if ltb n (2 ^ 64) then some n else none
]

unfoldable pub actor : Context → Actor
actor c = record {
  id = elim c.user_id [ none ↦ 0 | some id ↦ id ];
  username = elim c.username [ none ↦ "" | some name ↦ name ];
  role = elim c.role [ none ↦ other_role "" | some role ↦ role ];
  request_id = c.request_id;
}

-- An id of zero counts as no id.
abbrev pub positive : Option ℕ → Option ℕ
positive none = none
positive (some n) = if n == 0 then none else some n

unfoldable pub query_uint : Context → String → Option ℕ
query_uint c key = positive (parse_uint (c.request.query key))

unfoldable pub query_int : Context → String → ℤ → ℤ
query_int c key fallback = elim (atoi (c.request.query key)) [ none ↦ fallback | some n ↦ n ]

module _ {F : Type 0} where
  -- `ok`, with the meta data if there is any.
  unfoldable pub ok_body : Value F → Option (Value F) → Context → Value F
  ok_body value meta c =
      let id : Value F = text c.request_id in
      elim meta [
        | none ↦ obj (field "data" value (field "request_id" id end))
        | some m ↦ obj (field "data" value (field "meta" m (field "request_id" id end)))
      ]

  -- `fail`: errors.As looks along the chain of wrapped errors.
  unfoldable pub failed : GoError → Context → Reply F
  failed (app_error code status message cause) c =
      replied status c.headers (error_body (code_text code) message c.request_id)
  failed (wrapped message e) c = failed e c
  failed e c =
      replied 500 c.headers (error_body "INTERNAL_ERROR" "unexpected server error" c.request_id)

  module _ (engine : Engine F) where
    open engine use {Db}

    abbrev pub reply_to :
        {A : Type 0} → ℕ → (A → Value F × Option (Value F)) → Context → Result A → Reply F
    reply_to status shown c (ok a) = replied status c.headers (ok_body (shown a).0 (shown a).1 c)
    reply_to status shown c (err e) = failed e c
    reply_to status shown c panic = panicked c.headers

    -- The service's call and the reply to its outcome.
    unfoldable pub answer :
        {A : Type 0} → ℕ → (A → Value F × Option (Value F)) → Action Db A → Handler engine
    answer status shown call c s =
        let r = call s.db in (reply_to status shown c r.0, record s { db = r.1 })

    abbrev pub refuse : String → GoError → Handler engine
    refuse message cause c s = (failed (app_error invalid_input 400 message cause) c, s)

    abbrev pub given_id : (ℕ → Handler engine) → Option ℕ → Handler engine
    given_id next none = refuse "resource id must be a positive integer" (errorf "invalid syntax")
    given_id next (some id) = next id

    -- `idParam`, and what follows if it is valid.
    unfoldable pub with_id : (ℕ → Handler engine) → Handler engine
    with_id next c s = given_id next (positive (parse_uint c.request.id_param)) c s

    abbrev pub given_valid :
        {A : Type 0} → (A → Handler engine) → A → Option GoError → Handler engine
    given_valid next a none = next a
    given_valid next a (some e) = refuse ("request validation failed: " ++ error_text e) e

    abbrev pub given_body :
        {A : Type 0} → Binder A → (A → Handler engine) → GoError ⊎ A → Handler engine
    given_body binder next (inl e) = refuse "request body is not valid JSON" e
    given_body binder next (inr a) = given_valid next a (binder.validate a)

    -- `bind`, and what follows if it succeeds.
    unfoldable pub with_body : {A : Type 0} → Binder A → (A → Handler engine) → Handler engine
    with_body binder next c s = given_body binder next (binder.decode c.request.body) c s
