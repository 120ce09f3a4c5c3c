-- ===== src/Router/Policy.antt =====
-- Who may use which endpoint, as a table that does not follow the router's code.
use gb_522_a16g.Base.{◌≡◌, Bool, true, false, if◌then◌else◌, ◌||◌}
use gb_522_a16g.Constants.{Role, analyst, reviewer, admin, same_role}
use gb_522_a16g.Model.Account.{User}
use gb_522_a16g.Store.{Tables}
use gb_522_a16g.Middleware.Chain.{Context}
use gb_522_a16g.Router.{
  Endpoint, health, ready, login, of_routes, of_traces, of_events, of_cases, create_route,
  update_route, set_baseline, import_trace, detect_events, review_event, create_case, analyze_case,
  confirm_case, close_case, list_audit,
}
use gb_522_a16g.Router.Gate.{CarriesUser}

-- The endpoints that review: a second pair of eyes, or the audit log.
abbrev pub is_reviewing : Endpoint → Bool
is_reviewing (of_routes set_baseline) = true
is_reviewing (of_events review_event) = true
is_reviewing (of_cases confirm_case) = true
is_reviewing (of_cases close_case) = true
is_reviewing (of_cases list_audit) = true
is_reviewing _ = false

-- The endpoints that bring in or work out data.
abbrev pub is_editing : Endpoint → Bool
is_editing (of_routes create_route) = true
is_editing (of_routes update_route) = true
is_editing (of_traces import_trace) = true
is_editing (of_traces detect_events) = true
is_editing (of_cases create_case) = true
is_editing (of_cases analyze_case) = true
is_editing _ = false

abbrev pub is_public : Endpoint → Bool
is_public health = true
is_public ready = true
is_public login = true
is_public _ = false

-- The role may use the endpoint: a reviewer or an administrator reviews, an analyst or an administrator
-- edits, and everyone with an account reads.
abbrev pub may_use : Endpoint → Role → Bool
may_use e role =
    if is_reviewing e
    then same_role role reviewer || same_role role admin
    else (if is_editing e then same_role role analyst || same_role role admin else true)

-- The context names an active account whose role may use the endpoint.
abbrev pub IsPermitted : {F : Type 0} → Tables F → Endpoint → Context → Type 0
IsPermitted t e c = (u : User) × CarriesUser t u c × (may_use e u.role ≡ true)
