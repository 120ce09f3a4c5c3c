-- ===== src/Service/Errors.antt =====
-- The application errors of internal/service/auth_service.go, with their HTTP status.
use gb_522_a16g.Base.{
  String, GoError, app_error, err_not_found, invalid_input, not_found_code, conflict_code,
  internal_code,
}

abbrev pub invalid : String → GoError → GoError
invalid message cause = app_error invalid_input 400 message cause

abbrev pub not_found : String → GoError
not_found resource = app_error not_found_code 404 resource err_not_found

abbrev pub conflict : String → GoError → GoError
conflict message cause = app_error conflict_code 409 message cause

abbrev pub internal : String → GoError → GoError
internal message cause = app_error internal_code 500 message cause
