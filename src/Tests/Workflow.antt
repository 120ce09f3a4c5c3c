-- ===== src/Tests/Workflow.antt =====
-- The case workflow on a database with one case.
use gb_522_a16g.Base.{
  ℕ, ◌+◌, ◌≤◌, ◌≡◌, ◌⊎◌, refl, [], ◌∷◌, none, some, true, false, ◌==◌, ◌||◌, ℤ, ok, err, GoError,
  count_if-le-length, arith, get_elem?,
}
use gb_522_a16g.Float.Fixed.{fixed}
use gb_522_a16g.Constants.{
  CaseStatus, draft, analyzing, pending_review, confirmed, closed, reviewer, admin, same_role,
}
use gb_522_a16g.Json.{text, blank, encoded}
use gb_522_a16g.Model.{
  LocalizationCase, CaseParameters, AuditLog, Actor, CreateCaseRequest, ConfirmCaseRequest,
}
use gb_522_a16g.Store.{Tables, Stamp, IsFresh, Ends}
use gb_522_a16g.Store.Memory.{Memory, memory, memory-IsSound}
use gb_522_a16g.Repository.Case.{advance, transition_statement}
use gb_522_a16g.Repository.Audit.{create_audit_statement}
use gb_522_a16g.Service.Case.Values.{analysis_updates}
use gb_522_a16g.Service.Case.Review.{confirm, close}
use gb_522_a16g.Workflow.{
  creation, Affects, IsEntryOf, perform, Write, start, recovery, completion, confirmation, closing,
  selects, Reach, here, then_write, recorded, IsLater,
}
use gb_522_a16g.Workflow.Row.{after_write}
use gb_522_a16g.Workflow.History.{Reach-IsLater, Reach-keeps_closed, Reach-rank}
use gb_522_a16g.Workflow.Lock.{IsUnique, transition_once}
use gb_522_a16g.Workflow.Lease.{completion_ignores_lease}
use gb_522_a16g.Workflow.Writes.{Written}
use gb_522_a16g.Workflow.Review.{confirm_writes, close_writes}
open fixed use {dec}

abbrev pub case_at : CaseStatus → ℕ → LocalizationCase ℤ
case_at status version = record {
  id = 7;
  route_id = 1;
  baseline_trace_id = 11;
  current_trace_id = 12;
  case_status = status;
  estimated_distance_m = none;
  uncertainty_m = none;
  conclusion = "";
  reviewer_id = none;
  closed_at = none;
  analysis_error = "";
  parameters_json = blank;
  differences_json = encoded [];
  version = version;
  created_by = 3;
  created_at = 10;
  updated_at = 20;
}

abbrev tables_with : LocalizationCase ℤ → Tables ℤ
tables_with c = record {
  routes = [];
  cases = c ∷ [];
  traces = [];
  events = [];
  audits = [];
  users = [];
}

abbrev pub ann : Actor
ann = record { id = 4; username = "ann"; role = reviewer; request_id = "r-1" }

abbrev pub request : ConfirmCaseRequest ℤ
request = record {
  conclusion = "fibre bent at the joint";
  estimated_distance_m = dec 400 0;
  uncertainty_m = dec 5 0;
  version = 4;
}

abbrev stamp : Stamp
stamp = record {
  scan = [];
  now = 50;
  fresh_route = 8;
  fresh_case = 8;
  fresh_trace = 8;
  fresh_event = 8;
  fresh_audit = 8;
  fresh_user = 8;
}

abbrev entry : AuditLog ℤ
entry = record {
  id = 0;
  actor_id = 4;
  actor_name = "ann";
  action = "case.confirmed";
  resource_type = "LocalizationCase";
  resource_id = 7;
  route_id = some 1;
  request_id = "r-1";
  before = text "";
  after = text "";
  created_at = 0;
}

abbrev pending : Tables ℤ
pending = tables_with (case_at pending_review 4)

abbrev confirming : Write ℤ
confirming = confirmation 7 4 request ann

abbrev confirmed_tables : Tables ℤ
confirmed_tables = recorded confirming stamp entry stamp pending

stamp-IsFresh : (c : LocalizationCase ℤ) → c.id ≡ 7 → IsFresh stamp (tables_with c)
stamp-IsFresh c e = record {
  routes_below = tt;
  cases_below = (omega arith, tt);
  traces_below = tt;
  events_below = tt;
  audits_below = tt;
  users_below = tt;
}

-- The pending case is confirmed.
one_write : Reach pending confirmed_tables 1
unfolding Affects selects IsEntryOf
one_write =
    then_write here confirming stamp entry stamp (stamp-IsFresh (case_at pending_review 4) refl)
      (omega arith) (refl, refl, refl, refl)

Reach-IsLater_example :
    (c' : LocalizationCase ℤ) × (get_elem? confirmed_tables.cases 0 ≡ some c')
    × IsLater (case_at pending_review 4) c'
Reach-IsLater_example =
    Reach-IsLater pending confirmed_tables 1 0 (case_at pending_review 4) one_write refl

abbrev pub request_again : CreateCaseRequest ℤ
request_again = record {
  route_id = 1;
  baseline_trace_id = 11;
  current_trace_id = 12;
  distance_tolerance_m = dec 0 0;
  loss_increase_db = dec 0 0;
}

abbrev created : AuditLog ℤ
created = record entry { action = "case.created"; resource_id = 8 }

-- Beside a closed case another case is opened.
one_creation :
    (c : LocalizationCase ℤ)
    → c.id ≡ 7
    → Reach
        (tables_with c)
        (recorded (creation request_again ann) stamp created stamp (tables_with c))
        1
unfolding Affects IsEntryOf
one_creation c e =
    then_write here (creation request_again ann) stamp created stamp (stamp-IsFresh c e) tt
      (refl, refl, refl, refl)

Reach-keeps_closed_example :
    get_elem?
      (recorded
        (creation request_again ann)
        stamp
        created
        stamp
        (tables_with (case_at closed 6))).cases
      0
    ≡ some (case_at closed 6)
Reach-keeps_closed_example =
    Reach-keeps_closed (tables_with (case_at closed 6))
      (recorded (creation request_again ann) stamp created stamp (tables_with (case_at closed 6))) 1
      0 (case_at closed 6) (one_creation (case_at closed 6) refl) refl refl

abbrev started_case : LocalizationCase ℤ
started_case = advance 50 analyzing (record (case_at draft 1) { analysis_error = "" })

abbrev started : AuditLog ℤ
started = record entry { action = "case.analysis_started" }

one_start :
    Reach
      (tables_with (case_at draft 1))
      (recorded (start 7 1) stamp started stamp (tables_with (case_at draft 1)))
      1
unfolding Affects selects IsEntryOf
one_start =
    then_write here (start 7 1) stamp started stamp (stamp-IsFresh (case_at draft 1) refl)
      (omega arith) (refl, refl)

Reach-rank_example : 1 + 1 ≤ 2
unfolding perform create_audit_statement transition_statement
Reach-rank_example =
    Reach-rank (tables_with (case_at draft 1))
      (recorded (start 7 1) stamp started stamp (tables_with (case_at draft 1))) 1 0
      (case_at draft 1) started_case one_start refl refl refl

transition_once_example :
    (transition_statement 7 4 pending_review confirmed
      (λ c. c)
      stamp
      (transition_statement 7 4 pending_review confirmed (λ c. c) stamp pending).1).0
    ≡ ok 0
unfolding IsUnique
transition_once_example =
    transition_once 7 4 pending_review confirmed (λ c. c) stamp pending (λ c. (refl, refl))
      (λ id. count_if-le-length (λ c. c.id == id) pending.cases) (omega arith)
      (transition_statement 7 4 pending_review confirmed (λ c. c) stamp pending).1 0 here
      pending_review confirmed (λ c. c) stamp

completion_ignores_lease_example :
    let c = case_at draft 1 in
    let parameters : CaseParameters ℤ = record {
      distance_tolerance_m = dec 25 0;
      loss_increase_db = dec 5 1;
    } in
    let first = after_write (start 7 1) 100 c in
    let second = after_write (start 7 3) 1001 (after_write (recovery 7 200) 1000 first) in
    (second.case_status ≡ analyzing)
    × (second.version ≡ 4)
    × (selects (completion 7 [] parameters) second ≡ true)
    × (after_write (completion 7 [] parameters) 1002 second
        ≡ advance 1002 pending_review (analysis_updates [] parameters second))
    × (selects (completion 7 [] parameters) (after_write (completion 7 [] parameters) 1002 second)
        ≡ false)
completion_ignores_lease_example =
    completion_ignores_lease (case_at draft 1) 200 100 1000 1001 1002 [] []
      (record { distance_tolerance_m = dec 25 0; loss_increase_db = dec 5 1 }) refl (omega arith)

abbrev database : LocalizationCase ℤ → Memory ℤ
database c = record { content = tables_with c; clock = 100; faults = [] }

confirm_writes_example :
    Ends
      (memory ℤ)
      (λ r t'.
        ((e : GoError) × (r ≡ err e) × (t' ≡ pending))
        ⊎ ((same_role reviewer reviewer || same_role reviewer admin ≡ true)
            × Written confirming pending t'))
      (confirm (memory ℤ) 7 request ann)
      (database (case_at pending_review 4))
confirm_writes_example =
    confirm_writes (memory ℤ) (memory-IsSound ℤ) 7 request ann (database (case_at pending_review 4))

close_writes_example :
    Ends
      (memory ℤ)
      (λ r t'.
        ((e : GoError) × (r ≡ err e) × (t' ≡ tables_with (case_at confirmed 5)))
        ⊎ ((now : ℕ) × Written (closing 7 5 now) (tables_with (case_at confirmed 5)) t'))
      (close (memory ℤ) 7 (record { version = 5 }) ann)
      (database (case_at confirmed 5))
close_writes_example =
    close_writes (memory ℤ) (memory-IsSound ℤ) 7 (record { version = 5 }) ann
      (database (case_at confirmed 5))
