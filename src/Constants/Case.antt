-- ===== src/Constants/Case.antt =====
-- internal/constants/case.go.
use text.Mathlib.Text.{◌==◌ as str_eq}
use gb_522_a16g.Base.{String, Bool, true, false, ◌||◌}

pub data CaseStatus : Type 0 where
  draft analyzing pending_review confirmed closed : CaseStatus
  other : String → CaseStatus

abbrev pub same_status : CaseStatus → CaseStatus → Bool
same_status draft draft = true
same_status analyzing analyzing = true
same_status pending_review pending_review = true
same_status confirmed confirmed = true
same_status closed closed = true
same_status (other s) (other t) = str_eq s t
same_status _ _ = false

-- `transitions[from][to]`; a missing key gives `false`.
unfoldable pub can_transition : CaseStatus → CaseStatus → Bool
can_transition draft analyzing = true
can_transition analyzing draft = true
can_transition analyzing pending_review = true
can_transition pending_review confirmed = true
can_transition confirmed closed = true
can_transition _ _ = false

unfoldable pub valid_status : CaseStatus → Bool
valid_status (other s) = false
valid_status _ = true

pub data Role : Type 0 where
  analyst reviewer admin : Role
  other_role : String → Role

abbrev pub same_role : Role → Role → Bool
same_role analyst analyst = true
same_role reviewer reviewer = true
same_role admin admin = true
same_role (other_role s) (other_role t) = str_eq s t
same_role _ _ = false

unfoldable pub valid_role : Role → Bool
valid_role role = same_role role analyst || same_role role reviewer || same_role role admin
