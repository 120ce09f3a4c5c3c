-- ===== src/Repository/Audit.antt =====
-- internal/repository/audit_repository.go: the append-only audit log.
use gb_522_a16g.Base.{
  ℕ, String, List, [], ◌∷◌, ◌++◌, Bool, true, ◌&&◌, if◌then◌else◌, ok, errorf, wrapped,
}
use gb_522_a16g.Base.Text.{is_space}
use gb_522_a16g.Model.{AuditLog}
use gb_522_a16g.Service.Snapshot.{codes}
use gb_522_a16g.Store.{Statement, Action, Engine, fail, map_err}

abbrev all_space : List ℕ → Bool
all_space [] = true
all_space (c ∷ s) = is_space c && all_space s

-- strings.TrimSpace(s) == ""
unfoldable pub is_blank : String → Bool
is_blank s = all_space (codes s)

module _ {F : Type 0} where
  unfoldable pub create_audit_statement : AuditLog F → Statement F (Unit {0})
  create_audit_statement entry stamp t = (
    ok tt,
    record t {
      audits = t.audits ++ record entry { id = stamp.fresh_audit; created_at = stamp.now } ∷ [];
    },
  )

  unfoldable pub create : (engine : Engine F) → AuditLog F → Action engine.Db (Unit {0})
  create engine entry =
      if is_blank entry.request_id
      then fail (errorf "audit request id is required")
      else map_err (wrapped "create immutable audit entry")
          (engine.exec (create_audit_statement entry))
