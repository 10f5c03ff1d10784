-- ===== src/Security/Log.antt =====
-- The ring of the security events of src/security.c.
use tabla_rusa_os.Base.{ℕ, ◌-◌, ◌%◌, Text, List, [], ◌∷◌}
use tabla_rusa_os.Security.Table.{
  Severity, Sec, Event, event_max, security_log_event, security_audit,
}

-- The arguments of a call of `security_log_event`.
pub record Report : Type 0 where
  pub severity : Severity
  pub category : Text
  pub app : Text
  pub resource : Text
  pub action : Text
  pub decision : Text
  pub explanation : Text
  pub suggestion : Text

unfoldable pub log_report : Report → Sec → Sec
unfolding security_log_event security_audit
log_report r s =
    security_log_event r.severity r.category r.app r.resource r.action r.decision r.explanation
      r.suggestion s

-- The calls for a list of reports, one after the other.
unfoldable pub log_reports : List Report → Sec → Sec
unfolding log_report
log_reports [] s = s
log_reports (r ∷ rs) s = log_reports rs (log_report r s)

-- The entry that a reader of the table finds for a report: all of it, with its number and tick.
abbrev pub recorded : ℕ → ℕ → Report → Event
recorded id tick r = record {
  id = id;
  tick = tick;
  severity = r.severity;
  category = r.category;
  app = r.app;
  resource = r.resource;
  action = r.action;
  decision = r.decision;
  explanation = r.explanation;
  suggestion = r.suggestion;
}

-- The slot of a number.
abbrev pub slot_of : ℕ → ℕ
slot_of id = (id - 1) % event_max
