-- ===== src/Examples/Logs.antt =====
-- A log of two entries, for internal/audit/audit.go.
use scopepilot.Prelude.{◌≡◌, refl, String, true, false, [], ◌∷◌, some, string_eq, if◌then◌else◌}
use scopepilot.Number.{pos}
use scopepilot.Audit.{Entry, Logger, new_logger, redact}
use scopepilot.Audit.Ring.{log_all, last_of, log_all-last_of}
use scopepilot.Audit.Redaction.{redact_lem, field_of, listed, hidden}

abbrev entry : String → Entry String
entry id = record {
  id = id;
  timestamp = "t";
  component = "proxy";
  event_type = "allow";
  fields = some (("token", "secret") ∷ ("host", "a") ∷ []);
  redacted = false;
}

abbrev logger : Logger String
logger = record { entries = entry "1" ∷ entry "2" ∷ []; max_entries = 5 }

log_all-last_of_example :
    (log_all (new_logger (pos 1)) (entry "1" ∷ entry "2" ∷ [])).entries
    ≡ last_of (new_logger {V = String} (pos 1)).max_entries (entry "1" ∷ entry "2" ∷ [])
log_all-last_of_example = log_all-last_of (pos 1) (entry "1" ∷ entry "2" ∷ [])

redact_lem_example :
    let (l', found) = redact "[REDACTED]" logger "2" ("token" ∷ []) in
    (l' ≡ logger)
    × ((c : Entry String) × (found ≡ some c)
        × (c.redacted ≡ true)
        × (c.id ≡ "2")
        × (c.timestamp ≡ "t")
        × (c.component ≡ "proxy")
        × (c.event_type ≡ "allow")
        × ((k : String)
            → field_of c k ≡ (
                if listed k ("token" ∷ [])
                then hidden "[REDACTED]" (field_of (entry "2") k)
                else field_of (entry "2") k)))
redact_lem_example = redact_lem "[REDACTED]" logger "2" ("token" ∷ []) (entry "2") refl
