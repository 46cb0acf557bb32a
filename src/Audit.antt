-- ===== src/Audit.antt =====
-- internal/audit/audit.go: the audit log in memory. `V` is the type of the values in an entry's
-- data; an identifier and a time stamp, which the code takes from the random source and the clock,
-- are arguments.
pub mod Ring
pub mod Redaction
use scopepilot.Prelude.{
  ℕ, zero, suc, ◌+◌, ◌-◌, ◌≤◌, ◌<◌, ◌≡◌, refl, String, Bool, true, false, ◌&&◌, not, List, [], ◌∷◌,
  ◌++◌, Option, none, some, arith, leb, ltb, ◌==◌, if◌then◌else◌, same, string_eq, keep, find_first,
  length, tail, get_elem?, lookup, insert,
}
use scopepilot.Number.{ℤ, pos, negsuc}

module _ (V : Type 0) where
  -- A nil map is `none`.
  pub record Entry : Type 0 where
    pub id : String
    pub timestamp : String
    pub component : String
    pub event_type : String
    pub fields : Option (List (String × V))  -- `Data`
    pub redacted : Bool

  pub record Logger : Type 0 where
    pub entries : List Entry
    pub max_entries : ℕ

module _ {V : Type 0} where
  -- NewLogger
  unfoldable pub new_logger : ℤ → Logger V
  new_logger (pos n) = record { entries = []; max_entries = if ltb n 1 then 1 else n }
  new_logger (negsuc n) = record { entries = []; max_entries = 1 }

  unfoldable pub new_entry :
      String → String → String → String → Option (List (String × V)) → Entry V
  new_entry id timestamp component event_type fields = record {
    id = id;
    timestamp = timestamp;
    component = component;
    event_type = event_type;
    fields = fields;
    redacted = false;
  }

  -- The end of Log, with the entry that it has made: the oldest goes where the log is full.
  unfoldable pub append_entry : Logger V → Entry V → Logger V
  append_entry l entry = record l {
    entries =
        (if leb l.max_entries (length l.entries) then tail l.entries else l.entries)
        ++ (entry ∷ []);
  }

  -- Log
  unfoldable pub log :
      Logger V → String → String → String → String → Option (List (String × V)) → Logger V × Entry V
  unfolding append_entry new_entry
  log l id timestamp component event_type fields =
      let entry = new_entry id timestamp component event_type fields in
      (append_entry l entry, entry)

  abbrev pub or_nil : Option (Entry V) → List (Entry V)
  or_nil none = []
  or_nil (some e) = e ∷ []

  -- The loop of Recent: `i` is its variable and `n` counts the rounds left.
  unfoldable pub collect : List (Entry V) → ℕ → ℕ → List (Entry V)
  collect entries i zero = []
  collect entries i (suc n) =
      or_nil (get_elem? entries (length entries - 1 - i)) ++ collect entries (suc i) n

  -- Recent
  unfoldable pub recent : Logger V → ℤ → List (Entry V)
  unfolding collect
  recent l (pos n) =
      let len = length l.entries in
      if n == 0 then [] else collect l.entries 0 (if ltb len n then len else n)
  recent l (negsuc n) = []

  -- Search. The two `continue`s of the loop drop an entry.
  unfoldable pub search_log : Logger V → String → String → List (Entry V)
  search_log l event_type component =
      keep
        (λ e.
          not (not (same event_type "") && not (same e.event_type event_type))
          && not (not (same component "") && not (same e.component component)))
        l.entries

  -- One field of the last loop of RedactEntry.
  abbrev pub redact_field : V → String → List (String × V) → Option V → List (String × V)
  redact_field mark f fields none = fields
  redact_field mark f fields (some v) = insert f mark fields

  -- The last loop of RedactEntry, over the fields in any order.
  unfoldable pub redact_fields : V → List String → List (String × V) → List (String × V)
  redact_fields mark [] fields = fields
  redact_fields mark (f ∷ fs) fields =
      redact_fields mark fs (redact_field mark f fields (lookup f fields))

  abbrev pub redact_data : V → List String → Option (List (String × V)) → Option (List (String × V))
  unfolding redact_fields
  redact_data mark fs none = none
  redact_data mark fs (some fields) = some (redact_fields mark fs fields)

  -- RedactEntry of an entry that is not nil. `mark` is "[REDACTED]".
  unfoldable pub redact_entry : V → Entry V → List String → Entry V
  unfolding redact_fields
  redact_entry mark e fs = record e { fields = redact_data mark fs e.fields; redacted = true }

  abbrev redact_found : V → List String → Option (Entry V) → Option (Entry V)
  unfolding redact_entry
  redact_found mark fs none = none
  redact_found mark fs (some e) = some (redact_entry mark e fs)

  -- Redact: it returns the copy and leaves the log as it is.
  unfoldable pub redact : V → Logger V → String → List String → Logger V × Option (Entry V)
  unfolding redact_entry
  redact mark l id fs = (l, redact_found mark fs (find_first (λ e. same e.id id) l.entries))
