-- ===== src/Audit/Redaction.antt =====
-- What redaction hides.
use scopepilot.Prelude.{
  ◌≡◌, refl, sym, ap, ◌∙◌, inl, inr, String, Bool, true, false, List, [], ◌∷◌, Option, none, some,
  arith, any, same, same_iff, string_eq, lookup, lookup-insert, Bool-cases, Option-cases,
  if◌then◌else◌, find_first,
}
use scopepilot.Audit.{Entry, Logger, redact_fields, redact_field, redact_entry, redact, redact_data}

-- Whether a key is among the fields to hide.
abbrev pub listed : String → List String → Bool
listed k fs = any (λ f. same f k) fs

module _ {V : Type 0} where
  abbrev pub hidden : V → Option V → Option V
  hidden mark none = none
  hidden mark (some v) = some mark

  one_field :
      (mark : V) (f k : String) (fields : List (String × V))
      → lookup k (redact_field mark f fields (lookup f fields))
        ≡ (if same f k then hidden mark (lookup k fields) else lookup k fields)
  one_field mark f k fields = elim (Option-cases (lookup f fields)) [
    | inl e ↦ elim (Bool-cases (same f k)) [
      | inl s ↦
          let gone : lookup k fields ≡ none =
            ap (λ x. lookup x fields) (sym ((same_iff f k).0 s)) ∙ e in
          rw (e, s, gone)
      | inr s ↦ rw (e, s)
    ]
    | inr (v, e) ↦ elim (Bool-cases (same f k)) [
      | inl s ↦
          let there : lookup k fields ≡ some v =
            ap (λ x. lookup x fields) (sym ((same_iff f k).0 s)) ∙ e in
          rw e (lookup-insert f k mark fields ∙ rw (s, there))
      | inr s ↦ rw e (lookup-insert f k mark fields ∙ rw s)
    ]
  ]

  -- After redaction a key that is to be hidden has the mark if it had a value, and none if it had
  -- none; every other key has what it had. The order and repetition of the fields do not matter.
  pub lookup-redact_fields :
      (mark : V) (fs : List String) (fields : List (String × V)) (k : String)
      → lookup k (redact_fields mark fs fields)
        ≡ (if listed k fs then hidden mark (lookup k fields) else lookup k fields)
  unfolding redact_fields
  lookup-redact_fields mark [] fields k = refl
  lookup-redact_fields mark (f ∷ fs) fields k =
      lookup-redact_fields mark fs (redact_field mark f fields (lookup f fields)) k
      ∙ rw (one_field mark f k fields) (twice (same f k) (listed k fs) (lookup k fields))
    where
      twice :
          (a b : Bool) (o : Option V)
          → (if b
              then hidden mark (if a then hidden mark o else o)
              else (if a then hidden mark o else o))
            ≡ (if (if a then true else b) then hidden mark o else o)
      twice true true none = refl
      twice true true (some v) = refl
      twice true false o = refl
      twice false true o = refl
      twice false false o = refl

  abbrev pub field_of : Entry V → String → Option V
  field_of e k = elim e.fields [ none ↦ none | some fields ↦ lookup k fields ]

  -- Redact finds the first entry with the id and returns a copy that is marked redacted and otherwise
  -- has the entry's own id, time, component and type, with the listed fields hidden and no other
  -- changed. The log, the entry in it included, stays as it is: it is not marked as redacted.
  pub redact_lem :
      (mark : V) (l : Logger V) (id : String) (fs : List String) (e : Entry V)
      → find_first (λ x. same x.id id) l.entries ≡ some e
      → let (l', found) = redact mark l id fs in
        (l' ≡ l)
        × ((c : Entry V) × (found ≡ some c)
            × (c.redacted ≡ true)
            × (c.id ≡ e.id)
            × (c.timestamp ≡ e.timestamp)
            × (c.component ≡ e.component)
            × (c.event_type ≡ e.event_type)
            × ((k : String)
                → field_of c k
                  ≡ (if listed k fs then hidden mark (field_of e k) else field_of e k)))
  unfolding redact
  redact_lem mark l id fs e found =
      (refl, (redact_entry mark e fs, rw found, refl, refl, refl, refl, refl, fields_of e))
    where
      fields_of :
          (e : Entry V) (k : String)
          → field_of (redact_entry mark e fs) k
            ≡ (if listed k fs then hidden mark (field_of e k) else field_of e k)
      fields_of e k = by_data e.fields
        where
          by_data :
              (d : Option (List (String × V)))
              → (elim (redact_data mark fs d) [ none ↦ none | some fields ↦ lookup k fields ]) ≡ (
                  if listed k fs
                  then hidden mark (elim d [ none ↦ none | some fields ↦ lookup k fields ])
                  else (elim d [ none ↦ none | some fields ↦ lookup k fields ]))
          by_data none = ground arith
          by_data (some fields) = lookup-redact_fields mark fs fields k
