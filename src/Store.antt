-- ===== src/Store.antt =====
-- internal/db/store.go and internal/db/store_default.go: the store in memory. Every method holds the
-- lock from its first access to its last, so a call is one step; the clock, the random identifier and
-- the environment are arguments. The audit log is that of Audit.antt. The map of a program that has
-- no entry gives the nil slice.
pub mod Assets
pub mod Hosts
pub mod Tech
pub mod Records
use scopepilot.Prelude.{
  ℕ, String, Bool, true, false, ◌||◌, not, List, [], ◌∷◌, ◌++◌, Option, none, some, inl, inr, ◌⊎◌,
  ltb, ◌==◌, if◌then◌else◌, any, same, string_eq, lookup, insert,
}
use scopepilot.Number.{ℤ, pos, negsuc}
use scopepilot.Text.{Text, codes, text_eq, text_keys}
use scopepilot.Audit.{Entry, Logger, new_logger, log, recent, search_log, redact}

-- The zero Time is 0.
pub record Asset : Type 0 where
  pub host_name : Text  -- `Host`
  pub source : Text
  pub first_seen : ℕ
  pub last_seen : ℕ
  pub in_scope : Bool
  pub tech : List Text

pub record Finding : Type 0 where
  pub id : Text
  pub title : Text
  pub severity : Text
  pub host_name : Text  -- `Host`
  pub status : Text
  pub poc_ref : Text
  pub created : ℕ

pub record TestedEndpoint : Type 0 where
  pub host_name : Text  -- `Host`
  pub endpoint : Text
  pub check : Text
  pub result : Text
  pub tested_at : ℕ

-- `V` is the type of the values in an audit entry.
pub record MemoryStore (V : Type 0) : Type 0 where
  pub logger : Logger V
  pub assets : List (Text × List Asset)
  pub findings : List (Text × List Finding)
  pub tested : List (Text × List TestedEndpoint)

-- mergeSource
unfoldable pub merge_source : Text → Text → Text
merge_source a b =
    if text_eq a []
    then b
    else if text_eq b []
    then a
    else if text_eq a b
    then a
    else a ++ (b',' ∷ b)

-- One of the two loops of mergeTech: the map `seen` and the list `out`.
unfoldable pub add_unseen : List Text × List Text → List Text → List Text × List Text
add_unseen s [] = s
add_unseen (seen, out) (t ∷ ts) =
    let rest = add_unseen (t ∷ seen, out ++ (t ∷ [])) ts in
    let same_rest = add_unseen (seen, out) ts in
    if any (λ x. same x t) seen then same_rest else rest

-- mergeTech
unfoldable pub merge_tech : List Text → List Text → List Text
unfolding add_unseen
merge_tech a b = (add_unseen (add_unseen ([], []) a) b).1

-- The times that RecordAssets gives to an asset of its argument.
abbrev pub stamp : ℕ → Asset → Asset
stamp now a = record a {
  last_seen = now;
  first_seen = if a.first_seen == 0 then now else a.first_seen;
}

-- An asset of the store with one of the argument that has its host.
unfoldable pub merge_asset : ℕ → Asset → Asset → Asset
unfolding merge_source merge_tech
merge_asset now a e = record e {
  last_seen = now;
  source = merge_source e.source a.source;
  first_seen = if ltb a.first_seen e.first_seen then a.first_seen else e.first_seen;
  in_scope = if a.in_scope then true else e.in_scope;
  tech = merge_tech e.tech a.tech;
}

-- The inner loop of RecordAssets, and the asset at the end where no host is its own.
unfoldable pub upsert : ℕ → Asset → List Asset → List Asset
unfolding merge_asset
upsert now a [] = a ∷ []
upsert now a (e ∷ es) =
    if same e.host_name a.host_name then merge_asset now a e ∷ es else e ∷ upsert now a es

-- The outer loop of RecordAssets.
unfoldable pub upsert_all : ℕ → List Asset → List Asset → List Asset
unfolding upsert
upsert_all now [] existing = existing
upsert_all now (a ∷ xs) existing = upsert_all now xs (upsert now (stamp now a) existing)

abbrev pub or_nil {ℓ} : {A : Type ℓ} → Option (List A) → List A
or_nil none = []
or_nil (some xs) = xs

-- The finding that RecordFinding stores, which the caller sees through the pointer.
unfoldable pub complete_finding : Text → ℕ → Finding → Finding
complete_finding new_id now f = record f {
  id = if text_eq f.id [] then new_id else f.id;
  created = if f.created == 0 then now else f.created;
  status = if text_eq f.status [] then codes "open" else f.status;
}

module _ {V : Type 0} where
  -- NewMemoryStore
  unfoldable pub new_memory_store : ℤ → MemoryStore V
  unfolding new_logger
  new_memory_store n = record {
    logger = new_logger (at_least n);
    assets = [];
    findings = [];
    tested = [];
  }
    where
      at_least : ℤ → ℤ
      at_least (pos n) = if ltb n 1 then pos 1000 else pos n
      at_least (negsuc n) = pos 1000

  -- LogEntry
  unfoldable pub log_entry :
      MemoryStore V → String → String → String → String → Option (List (String × V)) → MemoryStore V
  unfolding log
  log_entry s id timestamp component event_type fields = record s {
    logger = (log s.logger id timestamp component event_type fields).0;
  }

  -- RecentEntries
  unfoldable pub recent_entries : MemoryStore V → ℤ → List (Entry V)
  recent_entries s n = recent s.logger n

  -- SearchEntries
  unfoldable pub search_entries : MemoryStore V → String → String → List (Entry V)
  search_entries s event_type component = search_log s.logger event_type component

  -- RedactEntry, with the mark "[REDACTED]" as a value
  unfoldable pub redact_stored : V → MemoryStore V → String → List String → Option (Entry V)
  redact_stored mark s id fields = (redact mark s.logger id fields).1

  -- GetAssets
  unfoldable pub get_assets : MemoryStore V → Text → List Asset
  get_assets s program = or_nil (lookup program s.assets)

  -- RecordAssets
  unfoldable pub record_assets : MemoryStore V → ℕ → Text → List Asset → MemoryStore V
  unfolding get_assets upsert_all
  record_assets s now program xs = record s {
    assets = insert program (upsert_all now xs (get_assets s program)) s.assets;
  }

  -- GetFindings
  unfoldable pub get_findings : MemoryStore V → Text → List Finding
  get_findings s program = or_nil (lookup program s.findings)

  -- RecordFinding
  unfoldable pub record_finding :
      MemoryStore V → Text → ℕ → Text → Finding → MemoryStore V × Finding
  unfolding get_findings complete_finding
  record_finding s new_id now program f =
      let stored = complete_finding new_id now f in
      (
        record s { findings = insert program (get_findings s program ++ (stored ∷ [])) s.findings },
        stored,
      )

  -- GetTested
  unfoldable pub get_tested : MemoryStore V → Text → List TestedEndpoint
  get_tested s program = or_nil (lookup program s.tested)

  -- MarkTested
  unfoldable pub mark_tested : MemoryStore V → ℕ → Text → TestedEndpoint → MemoryStore V
  unfolding get_tested
  mark_tested s now program te =
      let stamped = record te { tested_at = if te.tested_at == 0 then now else te.tested_at } in
      record s { tested = insert program (get_tested s program ++ (stamped ∷ [])) s.tested }

pub record StoreConfig : Type 0 where
  pub postgres_enabled : Bool
  pub conn_string : String
  pub max_conns : ℤ

pub data StoreError : Type 0 where
  postgres_unavailable : StoreError

-- NewConfiguredStore of a binary without the tag `postgres`, in an environment.
unfoldable pub new_configured_store :
    {V : Type 0} → (String → String) → StoreConfig → StoreError ⊎ MemoryStore V
unfolding new_memory_store
new_configured_store env cfg =
    if cfg.postgres_enabled
      || not (same cfg.conn_string "")
      || not (same (env "DATABASE_URL") "")
      || same (env "SCOPEPILOT_POSTGRES_ENABLED") "true"
    then inl postgres_unavailable
    else inr (new_memory_store (pos 5000))
