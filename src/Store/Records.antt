-- ===== src/Store/Records.antt =====
-- What the other records leave in the store.
use scopepilot.Prelude.{
  ℕ, ◌≡◌, refl, ap, ◌≢◌, ◌⊎◌, inl, inr, String, true, false, [], ◌∷◌, ◌++◌, if◌then◌else◌, same,
  same_iff, string_eq, lookup-insert_self, lookup-insert_ne, Bool-cases,
}
use scopepilot.Number.{pos}
use scopepilot.Text.{Text, codes, text_eq, text_eq_iff, text_keys}
use scopepilot.Audit.{new_logger}
use scopepilot.Store.{
  Finding, MemoryStore, complete_finding, get_assets, get_findings, record_finding, get_tested,
  or_nil, StoreConfig, postgres_unavailable, new_configured_store, new_memory_store,
}

-- RecordFinding adds one finding at the end of those of its program and changes nothing else: the
-- finding keeps what it has, and where it has no identifier, status or time, it is given the new
-- identifier, "open" and the time. So it has an identifier and a status, if the new one is not empty.
pub record_finding-get :
    {V : Type 0} (s : MemoryStore V) (new_id : Text) (now : ℕ) (program other : Text) (f : Finding)
    → new_id ≢ []
    → program ≢ other
    → let (s', f') = record_finding s new_id now program f in
      (get_findings s' program ≡ get_findings s program ++ (f' ∷ []))
      × (get_findings s' other ≡ get_findings s other)
      × (get_assets s' program ≡ get_assets s program)
      × (get_tested s' program ≡ get_tested s program)
      × (f'.id ≢ [])
      × (f'.status ≢ [])
      × ((f'.id ≡ f.id) ⊎ ((f.id ≡ []) × (f'.id ≡ new_id)))
unfolding record_finding get_findings get_assets get_tested complete_finding
record_finding-get s new_id now program other f named ne = (
  ap or_nil (lookup-insert_self program _ s.findings),
  ap or_nil (lookup-insert_ne program other _ s.findings ne),
  refl,
  refl,
  given f.id new_id named,
  given f.status (codes "open") (λ e. cc),
  elim (Bool-cases (text_eq f.id [])) [
    | inl b ↦ inr ((text_eq_iff f.id []).0 b, rw b refl)
    | inr b ↦ inl (rw b refl)
  ],
)
  where
    given : (x y : Text) → y ≢ [] → (if text_eq x [] then y else x) ≢ []
    given x y n = elim (Bool-cases (text_eq x [])) [
      | inl b ↦ rw b n
      | inr b ↦ rw b (λ e. cc (b, (text_eq_iff x []).1 e))
    ]

-- A binary without the tag `postgres` opens no store where PostgreSQL is configured, by the
-- configuration or by the environment, and else an empty one in memory for 5000 entries.
pub new_configured_store_iff :
    {V : Type 0} (env : String → String) (cfg : StoreConfig)
    → ((new_configured_store {V = V} env cfg ≡ inl postgres_unavailable)
        × ((cfg.postgres_enabled ≡ true)
            ⊎ (cfg.conn_string ≢ "")
            ⊎ (env "DATABASE_URL" ≢ "")
            ⊎ (env "SCOPEPILOT_POSTGRES_ENABLED" ≡ "true")))
      ⊎ ((new_configured_store {V = V} env cfg
            ≡ inr (record {
              logger = new_logger (pos 5000);
              assets = [];
              findings = [];
              tested = [];
            }))
          × (cfg.postgres_enabled ≡ false)
          × (cfg.conn_string ≡ "")
          × (env "DATABASE_URL" ≡ "")
          × (env "SCOPEPILOT_POSTGRES_ENABLED" ≢ "true"))
unfolding new_configured_store new_memory_store
new_configured_store_iff env cfg = elim (Bool-cases cfg.postgres_enabled) [
  | inl a ↦ inl (rw a refl, inl a)
  | inr a ↦ elim (Bool-cases (same cfg.conn_string "")) [
    | inr b ↦ inl (rw (a, b) refl, inr (inl (λ e. cc (b, (same_iff cfg.conn_string "").1 e))))
    | inl b ↦ elim (Bool-cases (same (env "DATABASE_URL") "")) [
      | inr c ↦
          inl (
            rw (a, b, c) refl,
            inr (inr (inl (λ e. cc (c, (same_iff (env "DATABASE_URL") "").1 e)))),
          )
      | inl c ↦ elim (Bool-cases (same (env "SCOPEPILOT_POSTGRES_ENABLED") "true")) [
        | inl d ↦ inl (
          rw (a, b, c, d) refl,
          inr (inr (inr ((same_iff (env "SCOPEPILOT_POSTGRES_ENABLED") "true").0 d))),
        )
        | inr d ↦ inr (
          rw (a, b, c, d) refl,
          a,
          (same_iff cfg.conn_string "").0 b,
          (same_iff (env "DATABASE_URL") "").0 c,
          (λ e. cc (d, (same_iff (env "SCOPEPILOT_POSTGRES_ENABLED") "true").1 e)),
        )
      ]
    ]
  ]
]
