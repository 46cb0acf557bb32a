-- ===== src/Store/Hosts.antt =====
-- The assets of a program stay distinct by host.
use scopepilot.Prelude.{
  ℕ, sym, ap, ◌≢◌, inl, inr, List, [], ◌∷◌, same, same_iff, string_eq, lookup-insert_ne, All,
  Bool-cases,
}
use scopepilot.Text.{Text, text_keys}
use scopepilot.Store.{
  Asset, MemoryStore, stamp, merge_asset, upsert, upsert_all, get_assets, record_assets, or_nil,
}
use scopepilot.Store.Assets.{recorded}

-- No two assets have one host.
abbrev pub DistinctHosts : List Asset → Type 0
DistinctHosts [] = Unit
DistinctHosts (e ∷ es) = All (λ x. x.host_name ≢ e.host_name) es × DistinctHosts es

upsert-All :
    (P : Text → Type 0) (now : ℕ) (a : Asset) (es : List Asset)
    → P a.host_name
    → All (λ x. P x.host_name) es
    → All (λ x. P x.host_name) (upsert now a es)
unfolding upsert merge_asset
upsert-All P now a [] p all = (p, tt)
upsert-All P now a (e ∷ es) p all = elim (Bool-cases (same e.host_name a.host_name)) [
  | inl b ↦ rw b all
  | inr b ↦ rw b (all.0, upsert-All P now a es p all.1)
]

upsert-DistinctHosts :
    (now : ℕ) (a : Asset) (es : List Asset) → DistinctHosts es → DistinctHosts (upsert now a es)
unfolding upsert merge_asset
upsert-DistinctHosts now a [] d = (tt, tt)
upsert-DistinctHosts now a (e ∷ es) d = elim (Bool-cases (same e.host_name a.host_name)) [
  | inl b ↦ rw b d
  | inr b ↦ rw b (
    upsert-All (λ x. x ≢ e.host_name) now a es
        (λ q. cc (b, (same_iff e.host_name a.host_name).1 (sym q))) d.0,
    upsert-DistinctHosts now a es d.1,
  )
]

all-DistinctHosts :
    (now : ℕ) (xs es : List Asset) → DistinctHosts es → DistinctHosts (upsert_all now xs es)
unfolding upsert_all
all-DistinctHosts now [] es d = d
all-DistinctHosts now (a ∷ xs) es d =
    all-DistinctHosts now xs (upsert now (stamp now a) es)
      (upsert-DistinctHosts now (stamp now a) es d)

-- RecordAssets keeps the assets of every program distinct by host, whatever hosts a call repeats.
pub record_assets-DistinctHosts :
    {V : Type 0} (s : MemoryStore V) (now : ℕ) (program : Text) (xs : List Asset) (q : Text)
    → DistinctHosts (get_assets s program)
    → DistinctHosts (get_assets s q)
    → DistinctHosts (get_assets (record_assets s now program xs) q)
unfolding get_assets record_assets
record_assets-DistinctHosts s now program xs q d all = elim (Bool-cases (same program q)) [
  | inl b ↦
      rw (sym ((same_iff program q).0 b), recorded s now program xs)
        (all-DistinctHosts now xs (get_assets s program) d)
  | inr b ↦
      rw
        (ap or_nil (
          lookup-insert_ne program q (upsert_all now xs (get_assets s program)) s.assets
            (λ e. cc (b, (same_iff program q).1 e))))
        all
]
