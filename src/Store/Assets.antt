-- ===== src/Store/Assets.antt =====
-- What RecordAssets leaves in the store.
use scopepilot.Prelude.{
  ℕ, ◌≤◌, ◌≡◌, refl, sym, subst, ap, ◌∙◌, ◌≢◌, ◌⊎◌, inl, inr, true, false, List, [], ◌∷◌, Option,
  none, some, arith, ltb, ltb→lt, if◌then◌else◌, same, same_iff, string_eq, find_first,
  lookup-insert_self, lookup-insert_ne, All, All-map, Bool-cases,
}
use scopepilot.Text.{Text, text_keys}
use scopepilot.Store.{
  Asset, MemoryStore, stamp, merge_asset, upsert, upsert_all, get_assets, record_assets, or_nil,
}
use scopepilot.Store.Tech.{Has, merge_tech_lem}

-- The asset of a host.
abbrev pub find_asset : Text → List Asset → Option Asset
find_asset h es = find_first (λ e. same e.host_name h) es

-- One host alone: what becomes of it with an asset of its own.
abbrev pub renewed : ℕ → Asset → Option Asset → Asset
renewed now a none = stamp now a
renewed now a (some e) = merge_asset now (stamp now a) e

-- One host alone, with the assets of a call: those of its own count, in their order.
abbrev pub renewed_by : ℕ → Text → List Asset → Option Asset → Option Asset
renewed_by now h [] o = o
renewed_by now h (a ∷ xs) o =
    if same a.host_name h
    then renewed_by now h xs (some (renewed now a o))
    else renewed_by now h xs o

no_other : (x y z : Text) → same x y ≡ false → same x z ≡ true → same y z ≡ false
no_other x y z ne e = elim (Bool-cases (same y z)) [
  | inl k ↦ cc (ne, (same_iff x y).1 ((same_iff x z).0 e ∙ sym ((same_iff y z).0 k)))
  | inr k ↦ k
]

upsert-find :
    (now : ℕ) (a : Asset) (h : Text) (es : List Asset)
    → find_asset h (upsert now (stamp now a) es)
      ≡ (if same a.host_name h then some (renewed now a (find_asset h es)) else find_asset h es)
unfolding upsert merge_asset
upsert-find now a h [] = refl
upsert-find now a h (e ∷ es) = elim (Bool-cases (same e.host_name a.host_name)) [
  | inl b ↦
      let q : same e.host_name h ≡ same a.host_name h =
        ap (λ x. same x h) ((same_iff e.host_name a.host_name).0 b) in
      elim (Bool-cases (same e.host_name h)) [
        | inl c ↦ rw (b, c, sym q ∙ c) refl
        | inr c ↦ rw (b, c, sym q ∙ c) refl
      ]
  | inr b ↦ elim (Bool-cases (same e.host_name h)) [
    | inl c ↦ rw (b, c, no_other e.host_name a.host_name h b c) refl
    | inr c ↦ rw (b, c, upsert-find now a h es) refl
  ]
]

upsert_all-find :
    (now : ℕ) (h : Text) (xs es : List Asset)
    → find_asset h (upsert_all now xs es) ≡ renewed_by now h xs (find_asset h es)
unfolding upsert_all
upsert_all-find now h [] es = refl
upsert_all-find now h (a ∷ xs) es = elim (Bool-cases (same a.host_name h)) [
  | inl b ↦
      upsert_all-find now h xs (upsert now (stamp now a) es) ∙ rw (upsert-find now a h es, b) refl
  | inr b ↦
      upsert_all-find now h xs (upsert now (stamp now a) es) ∙ rw (upsert-find now a h es, b) refl
]

pub recorded :
    {V : Type 0} (s : MemoryStore V) (now : ℕ) (program : Text) (xs : List Asset)
    → get_assets (record_assets s now program xs) program ≡ upsert_all now xs (get_assets s program)
unfolding get_assets record_assets
recorded s now program xs = ap or_nil (lookup-insert_self program _ s.assets)

-- RecordAssets treats each host on its own: the asset of a host is afterwards what the assets of the
-- call with that host make of the one before, in their order, and no other host's asset counts. The
-- assets of another program stay as they are.
pub record_assets-find :
    {V : Type 0} (s : MemoryStore V) (now : ℕ) (program other : Text) (xs : List Asset) (h : Text)
    → program ≢ other
    → (find_asset h (get_assets (record_assets s now program xs) program)
        ≡ renewed_by now h xs (find_asset h (get_assets s program)))
      × (get_assets (record_assets s now program xs) other ≡ get_assets s other)
unfolding get_assets record_assets
record_assets-find s now program other xs h ne = (
  ap (find_asset h) (recorded s now program xs) ∙ upsert_all-find now h xs (get_assets s program),
  ap or_nil (lookup-insert_ne program other _ s.assets ne),
)

-- The same host, seen no later, in scope if it was, with all its technologies.
pub record Grown (e e' : Asset) : Type 0 where
  pub same_host : e'.host_name ≡ e.host_name
  pub no_later : e'.first_seen ≤ e.first_seen
  pub scope_kept : (e.in_scope ≡ false) ⊎ (e'.in_scope ≡ true)
  pub tech_kept : All (λ t. Has t e'.tech) e.tech

each_Has : {P : Text → Type 0} (ts : List Text) → ((t : Text) → Has t ts → P t) → All P ts
each_Has [] f = tt
each_Has (t ∷ ts) f = (f t (inl refl), each_Has ts (λ u h. f u (inr h)))

Grown-refl : (e : Asset) → Grown e e
Grown-refl e = record {
  same_host = refl;
  no_later = omega arith;
  scope_kept = elim (Bool-cases e.in_scope) [ inl b ↦ inr b | inr b ↦ inl b ];
  tech_kept = each_Has e.tech (λ t h. h);
}

Has-trans : (P : Text → Type 0) (t : Text) (ts : List Text) → All P ts → Has t ts → P t
Has-trans P t [] all h = absurd h
Has-trans P t (x ∷ ts) all (inl e) = subst P e all.0
Has-trans P t (x ∷ ts) all (inr h) = Has-trans P t ts all.1 h

Grown-trans : (a b c : Asset) → Grown a b → Grown b c → Grown a c
Grown-trans a b c f g = record {
  same_host = g.same_host ∙ f.same_host;
  no_later = omega (arith, f.no_later, g.no_later);
  scope_kept = elim f.scope_kept [
    | inl e ↦ inl e
    | inr e ↦ elim g.scope_kept [ inl k ↦ cc | inr k ↦ inr k ]
  ];
  tech_kept =
      All-map (λ t h. Has-trans (λ u. Has u c.tech) t b.tech g.tech_kept h) a.tech f.tech_kept;
}

merge-Grown : (now : ℕ) (a e : Asset) → Grown e (merge_asset now a e)
unfolding merge_asset
merge-Grown now a e = record {
  same_host = refl;
  no_later = elim (Bool-cases (ltb a.first_seen e.first_seen)) [
    | inl b ↦ let l = ltb→lt a.first_seen e.first_seen b in rw b (omega (arith, l))
    | inr b ↦ rw b (omega arith)
  ];
  scope_kept = elim (Bool-cases a.in_scope) [
    | inl b ↦ inr (rw b refl)
    | inr b ↦ elim (Bool-cases e.in_scope) [ inl c ↦ inr (rw (b, c) refl) | inr c ↦ inl c ]
  ];
  tech_kept = each_Has e.tech (λ t h. ((merge_tech_lem e.tech a.tech).1 t).1 (inl h));
}

renewed_by-Grown :
    (now : ℕ) (h : Text) (xs : List Asset) (e : Asset)
    → (e' : Asset) × (renewed_by now h xs (some e) ≡ some e') × Grown e e'
renewed_by-Grown now h [] e = (e, refl, Grown-refl e)
renewed_by-Grown now h (a ∷ xs) e = elim (Bool-cases (same a.host_name h)) [
  | inl b ↦
      let m = merge_asset now (stamp now a) e in
      let (e', q, g) = renewed_by-Grown now h xs m in
      (e', rw b q, Grown-trans e m e' (merge-Grown now (stamp now a) e) g)
  | inr b ↦ let (e', q, g) = renewed_by-Grown now h xs e in (e', rw b q, g)
]

-- An asset of the store survives RecordAssets: its host has an asset afterwards, first seen no
-- later, in scope if it was in scope, and with all its technologies.
pub record_assets-Grown :
    {V : Type 0} (s : MemoryStore V) (now : ℕ) (program : Text) (xs : List Asset) (h : Text)
    (e : Asset)
    → find_asset h (get_assets s program) ≡ some e
    → (e' : Asset) × (find_asset h (get_assets (record_assets s now program xs) program) ≡ some e')
      × Grown e e'
record_assets-Grown s now program xs h e found =
    let (e', q, g) = renewed_by-Grown now h xs e in
    (
      e',
      ap (find_asset h) (recorded s now program xs)
          ∙ upsert_all-find now h xs (get_assets s program)
          ∙ ap (renewed_by now h xs) found
          ∙ q,
      g,
    )
