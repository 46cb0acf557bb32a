-- ===== src/Scope/Hosts.antt =====
-- Which hosts IsHostInScope admits.
use scopepilot.Prelude.{
  ◌≡◌, ◌≢◌, ◌↔◌, inl, inr, true, false, [], Option, All, Any, All-Any, First, First→Any,
  find_first_decides, eq_iff, string_eq, Bool-cases,
}
use scopepilot.Text.{Text, text_eq, text_eq_iff}
use scopepilot.Normalize.{host}
use scopepilot.Scope.{
  ScopeRule, Engine, Decision, excludes_host, is_path_prefix, match_host_rule, is_host_in_scope,
  excluded_by, included_by, empty_host, no_rule_matches, deny, deny_by,
}
use scopepilot.Scope.Rules.{Matches, match_host_rule_iff}

module _ (to_ascii : Text → Option Text) where
  -- A host rule: any but a `path_prefix` rule, which excludes paths and no host.
  abbrev pub Excludes : Text → ScopeRule → Type 0
  Excludes h rule = (rule.type ≢ "path_prefix") × Matches to_ascii rule h

  pub record Admits (e : Engine) (h : Text) : Type 0 where
    pub named : h ≢ []
    pub not_excluded : All (λ rule. ¬ Excludes h rule) e.excludes
    pub included : Any (λ rule. Matches to_ascii rule h) e.includes

  Excludes-true :
      (h : Text) (rule : ScopeRule) → excludes_host to_ascii h rule ≡ true → Excludes h rule
  Excludes-true h rule m = elim (Bool-cases (is_path_prefix rule)) [
    | inl p ↦ cc (rw p at m)
    | inr p ↦ (λ t. cc ((eq_iff _ _).1 t), (match_host_rule_iff to_ascii rule h).0 (rw p at m))
  ]

  Excludes-false :
      (h : Text) (rule : ScopeRule) → excludes_host to_ascii h rule ≡ false → ¬ Excludes h rule
  Excludes-false h rule m (t, matches) = elim (Bool-cases (is_path_prefix rule)) [
    | inl p ↦ t ((eq_iff _ _).0 p)
    | inr p ↦ cc (rw p at m, (match_host_rule_iff to_ascii rule h).1 matches)
  ]

  pub mismatch :
      (h : Text) (rule : ScopeRule)
      → match_host_rule to_ascii rule h ≡ false
      → ¬ Matches to_ascii rule h
  mismatch h rule m matches = cc ((match_host_rule_iff to_ascii rule h).1 matches)

  -- What IsHostInScope may decide of a normalized host, with the rule at which it stopped.
  pub data HostVerdict (e : Engine) (h : Text) (d : Decision) : Type 0 where
    unnamed : h ≡ [] → d ≡ deny empty_host → HostVerdict e h d
    excluded :
        (rule : ScopeRule)
        → h ≢ []
        → First (Excludes h) e.excludes rule
        → d ≡ deny_by (excluded_by rule) rule
        → HostVerdict e h d
    unmatched :
        All (λ rule. ¬ Matches to_ascii rule h) e.includes
        → d ≡ deny no_rule_matches
        → HostVerdict e h d
    admitted :
        (rule : ScopeRule)
        → Admits e h
        → First (λ r. Matches to_ascii r h) e.includes rule
        → d ≡ record { in_scope = true; reason = included_by rule; matched_rule = rule.value }
        → HostVerdict e h d

  -- IsHostInScope denies an empty host; else it denies by the first exclusion that matches; else it
  -- admits by the first inclusion that matches; else it denies. Path rules exclude no host.
  pub is_host_in_scope-verdict :
      (e : Engine) (raw : Text)
      → HostVerdict e (host to_ascii raw) (is_host_in_scope to_ascii e raw)
  unfolding is_host_in_scope
  is_host_in_scope-verdict e raw = elim (Bool-cases (text_eq h [])) [
    | inl b ↦ unnamed ((text_eq_iff h []).0 b) (rw b)
    | inr b ↦
        elim (find_first_decides (excludes_host to_ascii h) (Excludes-true h) (Excludes-false h)
          e.excludes) [
            | inr (rule, f, first) ↦
                excluded rule (λ n. cc ((text_eq_iff h []).1 n)) first (rw (b, f))
            | inl (f, none_excludes) ↦
                elim (find_first_decides (λ r. match_host_rule to_ascii r h)
                  (λ r. (match_host_rule_iff to_ascii r h).0) (mismatch h) e.includes) [
                    | inl (g, none_includes) ↦ unmatched none_includes (rw (b, f, g))
                    | inr (rule, g, first) ↦
                        admitted rule
                          (record {
                            named = λ n. cc ((text_eq_iff h []).1 n);
                            not_excluded = none_excludes;
                            included = First→Any _ e.includes rule first;
                          })
                          first (rw (b, f, g))
                  ]
          ]
  ]
    where
      h : Text
      h = host to_ascii raw

  verdict-Admits :
      (e : Engine) (h : Text) (d : Decision) → HostVerdict e h d → d.in_scope ≡ true → Admits e h
  verdict-Admits e h d (unnamed n q) t = cc
  verdict-Admits e h d (excluded rule n f q) t = cc
  verdict-Admits e h d (unmatched all q) t = cc
  verdict-Admits e h d (admitted rule a f q) t = a

  Admits-verdict :
      (e : Engine) (h : Text) (d : Decision) → HostVerdict e h d → Admits e h → d.in_scope ≡ true
  Admits-verdict e h d (unnamed n q) a = absurd (a.named n)
  Admits-verdict e h d (excluded rule n f q) a = absurd (
      All-Any (λ r no_match match. no_match match) e.excludes a.not_excluded (First→Any _ _ rule f))
  Admits-verdict e h d (unmatched all q) a =
      absurd (All-Any (λ r no_match match. no_match match) e.includes all a.included)
  Admits-verdict e h d (admitted rule _ f q) a = rw q

  -- IsHostInScope admits a host exactly when its normal form is not empty, no exclusion but a path
  -- rule matches that form, and some inclusion matches it: exclusions override inclusions.
  pub is_host_in_scope_iff :
      (e : Engine) (raw : Text)
      → ((is_host_in_scope to_ascii e raw).in_scope ≡ true) ↔ Admits e (host to_ascii raw)
  is_host_in_scope_iff e raw =
      let v = is_host_in_scope-verdict e raw in
      (verdict-Admits e (host to_ascii raw) _ v, Admits-verdict e (host to_ascii raw) _ v)
