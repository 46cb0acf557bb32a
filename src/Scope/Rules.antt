-- ===== src/Scope/Rules.antt =====
-- What it means for a scope rule to match a host, and that `matchHostRule` decides it.
use scopepilot.Prelude.{
  ◌≡◌, ap, ◌↔◌, ◌⊎◌, inl, inr, Bool, true, false, ◌++◌, Option, arith, drop, if◌then◌else◌, not,
  same, eq_iff, string_eq, Bool-cases,
}
use scopepilot.Text.{
  Text, codes, equal_fold, has_prefix, has_suffix, to_lower, equal_fold_iff, has_prefix_split,
  has_suffix-append, has_suffix_split,
}
use scopepilot.Normalize.{host}
use scopepilot.Scope.{ScopeRule, match_wildcard, match_host_rule}

wildcard_parts :
    (pattern h : Text) (apex : Bool)
    → (if not (has_prefix pattern (codes "*."))
        then false
        else if has_suffix h (drop 1 pattern)
        then true
        else if apex
        then equal_fold h (drop 2 pattern)
        else false)
      ≡ true
    → (has_prefix pattern (codes "*.") ≡ true)
      × ((has_suffix h (drop 1 pattern) ≡ true)
          ⊎ ((apex ≡ true) × (equal_fold h (drop 2 pattern) ≡ true)))
wildcard_parts pattern h apex m = ground arith

module _ (to_ascii : Text → Option Text) where
  -- `below`: the host is a label path, a dot and the pattern's domain.
  pub data Matches (rule : ScopeRule) (h : Text) : Type 0 where
    exact :
        rule.type ≡ "exact_host" → to_lower h ≡ to_lower (host to_ascii rule.value) → Matches rule h
    below :
        rule.type ≡ "wildcard_host"
        → (domain labels : Text) → host to_ascii rule.value ≡ codes "*." ++ domain
        → host to_ascii h ≡ labels ++ (codes "." ++ domain)
        → Matches rule h
    apex :
        rule.type ≡ "wildcard_host"
        → rule.include_apex ≡ true
        → (domain : Text) → host to_ascii rule.value ≡ codes "*." ++ domain
        → to_lower (host to_ascii h) ≡ to_lower domain
        → Matches rule h
    on_path :
        rule.type ≡ "path_prefix"
        → to_lower h ≡ to_lower (host to_ascii rule.host_part)
        → Matches rule h

  wildcard_true :
      (rule : ScopeRule) (h : Text)
      → rule.type ≡ "wildcard_host"
      → match_wildcard to_ascii rule.value h rule.include_apex ≡ true
      → Matches rule h
  unfolding match_wildcard
  wildcard_true rule h t m = by_pattern (has_prefix_split pattern (codes "*.") parts.0) parts.1
    where
      pattern : Text
      pattern = host to_ascii rule.value

      parts :
          (has_prefix pattern (codes "*.") ≡ true)
          × ((has_suffix (host to_ascii h) (drop 1 pattern) ≡ true)
              ⊎ ((rule.include_apex ≡ true)
                  × (equal_fold (host to_ascii h) (drop 2 pattern) ≡ true)))
      parts = wildcard_parts pattern (host to_ascii h) rule.include_apex m

      by_pattern :
          (r : Text) × (pattern ≡ codes "*." ++ r)
          → (has_suffix (host to_ascii h) (drop 1 pattern) ≡ true)
            ⊎ ((rule.include_apex ≡ true) × (equal_fold (host to_ascii h) (drop 2 pattern) ≡ true))
          → Matches rule h
      by_pattern (domain, e) (inl q) =
          let (labels, s) =
            has_suffix_split (host to_ascii h) (codes "." ++ domain) (rw (ap (drop 1) e) at q) in
          below t domain labels e s
      by_pattern (domain, e) (inr (i, q)) =
          apex t i domain e ((equal_fold_iff (host to_ascii h) domain).0 (rw (ap (drop 2) e) at q))

  match_true :
      (rule : ScopeRule) (h : Text) → match_host_rule to_ascii rule h ≡ true → Matches rule h
  unfolding match_host_rule
  match_true rule h m = elim (Bool-cases (same rule.type "exact_host")) [
    | inl a ↦ exact ((eq_iff _ _).0 a) ((equal_fold_iff h (host to_ascii rule.value)).0 (rw a at m))
    | inr a ↦ elim (Bool-cases (same rule.type "wildcard_host")) [
      | inl b ↦ wildcard_true rule h ((eq_iff _ _).0 b) (rw (a, b) at m)
      | inr b ↦ elim (Bool-cases (same rule.type "path_prefix")) [
        | inl c ↦
            on_path ((eq_iff _ _).0 c)
              ((equal_fold_iff h (host to_ascii rule.host_part)).0 (rw (a, b, c) at m))
        | inr c ↦ cc (rw (a, b, c) at m)
      ]
    ]
  ]

  matched : (rule : ScopeRule) (h : Text) → Matches rule h → match_host_rule to_ascii rule h ≡ true
  unfolding match_host_rule match_wildcard has_prefix
  matched rule h (exact t e) = rw t ((equal_fold_iff h (host to_ascii rule.value)).1 e)
  matched rule h (below t domain labels e s) =
      rw (t, e, s, has_suffix-append labels (codes "." ++ domain))
  matched rule h (apex t i domain e s) =
      rw (t, e, i, (equal_fold_iff (host to_ascii h) domain).1 s) (ground arith)
  matched rule h (on_path t e) = rw t ((equal_fold_iff h (host to_ascii rule.host_part)).1 e)

  -- `matchHostRule` returns true for a rule and a host exactly when the rule matches the host: an
  -- `exact_host` or `path_prefix` rule names the host up to case, a `wildcard_host` rule's pattern
  -- is "*." and a domain, and the host ends in a dot and the domain or, with `include_apex`, is it.
  pub match_host_rule_iff :
      (rule : ScopeRule) (h : Text) → (match_host_rule to_ascii rule h ≡ true) ↔ Matches rule h
  match_host_rule_iff rule h = (match_true rule h, matched rule h)
