-- ===== src/Scope/Addresses.antt =====
-- IsIPInScope, IncludeRules and ExcludeRules of internal/scope/scope.go.
use scopepilot.Prelude.{
  ◌≡◌, ◌↔◌, inl, inr, Bool, true, false, ◌&&◌, List, Option, none, some, find_first, Any,
  Bool-cases, Option-cases, if◌then◌else◌, same, string_eq, eq_iff, and_true, All-Any, First→Any,
  find_first_decides,
}
use scopepilot.Text.{Text}
use scopepilot.Scope.{ScopeRule, Engine, Decision, deny, ip_blocked, ip_no_cidr, ip_matches}
use scopepilot.Scope.Ip.{Ip, Network, network_contains, is_blocked_ip}

-- IncludeRules, a copy of the rules
unfoldable pub include_rules : Engine → List ScopeRule
include_rules e = e.includes

-- ExcludeRules, a copy of the rules
unfoldable pub exclude_rules : Engine → List ScopeRule
exclude_rules e = e.excludes

abbrev contains_ip : Ip → Option Network → Bool
contains_ip ip none = false
contains_ip ip (some n) = network_contains n ip

-- `parse_cidr` is `net.ParseCIDR`, with none for an error.
module _ (parse_cidr : Text → Option Network) where
  abbrev cidr_matches : Ip → ScopeRule → Bool
  cidr_matches ip rule = same rule.type "cidr" && contains_ip ip (parse_cidr rule.value)

  abbrev ip_decision : Option ScopeRule → Decision
  ip_decision none = deny ip_no_cidr
  ip_decision (some rule) = record {
    in_scope = true;
    reason = ip_matches rule;
    matched_rule = rule.value;
  }

  -- IsIPInScope
  unfoldable pub is_ip_in_scope : Engine → Ip → Decision
  is_ip_in_scope e ip =
      if is_blocked_ip ip
      then deny ip_blocked
      else ip_decision (find_first (cidr_matches ip) e.includes)

  -- A rule of the type "cidr" whose network parses and contains the address.
  abbrev pub Contains : Ip → ScopeRule → Type 0
  Contains ip rule =
      (rule.type ≡ "cidr")
      × ((n : Network) × (parse_cidr rule.value ≡ some n) × (network_contains n ip ≡ true))

  matches-Contains : (ip : Ip) (rule : ScopeRule) → cidr_matches ip rule ≡ true → Contains ip rule
  matches-Contains ip rule m =
      let (t, c) = and_true (same rule.type "cidr") (contains_ip ip (parse_cidr rule.value)) m in
      elim (Option-cases (parse_cidr rule.value)) [
        | inl q ↦ cc (rw q at c)
        | inr (n, q) ↦ ((eq_iff _ _).0 t, (n, q, rw q at c))
      ]

  misses-Contains : (ip : Ip) (rule : ScopeRule) → cidr_matches ip rule ≡ false → ¬ Contains ip rule
  misses-Contains ip rule m (t, (n, q, c)) = cc (rw ((eq_iff _ _).1 t, q, c) at m)

  -- IsIPInScope admits an address exactly when isBlockedIP does not refuse it and some inclusion of
  -- the type "cidr" parses to a network that contains it; a rule that does not parse is passed over.
  pub is_ip_in_scope_iff :
      (e : Engine) (ip : Ip)
      → ((is_ip_in_scope e ip).in_scope ≡ true)
        ↔ ((is_blocked_ip ip ≡ false) × Any (Contains ip) e.includes)
  unfolding is_ip_in_scope
  is_ip_in_scope_iff e ip = elim (Bool-cases (is_blocked_ip ip)) [
    | inl b ↦ ((λ d. cc (rw b at d)), (λ (n, a). cc))
    | inr b ↦
        elim (find_first_decides (cidr_matches ip) (matches-Contains ip) (misses-Contains ip)
          e.includes) [
            | inl (f, all) ↦ (
              (λ d. cc (rw (b, f) at d)),
              (λ (n, a). absurd (All-Any (λ r no_match match. no_match match) e.includes all a)),
            )
            | inr (rule, f, first) ↦
                ((λ d. (b, First→Any _ e.includes rule first)), (λ (n, a). rw (b, f)))
          ]
  ]
