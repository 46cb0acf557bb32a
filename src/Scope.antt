-- ===== src/Scope.antt =====
-- internal/scope/scope.go: the scope engine. The rules are those of internal/config/config.go.
pub mod Ip
pub mod Rules
pub mod Hosts
pub mod Urls
pub mod Dots
pub mod Addresses
use scopepilot.Prelude.{
  ℕ, zero, suc, ◌+◌, ◌-◌, ◌≤◌, ◌<◌, ◌≡◌, refl, String, Bool, true, false, ◌&&◌, ◌||◌, not, List, [],
  ◌∷◌, Option, none, some, arith, leb, ltb, ◌==◌, if◌then◌else◌, length, drop, any, find_first,
  same, string_eq,
}
use scopepilot.Number.{ℤ, pos, negsuc, scan_int}
use scopepilot.Text.{Text, codes, text_eq, equal_fold, has_prefix, has_suffix}
use scopepilot.Normalize.{host, Url, hostname, port_of}

-- config.ScopeRule
pub record ScopeRule : Type 0 where
  pub type : String
  pub value : Text
  pub host_part : Text  -- `Host`
  pub include_apex : Bool

-- config.ScopeConfig
pub record ScopeConfig : Type 0 where
  pub include : List ScopeRule
  pub exclude : List ScopeRule

-- The formats of `Decision.Reason`, with their arguments.
pub data Reason : Type 0 where
  empty_host no_rule_matches invalid_url url_matches : Reason
  excluded_by included_by : ScopeRule → Reason
  scheme_denied invalid_port : Text → Reason
  port_denied : ℕ → Reason
  path_excluded : Text → ScopeRule → Reason
  ip_blocked ip_no_cidr : Reason
  ip_matches : ScopeRule → Reason

pub record Decision : Type 0 where
  pub in_scope : Bool
  pub reason : Reason
  pub matched_rule : Text

pub record Engine : Type 0 where
  pub program_id : String
  pub includes : List ScopeRule
  pub excludes : List ScopeRule

-- NewEngine
unfoldable pub new_engine : String → ScopeConfig → Engine
new_engine id cfg = record { program_id = id; includes = cfg.include; excludes = cfg.exclude }

abbrev pub deny : Reason → Decision
deny r = record { in_scope = false; reason = r; matched_rule = [] }

abbrev pub deny_by : Reason → ScopeRule → Decision
deny_by why rule = record { in_scope = false; reason = why; matched_rule = rule.value }

abbrev pub is_path_prefix : ScopeRule → Bool
is_path_prefix rule = same rule.type "path_prefix"

-- The port that a scheme implies.
abbrev pub default_port : Text → ℕ
default_port scheme = if text_eq scheme (codes "https") then 443 else 80

-- `portInt <= 0 || portInt > 65535` is refused.
abbrev pub valid_port : ℤ → Option ℕ
valid_port (pos n) = if (n == 0) || ltb 65535 n then none else some n
valid_port (negsuc n) = none

abbrev pub bind {ℓ κ} : {A : Type ℓ} {B : Type κ} → Option A → (A → Option B) → Option B
bind none f = none
bind (some a) f = f a

-- The port of a URL as IsURLInScope reads it; `none` is "invalid port".
unfoldable pub url_port : Text → Text → Option ℕ
url_port port scheme =
    if text_eq port [] then some (default_port scheme) else bind (scan_int port) valid_port

-- `to_ascii` is `idna.ToASCII`.
module _ (to_ascii : Text → Option Text) where
  -- matchWildcard
  unfoldable pub match_wildcard : Text → Text → Bool → Bool
  match_wildcard raw_pattern raw_host include_apex =
      let pattern = host to_ascii raw_pattern in
      let h = host to_ascii raw_host in
      if not (has_prefix pattern (codes "*."))
      then false
      else if has_suffix h (drop 1 pattern)
      then true
      else if include_apex
      then equal_fold h (drop 2 pattern)
      else false

  -- matchHostRule
  unfoldable pub match_host_rule : ScopeRule → Text → Bool
  match_host_rule rule h =
      if same rule.type "exact_host"
      then equal_fold h (host to_ascii rule.value)
      else if same rule.type "wildcard_host"
      then match_wildcard rule.value h rule.include_apex
      else if same rule.type "path_prefix"
      then equal_fold h (host to_ascii rule.host_part)
      else false

  abbrev pub excludes_host : Text → ScopeRule → Bool
  excludes_host h rule = if is_path_prefix rule then false else match_host_rule rule h

  abbrev include_decision : Option ScopeRule → Decision
  include_decision none = deny no_rule_matches
  include_decision (some rule) = record {
    in_scope = true;
    reason = included_by rule;
    matched_rule = rule.value;
  }

  abbrev host_decision : Option ScopeRule → Option ScopeRule → Decision
  host_decision (some rule) included = deny_by (excluded_by rule) rule
  host_decision none included = include_decision included

  -- IsHostInScope. Both loops return at the first rule that matches.
  unfoldable pub is_host_in_scope : Engine → Text → Decision
  is_host_in_scope e raw =
      let h = host to_ascii raw in
      if text_eq h []
      then deny empty_host
      else host_decision (find_first (excludes_host h) e.excludes)
          (find_first (λ rule. match_host_rule rule h) e.includes)

  -- The rules that the last loop of IsURLInScope returns at. The host is not normalized here.
  abbrev pub excludes_path : Url → ScopeRule → Bool
  excludes_path u rule =
      is_path_prefix rule && match_host_rule rule (hostname u) && has_prefix u.path rule.value

  abbrev path_decision : Url → Decision → Option ScopeRule → Decision
  path_decision u by_host (some rule) = deny_by (path_excluded u.path rule) rule
  path_decision u by_host none = record {
    in_scope = true;
    reason = url_matches;
    matched_rule = by_host.matched_rule;
  }

  abbrev port_decision : Engine → Url → List ℕ → Decision → Option ℕ → Decision
  port_decision e u ports by_host none = deny (invalid_port (port_of u))
  port_decision e u ports by_host (some port) =
      if any (λ p. p == port) ports
      then path_decision u by_host (find_first (excludes_path u) e.excludes)
      else deny (port_denied port)

  -- IsURLInScope from the parsed URL on.
  unfoldable pub check_url_parts : Engine → Url → List Text → List ℕ → Decision
  check_url_parts e u schemes ports =
      let by_host = is_host_in_scope e (hostname u) in
      if not (any (λ s. text_eq u.scheme s) schemes)
      then deny (scheme_denied u.scheme)
      else if not by_host.in_scope
      then by_host
      else port_decision e u ports by_host (url_port (port_of u) u.scheme)

  abbrev parsed_decision : Engine → List Text → List ℕ → Option Url → Decision
  unfolding check_url_parts
  parsed_decision e schemes ports none = deny invalid_url
  parsed_decision e schemes ports (some u) = check_url_parts e u schemes ports

  -- IsURLInScope. `parse` is `url.Parse`, with `none` for an error.
  unfoldable pub is_url_in_scope :
      (Text → Option Url) → Engine → Text → List Text → List ℕ → Decision
  unfolding check_url_parts
  is_url_in_scope parse e raw schemes ports = parsed_decision e schemes ports (parse raw)
