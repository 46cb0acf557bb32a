-- ===== src/Config.antt =====
-- internal/config/config.go: the types of a configuration, and Validate with its errors. The sections
-- of the file that Validate does not read (language models, tools, sandbox, audit) have no field.
pub mod Checks
pub mod Rules
pub mod Programs
pub mod Valid
use scopepilot.Prelude.{
  ℕ, suc, ◌+◌, ◌*◌, String, Bool, true, false, ◌&&◌, ◌||◌, not, List, [], ◌∷◌, Option, none, some,
  leb, ltb, ◌==◌, if◌then◌else◌, length, any, find_first, drop, same, string_eq,
}
use scopepilot.Number.{ℤ, pos, negsuc}
use scopepilot.Text.{Text, codes, text_eq, has_prefix, contains}
use scopepilot.Normalize.{Url}
use scopepilot.Scope.{ScopeRule, ScopeConfig}
use scopepilot.Scope.Ip.{Ip}

pub record DefaultsConfig : Type 0 where
  pub requests_per_second_per_host : ℤ
  pub max_concurrency : ℤ
  pub max_response_bytes : ℤ
  pub allowed_schemes : List Text
  pub allowed_ports : List ℤ
  pub dry_run : Bool

pub record DatabaseConfig : Type 0 where
  pub conn_string : String
  pub enabled : Bool
  pub max_conns : ℤ

pub record GlobalVpnConfig : Type 0 where
  pub enabled : Bool
  pub country : String
  pub server : String
  pub wg_config_path : String
  pub container_name : String
  pub container_image : String
  pub kill_switch : Bool
  pub podman_binary : String

pub record KillSwitchConfig : Type 0 where
  pub enabled : Bool
  pub activated_by : String
  pub activated_at : String

pub record GlobalConfig : Type 0 where
  pub kill_switch : KillSwitchConfig
  pub defaults : DefaultsConfig
  pub database : DatabaseConfig
  pub vpn : GlobalVpnConfig
  pub log_level : String
  pub log_format : String

pub record NetworkPolicyConfig : Type 0 where
  pub vpn : String
  pub stable_source_ip_required : Bool

pub record LimitsConfig : Type 0 where
  pub requests_per_second_per_host : ℤ
  pub max_concurrency : ℤ
  pub max_response_bytes : ℤ
  pub allowed_schemes : List Text
  pub allowed_ports : List ℤ
  pub max_requests_per_job : ℤ
  pub max_crawl_depth : ℤ

pub record ProgramConfig : Type 0 where
  pub id : String
  pub name : String
  pub authorization_ref : String
  pub active_testing_enabled : Bool
  pub kill_switch : KillSwitchConfig
  pub network_policy : NetworkPolicyConfig
  pub limits : LimitsConfig
  pub scope : ScopeConfig
  pub status : String

pub record Config : Type 0 where
  pub programs : List ProgramConfig
  pub global : GlobalConfig

-- The errors, with the arguments of their formats.
pub data RuleError : Type 0 where
  prefix_missing prefix_relative host_empty not_wildcard : RuleError
  unknown_rule : String → RuleError
  host_is_ip host_with_scheme host_with_port host_invalid cidr_invalid : Text → RuleError

pub data GlobalError : Type 0 where
  default_rate default_concurrency default_bytes default_port_range max_connections :
      ℤ → GlobalError
  default_scheme : Text → GlobalError
  unknown_log_level vpn_path_missing : GlobalError

pub data ProgramError : Type 0 where
  authorization_missing nothing_included : ProgramError
  unknown_vpn : String → ProgramError
  rate_range concurrency_range depth_range port_range : ℤ → ProgramError
  unsupported_scheme : Text → ProgramError
  include_rule exclude_rule : ℕ → RuleError → ProgramError

pub data ConfigError : Type 0 where
  in_global : GlobalError → ConfigError
  id_missing : ℕ → ConfigError
  duplicate_id : ℕ → String → ConfigError
  in_program : String → ProgramError → ConfigError
  vpn_disabled vpn_enabled : String → ConfigError

-- `x < low || x > high`
unfoldable pub outside : ℕ → ℕ → ℤ → Bool
outside low high (negsuc n) = true
outside low high (pos n) = ltb n low || ltb high n

-- The `!= ""`s of a list of names: the text is none of them.
abbrev pub one_of : String → List String → Bool
one_of s names = any (λ n. same s n) names

abbrev pub bad_scheme : Text → Bool
bad_scheme s = not (text_eq s (codes "http")) && not (text_eq s (codes "https"))

-- An error in a chain of checks: the next check runs where there is none.
abbrev pub or_else {ℓ} : {E : Type ℓ} → Option E → Option E → Option E
or_else none rest = rest
or_else (some e) rest = some e

-- An error that is found, in the format of the caller.
abbrev pub wrap {ℓ κ} : {A : Type ℓ} {E : Type κ} → (A → E) → Option A → Option E
wrap f none = none
wrap f (some a) = some (f a)

-- A loop over the indices that returns at the first error.
unfoldable pub first_error {ℓ κ} :
    {A : Type ℓ} {E : Type κ} → (ℕ → A → Option E) → ℕ → List A → Option E
first_error f i [] = none
first_error f i (x ∷ xs) = or_else (f i x) (first_error f (suc i) xs)

-- (*GlobalConfig).Validate
unfoldable pub validate_global : GlobalConfig → Option GlobalError
unfolding outside
validate_global g =
    if outside 1 50 g.defaults.requests_per_second_per_host
    then some (default_rate g.defaults.requests_per_second_per_host)
    else if outside 1 20 g.defaults.max_concurrency
    then some (default_concurrency g.defaults.max_concurrency)
    else if outside 1024 (50 * 1024 * 1024) g.defaults.max_response_bytes
    then some (default_bytes g.defaults.max_response_bytes)
    else or_else (wrap default_scheme (find_first bad_scheme g.defaults.allowed_schemes)) (
        or_else (wrap default_port_range (find_first (outside 1 65535) g.defaults.allowed_ports)) (
          if not (one_of g.log_level ("" ∷ "debug" ∷ "info" ∷ "warn" ∷ "error" ∷ []))
          then some unknown_log_level
          else if g.vpn.enabled && same g.vpn.wg_config_path ""
          then some vpn_path_missing
          else if outside 0 100 g.database.max_conns
          then some (max_connections g.database.max_conns)
          else none))

-- The libraries of the rule checks: `net.ParseIP` (no bytes for nil), `net.SplitHostPort`,
-- `url.Parse`, and whether `net.ParseCIDR` returns no error.
pub record Parsers : Type 0 where
  pub parse_ip : Text → Ip
  pub split_host_port : Text → Option (Text × Text)
  pub parse : Text → Option Url
  pub is_cidr : Text → Bool

abbrev pub is_some {ℓ} : {A : Type ℓ} → Option A → Bool
is_some none = false
is_some (some a) = true

module _ (w : Parsers) where
  -- validateHost
  unfoldable pub validate_host : Text → Option RuleError
  unfolding contains
  validate_host h =
      if text_eq h []
      then some host_empty
      else if not (length (w.parse_ip h) == 0)
      then some (host_is_ip h)
      else if contains h (codes "://")
      then some (host_with_scheme h)
      else if is_some (w.split_host_port h)
      then some (host_with_port h)
      else if not (is_some (w.parse (b'/' ∷ b'/' ∷ h)))
      then some (host_invalid h)
      else none

  -- validateWildcardHost
  unfoldable pub validate_wildcard_host : Text → Option RuleError
  unfolding has_prefix validate_host
  validate_wildcard_host h =
      if not (has_prefix h (codes "*.")) then some not_wildcard else validate_host (drop 2 h)

  -- validateCIDR
  unfoldable pub validate_cidr : Text → Option RuleError
  validate_cidr cidr = if not (w.is_cidr cidr) then some (cidr_invalid cidr) else none

  -- validateScopeRule
  unfoldable pub validate_scope_rule : ScopeRule → Option RuleError
  unfolding has_prefix validate_host validate_wildcard_host validate_cidr
  validate_scope_rule r =
      if same r.type "exact_host"
      then validate_host r.value
      else if same r.type "wildcard_host"
      then validate_wildcard_host r.value
      else if same r.type "path_prefix"
      then (if text_eq r.value []
          then some prefix_missing
          else if not (has_prefix r.value (codes "/"))
          then some prefix_relative
          else validate_host r.host_part)
      else if same r.type "cidr"
      then validate_cidr r.value
      else some (unknown_rule r.type)

  -- (*ProgramConfig).Validate
  unfoldable pub validate_program : ProgramConfig → Option ProgramError
  unfolding outside first_error validate_scope_rule
  validate_program p =
      if same p.authorization_ref ""
      then some authorization_missing
      else if not (one_of p.network_policy.vpn ("required" ∷ "permitted" ∷ "prohibited" ∷ []))
      then some (unknown_vpn p.network_policy.vpn)
      else if outside 1 50 p.limits.requests_per_second_per_host
      then some (rate_range p.limits.requests_per_second_per_host)
      else if outside 1 20 p.limits.max_concurrency
      then some (concurrency_range p.limits.max_concurrency)
      else if outside 0 20 p.limits.max_crawl_depth
      then some (depth_range p.limits.max_crawl_depth)
      else or_else (wrap unsupported_scheme (find_first bad_scheme p.limits.allowed_schemes)) (
          or_else (wrap port_range (find_first (outside 1 65535) p.limits.allowed_ports)) (
            if length p.scope.include == 0
            then some nothing_included
            else or_else
                (first_error (λ i r. wrap (include_rule i) (validate_scope_rule r)) 0
                  p.scope.include)
                (first_error (λ i r. wrap (exclude_rule i) (validate_scope_rule r)) 0
                  p.scope.exclude)))

  -- One round of the loop of Validate, with the identifiers seen before.
  unfoldable pub check_program : Bool → List String → ℕ → ProgramConfig → Option ConfigError
  unfolding validate_program
  check_program vpn seen i p =
      if same p.id ""
      then some (id_missing i)
      else if any (λ s. same s p.id) seen
      then some (duplicate_id i p.id)
      else or_else (wrap (in_program p.id) (validate_program p)) (
          if same p.network_policy.vpn "required" && not vpn
          then some (vpn_disabled p.id)
          else if same p.network_policy.vpn "prohibited" && vpn
          then some (vpn_enabled p.id)
          else none)

  unfoldable pub check_programs : Bool → List String → ℕ → List ProgramConfig → Option ConfigError
  unfolding check_program
  check_programs vpn seen i [] = none
  check_programs vpn seen i (p ∷ ps) =
      or_else (check_program vpn seen i p) (check_programs vpn (p.id ∷ seen) (suc i) ps)

  -- (*Config).Validate
  unfoldable pub validate : Config → Option ConfigError
  unfolding validate_global check_programs
  validate c =
      or_else (wrap in_global (validate_global c.global))
        (check_programs c.global.vpn.enabled [] 0 c.programs)
