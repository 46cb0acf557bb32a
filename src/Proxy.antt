-- ===== src/Proxy.antt =====
-- internal/proxy/proxy.go: the proxy's state, its safety layers and its helpers. The handlers stand
-- in Proxy/Serve.antt and Proxy/Connect.antt.
pub mod Serve
pub mod Connect
pub mod Layers
pub mod Safety
pub mod Logging
pub mod Pins
pub mod Tunnels
pub mod Check
pub mod Redirect
pub mod Headers
use scopepilot.Prelude.{
  ℕ, zero, suc, ◌+◌, ◌-◌, ◌%◌, ◌≤◌, ◌<◌, ◌≡◌, refl, String, Bool, true, false, ◌&&◌, ◌||◌, not,
  List, [], ◌∷◌, Option, none, some, arith, leb, ltb, ◌==◌, if◌then◌else◌, length, any, find_first,
  same, string_eq, lookup, insert,
}
use scopepilot.Number.{ℤ, pos, negsuc, atoi}
use scopepilot.Text.{Text, codes, text_eq, text_keys, equal_fold, has_prefix}
use scopepilot.Normalize.{host, Url, hostname, port_of}
use scopepilot.Scope.{
  ScopeRule, ScopeConfig, Engine, Decision, Reason, new_engine, is_host_in_scope, valid_port,
  default_port,
}
use scopepilot.Scope.Ip.{Ip, is_blocked_ip}
use scopepilot.RateLimit.{PerHostLimiter, new_per_host_limiter, host_allow}
use scopepilot.KillSwitch.{Switch, new_switch, is_active}
use scopepilot.Audit.{Entry, Logger, new_logger, log}

pub record Config : Type 0 where
  pub program_id : String
  pub scope_cfg : ScopeConfig
  pub requests_per_second_per_host : ℕ  -- of `Limits`
  pub allowed_schemes : List Text
  pub allowed_ports : List ℕ
  pub dry_run : Bool
  pub active_testing_enabled : Bool

-- The reasons of a denial, with the arguments of their formats.
pub data DenyReason : Type 0 where
  kill_switch_active testing_disabled host_mismatch url_unparsed host_missing : DenyReason
  authority_unparsed not_a_hijacker hijack_failed : DenyReason
  scheme_denied port_denied path_excluded dns_failed rate_limited : Text → DenyReason
  out_of_scope : Reason → DenyReason
  ip_blocked : Text → Text → DenyReason

-- The values that the proxy puts into an audit entry.
pub data Field : Type 0 where
  text : Text → Field
  texts : List Text → Field
  name : String → Field
  because : DenyReason → Field

pub record Proxy : Type 0 where
  pub engine : Engine
  pub limiter : PerHostLimiter
  pub logger : Logger Field
  pub switch : Switch
  pub config : Config
  pub resolved_ips : List (Text × List Text)

-- The libraries that the proxy calls: `idna.ToASCII`, `url.Parse`, `url.URL.String`, `net.ParseIP`
-- (no bytes for nil) and `net.SplitHostPort`.
pub record Libraries : Type 0 where
  pub to_ascii : Text → Option Text
  pub parse : Text → Option Url
  pub print : Url → Text
  pub parse_ip : Text → Ip
  pub split_host_port : Text → Option (Text × Text)

-- How far the takeover of a client's connection comes: the writer is no hijacker, Hijack fails, the
-- line "200 Connection established" cannot be written, the dial fails, or the bytes are relayed.
pub data Takeover : Type 0 where
  no_hijacker hijack_error write_error dial_error relays : Takeover

-- What the surroundings do during one request: the resolver's answers to the first and to the second
-- lookup, the clock at the rate limiter, the entry that a full map of addresses gives up, the
-- identifier and time of the audit entry, and the takeover of the connection.
pub record Io : Type 0 where
  pub dns : Text → Option (List Text)
  pub dns_again : Text → Option (List Text)
  pub created : ℕ
  pub since : ℕ
  pub now : ℕ
  pub victim : ℕ
  pub entry_id : String
  pub timestamp : String
  pub takeover : Takeover

abbrev pub or_default {ℓ} : {A : Type ℓ} → List A → List A → List A
or_default [] d = d
or_default (x ∷ xs) d = x ∷ xs

-- NewProxy. The persistent log is not modelled.
unfoldable pub new_proxy : Config → Proxy
new_proxy cfg = record {
  engine = new_engine cfg.program_id cfg.scope_cfg;
  limiter = new_per_host_limiter cfg.requests_per_second_per_host cfg.requests_per_second_per_host;
  logger = new_logger (pos 10000);
  switch = new_switch;
  config = record cfg {
    allowed_schemes = or_default cfg.allowed_schemes (codes "https" ∷ []);
    allowed_ports = or_default cfg.allowed_ports (443 ∷ []);
  };
  resolved_ips = [];
}

abbrev pub max_resolved_ips : ℕ
max_resolved_ips = 10000

pub delete_at {ℓ} : {A : Type ℓ} → ℕ → List A → List A
delete_at i [] = []
delete_at zero (x ∷ xs) = xs
delete_at (suc i) (x ∷ xs) = x ∷ delete_at i xs

-- storeResolvedIPs: a map's `range` begins anywhere, at the entry with index `victim`.
unfoldable pub store_resolved_ips : Proxy → ℕ → Text → List Text → Proxy
unfolding delete_at
store_resolved_ips p victim h ips = record p {
  resolved_ips = insert h ips (
      if leb max_resolved_ips (length p.resolved_ips)
      then delete_at (victim % length p.resolved_ips) p.resolved_ips
      else p.resolved_ips);
}

-- CheckKillSwitch
unfoldable pub check_kill_switch : Proxy → Bool
check_kill_switch p = is_active p.switch

-- ValidateScheme
unfoldable pub validate_scheme : Proxy → Text → Bool
validate_scheme p scheme =
    if length p.config.allowed_schemes == 0
    then true
    else any (λ s. text_eq scheme s) p.config.allowed_schemes

abbrev pub bind {ℓ κ} : {A : Type ℓ} {B : Type κ} → Option A → (A → Option B) → Option B
bind none f = none
bind (some a) f = f a

-- The port that ValidatePort reads; `none` is its early `return 0, false`.
unfoldable pub port_number : Text → Text → Option ℕ
port_number port scheme =
    if text_eq port [] then some (default_port scheme) else bind (atoi port) valid_port

abbrev pub port_allowed : List ℕ → Option ℕ → ℕ × Bool
port_allowed ports none = (0, false)
port_allowed ports (some n) =
    if length ports == 0
    then (n, true)
    else if any (λ p. p == n) ports
    then (n, true)
    else (n, false)

-- ValidatePort
unfoldable pub validate_port : Proxy → Text → Text → ℕ × Bool
unfolding port_number
validate_port p port scheme = port_allowed p.config.allowed_ports (port_number port scheme)

-- CheckHostScope
unfoldable pub check_host_scope : Libraries → Proxy → Text → Bool × Reason
check_host_scope w p h =
    let dec = is_host_in_scope w.to_ascii p.engine h in (dec.in_scope, dec.reason)

-- One round of the loop of CheckPathExclusion.
abbrev pub rule_excludes : Libraries → Text → Text → ScopeRule → Bool
rule_excludes w h path rule =
    let rule_host = host w.to_ascii rule.host_part in
    same rule.type "path_prefix"
    && (text_eq rule_host [] || equal_fold h rule_host)
    && has_prefix path rule.value

-- CheckPathExclusion
unfoldable pub check_path_exclusion : Libraries → Proxy → Text → Text → Bool
check_path_exclusion w p h path = any (rule_excludes w h path) p.config.scope_cfg.exclude

-- ValidateIPs: the address that is refused, or none where all are good.
unfoldable pub validate_ips : Libraries → List Text → Option Text
validate_ips w ips = find_first (λ ip. is_blocked_ip (w.parse_ip ip)) ips

-- CheckRateLimit
unfoldable pub check_rate_limit : Proxy → Io → Text → Proxy × Bool
check_rate_limit p io h =
    let (l, allowed) = host_allow p.limiter h io.created io.since io.now in
    (record p { limiter = l }, allowed)

-- LogDecision
unfoldable pub log_decision : Proxy → Io → String → List (String × Field) → Proxy
log_decision p io event fields = record p {
  logger = (log p.logger io.entry_id io.timestamp "proxy" event (some fields)).0;
}

-- What the client is answered. A forwarded request goes to the URL; a tunnel goes to the address and
-- port that are dialled. `denied_unlogged` is a denial without LogDecision.
pub data Response : Type 0 where
  health : Response
  denied : DenyReason → Response
  denied_unlogged : DenyReason → Response
  closed : Response
  dial_failed : Text → ℕ → Response
  would_allow : Text → Response
  forwarded : Url → Response
  tunnel : Text → ℕ → Response

-- LogDecision and WriteDenyResponse
abbrev pub deny : Proxy → Io → String → DenyReason → List (String × Field) → Proxy × Response
deny p io event reason fields =
    (log_decision p io event (("reason", because reason) ∷ fields), denied reason)
