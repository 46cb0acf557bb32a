-- ===== src/Command/Start.antt =====
-- With which limits the proxy starts, and when it starts with the kill switch on.
use scopepilot.Prelude.{
  ℕ, ◌≤◌, ◌≡◌, refl, ap, ◌⊎◌, inl, inr, Bool-cases, String, Bool, true, false, List, [], ◌∷◌, none,
  some, arith, if◌then◌else◌, All, same, string_eq,
}
use scopepilot.Number.{ℤ}
use scopepilot.KillSwitch.{new_switch, activate}
use scopepilot.Config.{Config, ProgramConfig, KillSwitchConfig, Parsers, validate}
use scopepilot.Config.Checks.{InRange, WebScheme}
use scopepilot.Config.Valid.{validate_iff, Accepted}
use scopepilot.Proxy
use scopepilot.Proxy.{Proxy, new_proxy, or_default}
use scopepilot.Command.{proxy_config, start_proxy, first_program, or_global, natural, naturals}

-- A port number, and a rate that the limits allow.
abbrev pub IsPort : ℕ → Type 0
IsPort n = (1 ≤ n) × (n ≤ 65535)

or_global-All :
    {A : Type 0} (P : A → Type 0) (xs d : List A) → All P xs → All P d → All P (or_global xs d)
or_global-All P [] d h k = k
or_global-All P (x ∷ xs) d h k = h

or_default-All :
    {A : Type 0} (P : A → Type 0) (xs d : List A) → All P xs → All P d → All P (or_default xs d)
or_default-All P [] d h k = k
or_default-All P (x ∷ xs) d h k = h

ranged :
    (low high : ℕ) (x : ℤ)
    → InRange low high x
    → (n : ℕ) × (natural x ≡ some n) × (low ≤ n) × (n ≤ high)
ranged low high x (n, e, a, b) = (n, ap natural e, a, b)

ports_ranged :
    (xs : List ℤ)
    → All (InRange 1 65535) xs
    → (ns : List ℕ) × (naturals xs ≡ some ns) × All IsPort ns
ports_ranged [] h = ([], refl, tt)
ports_ranged (x ∷ xs) h =
    let (n, e, a, b) = ranged 1 65535 x h.0 in
    let (ns, es, all) = ports_ranged xs h.1 in (n ∷ ns, rw (e, es) refl, ((a, b), all))

-- What a proxy that is started may be asked for, and how often.
pub record Limited (cfg : Proxy.Config) : Type 0 where
  pub rate_low : 1 ≤ cfg.requests_per_second_per_host
  pub rate_high : cfg.requests_per_second_per_host ≤ 50
  pub schemes : All WebScheme cfg.allowed_schemes
  pub ports : All IsPort cfg.allowed_ports

without_vpn :
    (w : Parsers) (c : Config) (p : ProgramConfig) (ps : List ProgramConfig)
    → validate w c ≡ none
    → c.programs ≡ p ∷ ps
    → c.global.vpn.enabled ≡ false
    → (cfg : Proxy.Config) × (proxy_config c ≡ some cfg)
      × Limited cfg
      × ((now later : ℕ) → Limited (start_proxy c cfg now later).config)
unfolding proxy_config start_proxy new_proxy
without_vpn w c p ps ok first direct =
    let (g, vs, distinct) = (validate_iff w c).0 ok in
    let v = (first_accepted vs).valid in
    let (rate, e, low, high) = ranged 1 50 p.limits.requests_per_second_per_host v.rate in
    let (ports, es, all) =
      ports_ranged (or_global p.limits.allowed_ports c.global.defaults.allowed_ports) (
        or_global-All (InRange 1 65535) p.limits.allowed_ports c.global.defaults.allowed_ports
          v.ports g.ports) in
    let cfg : Proxy.Config = record {
      program_id = p.id;
      scope_cfg = p.scope;
      requests_per_second_per_host = rate;
      allowed_schemes = or_global p.limits.allowed_schemes c.global.defaults.allowed_schemes;
      allowed_ports = ports;
      dry_run = c.global.defaults.dry_run;
      active_testing_enabled = p.active_testing_enabled;
    } in
    let web : All WebScheme cfg.allowed_schemes =
      or_global-All WebScheme p.limits.allowed_schemes c.global.defaults.allowed_schemes v.schemes
        g.schemes in
    (
      cfg,
      rw (direct, first, e, es) refl,
      record { rate_low = low; rate_high = high; schemes = web; ports = all },
      λ now later. record {
        rate_low = low;
        rate_high = high;
        schemes = or_default-All WebScheme cfg.allowed_schemes _ web (inr refl, tt);
        ports = or_default-All IsPort ports _ all ((omega arith, omega arith), tt);
      },
    )
  where
    first_accepted :
        All (Accepted w c.global.vpn.enabled) c.programs → Accepted w c.global.vpn.enabled p
    first_accepted vs = (rw first at vs).0

-- Where Validate accepts a configuration with a program, runServer refuses to start if the VPN is
-- enabled, and else makes a configuration of the proxy from the first program: 1 to 50 requests per
-- second and host, the schemes http and https at most, and port numbers; and the proxy that starts
-- with it has such a rate and such schemes and ports, too.
pub validated-Limited :
    (w : Parsers) (c : Config) (p : ProgramConfig) (ps : List ProgramConfig)
    → validate w c ≡ none
    → c.programs ≡ p ∷ ps
    → ((c.global.vpn.enabled ≡ true) × (proxy_config c ≡ none))
      ⊎ ((c.global.vpn.enabled ≡ false)
          × ((cfg : Proxy.Config) × (proxy_config c ≡ some cfg)
              × Limited cfg
              × ((now later : ℕ) → Limited (start_proxy c cfg now later).config)))
unfolding proxy_config
validated-Limited w c p ps ok first = elim (Bool-cases c.global.vpn.enabled) [
  | inl vpn ↦ inl (vpn, rw vpn refl)
  | inr direct ↦ inr (direct, without_vpn w c p ps ok first direct)
]

abbrev pub enabled_by : KillSwitchConfig → String → String
enabled_by k default = if same k.activated_by "" then default else k.activated_by

by_first :
    (x y : Bool) (a b : String) (now later : ℕ)
    → (let s = if x then activate new_switch a now else new_switch in
        if y then activate s b later else s)
      ≡ (if x
          then record { activated = true; activated_at = now; activated_by = a }
          else if y
          then record { activated = true; activated_at = later; activated_by = b }
          else new_switch)
unfolding activate new_switch
by_first true true a b now later = refl
by_first true false a b now later = refl
by_first false true a b now later = refl
by_first false false a b now later = refl

-- The proxy starts with the kill switch on exactly when the global section or the first program
-- enables it. It is then held by who the global section names, if that one enables it, and else by
-- who the program names.
pub start_proxy-switch :
    (c : Config) (cfg : Proxy.Config) (now later : ℕ)
    → (start_proxy c cfg now later).switch ≡ (
        if c.global.kill_switch.enabled
        then record {
          activated = true;
          activated_at = now;
          activated_by = enabled_by c.global.kill_switch "global-config";
        }
        else if (first_program c.programs).kill_switch.enabled
        then record {
          activated = true;
          activated_at = later;
          activated_by = enabled_by (first_program c.programs).kill_switch "program-config";
        }
        else new_switch)
unfolding start_proxy new_proxy
start_proxy-switch c cfg now later =
    let k = (first_program c.programs).kill_switch in
    by_first c.global.kill_switch.enabled k.enabled
      (enabled_by c.global.kill_switch "global-config") (enabled_by k "program-config") now later
