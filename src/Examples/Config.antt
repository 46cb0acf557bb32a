-- ===== src/Examples/Config.antt =====
-- Configurations, targets and the start, for internal/config/config.go and cmd/pentest/main.go.
use scopepilot.Prelude.{
  ℕ, ◌≡◌, refl, ◌↔◌, ◌⊎◌, Bool, Option, true, false, List, [], ◌∷◌, none, some, All, map, keep,
}
use scopepilot.Number.{pos}
use scopepilot.Text.{Text, codes}
use scopepilot.Scope.{ScopeRule}
use scopepilot.Config.{Config, ProgramConfig, Parsers, validate}
use scopepilot.Config.Valid.{ValidGlobal, Accepted, DistinctIds, validate_iff}
use scopepilot.Proxy
use scopepilot.Proxy.{Io, new_proxy}
use scopepilot.Proxy.Check.{run_safe_check}
use scopepilot.Command.{
  proxy_config, start_proxy, filter_allowed_targets, find_program, extract_targets, targets_to_urls,
  validate_scanner_network_policy, run_discover, run_scan, scans, listed,
}
use scopepilot.Command.Targets.{wire, of_target, passes}
use scopepilot.Command.Scans.{Permitted, scanned_targets}
use scopepilot.Command.Start.{Limited, validated-Limited}
use scopepilot.Examples.Proxy.{libraries, io, config, url}

abbrev parsers : Parsers
parsers = record {
  parse_ip = λ t. [];
  split_host_port = λ t. none;
  parse = λ t. some url;
  is_cidr = λ t. false;
}

abbrev rule : ScopeRule
rule = record { type = "wildcard_host"; value = codes "*.c"; host_part = []; include_apex = false }

abbrev program : ProgramConfig
program = record {
  id = "p";
  name = "P";
  authorization_ref = "letter";
  active_testing_enabled = true;
  kill_switch = record { enabled = false; activated_by = ""; activated_at = "" };
  network_policy = record { vpn = "permitted"; stable_source_ip_required = false };
  limits = record {
    requests_per_second_per_host = pos 5;
    max_concurrency = pos 2;
    max_response_bytes = pos 2048;
    allowed_schemes = [];
    allowed_ports = pos 443 ∷ [];
    max_requests_per_job = pos 10;
    max_crawl_depth = pos 3;
  };
  scope = record { include = rule ∷ []; exclude = [] };
  status = "active";
}

abbrev configured : Config
configured = record {
  programs = program ∷ [];
  global = record {
    kill_switch = record { enabled = false; activated_by = ""; activated_at = "" };
    defaults = record {
      requests_per_second_per_host = pos 5;
      max_concurrency = pos 2;
      max_response_bytes = pos 2048;
      allowed_schemes = codes "https" ∷ [];
      allowed_ports = [];
      dry_run = false;
    };
    database = record { conn_string = ""; enabled = false; max_conns = pos 10 };
    vpn = record {
      enabled = false;
      country = "";
      server = "";
      wg_config_path = "";
      container_name = "";
      container_image = "";
      kill_switch = false;
      podman_binary = "";
    };
    log_level = "info";
    log_format = "json";
  };
}

validate_iff_example : (validate parsers configured ≡ none) ↔ (
    ValidGlobal configured.global
    × All (Accepted parsers false) configured.programs
    × DistinctIds configured.programs)
validate_iff_example = validate_iff parsers configured

is_valid : validate parsers configured ≡ none
unfolding validate
is_valid = refl

validated-Limited_example :
    ((false ≡ true) × (proxy_config configured ≡ none))
    ⊎ ((configured.global.vpn.enabled ≡ false)
        × ((cfg : Proxy.Config) × (proxy_config configured ≡ some cfg)
            × Limited cfg
            × ((now later : ℕ) → Limited (start_proxy configured cfg now later).config)))
validated-Limited_example = validated-Limited parsers configured program [] is_valid refl

abbrev with_vpn : Config
with_vpn = record configured {
  global = record configured.global { vpn = record configured.global.vpn { enabled = true } };
}

refuses_vpn : proxy_config with_vpn ≡ none
unfolding proxy_config
refuses_vpn = refl

abbrev exact : Text → ScopeRule
exact t = record { type = "exact_host"; value = t; host_part = []; include_apex = false }

abbrev hunted : ProgramConfig
hunted = record program {
  scope = record { include = exact (codes "b.c") ∷ rule ∷ exact (codes "d.e") ∷ []; exclude = [] };
}

abbrev hunts : Config
hunts = record configured { programs = hunted ∷ [] }

abbrev targets : List (Io × Text)
targets = (io, codes "b.c") ∷ (io, codes "d.e") ∷ []

abbrev checked : List Text → Option (Option (List (Text × Bool)))
checked urls =
    some (some (map wire (run_safe_check libraries (new_proxy config) (map of_target targets))))

is_found : find_program hunts "p" ≡ some hunted
unfolding find_program
is_found = refl

are_targets : map (λ (e : Io × Text). e.1) targets ≡ extract_targets hunted
unfolding extract_targets
are_targets = refl

abbrev left : List Text
left = map (λ (e : Io × Text). e.1) (keep (passes libraries (new_proxy config)) targets)

scanned_targets_example :
    ((run_discover hunts "p" false true checked ≡ scans left)
      ↔ Permitted false true (validate_scanner_network_policy hunts hunted) left left)
    × ((run_scan hunts "p" false true checked ≡ scans left)
        ↔ Permitted false true (validate_scanner_network_policy hunts hunted) left left)
scanned_targets_example =
    scanned_targets libraries (new_proxy config) hunts "p" hunted false true checked targets left
      is_found are_targets refl

-- One response for each target, the second blocked.
abbrev answers : List Text → Option (Option (List (Text × Bool)))
answers urls = some (some ((codes "https://b.c/", true) ∷ (codes "https://d.e/", false) ∷ []))

discovers : run_discover hunts "p" false true answers ≡ scans (codes "b.c" ∷ [])
unfolding run_discover find_program extract_targets filter_allowed_targets targets_to_urls
    validate_scanner_network_policy
discovers = refl

lists : run_discover hunts "p" true true answers ≡ listed (codes "b.c" ∷ [])
unfolding run_discover find_program extract_targets filter_allowed_targets targets_to_urls
    validate_scanner_network_policy
lists = refl
