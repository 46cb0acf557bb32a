-- ===== src/Examples/Adapter.antt =====
-- A run of BBOT, for internal/adapter/adapter.go.
use scopepilot.Prelude.{
  ◌≡◌, ◌≢◌, refl, inr, Bool, true, false, List, [], ◌∷◌, ◌++◌, Option, some, All,
}
use scopepilot.Text.{Text, codes}
use scopepilot.Adapter.{
  filter_in_scope, validate_proxy_url, BbotConfig, Machine, ToolCommand, version_command,
  detect_bbot_version, parse_bbot_output, store_failed, bbot_command, run_bbot, guarded_bbot,
  execute_bbot,
}
use scopepilot.Number.{atoi}
use scopepilot.Adapter.Bbot.{Commands, Routed, run_bbot-started}

abbrev check : Text → Option Bool
check url = some true

abbrev machine : Machine
machine = record {
  parse = λ t.
      some (record { scheme = codes "http"; authority = codes "localhost:8443"; has_user = false });
  host_of = λ t. t;
  combined_output = λ c. (codes "a.b.c", false);
  output = λ c. (codes "2.1.0", false);
  environ = codes "HTTP_PROXY=x" ∷ [];
  version_match = λ t. some (codes "2");
  stores = λ program hosts. false;
}

abbrev settings : BbotConfig
settings = record {
  binary_path = codes "bbot";
  client = some check;
  dry_run = false;
  proxy_url = codes "http://localhost:8443";
  no_proxy = false;
  vpn_container = [];
  program_id = codes "p";
  has_store = true;
}

abbrev targets : List Text
targets = codes "b.c" ∷ []

abbrev commands : List ToolCommand
commands = version_command machine (codes "bbot") ∷ bbot_command machine settings targets ∷ []

started : (run_bbot machine settings targets).started ≡ commands
unfolding run_bbot guarded_bbot execute_bbot filter_in_scope validate_proxy_url
started = refl

reports :
    (run_bbot machine settings targets).outcome
    ≡ inr (record {
      targets_scanned = 1;
      targets_blocked = 0;
      subdomains_found = codes "a.b.c" ∷ [];
      raw_output = codes "a.b.c";
      dry_run = false;
      no_proxy = false;
      errors = store_failed ∷ [];
    })
unfolding run_bbot guarded_bbot execute_bbot filter_in_scope validate_proxy_url parse_bbot_output
    scopepilot.Text.split scopepilot.Text.trim_space
reports = refl

two : detect_bbot_version machine (codes "bbot") ≡ 2
unfolding detect_bbot_version atoi
two = refl

run_bbot-started_example :
    (check' : Text → Option Bool) × (some check ≡ some check')
    × All (λ h. check' (codes "https://" ++ h) ≡ some true) (filter_in_scope check' targets).0
    × (false ≡ false)
    × ((filter_in_scope check' targets).0 ≢ [])
    × (codes "" ≡ [])
    × Commands machine settings check'
        (version_command machine (codes "bbot"))
        (bbot_command machine settings targets ∷ [])
        (filter_in_scope check' targets).0
    × Routed machine settings check'
        (version_command machine (codes "bbot"))
        (bbot_command machine settings targets ∷ [])
        (filter_in_scope check' targets).0
run_bbot-started_example =
    run_bbot-started machine settings targets (version_command machine (codes "bbot"))
      (bbot_command machine settings targets ∷ []) started
