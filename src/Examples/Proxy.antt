-- ===== src/Examples/Proxy.antt =====
-- Requests to a proxy, for internal/proxy/proxy.go.
use scopepilot.Prelude.{◌≡◌, refl, ◌↔◌, true, false, [], ◌∷◌, none, some}
use scopepilot.Text.{Text, codes, text_keys}
use scopepilot.Normalize.{Url}
use scopepilot.Scope.{ScopeRule}
use scopepilot.Proxy.{Libraries, Io, Config, relays, tunnel, new_proxy}
use scopepilot.Proxy.Serve.{Request, serve_http}
use scopepilot.Proxy.Tunnels.{
  Opens, authority_of, serve_http-tunnel_iff, with_dry_run, dry_run_tunnels,
}
use scopepilot.Proxy.Logging.{Logged, serve_http-logs}

abbrev pub url : Url
url = record {
  scheme = codes "https";
  host_port = codes "b.c";
  path = codes "/x";
  raw_query = [];
  fragment = [];
}

abbrev pub libraries : Libraries
libraries = record {
  to_ascii = λ t. some t;
  parse = λ t. some url;
  print = λ u. codes "https://b.c/x";
  parse_ip = λ t. 93 ∷ 184 ∷ 216 ∷ 34 ∷ [];
  split_host_port = λ t. some (codes "b.c", codes "443");
}

abbrev pub io : Io
io = record {
  dns = λ t. some (codes "93.184.216.34" ∷ []);
  dns_again = λ t. none;
  created = 1;
  since = 2;
  now = 2;
  victim = 0;
  entry_id = "1";
  timestamp = "t";
  takeover = relays;
}

abbrev rule : ScopeRule
rule = record { type = "wildcard_host"; value = codes "*.c"; host_part = []; include_apex = false }

abbrev pub config : Config
config = record {
  program_id = "p";
  scope_cfg = record { include = rule ∷ []; exclude = [] };
  requests_per_second_per_host = 5;
  allowed_schemes = [];
  allowed_ports = [];
  dry_run = false;
  active_testing_enabled = true;
}

abbrev pub request : Text → Request
request method = record {
  method = method;
  host = codes "b.c";
  url = url;
  tls = false;
  request_uri = codes "/x";
}

serve_http-tunnel_iff_example :
    ((serve_http libraries (new_proxy config) (request (codes "CONNECT")) io).1
      ≡ tunnel (codes "93.184.216.34") 443)
    ↔ Opens libraries io
        (new_proxy config)
        (authority_of (codes "b.c") (codes "b.c"))
        (codes "93.184.216.34")
        443
serve_http-tunnel_iff_example =
    serve_http-tunnel_iff libraries io (new_proxy config) (request (codes "CONNECT"))
      (codes "93.184.216.34") 443 (λ e. cc) refl

dry_run_tunnels_example :
    ((serve_http libraries (with_dry_run (new_proxy config) true) (request (codes "CONNECT")) io).1
      ≡ tunnel (codes "93.184.216.34") 443)
    ↔ ((serve_http libraries
          (with_dry_run (new_proxy config) false)
          (request (codes "CONNECT"))
          io).1
        ≡ tunnel (codes "93.184.216.34") 443)
dry_run_tunnels_example =
    dry_run_tunnels libraries io (new_proxy config) (request (codes "CONNECT"))
      (codes "93.184.216.34") 443 (λ e. cc) refl

serve_http-logs_example :
    let (p', answer) = serve_http libraries (new_proxy config) (request (codes "GET")) io in
    Logged io (new_proxy config).logger answer p'.logger
serve_http-logs_example = serve_http-logs libraries (new_proxy config) (request (codes "GET")) io
