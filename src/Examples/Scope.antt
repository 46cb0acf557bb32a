-- ===== src/Examples/Scope.antt =====
-- Rules, hosts, URLs and addresses, for internal/scope/scope.go.
use mathlib.Core.List.{reverse-append}
use scopepilot.Prelude.{
  Any, false, ℕ, ◌≡◌, refl, ap, ◌≢◌, ◌↔◌, inl, String, true, List, [], ◌∷◌, reverse, Option, some,
  arith,
}
use scopepilot.Text.{Text, codes, trim_suffix, to_lower, trim_space, has_prefix}
use scopepilot.Normalize.{host, Url, hostname, port_of}
use scopepilot.Scope.{
  ScopeRule, Engine, match_wildcard, match_host_rule, is_host_in_scope, is_url_in_scope, url_port,
}
use scopepilot.Scope.Hosts.{Admits, is_host_in_scope_iff}
use scopepilot.Scope.Urls.{AdmitsUrl, is_url_in_scope_iff}
use scopepilot.Scope.Dots.{EndsInDot, trailing_dot_skips_paths, trailing_dot_skips_exact}
use scopepilot.Scope.Addresses.{Contains, is_ip_in_scope, is_ip_in_scope_iff}
use scopepilot.Scope.Ip.{Network, is_blocked_ip}
use scopepilot.Scope.Ip.Ranges.{reserved4, is_blocked_ip-reserved4}
use scopepilot.Scope.Ip.Ranges6.{reserved6, is_blocked_ip-reserved6}

abbrev ascii : Text → Option Text
ascii t = some t

abbrev rule : String → Text → ScopeRule
rule type value = record {
  type = type;
  value = value;
  host_part = codes "b.c";
  include_apex = true;
}

abbrev wildcard : ScopeRule
wildcard = rule "wildcard_host" (codes "*.c")

abbrev engine : Engine
engine = record {
  program_id = "p";
  includes = wildcard ∷ [];
  excludes = rule "path_prefix" (codes "/x") ∷ [];
}

abbrev url : Url
url = record {
  scheme = codes "https";
  host_port = codes "b.c.";
  path = codes "/x";
  raw_query = [];
  fragment = [];
}

is_host_in_scope_iff_example :
    ((is_host_in_scope ascii engine (codes "B.c.")).in_scope ≡ true)
    ↔ Admits ascii engine (host ascii (codes "B.c."))
is_host_in_scope_iff_example = is_host_in_scope_iff ascii engine (codes "B.c.")

is_url_in_scope_iff_example :
    ((is_url_in_scope ascii
        (λ t. some url)
        engine
        (codes "https://b.c./x")
        (codes "https" ∷ [])
        (443 ∷ [])).in_scope
      ≡ true)
    ↔ ((u : Url) × (some url ≡ some u) × AdmitsUrl ascii engine u (codes "https" ∷ []) (443 ∷ []))
is_url_in_scope_iff_example =
    is_url_in_scope_iff ascii (λ t. some url) engine (codes "https://b.c./x") (codes "https" ∷ [])
      (443 ∷ [])

plain : (s : Text) (c : ℕ) (t : Text) → reverse s ≡ c ∷ t → c ≢ 46 → ¬ EndsInDot s
plain s c t r ne (front, e) = ne at_dot
  where
    at_dot : c ≡ 46
    at_dot = cc (r, ap reverse e, reverse-append front (codes "."))

url_host_admitted : Admits ascii engine (host ascii (hostname url))
unfolding is_host_in_scope host trim_suffix to_lower trim_space hostname has_prefix match_host_rule
    match_wildcard
url_host_admitted = (is_host_in_scope_iff ascii engine (hostname url)).0 refl

trailing_dot_skips_paths_example :
    (is_url_in_scope ascii
      (λ t. some url)
      engine
      (codes "https://b.c./x")
      (codes "https" ∷ [])
      (443 ∷ [])).in_scope
    ≡ true
unfolding hostname has_prefix to_lower host trim_suffix trim_space url_port port_of
trailing_dot_skips_paths_example =
    trailing_dot_skips_paths ascii (λ t. some url) engine (codes "https://b.c./x")
      (codes "https" ∷ []) (443 ∷ []) url 443 refl (codes "b.c", refl)
      (plain (codes "b.c") 99 (codes ".b") refl (λ e. absurd (omega arith)), tt) (inl refl)
      url_host_admitted refl (inl refl)

abbrev strict : Engine
strict = record {
  program_id = "p";
  includes = wildcard ∷ [];
  excludes = rule "exact_host" (codes "b.c") ∷ [];
}

trailing_dot_skips_exact_example : (is_host_in_scope ascii strict (codes "b.c..")).in_scope ≡ true
unfolding host trim_suffix to_lower trim_space
trailing_dot_skips_exact_example =
    trailing_dot_skips_exact ascii strict (codes "b.c..") (codes "b") (codes "c") wildcard
      (codes "b.c", refl) refl
      ((refl, plain (codes "b.c") 99 (codes ".b") refl (λ e. absurd (omega arith))), tt) (inl refl)
      refl refl

is_blocked_ip-reserved4_example : is_blocked_ip (10 ∷ 0 ∷ 0 ∷ 7 ∷ []) ≡ reserved4 10 0 0 7
is_blocked_ip-reserved4_example =
    is_blocked_ip-reserved4 10 0 0 7 (omega arith) (omega arith) (omega arith) (omega arith)

abbrev low_bytes : List ℕ
low_bytes = 13 ∷ 184 ∷ 0 ∷ 0 ∷ 0 ∷ 0 ∷ 0 ∷ 0 ∷ 0 ∷ 0 ∷ 0 ∷ 0 ∷ 0 ∷ 1 ∷ []

is_blocked_ip-reserved6_example : is_blocked_ip (32 ∷ 1 ∷ low_bytes) ≡ reserved6 32 1 low_bytes
is_blocked_ip-reserved6_example =
    is_blocked_ip-reserved6 32 1 low_bytes (refl, ground arith, (λ e. cc))

abbrev network : Network
network = record { ip = 93 ∷ 184 ∷ 216 ∷ 0 ∷ []; mask = 255 ∷ 255 ∷ 255 ∷ 0 ∷ [] }

abbrev by_address : Engine
by_address = record {
  program_id = "p";
  includes = rule "cidr" (codes "93.184.216.0/24") ∷ [];
  excludes = [];
}

is_ip_in_scope_iff_example :
    ((is_ip_in_scope (λ t. some network) by_address (93 ∷ 184 ∷ 216 ∷ 34 ∷ [])).in_scope ≡ true) ↔ (
      (is_blocked_ip (93 ∷ 184 ∷ 216 ∷ 34 ∷ []) ≡ false)
      × Any (Contains (λ t. some network) (93 ∷ 184 ∷ 216 ∷ 34 ∷ [])) by_address.includes)
is_ip_in_scope_iff_example =
    is_ip_in_scope_iff (λ t. some network) by_address (93 ∷ 184 ∷ 216 ∷ 34 ∷ [])
