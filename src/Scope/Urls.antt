-- ===== src/Scope/Urls.antt =====
-- Which URLs IsURLInScope admits, and where its path exclusions miss a host.
use scopepilot.Prelude.{
  ℕ, ◌≤◌, ◌≡◌, sym, ◌↔◌, inl, inr, true, false, List, [], Option, none, some, arith, All, Any,
  All-Any, First→Any, find_first_decides, eq_iff, string_eq, Bool-cases, Option-cases, any, any→Any,
  Any→any, and_true₃, Any-map, ==_iff, ◌==◌, find_first,
}
use scopepilot.Number.{scan_int}
use scopepilot.Text.{Text, text_eq, text_eq_iff, has_prefix}
use scopepilot.Normalize.{host, Url, hostname, port_of}
use scopepilot.Scope.{
  ScopeRule, Engine, excludes_path, is_path_prefix, match_host_rule, is_host_in_scope,
  check_url_parts, is_url_in_scope, url_port,
}
use scopepilot.Scope.Rules.{Matches, match_host_rule_iff}
use scopepilot.Scope.Hosts.{Admits, is_host_in_scope_iff}

-- The port that a URL reaches is a port number.
pub url_port_range :
    (port scheme : Text) (n : ℕ) → url_port port scheme ≡ some n → (1 ≤ n) × (n ≤ 65535)
unfolding url_port
url_port_range port scheme n h = elim (Bool-cases (text_eq port [])) [
  | inl e ↦ ground arith
  | inr e ↦ ground (arith, Option-cases (scan_int port))
]

module _ (to_ascii : Text → Option Text) where
  -- A path rule for the host, as the URL spells it, whose prefix begins the path.
  abbrev pub ExcludesPath : Url → ScopeRule → Type 0
  ExcludesPath u rule =
      (rule.type ≡ "path_prefix")
      × Matches to_ascii rule (hostname u)
      × (has_prefix u.path rule.value ≡ true)

  pub record AdmitsUrl (e : Engine) (u : Url) (schemes : List Text) (ports : List ℕ) : Type 0 where
    pub scheme_allowed : Any (λ s. s ≡ u.scheme) schemes
    pub host_admitted : Admits to_ascii e (host to_ascii (hostname u))
    pub port_allowed : (n : ℕ) × (url_port (port_of u) u.scheme ≡ some n) × Any (λ p. p ≡ n) ports
    pub path_admitted : All (λ rule. ¬ ExcludesPath u rule) e.excludes

  path_true :
      (u : Url) (rule : ScopeRule) → excludes_path to_ascii u rule ≡ true → ExcludesPath u rule
  path_true u rule m =
      let (t, matches, begins) =
        and_true₃ (is_path_prefix rule) (match_host_rule to_ascii rule (hostname u))
          (has_prefix u.path rule.value) m in
      ((eq_iff _ _).0 t, (match_host_rule_iff to_ascii rule (hostname u)).0 matches, begins)

  path_false :
      (u : Url) (rule : ScopeRule) → excludes_path to_ascii u rule ≡ false → ¬ ExcludesPath u rule
  path_false u rule m (t, matches, begins) = cc (
      rw ((eq_iff _ _).1 t, (match_host_rule_iff to_ascii rule (hostname u)).1 matches, begins) at
        m)

  url_true :
      (e : Engine) (u : Url) (schemes : List Text) (ports : List ℕ)
      → (check_url_parts to_ascii e u schemes ports).in_scope ≡ true
      → AdmitsUrl e u schemes ports
  unfolding check_url_parts
  url_true e u schemes ports d = elim (Bool-cases (any (text_eq u.scheme) schemes)) [
    | inr s ↦ cc (rw s at d)
    | inl s ↦ elim (Bool-cases (is_host_in_scope to_ascii e (hostname u)).in_scope) [
      | inr k ↦ cc (rw (s, k) at d)
      | inl k ↦ elim (Option-cases (url_port (port_of u) u.scheme)) [
        | inl q ↦ cc (rw (s, k, q) at d)
        | inr (n, q) ↦ elim (Bool-cases (any (λ p. p == n) ports)) [
          | inr a ↦ cc (rw (s, k, q, a) at d)
          | inl a ↦
              elim (find_first_decides (excludes_path to_ascii u) (path_true u) (path_false u)
                e.excludes) [
                  | inr (rule, f, first) ↦ cc (rw (s, k, q, a, f) at d)
                  | inl (f, none_excludes) ↦ record {
                    scheme_allowed =
                        Any-map (λ x h. sym ((text_eq_iff u.scheme x).0 h)) schemes
                          (any→Any _ schemes s);
                    host_admitted = (is_host_in_scope_iff to_ascii e (hostname u)).0 k;
                    port_allowed = (n, q, Any-map (λ x. (==_iff x n).0) ports (any→Any _ ports a));
                    path_admitted = none_excludes;
                  }
                ]
        ]
      ]
    ]
  ]

  url_false :
      (e : Engine) (u : Url) (schemes : List Text) (ports : List ℕ)
      → AdmitsUrl e u schemes ports
      → (check_url_parts to_ascii e u schemes ports).in_scope ≡ true
  unfolding check_url_parts
  url_false e u schemes ports a = go a.port_allowed
    where
      scheme_found : any (text_eq u.scheme) schemes ≡ true
      scheme_found =
          Any→any _ schemes
            (Any-map (λ x h. (text_eq_iff u.scheme x).1 (sym h)) schemes a.scheme_allowed)

      nothing_excludes : find_first (excludes_path to_ascii u) e.excludes ≡ none
      nothing_excludes =
          elim (find_first_decides (excludes_path to_ascii u) (path_true u) (path_false u)
            e.excludes) [
              | inl (f, all) ↦ f
              | inr (rule, f, first) ↦ absurd (
                  All-Any (λ r miss hit. miss hit) e.excludes a.path_admitted
                    (First→Any _ _ rule first))
            ]

      go :
          (n : ℕ) × (url_port (port_of u) u.scheme ≡ some n) × Any (λ p. p ≡ n) ports
          → (check_url_parts to_ascii e u schemes ports).in_scope ≡ true
      go (n, q, found) = rw (
        scheme_found,
        (is_host_in_scope_iff to_ascii e (hostname u)).1 a.host_admitted,
        q,
        Any→any (λ p. p == n) ports (Any-map (λ x. (==_iff x n).1) ports found),
        nothing_excludes,
      )

  -- IsURLInScope admits a URL exactly when it parses to one whose scheme is on the list, whose host
  -- the engine admits, whose port, given or implied by the scheme, is a port on the list, and that
  -- no path rule excludes: none that matches the host as the URL spells it has a prefix of the path.
  pub is_url_in_scope_iff :
      (parse : Text → Option Url) (e : Engine) (raw : Text) (schemes : List Text) (ports : List ℕ)
      → ((is_url_in_scope to_ascii parse e raw schemes ports).in_scope ≡ true)
        ↔ ((u : Url) × (parse raw ≡ some u) × AdmitsUrl e u schemes ports)
  unfolding is_url_in_scope
  is_url_in_scope_iff parse e raw schemes ports = elim (Option-cases (parse raw)) [
    | inl p ↦ ((λ d. cc (rw p at d)), (λ (u, q, a). cc (p, q)))
    | inr (u, p) ↦ (
      (λ d. (u, p, url_true e u schemes ports (rw p at d))),
      (λ (v, q, a). rw q (url_false e v schemes ports a)),
    )
  ]
