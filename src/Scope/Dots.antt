-- ===== src/Scope/Dots.antt =====
-- Hosts that end in dots. `normalize.Host` takes off one dot only, matchWildcard normalizes a second
-- time, and the path exclusions of IsURLInScope do not normalize at all.
use mathlib.Core.List.{map-append}
use scopepilot.Prelude.{
  ℕ, ◌≡◌, sym, ap, ◌∙◌, ◌≢◌, true, List, [], ◌∷◌, ◌++◌, Option, some, All, All-map, Any, Any-map,
  subst,
}
use scopepilot.Text.{Text, codes, lower, to_lower}
use scopepilot.Normalize.{host, Url, hostname, port_of}
use scopepilot.Scope.{ScopeRule, Engine, is_host_in_scope, is_url_in_scope, url_port}
use scopepilot.Scope.Rules.{Matches, exact, below, apex, on_path}
use scopepilot.Scope.Hosts.{Excludes, Admits, is_host_in_scope_iff}
use scopepilot.Scope.Urls.{ExcludesPath, is_url_in_scope_iff}

abbrev pub EndsInDot : Text → Type 0
EndsInDot s = (t : Text) × (s ≡ t ++ codes ".")

to_lower-EndsInDot : (s : Text) → EndsInDot s → EndsInDot (to_lower s)
unfolding to_lower lower
to_lower-EndsInDot s (t, e) = (to_lower t, ap to_lower e ∙ map-append _ t (codes "."))

module _ (to_ascii : Text → Option Text) where
  -- A path rule as a configuration writes it: its host, in normal form, ends in no dot.
  abbrev pub IsPlainPath : ScopeRule → Type 0
  IsPlainPath rule = ¬ EndsInDot (to_lower (host to_ascii rule.host_part))

  no_path_matches :
      (u : Url) (rule : ScopeRule)
      → EndsInDot (hostname u)
      → IsPlainPath rule
      → ¬ ExcludesPath to_ascii u rule
  no_path_matches u rule dot plain (t, exact k e, begins) = cc
  no_path_matches u rule dot plain (t, below k d l e s, begins) = cc
  no_path_matches u rule dot plain (t, apex k i d e s, begins) = cc
  no_path_matches u rule dot plain (t, on_path k e, begins) =
      let (front, same) = to_lower-EndsInDot (hostname u) dot in plain (front, sym e ∙ same)

  -- IsURLInScope admits every path of a host written with a dot at its end, whatever path rules the
  -- engine has: if the engine admits the host, and scheme and port are allowed, no `path_prefix`
  -- rule whose own host ends in no dot excludes the URL.
  pub trailing_dot_skips_paths :
      (parse : Text → Option Url) (e : Engine) (raw : Text) (schemes : List Text) (ports : List ℕ)
      (u : Url) (n : ℕ)
      → parse raw ≡ some u
      → EndsInDot (hostname u)
      → All IsPlainPath e.excludes
      → Any (λ s. s ≡ u.scheme) schemes
      → Admits to_ascii e (host to_ascii (hostname u))
      → url_port (port_of u) u.scheme ≡ some n
      → Any (λ p. p ≡ n) ports
      → (is_url_in_scope to_ascii parse e raw schemes ports).in_scope ≡ true
  trailing_dot_skips_paths parse e raw schemes ports u n p dot plain s a q found =
      (is_url_in_scope_iff to_ascii parse e raw schemes ports).1 (
        u,
        p,
        record {
          scheme_allowed = s;
          host_admitted = a;
          port_allowed = (n, q, found);
          path_admitted = All-map (λ rule. no_path_matches u rule dot) e.excludes plain;
        },
      )

  -- An exclusion of a single host, as a configuration writes it.
  abbrev pub IsPlainHost : ScopeRule → Type 0
  IsPlainHost rule = (rule.type ≡ "exact_host") × ¬ EndsInDot (to_lower (host to_ascii rule.value))

  no_exact_matches :
      (h : Text) (rule : ScopeRule) → EndsInDot h → IsPlainHost rule → ¬ Excludes to_ascii h rule
  no_exact_matches h rule dot (t, plain) (k, exact _ e) =
      let (front, same) = to_lower-EndsInDot h dot in plain (front, sym e ∙ same)
  no_exact_matches h rule dot (t, plain) (k, below b d l e s) = cc
  no_exact_matches h rule dot (t, plain) (k, apex b i d e s) = cc
  no_exact_matches h rule dot (t, plain) (k, on_path b e) = k b

  -- IsHostInScope admits a host whose normal form still ends in a dot, although the exclusions name
  -- single hosts, if a wildcard inclusion's domain is that of the form normalized a second time.
  pub trailing_dot_skips_exact :
      (e : Engine) (raw labels domain : Text) (rule : ScopeRule)
      → EndsInDot (host to_ascii raw)
      → host to_ascii (host to_ascii raw) ≡ labels ++ (codes "." ++ domain)
      → All IsPlainHost e.excludes
      → Any (λ r. r ≡ rule) e.includes
      → rule.type ≡ "wildcard_host"
      → host to_ascii rule.value ≡ codes "*." ++ domain
      → (is_host_in_scope to_ascii e raw).in_scope ≡ true
  trailing_dot_skips_exact e raw labels domain rule dot twice plain listed wild pattern =
      (is_host_in_scope_iff to_ascii e raw).1 (record {
        named = not_empty dot;
        not_excluded = All-map (λ r. no_exact_matches _ r dot) e.excludes plain;
        included =
            Any-map
              (λ r same.
                subst (λ x. Matches to_ascii x (host to_ascii raw)) (sym same)
                  (below wild domain labels pattern twice))
              e.includes listed;
      })
    where
      not_empty : EndsInDot (host to_ascii raw) → host to_ascii raw ≢ []
      not_empty ([], e) n = cc
      not_empty (c ∷ t, e) n = cc
