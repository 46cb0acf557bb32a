-- ===== src/Config/Programs.antt =====
-- Which programs Validate accepts.
use scopepilot.Prelude.{
  ℕ, ◌≡◌, refl, ◌≢◌, ◌↔◌, String, false, List, [], ◌∷◌, none, some, arith, ◌==◌, if◌then◌else◌,
  length, find_first, same, string_eq, All, Any, refuse_iff, refuse_not_iff,
}
use scopepilot.Scope.{ScopeRule}
use scopepilot.Config.{
  ProgramConfig, RuleError, ProgramError, outside, one_of, bad_scheme, or_else, wrap, first_error,
  Parsers, validate_scope_rule, validate_program, include_rule, exclude_rule, nothing_included,
  unsupported_scheme, port_range,
}
use scopepilot.Config.Checks.{
  or_else_iff, wrap_iff, first_error_iff, InRange, outside_iff, WebScheme, bad_scheme_iff,
  one_of_iff, differs_iff, found_iff,
}
use scopepilot.Config.Rules.{ValidRule, validate_scope_rule_iff}

module _ (w : Parsers) where
  pub record ValidProgram (p : ProgramConfig) : Type 0 where
    pub authorized : p.authorization_ref ≢ ""
    pub vpn_known :
        Any (λ n. p.network_policy.vpn ≡ n) ("required" ∷ "permitted" ∷ "prohibited" ∷ [])
    pub rate : InRange 1 50 p.limits.requests_per_second_per_host
    pub concurrency : InRange 1 20 p.limits.max_concurrency
    pub depth : InRange 0 20 p.limits.max_crawl_depth
    pub schemes : All WebScheme p.limits.allowed_schemes
    pub ports : All (InRange 1 65535) p.limits.allowed_ports
    pub something_included : p.scope.include ≢ []
    pub includes : All (ValidRule w) p.scope.include
    pub excludes : All (ValidRule w) p.scope.exclude

  no_rules : (rules : List ScopeRule) → ((length rules == 0) ≡ false) ↔ (rules ≢ [])
  no_rules [] = ((λ h. cc), (λ n. absurd (n refl)))
  no_rules (r ∷ rules) = ((λ h e. cc), (λ n. ground arith))

  rules_iff :
      (f : ℕ → RuleError → ProgramError) (rules : List ScopeRule)
      → (first_error (λ i r. wrap (f i) (validate_scope_rule w r)) 0 rules ≡ none)
        ↔ All (ValidRule w) rules
  rules_iff f rules =
      first_error_iff (λ i r. wrap (f i) (validate_scope_rule w r))
        (λ i r. (
          (λ h. (validate_scope_rule_iff w r).0 ((wrap_iff (f i) (validate_scope_rule w r)).0 h)),
          (λ v. (wrap_iff (f i) (validate_scope_rule w r)).1 ((validate_scope_rule_iff w r).1 v)),
        ))
        0 rules

  pub validate_program_iff : (p : ProgramConfig) → (validate_program w p ≡ none) ↔ ValidProgram p
  unfolding validate_program
  validate_program_iff p = (
    (λ f.
        let (a, f₁) = (refuse_iff (same p.authorization_ref "") _ _).0 f in
        let (b, f₂) = (refuse_not_iff (one_of p.network_policy.vpn vpn_names) _ _).0 f₁ in
        let (c, f₃) = (refuse_iff (outside 1 50 p.limits.requests_per_second_per_host) _ _).0 f₂ in
        let (d, f₄) = (refuse_iff (outside 1 20 p.limits.max_concurrency) _ _).0 f₃ in
        let (e, f₅) = (refuse_iff (outside 0 20 p.limits.max_crawl_depth) _ _).0 f₄ in
        let (g, f₆) =
          (or_else_iff (wrap unsupported_scheme (find_first bad_scheme p.limits.allowed_schemes))
              _).0
            f₅ in
        let (h, f₇) =
          (or_else_iff (wrap port_range (find_first (outside 1 65535) p.limits.allowed_ports)) _).0
            f₆ in
        let (i, f₈) = (refuse_iff (length p.scope.include == 0) _ _).0 f₇ in
        let (j, k) =
          (or_else_iff
              (first_error (λ i r. wrap (include_rule i) (validate_scope_rule w r)) 0
                p.scope.include)
              _).0
            f₈ in
        record {
          authorized = (differs_iff p.authorization_ref "").0 a;
          vpn_known = (one_of_iff p.network_policy.vpn vpn_names).0 b;
          rate = (outside_iff 1 50 p.limits.requests_per_second_per_host).0 c;
          concurrency = (outside_iff 1 20 p.limits.max_concurrency).0 d;
          depth = (outside_iff 0 20 p.limits.max_crawl_depth).0 e;
          schemes =
              (found_iff unsupported_scheme bad_scheme bad_scheme_iff p.limits.allowed_schemes).0 g;
          ports =
              (found_iff port_range (outside 1 65535) (outside_iff 1 65535)
                  p.limits.allowed_ports).0
                h;
          something_included = (no_rules p.scope.include).0 i;
          includes = (rules_iff include_rule p.scope.include).0 j;
          excludes = (rules_iff exclude_rule p.scope.exclude).0 k;
        }),
    (λ v. (refuse_iff (same p.authorization_ref "") _ _).1 (
      (differs_iff p.authorization_ref "").1 v.authorized,
      (refuse_not_iff (one_of p.network_policy.vpn vpn_names) _ _).1 (
        (one_of_iff p.network_policy.vpn vpn_names).1 v.vpn_known,
        (refuse_iff (outside 1 50 p.limits.requests_per_second_per_host) _ _).1 (
          (outside_iff 1 50 p.limits.requests_per_second_per_host).1 v.rate,
          (refuse_iff (outside 1 20 p.limits.max_concurrency) _ _).1 (
            (outside_iff 1 20 p.limits.max_concurrency).1 v.concurrency,
            (refuse_iff (outside 0 20 p.limits.max_crawl_depth) _ _).1
                ((outside_iff 0 20 p.limits.max_crawl_depth).1 v.depth, lists v),
          ),
        ),
      ),
    )),
  )
    where
      vpn_names : List String
      vpn_names = "required" ∷ "permitted" ∷ "prohibited" ∷ []

      lists :
          ValidProgram p
          → or_else (wrap unsupported_scheme (find_first bad_scheme p.limits.allowed_schemes)) (
              or_else (wrap port_range (find_first (outside 1 65535) p.limits.allowed_ports)) (
                if length p.scope.include == 0
                then some nothing_included
                else or_else
                    (first_error
                      (λ i r. wrap (include_rule i) (validate_scope_rule w r))
                      0
                      p.scope.include)
                    (first_error
                      (λ i r. wrap (exclude_rule i) (validate_scope_rule w r))
                      0
                      p.scope.exclude)))
            ≡ none
      lists v =
          rw
            (
              (found_iff unsupported_scheme bad_scheme bad_scheme_iff p.limits.allowed_schemes).1
                  v.schemes,
              (found_iff port_range (outside 1 65535) (outside_iff 1 65535)
                    p.limits.allowed_ports).1
                  v.ports,
              (no_rules p.scope.include).1 v.something_included,
              (rules_iff include_rule p.scope.include).1 v.includes,
              (rules_iff exclude_rule p.scope.exclude).1 v.excludes,
            )
            refl
