-- ===== src/Config/Valid.antt =====
-- Which configurations Validate accepts.
use scopepilot.Prelude.{
  ℕ, suc, ◌*◌, ◌≡◌, refl, ◌≢◌, ◌↔◌, ◌⊎◌, inl, inr, String, Bool, true, false, ◌&&◌, not, List, [],
  ◌∷◌, none, any, find_first, same, string_eq, All, Any, All-map, All-both, any→All, All→any,
  refuse_iff, refuse_not_iff,
}
use scopepilot.Config.{
  GlobalConfig, ProgramConfig, Config, outside, one_of, bad_scheme, wrap, validate_global, Parsers,
  validate_program, check_program, check_programs, validate, in_program, in_global, default_scheme,
  default_port_range,
}
use scopepilot.Config.Checks.{
  or_else_iff, wrap_iff, InRange, outside_iff, WebScheme, bad_scheme_iff, one_of_iff, differs_iff,
  found_iff, both_false_iff,
}
use scopepilot.Config.Programs.{ValidProgram, validate_program_iff}

-- The ranges of the defaults, the log level, and the paths and numbers of the other sections.
pub record ValidGlobal (g : GlobalConfig) : Type 0 where
  pub rate : InRange 1 50 g.defaults.requests_per_second_per_host
  pub concurrency : InRange 1 20 g.defaults.max_concurrency
  pub response_bytes : InRange 1024 52428800 g.defaults.max_response_bytes
  pub schemes : All WebScheme g.defaults.allowed_schemes
  pub ports : All (InRange 1 65535) g.defaults.allowed_ports
  pub log_known : Any (λ n. g.log_level ≡ n) ("" ∷ "debug" ∷ "info" ∷ "warn" ∷ "error" ∷ [])
  pub vpn_path : (g.vpn.enabled ≡ false) ⊎ (g.vpn.wg_config_path ≢ "")
  pub connections : InRange 0 100 g.database.max_conns

validate_global_iff : (g : GlobalConfig) → (validate_global g ≡ none) ↔ ValidGlobal g
unfolding validate_global
validate_global_iff g = (
  (λ f.
      let (a, f₁) = (refuse_iff (outside 1 50 g.defaults.requests_per_second_per_host) _ _).0 f in
      let (b, f₂) = (refuse_iff (outside 1 20 g.defaults.max_concurrency) _ _).0 f₁ in
      let (c, f₃) =
        (refuse_iff (outside 1024 (50 * 1024 * 1024) g.defaults.max_response_bytes) _ _).0 f₂ in
      let (d, f₄) =
        (or_else_iff (wrap default_scheme (find_first bad_scheme g.defaults.allowed_schemes)) _).0
          f₃ in
      let (e, f₅) =
        (or_else_iff
            (wrap default_port_range (find_first (outside 1 65535) g.defaults.allowed_ports)) _).0
          f₄ in
      let (h, f₆) = (refuse_not_iff (one_of g.log_level levels) _ _).0 f₅ in
      let (i, f₇) = (refuse_iff (g.vpn.enabled && same g.vpn.wg_config_path "") _ _).0 f₆ in
      let (j, f₈) = (refuse_iff (outside 0 100 g.database.max_conns) _ _).0 f₇ in
      record {
        rate = (outside_iff 1 50 g.defaults.requests_per_second_per_host).0 a;
        concurrency = (outside_iff 1 20 g.defaults.max_concurrency).0 b;
        response_bytes = (outside_iff 1024 52428800 g.defaults.max_response_bytes).0 c;
        schemes =
            (found_iff default_scheme bad_scheme bad_scheme_iff g.defaults.allowed_schemes).0 d;
        ports =
            (found_iff default_port_range (outside 1 65535) (outside_iff 1 65535)
                g.defaults.allowed_ports).0
              e;
        log_known = (one_of_iff g.log_level levels).0 h;
        vpn_path = paths.0 i;
        connections = (outside_iff 0 100 g.database.max_conns).0 j;
      }),
  (λ v.
      rw
        (
          (outside_iff 1 50 g.defaults.requests_per_second_per_host).1 v.rate,
          (outside_iff 1 20 g.defaults.max_concurrency).1 v.concurrency,
          (outside_iff 1024 52428800 g.defaults.max_response_bytes).1 v.response_bytes,
          (found_iff default_scheme bad_scheme bad_scheme_iff g.defaults.allowed_schemes).1
              v.schemes,
          (found_iff default_port_range (outside 1 65535) (outside_iff 1 65535)
                g.defaults.allowed_ports).1
              v.ports,
          (one_of_iff g.log_level levels).1 v.log_known,
          paths.1 v.vpn_path,
          (outside_iff 0 100 g.database.max_conns).1 v.connections,
        )
        refl),
)
  where
    levels : List String
    levels = "" ∷ "debug" ∷ "info" ∷ "warn" ∷ "error" ∷ []

    paths :
        (g.vpn.enabled && same g.vpn.wg_config_path "" ≡ false)
        ↔ ((g.vpn.enabled ≡ false) ⊎ (g.vpn.wg_config_path ≢ ""))
    paths = (
      (λ h. elim ((both_false_iff g.vpn.enabled _).0 h) [
        | inl e ↦ inl e
        | inr e ↦ inr ((differs_iff g.vpn.wg_config_path "").0 e)
      ]),
      (λ h. elim h [
        | inl e ↦ (both_false_iff g.vpn.enabled _).1 (inl e)
        | inr n ↦
            (both_false_iff g.vpn.enabled _).1 (inr ((differs_iff g.vpn.wg_config_path "").1 n))
      ]),
    )

abbrev pub DistinctIds : List ProgramConfig → Type 0
DistinctIds [] = Unit
DistinctIds (p ∷ ps) = All (λ q. p.id ≢ q.id) ps × DistinctIds ps

module _ (w : Parsers) (vpn : Bool) where
  -- A program with an identifier that is itself valid and agrees with whether the VPN is enabled.
  pub record Accepted (p : ProgramConfig) : Type 0 where
    pub identified : p.id ≢ ""
    pub valid : ValidProgram w p
    pub required : (p.network_policy.vpn ≢ "required") ⊎ (vpn ≡ true)
    pub prohibited : (p.network_policy.vpn ≢ "prohibited") ⊎ (vpn ≡ false)

  agrees : (s t : String) (b : Bool) → (same s t && b ≡ false) ↔ ((s ≢ t) ⊎ (b ≡ false))
  agrees s t b = (
    (λ h. elim ((both_false_iff (same s t) b).0 h) [
      | inl e ↦ inl ((differs_iff s t).0 e)
      | inr e ↦ inr e
    ]),
    (λ h.
        (both_false_iff (same s t) b).1
          (elim h [ inl n ↦ inl ((differs_iff s t).1 n) | inr e ↦ inr e ])),
  )

  unseen_iff :
      (id : String) (seen : List String)
      → (any (λ s. same s id) seen ≡ false) ↔ All (λ s. s ≢ id) seen
  unseen_iff id seen = (
    (λ h. All-map (λ s. (differs_iff s id).0) seen (any→All (λ s. same s id) seen h)),
    (λ h. All→any (λ s. same s id) seen (All-map (λ s. (differs_iff s id).1) seen h)),
  )

  not_iff : (b : Bool) → (not b ≡ false) ↔ (b ≡ true)
  not_iff true = ((λ h. refl), (λ h. refl))
  not_iff false = ((λ h. cc), (λ h. cc))

  check_program_iff :
      (seen : List String) (i : ℕ) (p : ProgramConfig)
      → (check_program w vpn seen i p ≡ none) ↔ (Accepted p × All (λ s. s ≢ p.id) seen)
  unfolding check_program
  check_program_iff seen i p = (
    (λ f.
        let (a, f₁) = (refuse_iff (same p.id "") _ _).0 f in
        let (b, f₂) = (refuse_iff (any (λ s. same s p.id) seen) _ _).0 f₁ in
        let (c, f₃) = (or_else_iff (wrap (in_program p.id) (validate_program w p)) _).0 f₂ in
        let (d, f₄) = (refuse_iff (same p.network_policy.vpn "required" && not vpn) _ _).0 f₃ in
        let (e, f₅) = (refuse_iff (same p.network_policy.vpn "prohibited" && vpn) _ _).0 f₄ in
        (
          record {
            identified = (differs_iff p.id "").0 a;
            valid =
                (validate_program_iff w p).0
                  ((wrap_iff (in_program p.id) (validate_program w p)).0 c);
            required = elim ((agrees p.network_policy.vpn "required" (not vpn)).0 d) [
              | inl n ↦ inl n
              | inr q ↦ inr ((not_iff vpn).0 q)
            ];
            prohibited = (agrees p.network_policy.vpn "prohibited" vpn).0 e;
          },
          (unseen_iff p.id seen).0 b,
        )),
    (λ (v, fresh). (refuse_iff (same p.id "") _ _).1 (
      (differs_iff p.id "").1 v.identified,
      (refuse_iff (any (λ s. same s p.id) seen) _ _).1 (
        (unseen_iff p.id seen).1 fresh,
        (or_else_iff (wrap (in_program p.id) (validate_program w p)) _).1 (
          (wrap_iff (in_program p.id) (validate_program w p)).1
              ((validate_program_iff w p).1 v.valid),
          (refuse_iff (same p.network_policy.vpn "required" && not vpn) _ _).1 (
            (agrees p.network_policy.vpn "required" (not vpn)).1
                (elim v.required [ inl n ↦ inl n | inr q ↦ inr ((not_iff vpn).1 q) ]),
            (refuse_iff (same p.network_policy.vpn "prohibited" && vpn) _ _).1
                ((agrees p.network_policy.vpn "prohibited" vpn).1 v.prohibited, refl),
          ),
        ),
      ),
    )),
  )

  check_programs_iff :
      (seen : List String) (i : ℕ) (ps : List ProgramConfig)
      → (check_programs w vpn seen i ps ≡ none)
        ↔ (All Accepted ps × All (λ p. All (λ s. s ≢ p.id) seen) ps × DistinctIds ps)
  unfolding check_programs
  check_programs_iff seen i [] = ((λ h. (tt, tt, tt)), (λ h. refl))
  check_programs_iff seen i (p ∷ ps) = (
    (λ f.
        let (a, f₁) = (or_else_iff (check_program w vpn seen i p) _).0 f in
        let (v, fresh) = (check_program_iff seen i p).0 a in
        let (vs, unseen, distinct) = (check_programs_iff (p.id ∷ seen) (suc i) ps).0 f₁ in
        (
          (v, vs),
          (fresh, All-map (λ q h. h.1) ps unseen),
          (All-map (λ q h. h.0) ps unseen, distinct),
        )),
    (λ ((v, vs), (fresh, unseen), (here, distinct)).
        (or_else_iff (check_program w vpn seen i p) _).1 (
          (check_program_iff seen i p).1 (v, fresh),
          (check_programs_iff (p.id ∷ seen) (suc i) ps).1 (
            vs,
            All-both (λ q. p.id ≢ q.id) (λ q. All (λ s. s ≢ q.id) seen) ps here unseen,
            distinct,
          ),
        )),
  )

  none_seen : (ps : List ProgramConfig) → All (λ p. All (λ s. s ≢ p.id) []) ps
  none_seen [] = tt
  none_seen (p ∷ ps) = (tt, none_seen ps)

-- Validate accepts a configuration exactly when its global section is valid, each program has an
-- identifier, is valid and agrees with whether the VPN is enabled, and no two programs share an
-- identifier. A valid program has an authorization, limits in their ranges, web schemes, port
-- numbers, and at least one rule to include, and its rules are of the four kinds with a host, a
-- wildcard, a path or an address block that can be read.
pub validate_iff :
    (w : Parsers) (c : Config)
    → (validate w c ≡ none) ↔ (
        ValidGlobal c.global
        × All (Accepted w c.global.vpn.enabled) c.programs
        × DistinctIds c.programs)
unfolding validate
validate_iff w c = (
  (λ f.
      let (a, b) = (or_else_iff (wrap in_global (validate_global c.global)) _).0 f in
      let (vs, unseen, distinct) =
        (check_programs_iff w c.global.vpn.enabled [] 0 c.programs).0 b in
      (
        (validate_global_iff c.global).0 ((wrap_iff in_global (validate_global c.global)).0 a),
        vs,
        distinct,
      )),
  (λ (g, vs, distinct). (or_else_iff (wrap in_global (validate_global c.global)) _).1 (
    (wrap_iff in_global (validate_global c.global)).1 ((validate_global_iff c.global).1 g),
    (check_programs_iff w c.global.vpn.enabled [] 0 c.programs).1
        (vs, none_seen w c.global.vpn.enabled c.programs, distinct),
  )),
)
