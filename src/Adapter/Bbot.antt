-- ===== src/Adapter/Bbot.antt =====
-- With which targets and through which proxy BBOT runs.
use scopepilot.Prelude.{
  ℕ, ◌≡◌, ◌≢◌, refl, sym, ap, ◌⊎◌, inl, inr, Bool, true, false, List, [], ◌∷◌, ◌++◌, Option, none,
  some, ◌==◌, if◌then◌else◌, length, All, Option-cases, passed, passed_not,
}
use scopepilot.Text.{Text, codes, text_eq, text_eq_iff}
use scopepilot.Adapter.{
  filter_in_scope, validate_proxy_url, proxy_environment, BbotConfig, BbotRun, Machine, ToolCommand,
  version_command, bbot_command, execute_bbot, guard_vpn, guard_url, guarded_bbot, with_client,
  run_bbot, ProxyUrlError, stopped, proxy_missing,
}

filtered :
    (check : Text → Option Bool) (hs : List Text)
    → All (λ h. check (codes "https://" ++ h) ≡ some true) (filter_in_scope check hs).0
unfolding filter_in_scope
filtered check [] = tt
filtered check (h ∷ hs) = elim (Option-cases (check (codes "https://" ++ h))) [
  | inl e ↦ rw e (filtered check hs)
  | inr (true, e) ↦ rw e (e, filtered check hs)
  | inr (false, e) ↦ rw e (filtered check hs)
]

module _ (m : Machine) (cfg : BbotConfig) (check : Text → Option Bool) (c : ToolCommand)
    (cs : List ToolCommand) where
  abbrev Starts : BbotRun → Type 0
  Starts r = r.started ≡ c ∷ cs

  never : ¬ ([] ≡ c ∷ cs)
  never h = cc

  -- The version is asked for, and then BBOT runs with the targets.
  abbrev pub Commands : List Text → Type 0
  Commands in_scope =
      (c ∷ cs) ≡ version_command m cfg.binary_path ∷ bbot_command m cfg in_scope ∷ []

  -- How BBOT reaches its targets.
  abbrev pub Routed : List Text → Type 0
  Routed in_scope =
      (cfg.no_proxy ≡ true)
      ⊎ ((validate_proxy_url m.parse cfg.proxy_url ≡ none)
          × ((bbot_command m cfg in_scope).environment ≡ proxy_environment m.environ cfg.proxy_url))

  vpn-Starts :
      (in_scope : List Text) (n : ℕ)
      → Starts (guard_vpn m cfg check in_scope n)
      → (cfg.vpn_container ≡ []) × Commands in_scope
  unfolding execute_bbot
  vpn-Starts in_scope n h =
      let (v, f) = passed_not Starts (text_eq cfg.vpn_container []) _ _ h never in
      ((text_eq_iff cfg.vpn_container []).0 v, sym f)

  url-Starts :
      (in_scope : List Text) (n : ℕ) (e : Option ProxyUrlError)
      → Starts (guard_url m cfg check in_scope n e)
      → (e ≡ none) × Starts (guard_vpn m cfg check in_scope n)
  url-Starts in_scope n none h = (refl, h)
  url-Starts in_scope n (some e) h = absurd (never h)

  guarded-Starts :
      (in_scope blocked : List Text)
      → Starts (guarded_bbot m cfg check in_scope blocked)
      → (cfg.dry_run ≡ false)
        × (in_scope ≢ [])
        × (cfg.vpn_container ≡ [])
        × Commands in_scope
        × Routed in_scope
  unfolding guarded_bbot
  guarded-Starts in_scope blocked h =
      let (wet, f₁) = passed Starts cfg.dry_run _ _ h never in
      let (some_left, f₂) = passed Starts (length in_scope == 0) _ _ f₁ never in
      let (vpn, e, route) = by_proxy cfg.no_proxy refl f₂ in
      (wet, nonempty in_scope some_left, vpn, e, route)
    where
      n : ℕ
      n = length blocked

      nonempty : (ts : List Text) → (length ts == 0) ≡ false → ts ≢ []
      nonempty [] e none_left = cc
      nonempty (t ∷ ts) e none_left = cc

      by_proxy :
          (b : Bool)
          → cfg.no_proxy ≡ b
          → Starts (
              if b
              then guard_vpn m cfg check in_scope n
              else if text_eq cfg.proxy_url []
              then stopped (inl proxy_missing)
              else guard_url m cfg check in_scope n (validate_proxy_url m.parse cfg.proxy_url))
          → (cfg.vpn_container ≡ []) × Commands in_scope × Routed in_scope
      by_proxy true direct f = let (vpn, e) = vpn-Starts in_scope n f in (vpn, e, inl direct)
      by_proxy false proxied f =
          let (url, f₃) = passed Starts (text_eq cfg.proxy_url []) _ _ f never in
          let (fine, f₄) = url-Starts in_scope n (validate_proxy_url m.parse cfg.proxy_url) f₃ in
          let (vpn, e) = vpn-Starts in_scope n f₄ in
          (
            vpn,
            e,
            inr (
              fine,
              ap (λ b. if b then m.environ else proxy_environment m.environ cfg.proxy_url) proxied,
            ),
          )

-- When RunBBOT starts a process, it starts two, in this order: its binary with `--version`, in the
-- environment of the caller, and BBOT for the targets that the filter leaves. There are such targets,
-- and CheckURL allows each of them as a URL; it is no dry run and no VPN container is asked for; and
-- either the caller asked for no proxy, or the proxy's URL is valid and the environment of the second
-- process is that of proxyEnvironment.
pub run_bbot-started :
    (m : Machine) (cfg : BbotConfig) (targets : List Text) (c : ToolCommand) (cs : List ToolCommand)
    → (run_bbot m cfg targets).started ≡ c ∷ cs
    → (check : Text → Option Bool) × (cfg.client ≡ some check)
      × All (λ h. check (codes "https://" ++ h) ≡ some true) (filter_in_scope check targets).0
      × (cfg.dry_run ≡ false)
      × ((filter_in_scope check targets).0 ≢ [])
      × (cfg.vpn_container ≡ [])
      × Commands m cfg check c cs (filter_in_scope check targets).0
      × Routed m cfg check c cs (filter_in_scope check targets).0
unfolding run_bbot
run_bbot-started m cfg targets c cs h = by_client cfg.client refl h
  where
    by_client :
        (o : Option (Text → Option Bool))
        → cfg.client ≡ o
        → (with_client m cfg targets o).started ≡ c ∷ cs
        → (check : Text → Option Bool) × (cfg.client ≡ some check)
          × All (λ h. check (codes "https://" ++ h) ≡ some true) (filter_in_scope check targets).0
          × (cfg.dry_run ≡ false)
          × ((filter_in_scope check targets).0 ≢ [])
          × (cfg.vpn_container ≡ [])
          × Commands m cfg check c cs (filter_in_scope check targets).0
          × Routed m cfg check c cs (filter_in_scope check targets).0
    by_client none e f = cc
    by_client (some check) e f =
        let (wet, left, vpn, q, route) =
          guarded-Starts m cfg check c cs (filter_in_scope check targets).0
            (filter_in_scope check targets).1 f in
        (check, e, filtered check targets, wet, left, vpn, q, route)
