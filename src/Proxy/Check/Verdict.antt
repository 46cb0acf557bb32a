-- ===== src/Proxy/Check/Verdict.antt =====
-- What CheckURL allows, and that ServeHTTP forwards it.
use scopepilot.Prelude.{
  ◌≡◌, refl, sym, subst, ◌∙◌, ◌≢◌, ◌↔◌, ◌⊎◌, inl, inr, Bool, true, false, List, [], ◌∷◌, Option,
  none, some, some_inj, Bool-cases, Option-cases, passed, passed_not, passing, passing_not,
}
use scopepilot.Text.{Text, codes, text_eq, text_eq_iff, text_eq_ne}
use scopepilot.Normalize.{host, Url, hostname, port_of}
use scopepilot.Scope.{is_url_in_scope}
use scopepilot.Scope.Hosts.{Admits}
use scopepilot.Scope.Urls.{AdmitsUrl, is_url_in_scope_iff}
use scopepilot.Scope.Ip.{is_blocked_ip}
use scopepilot.KillSwitch.{is_active}
use scopepilot.RateLimit.{host_allow}
use scopepilot.Proxy.{
  Proxy, Libraries, Io, forwarded, check_kill_switch, validate_scheme, validate_port,
  check_path_exclusion, validate_ips,
}
use scopepilot.Proxy.Layers.{
  Allows, AllowsPort, AllPublic, validate_scheme_iff, validate_port_iff, validate_ips_iff,
}
use scopepilot.Proxy.Serve.{Request, parsed, parse_request, serve_http}
use scopepilot.Proxy.Safety.{Safe, serve_http-forwards_iff}
use scopepilot.Proxy.Check.{
  CheckResult, is_literal, check_scope, check_dns, check_address, check_parsed, check_url,
}

module _ (w : Libraries) (p : Proxy) (io : Io) where
  -- An address that is in no blocked range, or a name that resolves to such addresses.
  abbrev pub Reachable : Text → Type 0
  Reachable h =
      ((is_literal w h ≡ true) × (is_blocked_ip (w.parse_ip h) ≡ false))
      ⊎ ((is_literal w h ≡ false) × ((ips : List Text) × (io.dns h ≡ some ips) × AllPublic w ips))

  -- Every layer that CheckURL consults admits the URL.
  pub record Checked (u : Url) : Type 0 where
    pub named : hostname u ≢ []
    pub switch_off : p.switch.activated ≡ false
    pub testing_enabled : p.config.active_testing_enabled ≡ true
    pub scheme_allowed : Allows p.config.allowed_schemes u.scheme
    pub port_allowed : AllowsPort p (port_of u) u.scheme
    pub reachable : Reachable (host w.to_ascii (hostname u))
    pub admitted : AdmitsUrl w.to_ascii p.engine u p.config.allowed_schemes p.config.allowed_ports
    pub path_admitted : check_path_exclusion w p (host w.to_ascii (hostname u)) u.path ≡ false

  abbrev Allowed : CheckResult → Type 0
  Allowed r = r.allowed ≡ true

  abbrev url_admitted : Text → Bool
  url_admitted raw =
      (is_url_in_scope w.to_ascii w.parse p.engine raw p.config.allowed_schemes
        p.config.allowed_ports).in_scope

  -- The last two checks.
  abbrev Admitted : Text → Url → Text → Type 0
  Admitted raw u h = (url_admitted raw ≡ true) × (check_path_exclusion w p h u.path ≡ false)

  scope_iff :
      (raw : Text) (u : Url) (h : Text) → Allowed (check_scope w p raw u h) ↔ Admitted raw u h
  unfolding check_scope
  scope_iff raw u h = (
    (λ a.
        let (s, a₁) = passed_not Allowed (url_admitted raw) _ _ a (λ h. cc) in
        let (x, a₂) = passed Allowed (check_path_exclusion w p h u.path) _ _ a₁ (λ h. cc) in
        (s, x)),
    (λ (s, x).
        passing_not Allowed (url_admitted raw) _ _ s
          (passing Allowed (check_path_exclusion w p h u.path) _ _ x refl)),
  )

  dns_iff :
      (raw : Text) (u : Url) (h : Text) (answer : Option (List Text))
      → Allowed (check_dns w p raw u h answer)
        ↔ (((ips : List Text) × (answer ≡ some ips) × AllPublic w ips) × Admitted raw u h)
  dns_iff raw u h none = ((λ a. cc), (λ ((ips, e, all), s). cc))
  dns_iff raw u h (some ips) = elim (Option-cases (validate_ips w ips)) [
    | inl b ↦ (
      (λ a. ((ips, refl, (validate_ips_iff w ips).0 b), (scope_iff raw u h).0 (rw b at a))),
      (λ (found, s). rw b ((scope_iff raw u h).1 s)),
    )
    | inr (bad, b) ↦ (
      (λ a. cc (rw b at a)),
      (λ ((js, e, all), s). cc (some_inj e, b, (validate_ips_iff w js).1 all)),
    )
  ]

  address_iff :
      (raw : Text) (u : Url) (h : Text)
      → Allowed (check_address w p io raw u h) ↔ (Reachable h × Admitted raw u h)
  unfolding check_address
  address_iff raw u h = elim (Bool-cases (is_literal w h)) [
    | inl l ↦ elim (Bool-cases (is_blocked_ip (w.parse_ip h))) [
      | inl b ↦
          ((λ a. cc (rw (l, b) at a)), (λ (r, s). elim r [ inl (t, c) ↦ cc | inr (f, c) ↦ cc ]))
      | inr b ↦ (
        (λ a. (inl (l, b), (scope_iff raw u h).0 (rw (l, b) at a))),
        (λ (r, s). rw (l, b) ((scope_iff raw u h).1 s)),
      )
    ]
    | inr l ↦ (
      (λ a. let (d, s) = (dns_iff raw u h (io.dns h)).0 (rw l at a) in (inr (l, d), s)),
      (λ (r, s). elim r [
        | inl (t, c) ↦ cc
        | inr (f, d) ↦ rw l ((dns_iff raw u h (io.dns h)).1 (d, s))
      ]),
    )
  ]

  parsed_iff :
      (raw : Text) (u : Url)
      → w.parse raw ≡ some u
      → Allowed (check_parsed w p io raw u) ↔ Checked u
  unfolding check_parsed check_kill_switch is_active
  parsed_iff raw u q = (
    (λ a.
        let (n, a₁) = passed Allowed (text_eq (hostname u) []) _ _ a (λ h. cc) in
        let (k, a₂) = passed Allowed p.switch.activated _ _ a₁ (λ h. cc) in
        let (t, a₃) = passed_not Allowed p.config.active_testing_enabled _ _ a₂ (λ h. cc) in
        let (s, a₄) = passed_not Allowed (validate_scheme p u.scheme) _ _ a₃ (λ h. cc) in
        let (o, a₅) =
          passed_not Allowed (validate_port p (port_of u) u.scheme).1 _ _ a₄ (λ h. cc) in
        let (r, (i, x)) = (address_iff raw u h).0 a₅ in
        record {
          named = λ e. cc (n, (text_eq_iff (hostname u) []).1 e);
          switch_off = k;
          testing_enabled = t;
          scheme_allowed = (validate_scheme_iff p u.scheme).0 s;
          port_allowed = (validate_port_iff p (port_of u) u.scheme).0 o;
          reachable = r;
          admitted = of_url ((url_iff).0 i);
          path_admitted = x;
        }),
    (λ c. passing Allowed (text_eq (hostname u) []) _ _ (text_eq_ne (hostname u) [] c.named) (
        passing Allowed p.switch.activated _ _ c.switch_off (
          passing_not Allowed p.config.active_testing_enabled _ _ c.testing_enabled (
            passing_not Allowed (validate_scheme p u.scheme) _ _
              ((validate_scheme_iff p u.scheme).1 c.scheme_allowed)
              (passing_not Allowed (validate_port p (port_of u) u.scheme).1 _ _
                ((validate_port_iff p (port_of u) u.scheme).1 c.port_allowed)
                ((address_iff raw u h).1
                  (c.reachable, (url_iff.1 (u, q, c.admitted), c.path_admitted)))))))),
  )
    where
      h : Text
      h = host w.to_ascii (hostname u)

      url_iff : (url_admitted raw ≡ true) ↔ (
          (v : Url) × (w.parse raw ≡ some v)
          × AdmitsUrl w.to_ascii p.engine v p.config.allowed_schemes p.config.allowed_ports)
      url_iff =
          is_url_in_scope_iff w.to_ascii w.parse p.engine raw p.config.allowed_schemes
            p.config.allowed_ports

      of_url :
          ((v : Url) × (w.parse raw ≡ some v)
            × AdmitsUrl w.to_ascii p.engine v p.config.allowed_schemes p.config.allowed_ports)
          → AdmitsUrl w.to_ascii p.engine u p.config.allowed_schemes p.config.allowed_ports
      of_url (v, e, a) =
          subst
            (λ x. AdmitsUrl w.to_ascii p.engine x p.config.allowed_schemes p.config.allowed_ports)
            (some_inj (sym e ∙ q)) a

  pub check_url_iff :
      (raw : Text)
      → ((check_url w p io raw).allowed ≡ true) ↔ ((u : Url) × (w.parse raw ≡ some u) × Checked u)
  unfolding check_url
  check_url_iff raw = elim (Option-cases (w.parse raw)) [
    | inl q ↦ ((λ a. cc (rw q at a)), (λ (u, e, c). cc))
    | inr (u, q) ↦ (
      (λ a. (u, q, (parsed_iff raw u q).0 (rw q at a))),
      (λ (v, e, c). rw q ((parsed_iff raw u q).1 (subst Checked (some_inj (sym e ∙ q)) c))),
    )
  ]

  -- What CheckURL allows, ServeHTTP forwards in the same surroundings (the same state of the proxy,
  -- and the same answers of the resolver): a request that is no CONNECT, whose path is not /health
  -- and which parses to the URL that CheckURL allows, is forwarded to it, if the proxy is out of its
  -- dry run, the limiter grants a token, the normal form of the host is its own normal form, and the
  -- resolver answers an address with that address alone.
  pub check_url-forwards :
      (raw : Text) (r : Request) (u : Url)
      → (check_url w p io raw).allowed ≡ true
      → w.parse raw ≡ some u
      → r.url.path ≢ codes "/health"
      → r.method ≢ codes "CONNECT"
      → parse_request w r ≡ parsed u
      → p.config.dry_run ≡ false
      → (host_allow p.limiter (host w.to_ascii (hostname u)) io.created io.since io.now).1 ≡ true
      → host w.to_ascii (host w.to_ascii (hostname u)) ≡ host w.to_ascii (hostname u)
      → ((h : Text) → is_literal w h ≡ true → io.dns h ≡ some (h ∷ []))
      → (serve_http w p r io).1 ≡ forwarded u
  check_url-forwards raw r u allowed q no_health no_connect same_url wet granted stable literal =
      (serve_http-forwards_iff w p io r u).1 (no_health, no_connect, same_url, safe)
    where
      checked : Checked u
      checked =
          let (v, e, c) = (check_url_iff raw).0 allowed in subst Checked (some_inj (sym e ∙ q)) c

      addresses :
          Reachable (host w.to_ascii (hostname u))
          → (ips : List Text) × (io.dns (host w.to_ascii (hostname u)) ≡ some ips) × AllPublic w ips
      addresses (inl (l, b)) = (host w.to_ascii (hostname u) ∷ [], literal _ l, (b, tt))
      addresses (inr (l, found)) = found

      safe : Safe w p io u
      safe = record {
        switch_off = checked.switch_off;
        testing_enabled = checked.testing_enabled;
        scheme_allowed = checked.scheme_allowed;
        port_allowed = checked.port_allowed;
        host_admitted =
            subst (Admits w.to_ascii p.engine) (sym stable) checked.admitted.host_admitted;
        path_admitted = checked.path_admitted;
        addresses = addresses checked.reachable;
        not_dry = wet;
        granted = granted;
      }
