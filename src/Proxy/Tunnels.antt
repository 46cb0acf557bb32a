-- ===== src/Proxy/Tunnels.antt =====
-- Which tunnels handleConnect opens.
use scopepilot.Prelude.{
  passed, passed_not, passing, passing_not, ℕ, ◌≡◌, refl, sym, ◌∙◌, ap, subst, ◌≢◌, ◌↔◌, inl, inr,
  String, Bool, true, false, List, [], Option, none, some, some_inj, Bool-cases, Option-cases,
  if◌then◌else◌, lookup, lookup-insert_self,
}
use scopepilot.Text.{Text, codes, text_eq, text_eq_iff, text_keys}
use scopepilot.Normalize.{host}
use scopepilot.Scope.{is_host_in_scope}
use scopepilot.Scope.Hosts.{Admits, is_host_in_scope_iff}
use scopepilot.KillSwitch.{is_active}
use scopepilot.RateLimit.{host_allow}
use scopepilot.Proxy.{
  Proxy, Libraries, Io, Response, Field, tunnel, Takeover, no_hijacker, hijack_error, write_error,
  dial_error, relays, check_kill_switch, validate_scheme, validate_port, check_host_scope,
  validate_ips, store_resolved_ips, check_rate_limit, port_number,
}
use scopepilot.Proxy.Connect.{
  dial_ip, relay, handle_connect, connect_parts, connect_host, connect_dns, connect_admit,
}
use scopepilot.Proxy.Serve.{Request, serve_http}
use scopepilot.Proxy.Layers.{
  Allows, AllPublic, validate_scheme_iff, validate_port_iff, validate_port-value, validate_ips_iff,
}

abbrev pub authority_of : Text → Text → Text
authority_of request_host url_host = if text_eq request_host [] then url_host else request_host

abbrev pub with_dry_run : Proxy → Bool → Proxy
with_dry_run p b = record p { config = record p.config { dry_run = b } }

relay_tunnel :
    (t : Takeover) (x ip : Text) (n m : ℕ)
    → (relay t x n ≡ tunnel ip m) ↔ ((t ≡ relays) × (x ≡ ip) × (n ≡ m))
relay_tunnel no_hijacker x ip n m = ((λ e. cc), (λ (t, d, s). cc))
relay_tunnel hijack_error x ip n m = ((λ e. cc), (λ (t, d, s). cc))
relay_tunnel write_error x ip n m = ((λ e. cc), (λ (t, d, s). cc))
relay_tunnel dial_error x ip n m = ((λ e. cc), (λ (t, d, s). cc))
relay_tunnel relays x ip n m = ((λ e. (refl, cc, cc)), (λ (t, d, s). cc))

module _ (w : Libraries) (io : Io) where
  -- The host resolves to public addresses only, the limiter grants, and the first address is dialled
  -- for a client whose connection is taken over.
  abbrev pub Dials : Proxy → Text → Text → Type 0
  Dials p h ip =
      (ips : List Text) × (io.dns h ≡ some ips)
      × AllPublic w ips
      × ((host_allow p.limiter h io.created io.since io.now).1 ≡ true)
      × (io.takeover ≡ relays)
      × (dial_ip h (some ips) ≡ ip)

  -- The layers admit the parts of the authority.
  abbrev pub Reaches : Proxy → Text → Text → Text → ℕ → Type 0
  Reaches p raw port ip n =
      Allows p.config.allowed_schemes (codes "https")
      × (port_number port (codes "https") ≡ some n)
      × Allows p.config.allowed_ports n
      × Admits w.to_ascii p.engine (host w.to_ascii (host w.to_ascii raw))
      × Dials p (host w.to_ascii raw) ip

  -- Every layer that handleConnect consults admits the authority.
  abbrev pub Opens : Proxy → Text → Text → ℕ → Type 0
  Opens p authority ip n =
      (p.switch.activated ≡ false)
      × (p.config.active_testing_enabled ≡ true)
      × ((raw : Text) × (port : Text) × (w.split_host_port authority ≡ some (raw, port))
          × Reaches p raw port ip n)

  admit_tunnel :
      (p : Proxy) (h : Text) (n m : ℕ) (fields : List (String × Field)) (ips : List Text)
      (ip : Text)
      → ((connect_admit (store_resolved_ips p io.victim h ips) io h n fields).1 ≡ tunnel ip m) ↔ (
          ((host_allow p.limiter h io.created io.since io.now).1 ≡ true)
          × (io.takeover ≡ relays)
          × (dial_ip h (some ips) ≡ ip)
          × (n ≡ m))
  unfolding connect_admit check_rate_limit store_resolved_ips
  admit_tunnel p h n m fields ips ip =
      elim (Bool-cases (host_allow p.limiter h io.created io.since io.now).1) [
        | inl g ↦
            let pinned : lookup h (store_resolved_ips p io.victim h ips).resolved_ips ≡ some ips =
              lookup-insert_self h ips _ in
            (
              (λ e.
                  let (t, d, s) =
                    (relay_tunnel io.takeover (dial_ip h (some ips)) ip n m).0
                      (rw (g, pinned) at e) in
                  (g, t, d, s)),
              (λ (g', t, d, s).
                  rw (g, pinned)
                    ((relay_tunnel io.takeover (dial_ip h (some ips)) ip n m).1 (t, d, s))),
            )
        | inr g ↦ ((λ e. cc (rw g at e)), (λ (g', t, d, s). cc))
      ]

  dns_tunnel :
      (p : Proxy) (h : Text) (n m : ℕ) (fields : List (String × Field))
      (answer : Option (List Text)) (ip : Text)
      → ((connect_dns w p io h n fields answer).1 ≡ tunnel ip m) ↔ (
          (ips : List Text) × (answer ≡ some ips)
          × AllPublic w ips
          × ((host_allow p.limiter h io.created io.since io.now).1 ≡ true)
          × (io.takeover ≡ relays)
          × (dial_ip h (some ips) ≡ ip)
          × (n ≡ m))
  dns_tunnel p h n m fields none ip = ((λ e. cc), (λ (ips, e, all, g, t, d, s). cc))
  dns_tunnel p h n m fields (some ips) ip = elim (Option-cases (validate_ips w ips)) [
    | inl b ↦ (
      (λ e.
          let (g, t, d, s) = (admit_tunnel p h n m fields ips ip).0 (rw b at e) in
          (ips, refl, (validate_ips_iff w ips).0 b, g, t, d, s)),
      (λ (js, e, all, g, t, d, s). rw b (
          (admit_tunnel p h n m fields ips ip).1
            (g, t, ap (λ l. dial_ip h (some l)) (some_inj e) ∙ d, s))),
    )
    | inr (bad, b) ↦ (
      (λ e. cc (rw b at e)),
      (λ (js, e, all, g, t, d, s). cc (some_inj e, b, (validate_ips_iff w js).1 all)),
    )
  ]

  host_tunnel :
      (p : Proxy) (raw port : Text) (m : ℕ) (fields : List (String × Field)) (ip : Text)
      → ((connect_host w p io fields raw port).1 ≡ tunnel ip m) ↔ Reaches p raw port ip m
  unfolding connect_host check_host_scope
  host_tunnel p raw port m fields ip = (
    (λ e.
        let (s, e₁) = passed_not Goal (validate_scheme p (codes "https")) _ _ e (λ h. cc) in
        let (a, e₂) = passed_not Goal (validate_port p port (codes "https")).1 _ _ e₁ (λ h. cc) in
        let (k, e₃) =
          passed_not Goal (is_host_in_scope w.to_ascii p.engine h).in_scope _ _ e₂ (λ h. cc) in
        let (ips, d, all, g, over, i, v) = (dns_tunnel p h number m fields (io.dns h) ip).0 e₃ in
        let (n, q, on_list) = (validate_port_iff p port (codes "https")).0 a in
        let n_m : n ≡ m = sym (validate_port-value p port (codes "https") n q) ∙ v in
        (
          (validate_scheme_iff p (codes "https")).0 s,
          q ∙ ap some n_m,
          subst (Allows p.config.allowed_ports) n_m on_list,
          (is_host_in_scope_iff w.to_ascii p.engine h).0 k,
          (ips, d, all, g, over, i),
        )),
    (λ (s, q, on_list, k, (ips, d, all, g, over, i)).
        passing_not Goal (validate_scheme p (codes "https")) _ _
          ((validate_scheme_iff p (codes "https")).1 s)
          (passing_not Goal (validate_port p port (codes "https")).1 _ _
            ((validate_port_iff p port (codes "https")).1 (m, q, on_list))
            (passing_not Goal (is_host_in_scope w.to_ascii p.engine h).in_scope _ _
              ((is_host_in_scope_iff w.to_ascii p.engine h).1 k)
              ((dns_tunnel p h number m fields (io.dns h) ip).1
                (ips, d, all, g, over, i, validate_port-value p port (codes "https") m q))))),
  )
    where
      h : Text
      h = host w.to_ascii raw

      number : ℕ
      number = (validate_port p port (codes "https")).0

      Goal : Proxy × Response → Type 0
      Goal x = x.1 ≡ tunnel ip m

  parts_tunnel :
      (p : Proxy) (fields : List (String × Field)) (parts : Option (Text × Text)) (ip : Text)
      (m : ℕ)
      → ((connect_parts w p io fields parts).1 ≡ tunnel ip m)
        ↔ ((raw : Text) × (port : Text) × (parts ≡ some (raw, port)) × Reaches p raw port ip m)
  parts_tunnel p fields none ip m = ((λ e. cc), (λ (raw, port, e, rest). cc))
  parts_tunnel p fields (some (raw, port)) ip m = (
    (λ e. (raw, port, refl, (host_tunnel p raw port m fields ip).0 e)),
    (λ (raw', port', e, rest).
        (host_tunnel p raw port m fields ip).1 (transported raw' port' (some_inj e) rest)),
  )
    where
      transported :
          (raw' port' : Text)
          → ◌≡◌ {A = Text × Text} (raw, port) (raw', port')
          → Reaches p raw' port' ip m
          → Reaches p raw port ip m
      transported raw' port' e rest =
          subst (λ (x : Text × Text). Reaches p x.0 x.1 ip m) (sym e) rest

  -- A CONNECT request whose path is not /health opens a tunnel to an address and a port exactly when
  -- its authority splits into a host and a port and every layer that is consulted admits them: the
  -- kill switch is off, testing is enabled, https and the port are allowed, the scope admits the
  -- host, the host resolves to addresses in no blocked range, the limiter grants a token, and the
  -- connection is taken over; the address is then the first of those that were checked, or the host
  -- itself where the resolver gave none.
  pub serve_http-tunnel_iff :
      (p : Proxy) (r : Request) (ip : Text) (m : ℕ)
      → r.url.path ≢ codes "/health"
      → r.method ≡ codes "CONNECT"
      → ((serve_http w p r io).1 ≡ tunnel ip m) ↔ Opens p (authority_of r.host r.url.host_port) ip m
  unfolding serve_http handle_connect check_kill_switch is_active
  serve_http-tunnel_iff p r ip m no_health is_connect =
      elim (Bool-cases (text_eq r.url.path (codes "/health"))) [
        | inl e ↦ absurd (no_health ((text_eq_iff _ _).0 e))
        | inr e ↦
            let c : text_eq r.method (codes "CONNECT") ≡ true = (text_eq_iff _ _).1 is_connect in
            (
              (λ d.
                  let (off, d₁) = passed Goal p.switch.activated _ _ (rw (e, c) at d) (λ h. cc) in
                  let (t, d₂) = passed_not Goal p.config.active_testing_enabled _ _ d₁ (λ h. cc) in
                  (
                    off,
                    t,
                    (parts_tunnel p _ (w.split_host_port (authority_of r.host r.url.host_port)) ip
                          m).0
                        d₂,
                  )),
              (λ (off, t, rest).
                  rw (e, c)
                    (passing Goal p.switch.activated _ _ off (
                      passing_not Goal p.config.active_testing_enabled _ _ t (
                        (parts_tunnel p _ (w.split_host_port (authority_of r.host r.url.host_port))
                            ip m).1
                          rest)))),
            )
      ]
    where
      Goal : Proxy × Response → Type 0
      Goal x = x.1 ≡ tunnel ip m

  -- The dry run does not stop a tunnel: a CONNECT request whose path is not /health opens the same
  -- tunnels in the dry run as out of it.
  pub dry_run_tunnels :
      (p : Proxy) (r : Request) (ip : Text) (m : ℕ)
      → r.url.path ≢ codes "/health"
      → r.method ≡ codes "CONNECT"
      → ((serve_http w (with_dry_run p true) r io).1 ≡ tunnel ip m)
        ↔ ((serve_http w (with_dry_run p false) r io).1 ≡ tunnel ip m)
  dry_run_tunnels p r ip m no_health is_connect =
      let dry = serve_http-tunnel_iff (with_dry_run p true) r ip m no_health is_connect in
      let wet = serve_http-tunnel_iff (with_dry_run p false) r ip m no_health is_connect in
      ((λ d. wet.1 (dry.0 d)), (λ d. dry.1 (wet.0 d)))
