-- ===== src/Proxy/Safety.antt =====
-- Which requests ServeHTTP forwards.
use scopepilot.Prelude.{
  passed, passed_not, passing, passing_not, ℕ, ◌≡◌, refl, sym, ap, subst, some_inj, String, ◌≢◌,
  ◌↔◌, inl, inr, true, false, List, [], ◌∷◌, Option, none, some, Bool-cases, Option-cases,
  if◌then◌else◌,
}
use scopepilot.Text.{Text, codes, text_eq, text_eq_iff}
use scopepilot.Normalize.{host, Url, hostname, port_of}
use scopepilot.Scope.{is_host_in_scope}
use scopepilot.Scope.Hosts.{Admits, is_host_in_scope_iff}
use scopepilot.KillSwitch.{is_active}
use scopepilot.RateLimit.{host_allow}
use scopepilot.Proxy.{
  Proxy, Libraries, Io, Response, Field, text, name, Takeover, no_hijacker, hijack_error,
  write_error, dial_error, relays, forwarded, check_kill_switch, validate_scheme, validate_port,
  check_host_scope, check_path_exclusion, validate_ips, store_resolved_ips, check_rate_limit,
}
use scopepilot.Proxy.Serve.{
  Request, Parsed, parsed, unusable, parse_request, forward_request, admit, after_dns, after_parse,
  serve_url, serve_http,
}
use scopepilot.Proxy.Connect.{
  relay, handle_connect, connect_parts, connect_host, connect_dns, connect_ips, connect_admit,
}
use scopepilot.Proxy.Layers.{
  Allows, AllowsPort, AllPublic, validate_scheme_iff, validate_port_iff, validate_ips_iff,
}

module _ (w : Libraries) (p : Proxy) (io : Io) where
  -- Every layer of the proxy admits the URL.
  pub record Safe (u : Url) : Type 0 where
    pub switch_off : p.switch.activated ≡ false
    pub testing_enabled : p.config.active_testing_enabled ≡ true
    pub scheme_allowed : Allows p.config.allowed_schemes u.scheme
    pub port_allowed : AllowsPort p (port_of u) u.scheme
    pub host_admitted : Admits w.to_ascii p.engine (host w.to_ascii (host w.to_ascii (hostname u)))
    pub path_admitted : check_path_exclusion w p (host w.to_ascii (hostname u)) u.path ≡ false
    pub addresses :
        (ips : List Text) × (io.dns (host w.to_ascii (hostname u)) ≡ some ips) × AllPublic w ips
    pub not_dry : p.config.dry_run ≡ false
    pub granted :
        (host_allow p.limiter (host w.to_ascii (hostname u)) io.created io.since io.now).1 ≡ true

  pub admit_lem :
      (q : Proxy) (r : Request) (u v : Url) (h : Text) (ips : List Text)
      → ((admit w q r io u h ips).1 ≡ forwarded v) ↔ (
          (q.config.dry_run ≡ false)
          × ((host_allow q.limiter h io.created io.since io.now).1 ≡ true)
          × (u ≡ v))
  unfolding admit check_rate_limit forward_request
  admit_lem q r u v h ips = elim (Bool-cases q.config.dry_run) [
    | inl d ↦ ((λ e. cc (rw d at e)), (λ (n, g, s). cc))
    | inr d ↦ elim (Bool-cases (host_allow q.limiter h io.created io.since io.now).1) [
      | inl g ↦ ((λ e. (d, g, cc (rw (d, g) at e))), (λ (n, g', s). rw (d, g, s)))
      | inr g ↦ ((λ e. cc (rw (d, g) at e)), (λ (n, g', s). cc))
    ]
  ]

  -- The guards of serve_url, one after the other.
  serve_url_iff :
      (r : Request) (u v : Url)
      → ((serve_url w p r io u).1 ≡ forwarded v) ↔ (
          (p.config.active_testing_enabled ≡ true)
          × (validate_scheme p u.scheme ≡ true)
          × ((validate_port p (port_of u) u.scheme).1 ≡ true)
          × ((is_host_in_scope w.to_ascii p.engine (host w.to_ascii (hostname u))).in_scope ≡ true)
          × (check_path_exclusion w p (host w.to_ascii (hostname u)) u.path ≡ false)
          × ((after_dns w p r io u
                (host w.to_ascii (hostname u))
                (io.dns (host w.to_ascii (hostname u)))).1
              ≡ forwarded v))
  unfolding serve_url check_host_scope
  serve_url_iff r u v = (
    (λ d.
        let (t, d₁) = passed_not Goal p.config.active_testing_enabled _ _ d (λ h. cc) in
        let (s, d₂) = passed_not Goal (validate_scheme p u.scheme) _ _ d₁ (λ h. cc) in
        let (n, d₃) = passed_not Goal (validate_port p (port_of u) u.scheme).1 _ _ d₂ (λ h. cc) in
        let (k, d₄) =
          passed_not Goal (is_host_in_scope w.to_ascii p.engine h).in_scope _ _ d₃ (λ h. cc) in
        let (x, d₅) = passed Goal (check_path_exclusion w p h u.path) _ _ d₄ (λ h. cc) in
        (t, s, n, k, x, d₅)),
    (λ (t, s, n, k, x, d). passing_not Goal p.config.active_testing_enabled _ _ t (
        passing_not Goal (validate_scheme p u.scheme) _ _ s (
          passing_not Goal (validate_port p (port_of u) u.scheme).1 _ _ n (
            passing_not Goal (is_host_in_scope w.to_ascii p.engine h).in_scope _ _ k
              (passing Goal (check_path_exclusion w p h u.path) _ _ x d))))),
  )
    where
      h : Text
      h = host w.to_ascii (hostname u)

      Goal : Proxy × Response → Type 0
      Goal x = x.1 ≡ forwarded v

  after_dns_iff :
      (r : Request) (u v : Url) (h : Text) (answer : Option (List Text))
      → ((after_dns w p r io u h answer).1 ≡ forwarded v) ↔ (
          (ips : List Text) × (answer ≡ some ips)
          × AllPublic w ips
          × (p.config.dry_run ≡ false)
          × ((host_allow p.limiter h io.created io.since io.now).1 ≡ true)
          × (u ≡ v))
  unfolding store_resolved_ips
  after_dns_iff r u v h none = ((λ d. cc), (λ (ips, e, all, x, y, z). cc))
  after_dns_iff r u v h (some ips) = elim (Option-cases (validate_ips w ips)) [
    | inl b ↦ (
      (λ d.
          let (x, y, z) = admitted.0 (rw b at d) in
          (ips, refl, (validate_ips_iff w ips).0 b, x, y, z)),
      (λ (js, e, all, x, y, z). rw b (admitted.1 (x, y, z))),
    )
    | inr (bad, b) ↦ (
      (λ d. cc (rw b at d)),
      (λ (js, e, all, x, y, z). cc (some_inj e, b, (validate_ips_iff w js).1 all)),
    )
  ]
    where
      admitted : ((admit w (store_resolved_ips p io.victim h ips) r io u h ips).1 ≡ forwarded v) ↔ (
          (p.config.dry_run ≡ false)
          × ((host_allow p.limiter h io.created io.since io.now).1 ≡ true)
          × (u ≡ v))
      admitted = admit_lem (store_resolved_ips p io.victim h ips) r u v h ips

  serve_url_forwards :
      (r : Request) (u v : Url)
      → p.switch.activated ≡ false
      → ((serve_url w p r io u).1 ≡ forwarded v) ↔ (Safe u × (u ≡ v))
  serve_url_forwards r u v off = (
    (λ d.
        let (t, s, n, k, x, rest) = (serve_url_iff r u v).0 d in
        let (ips, a, all, dry, g, same_url) = (after_dns_iff r u v h (io.dns h)).0 rest in
        (
          record {
            switch_off = off;
            testing_enabled = t;
            scheme_allowed = (validate_scheme_iff p u.scheme).0 s;
            port_allowed = (validate_port_iff p (port_of u) u.scheme).0 n;
            host_admitted = (is_host_in_scope_iff w.to_ascii p.engine h).0 k;
            path_admitted = x;
            addresses = (ips, a, all);
            not_dry = dry;
            granted = g;
          },
          same_url,
        )),
    (λ (safe, same_url).
        let (ips, a, all) = safe.addresses in
        (serve_url_iff r u v).1 (
          safe.testing_enabled,
          (validate_scheme_iff p u.scheme).1 safe.scheme_allowed,
          (validate_port_iff p (port_of u) u.scheme).1 safe.port_allowed,
          (is_host_in_scope_iff w.to_ascii p.engine h).1 safe.host_admitted,
          safe.path_admitted,
          (after_dns_iff r u v h (io.dns h)).1 (ips, a, all, safe.not_dry, safe.granted, same_url),
        )),
  )
    where
      h : Text
      h = host w.to_ascii (hostname u)

  connect_denies :
      (method request_host url_host : Text) (v : Url)
      → (handle_connect w p method request_host url_host io).1 ≢ forwarded v
  unfolding handle_connect connect_host connect_admit
  connect_denies method request_host url_host v d =
      let authority = if text_eq request_host [] then url_host else request_host in
      let (k, d₁) = passed Goal (check_kill_switch p) _ _ d (λ h. cc) in
      let (t, d₂) = passed_not Goal p.config.active_testing_enabled _ _ d₁ (λ h. cc) in
      parts (w.split_host_port authority) d₂
    where
      fields : List (String × Field)
      fields =
          ("authority", text (if text_eq request_host [] then url_host else request_host))
          ∷ ("method", text method)
          ∷ ("program_id", name p.config.program_id)
          ∷ []

      Goal : Proxy × Response → Type 0
      Goal x = x.1 ≡ forwarded v

      never_forwards : (t : Takeover) (x : Text) (n : ℕ) → relay t x n ≢ forwarded v
      never_forwards no_hijacker x n e = cc
      never_forwards hijack_error x n e = cc
      never_forwards write_error x n e = cc
      never_forwards dial_error x n e = cc
      never_forwards relays x n e = cc

      ips_lem :
          (q : Proxy) (h : Text) (n : ℕ) (ips : List Text) (o : Option Text)
          → (connect_ips q io h n fields ips o).1 ≢ forwarded v
      ips_lem q h n ips (some bad) e = cc
      ips_lem q h n ips none e =
          elim (Bool-cases (check_rate_limit (store_resolved_ips q io.victim h ips) io h).1) [
            | inl g ↦ never_forwards io.takeover _ n (rw g at e)
            | inr g ↦ cc (rw g at e)
          ]

      dns_lem :
          (h : Text) (n : ℕ) (a : Option (List Text))
          → (connect_dns w p io h n fields a).1 ≢ forwarded v
      dns_lem h n none e = cc
      dns_lem h n (some ips) e = ips_lem p h n ips (validate_ips w ips) e

      parts : (a : Option (Text × Text)) → (connect_parts w p io fields a).1 ≢ forwarded v
      parts none e = cc
      parts (some (h, port)) e =
          let (s, e₁) = passed_not Goal (validate_scheme p (codes "https")) _ _ e (λ h. cc) in
          let (n, e₂) = passed_not Goal (validate_port p port (codes "https")).1 _ _ e₁ (λ h. cc) in
          let (k, e₃) =
            passed_not Goal (check_host_scope w p (host w.to_ascii h)).0 _ _ e₂ (λ h. cc) in
          dns_lem (host w.to_ascii h) (validate_port p port (codes "https")).0
            (io.dns (host w.to_ascii h)) e₃

  pub serve_http-forwards_iff :
      (r : Request) (v : Url)
      → ((serve_http w p r io).1 ≡ forwarded v) ↔ (
          (r.url.path ≢ codes "/health")
          × (r.method ≢ codes "CONNECT")
          × (parse_request w r ≡ parsed v)
          × Safe v)
  unfolding serve_http check_kill_switch is_active
  serve_http-forwards_iff r v = elim (Bool-cases (text_eq r.url.path (codes "/health"))) [
    | inl e ↦ ((λ d. cc (rw e at d)), (λ (ne, nm, q, s). absurd (ne ((text_eq_iff _ _).0 e))))
    | inr e ↦ elim (Bool-cases (text_eq r.method (codes "CONNECT"))) [
      | inl m ↦ (
        (λ d. absurd (connect_denies r.method r.host r.url.host_port v (rw (e, m) at d))),
        (λ (ne, nm, q, s). absurd (nm ((text_eq_iff _ _).0 m))),
      )
      | inr m ↦ (
        (λ d.
            let (off, d₁) =
              passed (λ (x : Proxy × Response). x.1 ≡ forwarded v) p.switch.activated _ _
                (rw (e, m) at d) (λ h. cc) in
            let (q, safe) = (parse_lem off (parse_request w r)).0 d₁ in
            (
              (λ s. cc (e, (text_eq_iff r.url.path (codes "/health")).1 s)),
              (λ s. cc (m, (text_eq_iff r.method (codes "CONNECT")).1 s)),
              q,
              safe,
            )),
        (λ (ne, nm, q, safe).
            rw (e, m)
              (passing (λ (x : Proxy × Response). x.1 ≡ forwarded v) p.switch.activated _ _
                safe.switch_off ((parse_lem safe.switch_off (parse_request w r)).1 (q, safe)))),
      )
    ]
  ]
    where
      parse_lem :
          p.switch.activated ≡ false
          → (a : Parsed) → ((after_parse w p r io a).1 ≡ forwarded v) ↔ ((a ≡ parsed v) × Safe v)
      parse_lem off (unusable why) = ((λ d. cc), (λ (q, s). cc))
      parse_lem off (parsed u) = (
        (λ d.
            let (safe, s) = (serve_url_forwards r u v off).0 d in (ap parsed s, subst Safe s safe)),
        (λ (q, s).
            let u_v : u ≡ v = cc in (serve_url_forwards r u v off).1 (subst Safe (sym u_v) s, u_v)),
      )
