-- ===== src/Proxy/Redirect/Follow.antt =====
-- Which redirects are followed, how many, and where they connect to.
use scopepilot.Prelude.{
  ℕ, suc, ◌≤◌, ◌<◌, ◌≡◌, refl, ap, sym, subst, ◌∙◌, ◌≢◌, ◌↔◌, inl, inr, false, List, [], ◌∷◌,
  Option, none, some, some_inj, arith, leb, le→leb, not_leb, ◌⊎◌, length, ◌-◌, All-map, lookup,
  lookup-insert_self, All, Bool-cases, Option-cases, passed, passed_not, passing, passing_not,
}
use scopepilot.Text.{Text, text_eq, text_eq_iff, text_eq_ne, text_keys}
use scopepilot.Normalize.{host, Url, hostname, port_of}
use scopepilot.Scope.{is_host_in_scope}
use scopepilot.Scope.Hosts.{Admits, is_host_in_scope_iff}
use scopepilot.Proxy.{
  Proxy, Libraries, Io, validate_scheme, validate_port, check_host_scope, check_path_exclusion,
  validate_ips, store_resolved_ips,
}
use scopepilot.Proxy.Layers.{
  Allows, AllowsPort, AllPublic, validate_scheme_iff, validate_port_iff, validate_ips_iff,
}
use scopepilot.Proxy.Redirect.{
  RedirectError, redirect_dns, validate_redirect_target, RedirectAnswer, follow, use_last_response,
  refuse, check_redirect, answer_of, dial_address, dial_context,
}

answered :
    (via : ℕ) (x : Proxy × Option RedirectError)
    → (answer_of via x).1 ≡ follow
    → (x.1 ≡ none) × (via < 10) × ((answer_of via x).0 ≡ x.0)
answered via (p, some e) f = cc
answered via (p, none) f = elim (Bool-cases (leb 10 via)) [
  | inl b ↦ cc (rw b at f)
  | inr b ↦ (refl, not_leb 10 via b, refl)
]

first_step :
    (w : Libraries) (p : Proxy) (io : Io) (u : Url) (via : ℕ)
    → check_redirect w p io u (suc via) ≡ answer_of (suc via) (validate_redirect_target w p io u)
unfolding check_redirect
first_step w p io u via = rw (le→leb 1 (suc via) (omega arith))

module _ (w : Libraries) (p : Proxy) (io : Io) where
  abbrev Fine : Proxy × Option RedirectError → Type 0
  Fine x = x.1 ≡ none

  -- The layers that a redirect passes. The kill switch, the testing gate, the dry run and the rate
  -- limiter are not among them.
  pub record SafeTarget (u : Url) : Type 0 where
    pub named : host w.to_ascii (hostname u) ≢ []
    pub scheme_allowed : Allows p.config.allowed_schemes u.scheme
    pub port_allowed : AllowsPort p (port_of u) u.scheme
    pub host_admitted : Admits w.to_ascii p.engine (host w.to_ascii (host w.to_ascii (hostname u)))
    pub path_admitted : check_path_exclusion w p (host w.to_ascii (hostname u)) u.path ≡ false
    pub addresses :
        (ips : List Text) × (io.dns (host w.to_ascii (hostname u)) ≡ some ips) × AllPublic w ips

  dns-Fine :
      (h : Text) (answer : Option (List Text))
      → Fine (redirect_dns w p io h answer)
        ↔ ((ips : List Text) × (answer ≡ some ips) × AllPublic w ips)
  dns-Fine h none = ((λ f. cc), (λ (ips, e, all). cc))
  dns-Fine h (some ips) = elim (Option-cases (validate_ips w ips)) [
    | inl b ↦ ((λ f. (ips, refl, (validate_ips_iff w ips).0 b)), (λ found. rw b))
    | inr (bad, b) ↦
        ((λ f. cc (rw b at f)), (λ (js, e, all). cc (some_inj e, b, (validate_ips_iff w js).1 all)))
  ]

  target-stored :
      (u : Url) (t : SafeTarget u)
      → validate_redirect_target w p io u
        ≡ (store_resolved_ips p io.victim (host w.to_ascii (hostname u)) t.addresses.0, none)
  unfolding validate_redirect_target check_host_scope
  target-stored u t =
      let (ips, a, all) = t.addresses in
      passing Goal (text_eq h []) _ _ (text_eq_ne h [] t.named) (
        passing_not Goal (validate_scheme p u.scheme) _ _
          ((validate_scheme_iff p u.scheme).1 t.scheme_allowed)
          (passing_not Goal (validate_port p (port_of u) u.scheme).1 _ _
            ((validate_port_iff p (port_of u) u.scheme).1 t.port_allowed)
            (passing_not Goal (is_host_in_scope w.to_ascii p.engine h).in_scope _ _
              ((is_host_in_scope_iff w.to_ascii p.engine h).1 t.host_admitted)
              (passing Goal (check_path_exclusion w p h u.path) _ _ t.path_admitted
                (rw (a, (validate_ips_iff w ips).1 all))))))
    where
      h : Text
      h = host w.to_ascii (hostname u)

      Goal : Proxy × Option RedirectError → Type 0
      Goal x = x ≡ (store_resolved_ips p io.victim h t.addresses.0, none)

  -- validateRedirectTarget returns no error exactly when the target has a host, its scheme and port
  -- are allowed, the scope admits its host, no path rule excludes its path, and the host resolves to
  -- addresses in no blocked range only.
  pub validate_redirect_target_iff :
      (u : Url) → ((validate_redirect_target w p io u).1 ≡ none) ↔ SafeTarget u
  unfolding validate_redirect_target check_host_scope
  validate_redirect_target_iff u = (
    (λ f.
        let (n, f₁) = passed Fine (text_eq h []) _ _ f (λ h. cc) in
        let (s, f₂) = passed_not Fine (validate_scheme p u.scheme) _ _ f₁ (λ h. cc) in
        let (o, f₃) = passed_not Fine (validate_port p (port_of u) u.scheme).1 _ _ f₂ (λ h. cc) in
        let (k, f₄) =
          passed_not Fine (is_host_in_scope w.to_ascii p.engine h).in_scope _ _ f₃ (λ h. cc) in
        let (x, f₅) = passed Fine (check_path_exclusion w p h u.path) _ _ f₄ (λ h. cc) in
        record {
          named = λ e. cc (n, (text_eq_iff h []).1 e);
          scheme_allowed = (validate_scheme_iff p u.scheme).0 s;
          port_allowed = (validate_port_iff p (port_of u) u.scheme).0 o;
          host_admitted = (is_host_in_scope_iff w.to_ascii p.engine h).0 k;
          path_admitted = x;
          addresses = (dns-Fine h (io.dns h)).0 f₅;
        }),
    (λ t. ap (λ (x : Proxy × Option RedirectError). x.1) (target-stored u t)),
  )
    where
      h : Text
      h = host w.to_ascii (hostname u)

  check_redirect-follow :
      (u : Url) (via : ℕ)
      → (check_redirect w p io u (suc via)).1 ≡ follow
      → (suc via < 10)
        × ((t : SafeTarget u) × ((check_redirect w p io u (suc via)).0
              ≡ store_resolved_ips p io.victim (host w.to_ascii (hostname u)) t.addresses.0))
  unfolding check_redirect
  check_redirect-follow u via f =
      let step = first_step w p io u via in
      let (fine, below, kept) =
        answered (suc via) (validate_redirect_target w p io u)
          (sym (ap (λ (x : Proxy × RedirectAnswer). x.1) step) ∙ f) in
      let t = (validate_redirect_target_iff u).0 fine in
      (
        below,
        (
          t,
          ap (λ (x : Proxy × RedirectAnswer). x.0) step
              ∙ kept
              ∙ ap (λ (x : Proxy × Option RedirectError). x.0) (target-stored u t),
        ),
      )

stored_lookup :
    (p : Proxy) (victim : ℕ) (h : Text) (ips : List Text)
    → lookup h (store_resolved_ips p victim h ips).resolved_ips ≡ some ips
unfolding store_resolved_ips
stored_lookup p victim h ips = lookup-insert_self h ips _

-- The redirects that the client follows one after the other, by what CheckRedirect answers to each,
-- from the request with the number `via` on.
abbrev followed_by : Io × Url → RedirectAnswer → List (Io × Url) → List (Io × Url)
followed_by e follow es = e ∷ es
followed_by e use_last_response es = []
followed_by e (refuse why) es = []

unfoldable pub followed : Libraries → Proxy → ℕ → List (Io × Url) → List (Io × Url)
followed w p via [] = []
followed w p via (e ∷ es) =
    let (p', answer) = check_redirect w p e.0 e.1 via in
    let rest = followed w p' (suc via) es in followed_by e answer rest

is_follow :
    (a : RedirectAnswer)
    → (a ≡ follow) ⊎ ((e : Io × Url) (es : List (Io × Url)) → followed_by e a es ≡ [])
is_follow follow = inl refl
is_follow use_last_response = inr (λ e es. refl)
is_follow (refuse r) = inr (λ e es. refl)

stored_target :
    (w : Libraries) (p : Proxy) (victim : ℕ) (h : Text) (ips : List Text) (io : Io) (u : Url)
    → SafeTarget w (store_resolved_ips p victim h ips) io u
    → SafeTarget w p io u
unfolding store_resolved_ips check_path_exclusion
stored_target w p victim h ips io u t = record {
  named = t.named;
  scheme_allowed = t.scheme_allowed;
  port_allowed = t.port_allowed;
  host_admitted = t.host_admitted;
  path_admitted = t.path_admitted;
  addresses = t.addresses;
}

-- Of any redirects in a row at most nine are followed, and every one that is followed has a target
-- that passes the layers of validateRedirectTarget.
pub followed-SafeTarget :
    (w : Libraries) (p : Proxy) (via : ℕ) (es : List (Io × Url))
    → (length (followed w p (suc via) es) ≤ 9 - via)
      × All (λ e. SafeTarget w p e.0 e.1) (followed w p (suc via) es)
unfolding followed
followed-SafeTarget w p via [] = (omega arith, tt)
followed-SafeTarget w p via (e ∷ es) = elim (is_follow (check_redirect w p e.0 e.1 (suc via)).1) [
  | inr stop ↦ none_left (stop e (followed w p' (suc (suc via)) es))
  | inl f ↦
      let (below, (t, kept)) = check_redirect-follow w p e.0 e.1 via f in
      let (short, safe) = followed-SafeTarget w p' (suc via) es in
      let back : (d : Io × Url) → SafeTarget w p' d.0 d.1 → SafeTarget w p d.0 d.1 = λ d s.
        stored_target w p e.0.victim (host w.to_ascii (hostname e.1)) t.addresses.0 d.0 d.1
          (subst (λ q. SafeTarget w q d.0 d.1) kept s) in
      rw f (omega (arith, short, below), (t, All-map back (followed w p' (suc (suc via)) es) safe))
]
  where
    p' : Proxy
    p' = (check_redirect w p e.0 e.1 (suc via)).0

    none_left :
        {xs : List (Io × Url)}
        → xs ≡ []
        → (length xs ≤ 9 - via) × All (λ d. SafeTarget w p d.0 d.1) xs
    none_left h = rw h (omega arith, tt)

-- Where a redirect is followed, a connection to its host in normal form goes to the first of the
-- addresses that were checked, all of which are in no blocked range.
pub followed-dials :
    (w : Libraries) (p : Proxy) (io : Io) (u : Url) (via : ℕ) (addr port : Text)
    → (check_redirect w p io u (suc via)).1 ≡ follow
    → w.split_host_port addr ≡ some (host w.to_ascii (hostname u), port)
    → (ips : List Text) × (io.dns (host w.to_ascii (hostname u)) ≡ some ips)
      × AllPublic w ips
      × ((ips ≡ [])
          ⊎ ((ip : Text) × (rest : List Text) × (ips ≡ ip ∷ rest)
              × (dial_context w (check_redirect w p io u (suc via)).0 addr ≡ dial_address ip port)))
unfolding dial_context
followed-dials w p io u via addr port f split =
    let (below, (t, kept)) = check_redirect-follow w p io u via f in
    let (ips, a, all) = t.addresses in (ips, a, all, by_list ips kept)
  where
    h : Text
    h = host w.to_ascii (hostname u)

    by_list :
        (ips : List Text)
        → (check_redirect w p io u (suc via)).0 ≡ store_resolved_ips p io.victim h ips
        → (ips ≡ [])
          ⊎ ((ip : Text) × (rest : List Text) × (ips ≡ ip ∷ rest)
              × (dial_context w (check_redirect w p io u (suc via)).0 addr ≡ dial_address ip port))
    by_list [] kept = inl refl
    by_list (ip ∷ rest) kept =
        let pinned : lookup h (store_resolved_ips p io.victim h (ip ∷ rest)).resolved_ips
            ≡ some (ip ∷ rest) =
          stored_lookup p io.victim h (ip ∷ rest) in
        inr (ip, rest, refl, rw (split, kept, pinned))
