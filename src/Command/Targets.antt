-- ===== src/Command/Targets.antt =====
-- Which targets the filter of the commands keeps.
use scopepilot.Prelude.{
  ℕ, suc, ◌≡◌, refl, sym, ap, ◌∙◌, ◌↔◌, ◌⊎◌, inl, inr, Bool, not, List, [], ◌∷◌, map, Option, none,
  some, arith, ◌==◌, ==_iff, if◌then◌else◌, length, keep, Bool-cases, branch,
}
use scopepilot.Text.{Text, text_eq, text_eq_iff}
use scopepilot.Normalize.{host, Url, hostname, port_of}
use scopepilot.Scope.{is_url_in_scope}
use scopepilot.Scope.Ip.{is_blocked_ip}
use scopepilot.Proxy.{
  Proxy, Libraries, Io, check_kill_switch, validate_scheme, validate_port, check_path_exclusion,
  validate_ips,
}
use scopepilot.Proxy.Check.{
  CheckResult, check_url, run_safe_check, check_parsed, check_or_refuse, check_address, check_scope,
  check_dns, check_ips, is_literal,
}
use scopepilot.Command.{
  target_url, targets_to_urls, FilterError, filter_from, filter_allowed_targets, allow_target,
}

-- The targets whose result is allowed.
abbrev pub selected : List Text → List (Text × Bool) → List Text
selected [] results = []
selected (t ∷ ts) [] = []
selected (t ∷ ts) ((url, allowed) ∷ results) =
    if allowed then t ∷ selected ts results else selected ts results

cons_inj : {A : Type 0} {x y : A} {xs ys : List A} → (x ∷ xs) ≡ (y ∷ ys) → (x ≡ y) × (xs ≡ ys)
cons_inj h = (cc, cc)

inr_inj : {A B : Type 0} {x y : B} → ◌≡◌ {A = A ⊎ B} (inr x) (inr y) → x ≡ y
inr_inj h = cc

allowed_iff :
    (allowed : Bool) (t : Text) (o : FilterError ⊎ List Text) (out : List Text)
    → allow_target allowed t o ≡ inr out
    → (ts : List Text) × (o ≡ inr ts) × (out ≡ (if allowed then t ∷ ts else ts))
allowed_iff allowed t (inl e) out h = cc
allowed_iff allowed t (inr ts) out h = (ts, refl, sym (inr_inj h))

selected_step :
    (allowed : Bool) (t : Text) (xs : List Text)
    → allow_target allowed t (inr xs) ≡ inr (if allowed then t ∷ xs else xs)
selected_step allowed t xs = refl

filter_from_sound :
    (i : ℕ) (ts : List Text) (results : List (Text × Bool)) (out : List Text)
    → length results ≡ length ts
    → filter_from i ts results ≡ inr out
    → (map (λ (r : Text × Bool). r.0) results ≡ map target_url ts) × (out ≡ selected ts results)
unfolding filter_from
filter_from_sound i [] [] out len h = (refl, sym (inr_inj h))
filter_from_sound i [] (r ∷ results) out len h = absurd (omega (arith, len))
filter_from_sound i (t ∷ ts) [] out len h = absurd (omega (arith, len))
filter_from_sound i (t ∷ ts) ((url, allowed) ∷ results) out len h =
    elim (Bool-cases (text_eq url (target_url t))) [
      | inr b ↦ cc (rw b at h)
      | inl b ↦
          let (rest, e, q) =
            allowed_iff allowed t (filter_from (suc i) ts results) out (rw b at h) in
          let (urls, s) = filter_from_sound (suc i) ts results rest (omega (arith, len)) e in
          (cc ((text_eq_iff url (target_url t)).0 b, urls), q ∙ rw s refl)
    ]

filter_from_complete :
    (i : ℕ) (ts : List Text) (results : List (Text × Bool))
    → map (λ (r : Text × Bool). r.0) results ≡ map target_url ts
    → filter_from i ts results ≡ inr (selected ts results)
unfolding filter_from
filter_from_complete i [] results h = refl
filter_from_complete i (t ∷ ts) [] h = cc
filter_from_complete i (t ∷ ts) ((url, allowed) ∷ results) h =
    let (here, rest) = cons_inj h in
    rw ((text_eq_iff url (target_url t)).1 here, filter_from_complete (suc i) ts results rest) refl

length-map : {A B : Type 0} (f : A → B) (xs : List A) → length (map f xs) ≡ length xs
length-map f [] = refl
length-map f (x ∷ xs) = ap suc (length-map f xs)

-- filterAllowedTargets returns targets exactly when the response has, in order, one result for each
-- target with the URL of that target; they are then the targets whose result is allowed.
pub filter_allowed_targets_iff :
    (targets out : List Text) (results : List (Text × Bool))
    → (filter_allowed_targets targets (some results) ≡ inr out) ↔ (
        (map (λ (r : Text × Bool). r.0) results ≡ targets_to_urls targets)
        × (out ≡ selected targets results))
unfolding filter_allowed_targets targets_to_urls
filter_allowed_targets_iff targets out results =
    elim (Bool-cases (length results == length (map target_url targets))) [
      | inr b ↦ ((λ h. cc (rw b at h)), (λ (urls, e). cc (b, (==_iff _ _).1 (same_length urls))))
      | inl b ↦ (
        (λ h.
            filter_from_sound 0 targets results out
              ((==_iff (length results) (length (map target_url targets))).0 b
                ∙ length-map target_url targets)
              (rw b at h)),
        (λ (urls, e). rw (b, e) (filter_from_complete 0 targets results urls)),
      )
    ]
  where
    same_length :
        map (λ (r : Text × Bool). r.0) results ≡ map target_url targets
        → length results ≡ length (map target_url targets)
    same_length urls = sym (length-map (λ (r : Text × Bool). r.0) results) ∙ ap length urls

-- What the client reads of a result: its URL, and whether it is allowed.
abbrev pub wire : CheckResult → Text × Bool
wire r = (r.url, r.allowed)

abbrev pub of_target : Io × Text → Io × Text
of_target e = (e.0, target_url e.1)

module _ (w : Libraries) (p : Proxy) where
  check_url-url : (io : Io) (raw : Text) → (check_url w p io raw).url ≡ raw
  unfolding check_url check_parsed check_address check_scope
  check_url-url io raw = of_parsed (w.parse raw)
    where
      Same : CheckResult → Type 0
      Same r = r.url ≡ raw

      of_scope : (u : Url) (h : Text) → Same (check_scope w p raw u h)
      of_scope u h =
          branch Same
            (not
              (is_url_in_scope w.to_ascii w.parse p.engine raw p.config.allowed_schemes
                p.config.allowed_ports).in_scope)
            _ _ refl (branch Same (check_path_exclusion w p h u.path) _ _ refl refl)

      of_ips : (u : Url) (h : Text) (o : Option Text) → Same (check_ips w p raw u h o)
      of_ips u h none = of_scope u h
      of_ips u h (some bad) = refl

      of_dns : (u : Url) (h : Text) (o : Option (List Text)) → Same (check_dns w p raw u h o)
      of_dns u h none = refl
      of_dns u h (some ips) = of_ips u h (validate_ips w ips)

      of_parsed : (o : Option Url) → Same (check_or_refuse w p io raw o)
      of_parsed none = refl
      of_parsed (some u) = branch Same (text_eq (hostname u) []) _ _ refl (
          branch Same (check_kill_switch p) _ _ refl (
            branch Same (not p.config.active_testing_enabled) _ _ refl (
              branch Same (not (validate_scheme p u.scheme)) _ _ refl (
                branch Same (not (validate_port p (port_of u) u.scheme).1) _ _ refl (
                  branch Same (is_literal w h) _ _
                    (branch Same (is_blocked_ip (w.parse_ip h)) _ _ refl (of_scope u h))
                    (of_dns u h (io.dns h)))))))
        where
          h : Text
          h = host w.to_ascii (hostname u)

  abbrev pub passes : Io × Text → Bool
  passes e = (check_url w p e.0 (target_url e.1)).allowed

  urls_of :
      (es : List (Io × Text))
      → map (λ (r : Text × Bool). r.0) (map wire (run_safe_check w p (map of_target es)))
        ≡ targets_to_urls (map (λ (e : Io × Text). e.1) es)
  unfolding run_safe_check targets_to_urls
  urls_of [] = refl
  urls_of (e ∷ es) = cc (check_url-url e.0 (target_url e.1), urls_of es)

  kept :
      (es : List (Io × Text))
      → selected
          (map (λ (e : Io × Text). e.1) es)
          (map wire (run_safe_check w p (map of_target es)))
        ≡ map (λ (e : Io × Text). e.1) (keep passes es)
  unfolding run_safe_check
  kept [] = refl
  kept (e ∷ es) = elim (Bool-cases (check_url w p e.0 (target_url e.1)).allowed) [
    | inl b ↦ rw (b, kept es) refl
    | inr b ↦ rw (b, kept es) refl
  ]

  pub filtered :
      (es : List (Io × Text))
      → filter_allowed_targets
          (map (λ (e : Io × Text). e.1) es)
          (some (map wire (run_safe_check w p (map of_target es))))
        ≡ inr (map (λ (e : Io × Text). e.1) (keep passes es))
  filtered es =
      (filter_allowed_targets_iff (map (λ (e : Io × Text). e.1) es) _
          (map wire (run_safe_check w p (map of_target es)))).1
        (urls_of es, sym (kept es))
