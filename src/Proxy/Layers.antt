-- ===== src/Proxy/Layers.antt =====
-- What the single checks of the proxy decide.
use scopepilot.Prelude.{
  ℕ, ◌≡◌, refl, sym, ap, ◌∙◌, ◌↔◌, ◌⊎◌, inl, inr, Bool, true, false, List, [], ◌∷◌, none, some,
  arith, any, find_first, All, Any, Any-map, any_cases, find_first_cases, Bool-cases, Option-cases,
  length, ◌==◌, ==_iff, All-Any, Any→any, any→Any, if◌then◌else◌,
}
use scopepilot.Text.{Text, text_eq, text_eq_iff}
use scopepilot.Proxy.{
  Proxy, Libraries, validate_scheme, validate_port, port_allowed, port_number, validate_ips,
}
use scopepilot.Scope.Ip.{is_blocked_ip}

not_empty :
    {A B : Type 0} (x : A) (xs : List A) (a b : B) → (if length (x ∷ xs) == 0 then a else b) ≡ b
not_empty x xs a b = ground arith

-- An empty list allows everything.
abbrev pub Allows : {A : Type 0} → List A → A → Type 0
Allows xs x = (xs ≡ []) ⊎ Any (λ y. y ≡ x) xs

pub validate_scheme_iff :
    (p : Proxy) (scheme : Text)
    → (validate_scheme p scheme ≡ true) ↔ Allows p.config.allowed_schemes scheme
unfolding validate_scheme
validate_scheme_iff p scheme = go p.config.allowed_schemes
  where
    found : (xs : List Text) → (any (λ s. text_eq scheme s) xs ≡ true) ↔ Any (λ y. y ≡ scheme) xs
    found xs = (
      (λ h.
          Any-map (λ y e. sym ((text_eq_iff scheme y).0 e)) xs
            (any→Any (λ s. text_eq scheme s) xs h)),
      (λ h.
          Any→any (λ s. text_eq scheme s) xs
            (Any-map (λ y e. (text_eq_iff scheme y).1 (sym e)) xs h)),
    )

    go :
        (xs : List Text)
        → ((if length xs == 0 then true else any (λ s. text_eq scheme s) xs) ≡ true)
          ↔ Allows xs scheme
    go [] = ((λ h. inl refl), (λ h. refl))
    go (x ∷ xs) = (
      (λ h. inr ((found (x ∷ xs)).0 (sym (not_empty x xs true _) ∙ h))),
      (λ h. elim h [ inl e ↦ cc | inr f ↦ not_empty x xs true _ ∙ (found (x ∷ xs)).1 f ]),
    )

true_false : {A : Type 0} → true ≡ false → A
true_false h = cc

tested :
    (x : ℕ) (xs : List ℕ) (n : ℕ) (b : Bool)
    → any (λ y. y == n) (x ∷ xs) ≡ b
    → (port_allowed (x ∷ xs) (some n)).1 ≡ b
tested x xs n b h =
    ap (λ (r : ℕ × Bool). r.1)
      (not_empty x xs (n, true) (if any (λ y. y == n) (x ∷ xs) then (n, true) else (n, false)))
    ∙ go (any (λ y. y == n) (x ∷ xs)) b h
  where
    go : (a b : Bool) → a ≡ b → (if◌then◌else◌ {A = ℕ × Bool} a (n, true) (n, false)).1 ≡ b
    go true b h = h
    go false b h = h

-- The port that is checked is a port number, and it is on the list.
abbrev pub AllowsPort : Proxy → Text → Text → Type 0
AllowsPort p port scheme =
    (n : ℕ) × (port_number port scheme ≡ some n) × Allows p.config.allowed_ports n

pub validate_port_iff :
    (p : Proxy) (port scheme : Text)
    → ((validate_port p port scheme).1 ≡ true) ↔ AllowsPort p port scheme
unfolding validate_port
validate_port_iff p port scheme = elim (Option-cases (port_number port scheme)) [
  | inl e ↦ ((λ h. cc (rw e at h)), (λ (n, q, a). cc))
  | inr (n, e) ↦ (
    (λ h. (n, e, (go p.config.allowed_ports n).0 (rw e at h))),
    (λ (m, q, a). rw q ((go p.config.allowed_ports m).1 a)),
  )
]
  where
    go : (xs : List ℕ) (n : ℕ) → ((port_allowed xs (some n)).1 ≡ true) ↔ Allows xs n
    go [] n = ((λ h. inl refl), (λ h. refl))
    go (x ∷ xs) n = elim (any_cases (λ y. y == n) (x ∷ xs)) [
      | inl (e, found) ↦
          ((λ h. inr (Any-map (λ y. (==_iff y n).0) (x ∷ xs) found)), (λ h. tested x xs n true e))
      | inr (e, missing) ↦ (
        (λ h. true_false (sym h ∙ tested x xs n false e)),
        (λ h. elim h [
          | inl q ↦ cc
          | inr found ↦
              absurd (All-Any (λ y no yes. cc ((==_iff y n).1 yes)) (x ∷ xs) missing found)
        ]),
      )
    ]

port_value : (xs : List ℕ) (n : ℕ) → (port_allowed xs (some n)).0 ≡ n
port_value xs n = elim (Bool-cases (length xs == 0)) [
  | inl e ↦ rw e
  | inr e ↦ elim (Bool-cases (any (λ p. p == n) xs)) [ inl f ↦ rw (e, f) | inr f ↦ rw (e, f) ]
]

-- An allowed port is the number that is read.
pub validate_port-value :
    (p : Proxy) (port scheme : Text) (n : ℕ)
    → port_number port scheme ≡ some n
    → (validate_port p port scheme).0 ≡ n
unfolding validate_port
validate_port-value p port scheme n e = rw e (port_value p.config.allowed_ports n)

-- No address of the list is in a blocked range.
abbrev pub AllPublic : Libraries → List Text → Type 0
AllPublic w ips = All (λ ip. is_blocked_ip (w.parse_ip ip) ≡ false) ips

pub validate_ips_iff :
    (w : Libraries) (ips : List Text) → (validate_ips w ips ≡ none) ↔ AllPublic w ips
unfolding validate_ips
validate_ips_iff w ips = (to_all ips, to_none ips)
  where
    to_all :
        (xs : List Text)
        → find_first (λ ip. is_blocked_ip (w.parse_ip ip)) xs ≡ none
        → AllPublic w xs
    to_all xs h = elim (find_first_cases (λ ip. is_blocked_ip (w.parse_ip ip)) xs) [
      | inl (e, all) ↦ all
      | inr (x, before, after, e, q, s, all) ↦ cc
    ]

    to_none :
        (xs : List Text)
        → AllPublic w xs
        → find_first (λ ip. is_blocked_ip (w.parse_ip ip)) xs ≡ none
    to_none [] h = refl
    to_none (x ∷ xs) (b, rest) = rw b (to_none xs rest)
