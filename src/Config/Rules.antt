-- ===== src/Config/Rules.antt =====
-- Which scope rules Validate accepts.
use scopepilot.Prelude.{
  ◌≡◌, refl, ap, ◌≢◌, ◌↔◌, inl, inr, String, true, false, not, [], ◌∷◌, ◌++◌, none, some, ◌==◌,
  ==_iff, if◌then◌else◌, length, same, same_iff, string_eq, Bool-cases, refuse_iff, refuse_not_iff,
}
use scopepilot.Text.{
  Text, codes, text_eq, text_eq_iff, text_eq_ne, has_prefix, has_prefix_split, contains,
}
use scopepilot.Scope.{ScopeRule}
use scopepilot.Config.{
  Parsers, is_some, validate_host, validate_wildcard_host, validate_cidr, validate_scope_rule,
  cidr_invalid, prefix_missing, prefix_relative,
}
use scopepilot.Config.Checks.{is_none_iff}

module _ (w : Parsers) where
  -- A host that is no address, with no scheme and no port, of which a URL can be made.
  pub record ValidHost (h : Text) : Type 0 where
    pub named : h ≢ []
    pub no_address : length (w.parse_ip h) ≡ 0
    pub no_scheme : contains h (codes "://") ≡ false
    pub no_port : w.split_host_port h ≡ none
    pub parses : is_some (w.parse (b'/' ∷ b'/' ∷ h)) ≡ true

  pub validate_host_iff : (h : Text) → (validate_host w h ≡ none) ↔ ValidHost h
  unfolding validate_host
  validate_host_iff h = (
    (λ f.
        let (a, f₁) = (refuse_iff (text_eq h []) _ _).0 f in
        let (b, f₂) = (refuse_not_iff (length (w.parse_ip h) == 0) _ _).0 f₁ in
        let (c, f₃) = (refuse_iff (contains h (codes "://")) _ _).0 f₂ in
        let (d, f₄) = (refuse_iff (is_some (w.split_host_port h)) _ _).0 f₃ in
        let (e, f₅) = (refuse_not_iff (is_some (w.parse (b'/' ∷ b'/' ∷ h))) _ _).0 f₄ in
        record {
          named = λ q. cc (a, (text_eq_iff h []).1 q);
          no_address = (==_iff (length (w.parse_ip h)) 0).0 b;
          no_scheme = c;
          no_port = (is_none_iff (w.split_host_port h)).0 d;
          parses = e;
        }),
    (λ v. (refuse_iff (text_eq h []) _ _).1 (
      text_eq_ne h [] v.named,
      (refuse_not_iff (length (w.parse_ip h) == 0) _ _).1 (
        (==_iff (length (w.parse_ip h)) 0).1 v.no_address,
        (refuse_iff (contains h (codes "://")) _ _).1 (
          v.no_scheme,
          (refuse_iff (is_some (w.split_host_port h)) _ _).1 (
            (is_none_iff (w.split_host_port h)).1 v.no_port,
            (refuse_not_iff (is_some (w.parse (b'/' ∷ b'/' ∷ h))) _ _).1 (v.parses, refl),
          ),
        ),
      ),
    )),
  )

  -- The four kinds of rules, each with what it is checked for.
  pub data ValidRule (r : ScopeRule) : Type 0 where
    valid_exact : r.type ≡ "exact_host" → ValidHost r.value → ValidRule r
    valid_wildcard :
        r.type ≡ "wildcard_host"
        → (rest : Text) → r.value ≡ codes "*." ++ rest
        → ValidHost rest
        → ValidRule r
    valid_prefix :
        r.type ≡ "path_prefix"
        → (rest : Text) → r.value ≡ codes "/" ++ rest
        → ValidHost r.host_part
        → ValidRule r
    valid_cidr : r.type ≡ "cidr" → w.is_cidr r.value ≡ true → ValidRule r

  validate_wildcard_host_iff :
      (h : Text)
      → (validate_wildcard_host w h ≡ none)
        ↔ ((rest : Text) × (h ≡ codes "*." ++ rest) × ValidHost rest)
  unfolding validate_wildcard_host has_prefix
  validate_wildcard_host_iff h = (
    (λ f.
        let (a, f₁) = (refuse_not_iff (has_prefix h (codes "*.")) _ _).0 f in
        let (rest, e) = has_prefix_split h (codes "*.") a in
        (rest, e, (validate_host_iff rest).0 (rw e at f₁))),
    (λ (rest, e, v). rw e ((validate_host_iff rest).1 v)),
  )

  pub validate_scope_rule_iff : (r : ScopeRule) → (validate_scope_rule w r ≡ none) ↔ ValidRule r
  unfolding validate_scope_rule has_prefix
  validate_scope_rule_iff r = (to, from)
    where
      is_type : (t : String) → r.type ≡ t → (u : String) → same r.type u ≡ same t u
      is_type t e u = ap (λ x. same x u) e

      to : validate_scope_rule w r ≡ none → ValidRule r
      to f = elim (Bool-cases (same r.type "exact_host")) [
        | inl b ↦
            valid_exact ((same_iff r.type "exact_host").0 b)
              ((validate_host_iff r.value).0 (rw b at f))
        | inr b ↦ elim (Bool-cases (same r.type "wildcard_host")) [
          | inl c ↦
              let (rest, e, v) = (validate_wildcard_host_iff r.value).0 (rw (b, c) at f) in
              valid_wildcard ((same_iff r.type "wildcard_host").0 c) rest e v
          | inr c ↦ elim (Bool-cases (same r.type "path_prefix")) [
            | inl d ↦ prefix d (rw (b, c, d) at f)
            | inr d ↦ elim (Bool-cases (same r.type "cidr")) [
              | inl e ↦
                  valid_cidr ((same_iff r.type "cidr").0 e)
                    ((refuse_not_iff (w.is_cidr r.value) _ _).0 (cidr (rw (b, c, d, e) at f))).0
              | inr e ↦ cc (rw (b, c, d, e) at f)
            ]
          ]
        ]
      ]
        where
          cidr :
              validate_cidr w r.value ≡ none
              → (if not (w.is_cidr r.value) then some (cidr_invalid r.value) else none) ≡ none
          cidr g = g

          prefix :
              same r.type "path_prefix" ≡ true
              → (if text_eq r.value []
                  then some prefix_missing
                  else if not (has_prefix r.value (codes "/"))
                  then some prefix_relative
                  else validate_host w r.host_part)
                ≡ none
              → ValidRule r
          prefix d f =
              let (a, f₁) = (refuse_iff (text_eq r.value []) _ _).0 f in
              let (b, f₂) = (refuse_not_iff (has_prefix r.value (codes "/")) _ _).0 f₁ in
              let (rest, e) = has_prefix_split r.value (codes "/") b in
              valid_prefix ((same_iff r.type "path_prefix").0 d) rest e
                ((validate_host_iff r.host_part).0 f₂)

      from : ValidRule r → validate_scope_rule w r ≡ none
      from (valid_exact t v) =
          rw (is_type "exact_host" t "exact_host") ((validate_host_iff r.value).1 v)
      from (valid_wildcard t rest e v) =
          rw (is_type "wildcard_host" t "exact_host", is_type "wildcard_host" t "wildcard_host")
            ((validate_wildcard_host_iff r.value).1 (rest, e, v))
      from (valid_prefix t rest e v) =
          rw
            (
              is_type "path_prefix" t "exact_host",
              is_type "path_prefix" t "wildcard_host",
              is_type "path_prefix" t "path_prefix",
              e,
            )
            ((validate_host_iff r.host_part).1 v)
      from (valid_cidr t v) =
          rw
            (
              is_type "cidr" t "exact_host",
              is_type "cidr" t "wildcard_host",
              is_type "cidr" t "path_prefix",
              is_type "cidr" t "cidr",
              v,
            )
            refl
