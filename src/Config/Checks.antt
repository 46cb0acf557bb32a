-- ===== src/Config/Checks.antt =====
-- What the single tests of Validate decide, and chains of them.
use scopepilot.Prelude.{
  ℕ, suc, ◌≤◌, ◌≡◌, refl, ap, ◌≢◌, ◌↔◌, ◌⊎◌, inl, inr, String, Bool, true, false, ◌&&◌, List, [],
  ◌∷◌, Option, none, some, arith, find_first, same, same_iff, string_eq, All, Any, Bool-cases,
  any→Any, Any→any, Any-map, refuse_iff,
}
use scopepilot.Number.{ℤ, pos, negsuc}
use scopepilot.Text.{Text, codes, text_eq, text_eq_iff}
use scopepilot.Config.{outside, one_of, bad_scheme, or_else, wrap, first_error, is_some}

-- Each check of a chain, and the rest of the chain.
pub or_else_iff :
    {E : Type 0} (a rest : Option E) → (or_else a rest ≡ none) ↔ ((a ≡ none) × (rest ≡ none))
or_else_iff none rest = ((λ h. (refl, h)), (λ h. h.1))
or_else_iff (some e) rest = ((λ h. cc), (λ h. cc))

pub wrap_iff : {A E : Type 0} (f : A → E) (a : Option A) → (wrap f a ≡ none) ↔ (a ≡ none)
wrap_iff f none = ((λ h. refl), (λ h. refl))
wrap_iff f (some a) = ((λ h. cc), (λ h. cc))

pub first_error_iff :
    {A E : Type 0} {P : A → Type 0} (f : ℕ → A → Option E)
    → ((i : ℕ) (x : A) → (f i x ≡ none) ↔ P x)
    → (i : ℕ) (xs : List A) → (first_error f i xs ≡ none) ↔ All P xs
unfolding first_error
first_error_iff f each i [] = ((λ h. tt), (λ h. refl))
first_error_iff f each i (x ∷ xs) = (
  (λ h.
      let (here, rest) = (or_else_iff (f i x) _).0 h in
      ((each i x).0 here, (first_error_iff f each (suc i) xs).0 rest)),
  (λ h. (or_else_iff (f i x) _).1 ((each i x).1 h.0, (first_error_iff f each (suc i) xs).1 h.1)),
)

pub none_found_iff :
    {A : Type 0} {P : A → Type 0} (bad : A → Bool)
    → ((x : A) → (bad x ≡ false) ↔ P x)
    → (xs : List A) → (find_first bad xs ≡ none) ↔ All P xs
none_found_iff bad each [] = ((λ h. tt), (λ h. refl))
none_found_iff bad each (x ∷ xs) = (
  (λ h.
      let (here, rest) = (refuse_iff (bad x) x (find_first bad xs)).0 h in
      ((each x).0 here, (none_found_iff bad each xs).0 rest)),
  (λ h.
      (refuse_iff (bad x) x (find_first bad xs)).1
        ((each x).1 h.0, (none_found_iff bad each xs).1 h.1)),
)

-- An integer from `low` to `high`.
abbrev pub InRange : ℕ → ℕ → ℤ → Type 0
InRange low high x = (n : ℕ) × (x ≡ pos n) × (low ≤ n) × (n ≤ high)

value : ℤ → ℕ
value (pos n) = n
value (negsuc n) = n

pub outside_iff : (low high : ℕ) (x : ℤ) → (outside low high x ≡ false) ↔ InRange low high x
unfolding outside value
outside_iff low high (pos n) = (
  (λ h. (n, refl, ground arith, ground arith)),
  (λ (m, e, a, b). let q : n ≡ m = ap value e in ground arith),
)
outside_iff low high (negsuc n) = ((λ h. cc), (λ (m, e, a, b). cc))

-- "http" or "https"
abbrev pub WebScheme : Text → Type 0
WebScheme s = (s ≡ codes "http") ⊎ (s ≡ codes "https")

pub bad_scheme_iff : (s : Text) → (bad_scheme s ≡ false) ↔ WebScheme s
bad_scheme_iff s = elim (Bool-cases (text_eq s (codes "http"))) [
  | inl a ↦ ((λ h. inl ((text_eq_iff s (codes "http")).0 a)), (λ h. rw a refl))
  | inr a ↦ elim (Bool-cases (text_eq s (codes "https"))) [
    | inl b ↦ ((λ h. inr ((text_eq_iff s (codes "https")).0 b)), (λ h. rw (a, b) refl))
    | inr b ↦ (
      (λ h. cc (rw (a, b) at h)),
      (λ h. elim h [
        | inl e ↦ cc (a, (text_eq_iff s (codes "http")).1 e)
        | inr e ↦ cc (b, (text_eq_iff s (codes "https")).1 e)
      ]),
    )
  ]
]

pub one_of_iff :
    (s : String) (names : List String) → (one_of s names ≡ true) ↔ Any (λ n. s ≡ n) names
one_of_iff s names = (
  (λ h. Any-map (λ n. (same_iff s n).0) names (any→Any (λ n. same s n) names h)),
  (λ h. Any→any (λ n. same s n) names (Any-map (λ n. (same_iff s n).1) names h)),
)

pub is_some_iff : {A : Type 0} (o : Option A) → (is_some o ≡ true) ↔ ((a : A) × (o ≡ some a))
is_some_iff none = ((λ h. cc), (λ (a, e). cc))
is_some_iff (some a) = ((λ h. (a, refl)), (λ h. refl))

pub is_none_iff : {A : Type 0} (o : Option A) → (is_some o ≡ false) ↔ (o ≡ none)
is_none_iff none = ((λ h. refl), (λ h. refl))
is_none_iff (some a) = ((λ h. cc), (λ h. cc))

pub differs_iff : (s t : String) → (same s t ≡ false) ↔ (s ≢ t)
differs_iff s t = (
  (λ h e. cc (h, (same_iff s t).1 e)),
  (λ n. elim (Bool-cases (same s t)) [ inl e ↦ absurd (n ((same_iff s t).0 e)) | inr e ↦ e ]),
)

pub found_iff :
    {A E : Type 0} {P : A → Type 0} (f : A → E) (bad : A → Bool)
    → ((x : A) → (bad x ≡ false) ↔ P x)
    → (xs : List A) → (wrap f (find_first bad xs) ≡ none) ↔ All P xs
found_iff f bad each xs = (
  (λ h. (none_found_iff bad each xs).0 ((wrap_iff f (find_first bad xs)).0 h)),
  (λ all. (wrap_iff f (find_first bad xs)).1 ((none_found_iff bad each xs).1 all)),
)

pub both_false_iff : (a b : Bool) → (a && b ≡ false) ↔ ((a ≡ false) ⊎ (b ≡ false))
both_false_iff true b = ((λ h. inr h), (λ h. elim h [ inl e ↦ cc | inr e ↦ e ]))
both_false_iff false b = ((λ h. inl refl), (λ h. refl))
