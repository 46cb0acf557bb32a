-- ===== src/Normalize/Paths.antt =====
-- The loop of Path ends, and what it leaves.
use scopepilot.Prelude.{
  ℕ, zero, suc, ◌≤◌, ◌<◌, ◌≡◌, refl, sym, ap, ◌∙◌, ◌≢◌, inl, inr, Bool, true, false, ◌&&◌, [], ◌∷◌,
  arith, ◌==◌, if◌then◌else◌, length, Bool-cases,
}
use scopepilot.Text.{Text, codes, text_eq_ne, has_prefix, contains}
use scopepilot.Normalize.{replace_slashes, collapse, normal_path}

abbrev pub doubled : Text
doubled = codes "//"

double_start : (c d : ℕ) (s : Text) → has_prefix (c ∷ d ∷ s) doubled ≡ (c == b'/') && (d == b'/')
unfolding has_prefix
double_start c d s = ground arith

replace_slashes-le : (s : Text) → length (replace_slashes s) ≤ length s
unfolding replace_slashes
replace_slashes-le [] = omega arith
replace_slashes-le (c ∷ []) = omega arith
replace_slashes-le (c ∷ d ∷ s) = elim (Bool-cases ((c == b'/') && (d == b'/'))) [
  | inl b ↦ rw b (omega (arith, replace_slashes-le s))
  | inr b ↦ rw b (omega (arith, replace_slashes-le (d ∷ s)))
]

later :
    (c d : ℕ) (s : Text)
    → has_prefix (c ∷ d ∷ s) doubled ≡ false
    → contains (c ∷ d ∷ s) doubled ≡ contains (d ∷ s) doubled
unfolding contains
later c d s e = ap (λ b. if b then true else contains (d ∷ s) doubled) e

empty_plain : contains [] doubled ≡ false
unfolding contains has_prefix
empty_plain = refl

single_plain : (c : ℕ) → contains (c ∷ []) doubled ≡ false
unfolding contains has_prefix
single_plain c = ground arith

clash : true ≡ false → ⊥
clash h = cc

replace_slashes-lt : (s : Text) → contains s doubled ≡ true → length (replace_slashes s) < length s
unfolding replace_slashes
replace_slashes-lt [] h = absurd (clash (sym h ∙ empty_plain))
replace_slashes-lt (c ∷ []) h = absurd (clash (sym h ∙ single_plain c))
replace_slashes-lt (c ∷ d ∷ s) h = elim (Bool-cases ((c == b'/') && (d == b'/'))) [
  | inl b ↦ rw b (omega (arith, replace_slashes-le s))
  | inr b ↦
      let deeper = sym (later c d s (double_start c d s ∙ b)) ∙ h in
      rw b (omega (arith, replace_slashes-lt (d ∷ s) deeper))
]

collapse-more :
    (n : ℕ) (p : Text)
    → contains p doubled ≡ true
    → collapse (suc n) p ≡ collapse n (replace_slashes p)
unfolding collapse
collapse-more n p e =
    ap (λ (b : Bool). elim b as (λ x. Text) [ true ↦ collapse n (replace_slashes p) | false ↦ p ]) e

collapse-done : (n : ℕ) (p : Text) → contains p doubled ≡ false → collapse (suc n) p ≡ p
unfolding collapse
collapse-done n p e =
    ap (λ (b : Bool). elim b as (λ x. Text) [ true ↦ collapse n (replace_slashes p) | false ↦ p ]) e

collapse-zero : (p : Text) → collapse zero p ≡ p
unfolding collapse
collapse-zero p = refl

-- The rounds of the loop that are enough: as many as the path is long.
no_double : (n : ℕ) (p : Text) → length p ≤ n → contains (collapse n p) doubled ≡ false
no_double zero [] h = ap (λ q. contains q doubled) (collapse-zero []) ∙ empty_plain
no_double zero (c ∷ p) h = absurd (omega (arith, h))
no_double (suc n) p h = elim (Bool-cases (contains p doubled)) [
  | inl b ↦
      let shorter = replace_slashes-lt p b in
      ap (λ q. contains q doubled) (collapse-more n p b)
      ∙ no_double n (replace_slashes p) (omega (arith, shorter, h))
  | inr b ↦ ap (λ q. contains q doubled) (collapse-done n p b) ∙ b
]

settled : (n : ℕ) (p : Text) → contains p doubled ≡ false → collapse n p ≡ p
settled zero p e = collapse-zero p
settled (suc n) p e = collapse-done n p e

enough : (n m : ℕ) (p : Text) → length p ≤ n → length p ≤ m → collapse n p ≡ collapse m p
enough zero m [] h k = collapse-zero [] ∙ sym (settled m [] empty_plain)
enough zero m (c ∷ p) h k = absurd (omega (arith, h))
enough (suc n) zero [] h k = settled (suc n) [] empty_plain ∙ sym (collapse-zero [])
enough (suc n) zero (c ∷ p) h k = absurd (omega (arith, k))
enough (suc n) (suc m) p h k = elim (Bool-cases (contains p doubled)) [
  | inl b ↦
      let shorter = replace_slashes-lt p b in
      collapse-more n p b
      ∙ enough n m (replace_slashes p) (omega (arith, shorter, h)) (omega (arith, shorter, k))
      ∙ sym (collapse-more m p b)
  | inr b ↦ collapse-done n p b ∙ sym (collapse-done m p b)
]

starts :
    (p : Text) → has_prefix p (codes "/") ≡ true → has_prefix (replace_slashes p) (codes "/") ≡ true
unfolding replace_slashes has_prefix
starts [] h = h
starts (c ∷ []) h = h
starts (c ∷ d ∷ s) h = elim (Bool-cases ((c == b'/') && (d == b'/'))) [
  | inl b ↦ rw b refl
  | inr b ↦ rw b h
]

collapse-starts :
    (n : ℕ) (p : Text)
    → has_prefix p (codes "/") ≡ true
    → has_prefix (collapse n p) (codes "/") ≡ true
collapse-starts zero p h = ap (λ q. has_prefix q (codes "/")) (collapse-zero p) ∙ h
collapse-starts (suc n) p h = elim (Bool-cases (contains p doubled)) [
  | inl b ↦
      ap (λ q. has_prefix q (codes "/")) (collapse-more n p b)
      ∙ collapse-starts n (replace_slashes p) (starts p h)
  | inr b ↦ ap (λ q. has_prefix q (codes "/")) (collapse-done n p b) ∙ h
]

abbrev pub rooted : Text → Text
rooted p = if has_prefix p (codes "/") then p else b'/' ∷ p

rooted-starts : (p : Text) → has_prefix (rooted p) (codes "/") ≡ true
unfolding has_prefix
rooted-starts p = elim (Bool-cases (has_prefix p (codes "/"))) [
  | inl b ↦ rw b b
  | inr b ↦ rw b refl
]

returned : (q : Text) → q ≢ [] → normal_path q ≡ collapse (length (rooted q)) (rooted q)
unfolding normal_path
returned q ne = rw (text_eq_ne q [] ne) refl

begun : (q : Text) → has_prefix q (codes "/") ≡ true → q ≢ []
unfolding has_prefix
begun [] f e = cc
begun (c ∷ q) f e = cc

again :
    (q : Text) → has_prefix q (codes "/") ≡ true → contains q doubled ≡ false → normal_path q ≡ q
again q f plain =
    let same : rooted q ≡ q = rw f refl in
    returned q (begun q f) ∙ ap (λ x. collapse (length x) x) same ∙ settled (length q) q plain

-- The loop of Path ends: on a path that is not empty, any number of rounds from the length of the
-- rooted path on leaves the same, which is what Path returns; it begins with "/", has no "//" in it,
-- and is left as it is by Path.
pub normal_path-settles :
    (p : Text) (n : ℕ)
    → p ≢ []
    → length (rooted p) ≤ n
    → (collapse n (rooted p) ≡ normal_path p)
      × (has_prefix (normal_path p) (codes "/") ≡ true)
      × (contains (normal_path p) doubled ≡ false)
      × (normal_path (normal_path p) ≡ normal_path p)
normal_path-settles p n some_path h =
    let r = rooted p in
    let e = returned p some_path in
    let first =
      ap (λ q. has_prefix q (codes "/")) e ∙ collapse-starts (length r) r (rooted-starts p) in
    let plain = ap (λ q. contains q doubled) e ∙ no_double (length r) r (omega arith) in
    (enough n (length r) r h (omega arith) ∙ sym e, first, plain, again (normal_path p) first plain)
