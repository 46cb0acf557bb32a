-- ===== src/Prelude/Lists.antt =====
-- Lists measured and indexed by native numbers, and Boolean searches through them.
use Prim.Native.Nat.{ℕ, zero, suc, ◌+◌, ◌-◌, ◌≤◌, min}
use mathlib.Core.Path.{◌≡◌, refl, sym, ap, subst}
use mathlib.Core.Logic.{◌⊎◌, inl, inr}
use mathlib.Core.Bool.{Bool, true, false}
use mathlib.Core.List.{List, [], ◌∷◌, ◌++◌, map, reverse, reverse-cons}
use mathlib.Core.Option.{Option, none, some}
use native.Mathlib.Omega.{arith}
use scopepilot.Prelude.Tests.{if◌then◌else◌, Bool-cases}

module _ {ℓ} {A : Type ℓ} where
  abbrev pub length : List A → ℕ
  length [] = 0
  length (x ∷ xs) = suc (length xs)

  abbrev pub take : ℕ → List A → List A
  take zero xs = []
  take (suc n) [] = []
  take (suc n) (x ∷ xs) = x ∷ take n xs

  abbrev pub drop : ℕ → List A → List A
  drop zero xs = xs
  drop (suc n) [] = []
  drop (suc n) (x ∷ xs) = drop n xs

  abbrev pub tail : List A → List A
  tail [] = []
  tail (x ∷ xs) = xs

  abbrev pub get_elem? : List A → ℕ → Option A
  get_elem? [] i = none
  get_elem? (x ∷ xs) zero = some x
  get_elem? (x ∷ xs) (suc i) = get_elem? xs i

  -- A write out of bounds changes nothing.
  abbrev pub set : List A → ℕ → A → List A
  set [] i v = []
  set (x ∷ xs) zero v = v ∷ xs
  set (x ∷ xs) (suc i) v = x ∷ set xs i v

  -- Whether some entry passes a test, as a loop that returns at the first one.
  abbrev pub any : (A → Bool) → List A → Bool
  any p [] = false
  any p (x ∷ xs) = if p x then true else any p xs

  -- The entries that pass a test, in order.
  abbrev pub keep : (A → Bool) → List A → List A
  keep p [] = []
  keep p (x ∷ xs) = if p x then x ∷ keep p xs else keep p xs

  -- The first entry that passes a test.
  abbrev pub find_first : (A → Bool) → List A → Option A
  find_first p [] = none
  find_first p (x ∷ xs) = if p x then some x else find_first p xs

  abbrev pub All : (A → Type 0) → List A → Type 0
  All P [] = Unit
  All P (x ∷ xs) = P x × All P xs

  abbrev pub Any : (A → Type 0) → List A → Type 0
  Any P [] = ⊥
  Any P (x ∷ xs) = P x ⊎ Any P xs

  pub length-append : (xs ys : List A) → length (xs ++ ys) ≡ length xs + length ys
  length-append [] ys = omega arith
  length-append (x ∷ xs) ys = omega (arith, length-append xs ys)

  pub length-reverse : (xs : List A) → length (reverse xs) ≡ length xs
  length-reverse [] = refl
  length-reverse (x ∷ xs) =
      omega (
        arith,
        ap length (reverse-cons x xs),
        length-append (reverse xs) (x ∷ []),
        length-reverse xs,
      )

  pub length-drop : (n : ℕ) (xs : List A) → length (drop n xs) ≡ length xs - n
  length-drop zero xs = omega arith
  length-drop (suc n) [] = omega arith
  length-drop (suc n) (x ∷ xs) = omega (arith, length-drop n xs)

  pub length-take : (n : ℕ) (xs : List A) → length (take n xs) ≡ min n (length xs)
  length-take zero xs = omega arith
  length-take (suc n) [] = omega arith
  length-take (suc n) (x ∷ xs) = omega (arith, length-take n xs)

  pub take-append : (xs ys : List A) → take (length xs) (xs ++ ys) ≡ xs
  take-append [] ys = refl
  take-append (x ∷ xs) ys = ap (◌∷◌ x) (take-append xs ys)

  pub drop-append : (xs ys : List A) → drop (length xs) (xs ++ ys) ≡ ys
  drop-append [] ys = refl
  drop-append (x ∷ xs) ys = drop-append xs ys

  -- A loop that stops at a hit stops at an entry that passes, or none passes.
  pub any_cases :
      (p : A → Bool) (xs : List A)
      → ((any p xs ≡ true) × Any (λ x. p x ≡ true) xs)
        ⊎ ((any p xs ≡ false) × All (λ x. p x ≡ false) xs)
  any_cases p [] = inr (refl, tt)
  any_cases p (x ∷ xs) = ground (arith, any_cases p xs)

  pub any→Any : (p : A → Bool) (xs : List A) → any p xs ≡ true → Any (λ x. p x ≡ true) xs
  any→Any p xs h = ground (arith, any_cases p xs)

  pub any→All : (p : A → Bool) (xs : List A) → any p xs ≡ false → All (λ x. p x ≡ false) xs
  any→All p xs h = ground (arith, any_cases p xs)

  pub Any→any : (p : A → Bool) (xs : List A) → Any (λ x. p x ≡ true) xs → any p xs ≡ true
  Any→any p [] h = absurd h
  Any→any p (x ∷ xs) (inl h) = rw h
  Any→any p (x ∷ xs) (inr h) = ground (arith, Any→any p xs h)

  pub All→any : (p : A → Bool) (xs : List A) → All (λ x. p x ≡ false) xs → any p xs ≡ false
  All→any p [] h = refl
  All→any p (x ∷ xs) h = ground (arith, All→any p xs h.1)

  pub All-map : {P Q : A → Type 0} → ((x : A) → P x → Q x) → (xs : List A) → All P xs → All Q xs
  All-map f [] h = tt
  All-map f (x ∷ xs) h = (f x h.0, All-map f xs h.1)

  pub All-append : (P : A → Type 0) (xs ys : List A) → All P xs → All P ys → All P (xs ++ ys)
  All-append P [] ys hx hy = hy
  All-append P (x ∷ xs) ys hx hy = (hx.0, All-append P xs ys hx.1 hy)

  pub All-both : (P Q : A → Type 0) (xs : List A) → All P xs → All Q xs → All (λ x. P x × Q x) xs
  All-both P Q [] h k = tt
  All-both P Q (x ∷ xs) h k = ((h.0, k.0), All-both P Q xs h.1 k.1)

  pub keep-length-le : (p : A → Bool) (xs : List A) → length (keep p xs) ≤ length xs
  keep-length-le p [] = omega arith
  keep-length-le p (x ∷ xs) = ground (arith, keep-length-le p xs)

  -- A search returns none when nothing passes, and else the entry before which nothing passes.
  pub find_first_cases :
      (p : A → Bool) (xs : List A)
      → ((find_first p xs ≡ none) × All (λ x. p x ≡ false) xs)
        ⊎ ((x : A) × (before after : List A) × (find_first p xs ≡ some x)
            × (p x ≡ true)
            × (xs ≡ before ++ (x ∷ after))
            × All (λ y. p y ≡ false) before)
  find_first_cases p [] = inl (refl, tt)
  find_first_cases p (x ∷ xs) = elim (Bool-cases (p x)) [
    | inl h ↦ inr (x, [], xs, rw h, h, refl, tt)
    | inr h ↦ elim (find_first_cases p xs) [
      | inl (e, all) ↦ inl (rw h e, (h, all))
      | inr (y, before, after, e, q, s, all) ↦
          inr (y, x ∷ before, after, rw h e, q, ap (◌∷◌ x) s, (h, all))
    ]
  ]

  pub take-append-drop : (n : ℕ) (xs : List A) → take n xs ++ drop n xs ≡ xs
  take-append-drop zero xs = refl
  take-append-drop (suc n) [] = refl
  take-append-drop (suc n) (x ∷ xs) = rw (take-append-drop n xs)

  pub Any_middle :
      (P : A → Type 0) (x : A) (before after : List A) → P x → Any P (before ++ (x ∷ after))
  Any_middle P x [] after h = inl h
  Any_middle P x (y ∷ before) after h = inr (Any_middle P x before after h)

  pub All-Any :
      {P Q : A → Type 0} → ((x : A) → P x → Q x → ⊥) → (xs : List A) → All P xs → ¬ Any Q xs
  All-Any f [] all found = found
  All-Any f (x ∷ xs) all (inl q) = f x all.0 q
  All-Any f (x ∷ xs) all (inr q) = All-Any f xs all.1 q

  -- `x` is the first entry of which `P` holds.
  abbrev pub First : (A → Type 0) → List A → A → Type ℓ
  First P xs x =
      (before : List A) × (after : List A) × (xs ≡ before ++ (x ∷ after))
      × P x
      × All (λ y. ¬ P y) before

  pub First→Any : (P : A → Type 0) (xs : List A) (x : A) → First P xs x → Any P xs
  First→Any P xs x (before, after, e, p, all) =
      subst (Any P) (sym e) (Any_middle P x before after p)

  -- A search by a test that decides `P`.
  pub find_first_decides :
      {P : A → Type 0} (p : A → Bool)
      → ((x : A) → p x ≡ true → P x)
      → ((x : A) → p x ≡ false → ¬ P x)
      → (xs : List A)
      → ((find_first p xs ≡ none) × All (λ x. ¬ P x) xs)
        ⊎ ((x : A) × (find_first p xs ≡ some x) × First P xs x)
  find_first_decides p true_case false_case xs = elim (find_first_cases p xs) [
    | inl (e, all) ↦ inl (e, All-map false_case xs all)
    | inr (x, before, after, e, q, s, all) ↦
        inr (x, e, (before, after, s, true_case x q, All-map false_case before all))
  ]

  pub Any-map : {P Q : A → Type 0} → ((x : A) → P x → Q x) → (xs : List A) → Any P xs → Any Q xs
  Any-map f [] h = h
  Any-map f (x ∷ xs) (inl p) = inl (f x p)
  Any-map f (x ∷ xs) (inr h) = inr (Any-map f xs h)

  pub get_elem?-append_left :
      (xs ys : List A) (i : ℕ) (v : A) → get_elem? xs i ≡ some v → get_elem? (xs ++ ys) i ≡ some v
  get_elem?-append_left [] ys i v h = cc
  get_elem?-append_left (x ∷ xs) ys zero v h = h
  get_elem?-append_left (x ∷ xs) ys (suc i) v h = get_elem?-append_left xs ys i v h

  pub get_elem?-append_length :
      (xs ys : List A) (v : A) → get_elem? (xs ++ (v ∷ ys)) (length xs) ≡ some v
  get_elem?-append_length [] ys v = refl
  get_elem?-append_length (x ∷ xs) ys v = get_elem?-append_length xs ys v

  pub any-append :
      (p : A → Bool) (xs ys : List A) → any p (xs ++ ys) ≡ (if any p xs then true else any p ys)
  any-append p [] ys = refl
  any-append p (x ∷ xs) ys = ground (arith, any-append p xs ys)

module _ {ℓ κ} {A : Type ℓ} {B : Type κ} where
  pub any-map : (p : B → Bool) (f : A → B) (xs : List A) → any p (map f xs) ≡ any (λ x. p (f x)) xs
  any-map p f [] = refl
  any-map p f (x ∷ xs) = ground (arith, any-map p f xs)
