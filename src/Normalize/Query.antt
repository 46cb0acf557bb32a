-- ===== src/Normalize/Query.antt =====
-- The query strings that sortQuery makes.
use mathlib.Core.List.{Permᴰ}
use mathlib.Core.List.Permᴰ
use scopepilot.Prelude.{
  ℕ, zero, suc, ◌≤◌, ◌≡◌, refl, true, false, List, [], ◌∷◌, arith, length, All, Bool-cases, inl,
  inr, ◌≢◌, subst,
}
use scopepilot.Text.{Text, text_lt, text_eq, split, join, text_eq_iff}
use scopepilot.Normalize.{get_key, sweep, exchange_sort, sort_query}

-- The key of a pair is not greater than that of another.
abbrev pub NotAfter : Text → Text → Type 0
NotAfter x y = text_lt (get_key y) (get_key x) ≡ false

lt_asymm : (a b : Text) → text_lt a b ≡ true → text_lt b a ≡ false
lt_asymm [] [] h = cc
lt_asymm [] (d ∷ t) h = refl
lt_asymm (c ∷ s) [] h = cc
lt_asymm (c ∷ s) (d ∷ t) h = ground (arith, lt_asymm s t)

not_lt_trans : (a b c : Text) → text_lt b a ≡ false → text_lt c b ≡ false → text_lt c a ≡ false
not_lt_trans [] b [] h k = refl
not_lt_trans [] [] (e ∷ u) h k = refl
not_lt_trans [] (d ∷ t) (e ∷ u) h k = refl
not_lt_trans (c ∷ s) [] w h k = cc
not_lt_trans (c ∷ s) (d ∷ t) [] h k = cc
not_lt_trans (c ∷ s) (d ∷ t) (e ∷ u) h k = ground (arith, not_lt_trans s t u)

-- Every key is at most the keys behind it.
abbrev pub IsSorted : List Text → Type 0
IsSorted [] = Unit
IsSorted (x ∷ xs) = All (NotAfter x) xs × IsSorted xs

lt_irrefl : (a : Text) → text_lt a a ≡ false
lt_irrefl [] = refl
lt_irrefl (c ∷ s) = ground (arith, lt_irrefl s)

record Swept (x : Text) (ys : List Text) (least : Text) (rest : List Text) : Type 0 where
  same : Permᴰ (x ∷ ys) (least ∷ rest)
  first : NotAfter least x
  below : All (NotAfter least) rest
  size : length rest ≡ length ys

sweep-Swept : (x : Text) (ys : List Text) → Swept x ys (sweep x ys).0 (sweep x ys).1
unfolding sweep
sweep-Swept x [] = record {
  same = Permᴰ.refl (x ∷ []);
  first = lt_irrefl (get_key x);
  below = tt;
  size = refl;
}
sweep-Swept x (y ∷ ys) = elim (Bool-cases (text_lt (get_key y) (get_key x))) [
  | inl less ↦
      let s = sweep-Swept y ys in
      let over : NotAfter (sweep y ys).0 x =
        not_lt_trans (get_key (sweep y ys).0) (get_key y) (get_key x) s.first
          (lt_asymm (get_key y) (get_key x) less) in
      rw less (record {
        same = Permᴰ.trans (Permᴰ.cons refl s.same) (Permᴰ.swap refl refl);
        first = over;
        below = (over, s.below);
        size = omega (arith, s.size);
      })
  | inr keep ↦
      let s = sweep-Swept x ys in
      rw keep (record {
        same =
            Permᴰ.trans (Permᴰ.swap refl refl)
              (Permᴰ.trans (Permᴰ.cons refl s.same) (Permᴰ.swap refl refl));
        first = s.first;
        below =
            (not_lt_trans (get_key (sweep x ys).0) (get_key x) (get_key y) s.first keep, s.below);
        size = omega (arith, s.size);
      })
]

perm-All : (P : Text → Type 0) {xs ys : List Text} → Permᴰ xs ys → All P xs → All P ys
perm-All P Permᴰ.nil h = tt
perm-All P (Permᴰ.cons e p) h = (subst P e h.0, perm-All P p h.1)
perm-All P (Permᴰ.swap e f) h = (subst P f h.1.0, (subst P e h.0, h.1.1))
perm-All P (Permᴰ.trans p q) h = perm-All P q (perm-All P p h)

sorted :
    (n : ℕ) (xs : List Text)
    → length xs ≤ n
    → Permᴰ xs (exchange_sort n xs) × IsSorted (exchange_sort n xs)
unfolding exchange_sort
sorted zero [] h = (Permᴰ.refl [], tt)
sorted zero (x ∷ xs) h = absurd (omega arith)
sorted (suc n) [] h = (Permᴰ.refl [], tt)
sorted (suc n) (x ∷ xs) h =
    let s = sweep-Swept x xs in
    let (p, q) = sorted n (sweep x xs).1 (omega (arith, s.size, h)) in
    (Permᴰ.trans s.same (Permᴰ.cons refl p), (perm-All (NotAfter (sweep x xs).0) p s.below, q))

-- sortQuery joins the pairs of the query again, each as often as it is there, in an order in which no
-- pair's key is less than a key before it.
pub sort_query-IsSorted :
    (query : Text)
    → query ≢ []
    → (pairs : List Text) × (sort_query query ≡ join pairs b'&')
      × Permᴰ (split query b'&') pairs
      × IsSorted pairs
unfolding sort_query
sort_query-IsSorted query ne =
    let (p, q) = sorted (length (split query b'&')) (split query b'&') (omega arith) in
    elim (Bool-cases (text_eq query [])) [
      | inl e ↦ absurd (ne ((text_eq_iff query []).0 e))
      | inr e ↦ (exchange_sort (length (split query b'&')) (split query b'&'), rw e, p, q)
    ]
