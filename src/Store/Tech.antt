-- ===== src/Store/Tech.antt =====
-- The technologies of an asset after a merge.
use scopepilot.Prelude.{
  ◌≡◌, sym, ◌∙◌, ◌≢◌, ◌↔◌, ◌⊎◌, inl, inr, true, false, List, [], ◌∷◌, ◌++◌, any, same, same_iff,
  All, Any, All-append, Any-map, any→Any, Any→any, Bool-cases,
}
use scopepilot.Text.{Text, text_keys}
use scopepilot.Store.{add_unseen, merge_tech}

abbrev pub Has : Text → List Text → Type 0
Has t ts = Any (λ x. x ≡ t) ts

-- No entry is repeated.
abbrev pub Distinct : List Text → Type 0
Distinct [] = Unit
Distinct (t ∷ ts) = All (λ x. x ≢ t) ts × Distinct ts

pub Any-append :
    {A : Type 0} (P : A → Type 0) (xs ys : List A) → Any P (xs ++ ys) ↔ (Any P xs ⊎ Any P ys)
Any-append P [] ys = ((λ h. inr h), (λ h. elim h [ inl x ↦ absurd x | inr y ↦ y ]))
Any-append P (x ∷ xs) ys = (
  (λ h. elim h [
    | inl p ↦ inl (inl p)
    | inr r ↦ elim ((Any-append P xs ys).0 r) [ inl q ↦ inl (inr q) | inr q ↦ inr q ]
  ]),
  (λ h. elim h [
    | inl (inl p) ↦ inl p
    | inl (inr q) ↦ inr ((Any-append P xs ys).1 (inl q))
    | inr q ↦ inr ((Any-append P xs ys).1 (inr q))
  ]),
)

Distinct-append :
    (ts : List Text) (t : Text) → Distinct ts → All (λ x. x ≢ t) ts → Distinct (ts ++ (t ∷ []))
Distinct-append [] t d h = (tt, tt)
Distinct-append (x ∷ ts) t d h =
    (All-append (λ y. y ≢ x) ts (t ∷ []) d.0 ((λ e. h.0 (sym e)), tt), Distinct-append ts t d.1 h.1)

not_Has : (ts : List Text) (t : Text) → ¬ Has t ts → All (λ x. x ≢ t) ts
not_Has [] t h = tt
not_Has (x ∷ ts) t h = ((λ e. h (inl e)), not_Has ts t (λ k. h (inr k)))

-- The list holds what was seen, once each.
record Merging (s : List Text × List Text) : Type 0 where
  same_members : (t : Text) → Has t s.0 ↔ Has t s.1
  once : Distinct s.1

seen_iff : (t : Text) (seen : List Text) → (any (λ x. same x t) seen ≡ true) ↔ Has t seen
seen_iff t seen = (
  (λ h. Any-map (λ x. (same_iff x t).0) seen (any→Any (λ x. same x t) seen h)),
  (λ h. Any→any (λ x. same x t) seen (Any-map (λ x. (same_iff x t).1) seen h)),
)

extend :
    (seen out : List Text) (t : Text)
    → Merging (seen, out)
    → any (λ x. same x t) seen ≡ false
    → Merging (t ∷ seen, out ++ (t ∷ []))
extend seen out t m new = record {
  same_members = λ u. (
    (λ h. elim h [
      | inl e ↦ (Any-append (λ x. x ≡ u) out (t ∷ [])).1 (inr (inl e))
      | inr k ↦ (Any-append (λ x. x ≡ u) out (t ∷ [])).1 (inl ((m.same_members u).0 k))
    ]),
    (λ h. elim ((Any-append (λ x. x ≡ u) out (t ∷ [])).0 h) [
      | inl k ↦ inr ((m.same_members u).1 k)
      | inr (inl e) ↦ inl e
      | inr (inr n) ↦ absurd n
    ]),
  );
  once =
      Distinct-append out t m.once
        (not_Has out t (λ k. cc (new, (seen_iff t seen).1 ((m.same_members t).1 k))));
}

add_unseen_lem :
    (s : List Text × List Text) (ts : List Text)
    → Merging s
    → Merging (add_unseen s ts) × ((t : Text) → Has t (add_unseen s ts).1 ↔ (Has t s.1 ⊎ Has t ts))
unfolding add_unseen
add_unseen_lem s [] m = (m, λ t. ((λ h. inl h), (λ h. elim h [ inl k ↦ k | inr n ↦ absurd n ])))
add_unseen_lem (seen, out) (t ∷ ts) m = elim (Bool-cases (any (λ x. same x t) seen)) [
  | inl old ↦
      let (n, each) = add_unseen_lem (seen, out) ts m in
      rw old (
        n,
        λ u. (
          (λ h. elim ((each u).0 h) [ inl k ↦ inl k | inr k ↦ inr (inr k) ]),
          (λ h. elim h [
            | inl k ↦ (each u).1 (inl k)
            | inr (inl e) ↦
                (each u).1 (
                  inl
                    ((m.same_members u).0 (Any-map (λ x q. q ∙ e) seen ((seen_iff t seen).0 old))))
            | inr (inr k) ↦ (each u).1 (inr k)
          ]),
        ),
      )
  | inr new ↦
      let (n, each) = add_unseen_lem (t ∷ seen, out ++ (t ∷ [])) ts (extend seen out t m new) in
      rw new (
        n,
        λ u. (
          (λ h. elim ((each u).0 h) [
            | inl k ↦ elim ((Any-append (λ x. x ≡ u) out (t ∷ [])).0 k) [
              | inl q ↦ inl q
              | inr (inl e) ↦ inr (inl e)
              | inr (inr z) ↦ absurd z
            ]
            | inr k ↦ inr (inr k)
          ]),
          (λ h. elim h [
            | inl k ↦ (each u).1 (inl ((Any-append (λ x. x ≡ u) out (t ∷ [])).1 (inl k)))
            | inr (inl e) ↦
                (each u).1 (inl ((Any-append (λ x. x ≡ u) out (t ∷ [])).1 (inr (inl e))))
            | inr (inr k) ↦ (each u).1 (inr k)
          ]),
        ),
      )
]

-- The merged technologies are those of the two lists, and none of them is repeated.
pub merge_tech_lem :
    (a b : List Text)
    → Distinct (merge_tech a b) × ((t : Text) → Has t (merge_tech a b) ↔ (Has t a ⊎ Has t b))
unfolding merge_tech
merge_tech_lem a b =
    let start : Merging ([], []) = record { same_members = λ t. ((λ h. h), (λ h. h)); once = tt } in
    let (m, first) = add_unseen_lem ([], []) a start in
    let (n, each) = add_unseen_lem (add_unseen ([], []) a) b m in
    (
      n.once,
      λ t. (
        (λ h. elim ((each t).0 h) [
          | inl k ↦ elim ((first t).0 k) [ inl z ↦ absurd z | inr q ↦ inl q ]
          | inr k ↦ inr k
        ]),
        (λ h. elim h [
          | inl k ↦ (each t).1 (inl ((first t).1 (inr k)))
          | inr k ↦ (each t).1 (inr k)
        ]),
      ),
    )
