-- ===== src/Queue/Keys.antt =====
-- What the operations that change a task leave as it is: its id, target, type and priority.
use scopepilot.Prelude.{
  ℕ, zero, suc, ◌≡◌, refl, sym, ap, subst, ◌∙◌, ◌≢◌, String, true, false, List, [], ◌∷◌, map,
  Option, none, some, find_first, get_elem?, set, same, same_iff, string_eq, Bool-cases,
  Option-cases, inl, inr, some_inj, if◌then◌else◌,
}
use scopepilot.Number.{ℤ}
use scopepilot.Queue.{Task, has_id, mark}

pub record Key : Type 0 where
  pub id : String
  pub target : String
  pub type : String
  pub priority : ℤ

abbrev pub key : Task → Key
key t = record { id = t.id; target = t.target; type = t.type; priority = t.priority }

abbrev pub KeepsKey : (Task → Task) → Type 0
KeepsKey change = (t : Task) → key (change t) ≡ key t

pub mark-keys :
    (id : String) (change : Task → Task) (tasks us : List Task)
    → KeepsKey change
    → mark id change tasks ≡ some us
    → map key us ≡ map key tasks
unfolding mark
mark-keys id change [] us keeps e = cc
mark-keys id change (t ∷ ts) us keeps e = elim (Bool-cases (has_id id t)) [
  | inl h ↦
      subst (λ l. map key l ≡ map key (t ∷ ts)) (some_inj (rw h at e))
        (ap (λ k. k ∷ map key ts) (keeps t))
  | inr h ↦ elim (Option-cases (mark id change ts)) [
    | inl m ↦ cc (rw (h, m) at e)
    | inr (vs, m) ↦
        subst (λ l. map key l ≡ map key (t ∷ ts)) (some_inj (rw (h, m) at e))
          (ap (◌∷◌ (key t)) (mark-keys id change ts vs keeps m))
  ]
]

pub set-keys :
    (tasks : List Task) (i : ℕ) (t u : Task)
    → get_elem? tasks i ≡ some t
    → key u ≡ key t
    → map key (set tasks i u) ≡ map key tasks
set-keys [] i t u g e = refl
set-keys (s ∷ ts) zero t u g e = ap (λ k. k ∷ map key ts) (e ∙ ap key (sym (some_inj g)))
set-keys (s ∷ ts) (suc i) t u g e = ap (◌∷◌ (key s)) (set-keys ts i t u g e)

id_ne : (id j : String) (s : Task) → has_id id s ≡ true → id ≢ j → has_id j s ≡ false
id_ne id j s h ne = elim (Bool-cases (has_id j s)) [
  | inl k ↦ absurd (ne (sym ((same_iff s.id id).0 h) ∙ (same_iff s.id j).0 k))
  | inr k ↦ k
]

-- A change of the first task with an id, read back by that id or by another.
pub mark-find :
    (id : String) (change : Task → Task) (tasks : List Task)
    → KeepsKey change
    → (t : Task) → find_first (has_id id) tasks ≡ some t
    → (us : List Task) × (mark id change tasks ≡ some us)
      × (find_first (has_id id) us ≡ some (change t))
      × ((j : String) → id ≢ j → find_first (has_id j) us ≡ find_first (has_id j) tasks)
unfolding mark
mark-find id change [] keeps t e = cc
mark-find id change (s ∷ ts) keeps t e = elim (Bool-cases (has_id id s)) [
  | inl h ↦
      let same_task : s ≡ t = some_inj (rw h at e) in
      let id_kept : (change s).id ≡ s.id = ap (λ (k : Key). k.id) (keeps s) in
      (
        change s ∷ ts,
        rw h,
        rw (ap (λ x. same x id) id_kept ∙ h) (ap (λ x. some (change x)) same_task),
        λ j ne.
            let other : has_id j s ≡ false = id_ne id j s h ne in
            rw (ap (λ x. same x j) id_kept ∙ other, other),
      )
  | inr h ↦
      let (us, m, f, others) = mark-find id change ts keeps t (rw h at e) in
      (
        s ∷ us,
        rw (h, m),
        rw h f,
        λ j ne. ap (λ (o : Option Task). if has_id j s then some s else o) (others j ne),
      )
]

pub mark-missing :
    (id : String) (change : Task → Task) (tasks : List Task)
    → find_first (has_id id) tasks ≡ none
    → mark id change tasks ≡ none
unfolding mark
mark-missing id change [] e = refl
mark-missing id change (s ∷ ts) e = elim (Bool-cases (has_id id s)) [
  | inl h ↦ cc (rw h at e)
  | inr h ↦ rw (h, mark-missing id change ts (rw h at e))
]
