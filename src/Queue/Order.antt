-- ===== src/Queue/Order.antt =====
-- Which task Next hands out.
use mathlib.Core.List.{append_assoc, append-nil}
use scopepilot.Prelude.{
  ℕ, suc, ◌≤◌, ◌≡◌, refl, subst, ◌≢◌, ◌⊎◌, inl, inr, true, false, List, [], ◌∷◌, ◌++◌, Option, none,
  some, arith, length, length-append, get_elem?, set, get_elem?-append_left,
  get_elem?-append_length, All, All-append, All-map, eq_iff, Bool-cases, if◌then◌else◌,
}
use scopepilot.Number.{ℤ, pos, negsuc}
use scopepilot.TaskFile.{SaveStep}
use scopepilot.TaskFile.Replacing.{save_tasks-saved}
use scopepilot.Queue.{
  Task, Io, Disk, ok, ltz, beats, is_pending, consider, pick, running, next, new_lock_file,
}

ltz_irrefl : (a : ℤ) → ltz a a ≡ false
ltz_irrefl (pos a) = ground arith
ltz_irrefl (negsuc a) = ground arith

ltz_trans : (a b c : ℤ) → ltz a b ≡ true → ltz b c ≡ true → ltz a c ≡ true
ltz_trans (pos a) (pos b) (pos c) h k = ground arith
ltz_trans (pos a) (pos b) (negsuc c) h k = cc
ltz_trans (pos a) (negsuc b) c h k = cc
ltz_trans (negsuc a) (pos b) (pos c) h k = refl
ltz_trans (negsuc a) (pos b) (negsuc c) h k = cc
ltz_trans (negsuc a) (negsuc b) (pos c) h k = refl
ltz_trans (negsuc a) (negsuc b) (negsuc c) h k = ground arith

pub ltz_tri : (a b : ℤ) → ltz a b ≡ false → ltz b a ≡ false → a ≡ b
ltz_tri (pos a) (pos b) h k = ground arith
ltz_tri (pos a) (negsuc b) h k = cc
ltz_tri (negsuc a) (pos b) h k = cc
ltz_tri (negsuc a) (negsuc b) h k = ground arith

beats_irrefl : (t : Task) → beats t t ≡ false
unfolding beats
beats_irrefl t = rw (ltz_irrefl t.priority) (ground arith)

beats_trans : (s t u : Task) → beats s t ≡ true → beats t u ≡ true → beats s u ≡ true
unfolding beats
beats_trans s t u h k = ground (
  arith,
  ltz_trans u.priority t.priority s.priority,
  ltz_tri s.priority t.priority,
  ltz_tri t.priority u.priority,
  ltz_irrefl s.priority,
)

unbeaten : (t b u : Task) → beats t b ≡ true → beats u b ≡ false → beats u t ≡ false
unbeaten t b u w n = elim (Bool-cases (beats u t)) [
  | inl y ↦ cc (beats_trans u t b y w)
  | inr y ↦ y
]

-- What the loop has found among the tasks that it has seen.
unfoldable pub IsBest : List Task → Option (ℕ × Task) → Type 0
IsBest seen none = All (λ u. is_pending u ≡ false) seen
IsBest seen (some (j, b)) =
    (get_elem? seen j ≡ some b)
    × (is_pending b ≡ true)
    × All (λ u. is_pending u ≡ true → beats u b ≡ false) seen

consider-IsBest :
    (seen : List Task) (t : Task) (best : Option (ℕ × Task))
    → IsBest seen best
    → IsBest (seen ++ (t ∷ [])) (if is_pending t then consider (length seen) t best else best)
unfolding IsBest
consider-IsBest seen t none h = elim (Bool-cases (is_pending t)) [
  | inl p ↦ rw p (
    get_elem?-append_length seen [] t,
    p,
    All-append _ seen (t ∷ []) (All-map (λ u n q. cc) seen h) ((λ q. beats_irrefl t), tt),
  )
  | inr p ↦ rw p (All-append _ seen (t ∷ []) h (p, tt))
]
consider-IsBest seen t (some (j, b)) (g, q, all) = elim (Bool-cases (is_pending t)) [
  | inr p ↦
      rw p (
        get_elem?-append_left seen (t ∷ []) j b g,
        q,
        All-append _ seen (t ∷ []) all ((λ r. cc), tt),
      )
  | inl p ↦ elim (Bool-cases (beats t b)) [
    | inr w ↦
        rw (p, w)
          (
            get_elem?-append_left seen (t ∷ []) j b g,
            q,
            All-append _ seen (t ∷ []) all ((λ r. w), tt),
          )
    | inl w ↦
        rw (p, w)
          (
            get_elem?-append_length seen [] t,
            p,
            All-append _ seen (t ∷ []) (All-map (λ u n r. unbeaten t b u w (n r)) seen all)
                ((λ r. beats_irrefl t), tt),
          )
  ]
]

pick-IsBest :
    (seen ts : List Task) (best : Option (ℕ × Task))
    → IsBest seen best
    → IsBest (seen ++ ts) (pick (length seen) ts best)
unfolding pick
pick-IsBest seen [] best h = rw (append-nil seen) h
pick-IsBest seen (t ∷ ts) best h =
    subst
      (λ l. IsBest l (
        pick (suc (length seen)) ts (if is_pending t then consider (length seen) t best else best)))
      (append_assoc seen (t ∷ []) ts)
      (subst
        (λ n.
          IsBest ((seen ++ (t ∷ [])) ++ ts)
            (pick n ts (if is_pending t then consider (length seen) t best else best)))
        (omega (arith, length-append seen (t ∷ [])))
        (pick-IsBest (seen ++ (t ∷ [])) ts
          (if is_pending t then consider (length seen) t best else best)
          (consider-IsBest seen t best h)))

-- The task with index i is pending, no pending task has a higher priority (a larger number), and
-- none of its priority was created before it.
pub record IsNext (tasks : List Task) (i : ℕ) (t : Task) : Type 0 where
  pub listed : get_elem? tasks i ≡ some t
  pub pending : t.status ≡ "pending"
  pub first :
      All
        (λ u.
          u.status ≡ "pending"
          → (ltz t.priority u.priority ≡ false)
            × (u.priority ≡ t.priority → t.created_at ≤ u.created_at))
        tasks

unbeaten_parts :
    (t u : Task)
    → beats u t ≡ false
    → (ltz t.priority u.priority ≡ false) × (u.priority ≡ t.priority → t.created_at ≤ u.created_at)
unfolding beats
unbeaten_parts t u h = (ground arith, λ e. ground (arith, ltz_irrefl t.priority))

found : (tasks : List Task) (i : ℕ) (t : Task) → IsBest tasks (some (i, t)) → IsNext tasks i t
unfolding IsBest
found tasks i t (g, p, all) = record {
  listed = g;
  pending = (eq_iff t.status "pending").0 p;
  first = All-map (λ u n s. unbeaten_parts t u (n ((eq_iff u.status "pending").1 s))) tasks all;
}

none_pending : (tasks : List Task) → IsBest tasks none → All (λ u. u.status ≢ "pending") tasks
unfolding IsBest
none_pending tasks all = All-map (λ u n s. cc ((eq_iff u.status "pending").1 s)) tasks all

pub picked : (tasks : List Task) → IsBest tasks (pick 0 tasks none)
unfolding IsBest
picked tasks = pick-IsBest [] tasks none tt

-- Next, where the lock is taken and the file can be read and written, answers that there is no task
-- exactly when no task is pending, and then changes none. Otherwise it answers a pending task of the
-- highest priority, the earliest of those, marked running, and changes that task alone.
pub next_lem :
    (io : Io) (d : Disk)
    → (new_lock_file io d.lock).1 ≡ true
    → io.loads ≡ true
    → ((s : SaveStep Task) → io.saves s ≡ true)
    → let (d', result) = next io d in
      ((result ≡ ok none) × (d'.tasks ≡ d.tasks) × All (λ u. u.status ≢ "pending") d.tasks)
      ⊎ ((i : ℕ) × (t : Task) × IsNext d.tasks i t
          × (result ≡ ok (some (running io t)))
          × (d'.tasks ≡ set d.tasks i (running io t)))
unfolding next
next_lem io d lock loads saves = go (pick 0 d.tasks none) refl
  where
    go :
        (best : Option (ℕ × Task))
        → pick 0 d.tasks none ≡ best
        → let (d', result) = next io d in
          ((result ≡ ok none) × (d'.tasks ≡ d.tasks) × All (λ u. u.status ≢ "pending") d.tasks)
          ⊎ ((i : ℕ) × (t : Task) × IsNext d.tasks i t
              × (result ≡ ok (some (running io t)))
              × (d'.tasks ≡ set d.tasks i (running io t)))
    go none e = inl (
      rw (lock, loads, e),
      rw (lock, loads, e),
      none_pending d.tasks (subst (IsBest d.tasks) e (picked d.tasks)),
    )
    go (some (i, t)) e =
        let (finished, kept) =
          save_tasks-saved io.saves d.tasks io.drops_temp (set d.tasks i (running io t)) saves in
        inr (
          i,
          t,
          found d.tasks i t (subst (IsBest d.tasks) e (picked d.tasks)),
          rw (lock, loads, e, finished),
          rw (lock, loads, e, kept),
        )
