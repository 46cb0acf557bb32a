-- ===== src/Queue/Updates.antt =====
-- What a change of a task leaves to be read back, by its id and by every other.
use scopepilot.Prelude.{
  ◌≡◌, refl, ◌≢◌, String, Bool, true, false, List, [], ◌∷◌, ◌++◌, Option, none, some, find_first,
  any, Bool-cases, Option-cases, inl, inr, same_refl, string_eq, if◌then◌else◌, ◌⊎◌,
}
use scopepilot.TaskFile.{SaveStep}
use scopepilot.TaskFile.Replacing.{save_tasks-saved}
use scopepilot.Queue.{
  Task, Io, Disk, Result, ok, err, not_found, has_id, start, complete, fail, retry, get, running,
  done, failing, waiting, new_lock_file, add, add_error, with_defaults, append_task, update,
  duplicate_id,
}
use scopepilot.Queue.Keys.{KeepsKey, mark-find, mark-missing}

-- The lock can be taken, and the file read and written.
abbrev pub Works : Io → Disk → Type 0
Works io d =
    ((new_lock_file io d.lock).1 ≡ true)
    × (io.loads ≡ true)
    × ((s : SaveStep Task) → io.saves s ≡ true)

-- The task that Get finds under an id.
abbrev pub task_at : Disk → String → Option Task
task_at d id = find_first (has_id id) d.tasks

-- What one of Start, Complete, Fail and Retry does to the task with the id, if there is one.
pub record Changes (io : Io) (d : Disk) (id : String) (change : Task → Task)
    (r : Disk × Result (Unit {0})) : Type 0 where
  pub missing : task_at d id ≡ none → (r.1 ≡ err (not_found id)) × (r.0.tasks ≡ d.tasks)
  pub changed :
      (t : Task)
      → task_at d id ≡ some t
      → (r.1 ≡ ok tt)
        × (task_at r.0 id ≡ some (change t))
        × ((j : String) → id ≢ j → task_at r.0 j ≡ task_at d j)

update-Changes :
    (io : Io) (d : Disk) (id : String) (change : Task → Task)
    → KeepsKey change
    → Works io d
    → Changes io d id change (update io d id change)
update-Changes io d id change keeps (lock, loads, saves) = record {
  missing = λ e. rw (lock, loads, mark-missing id change d.tasks e) (refl, refl);
  changed = λ t e.
      let (us, m, f, others) = mark-find id change d.tasks keeps t e in
      let (finished, kept) = save_tasks-saved io.saves d.tasks io.drops_temp us saves in
      rw (lock, loads, m, finished, kept) (refl, f, others);
}

pub updates_lem :
    (io : Io) (d : Disk) (id : String) (message : Option String)
    → Works io d
    → Changes io d id (running io) (start io d id)
      × Changes io d id (done io) (complete io d id)
      × Changes io d id (failing io message) (fail io d id message)
      × Changes io d id (waiting io) (retry io d id)
unfolding start complete fail retry
updates_lem io d id message works = (
  update-Changes io d id (running io) (λ t. refl) works,
  update-Changes io d id (done io) (λ t. refl) works,
  update-Changes io d id (failing io message) (λ t. refl) works,
  update-Changes io d id (waiting io) (λ t. refl) works,
)

find_missing :
    (id : String) (tasks : List Task)
    → any (has_id id) tasks ≡ false
    → find_first (has_id id) tasks ≡ none
find_missing id [] h = refl
find_missing id (t ∷ ts) h = elim (Bool-cases (has_id id t)) [
  | inl k ↦ cc (rw k at h)
  | inr k ↦ rw k (find_missing id ts (rw k at h))
]

find_appended :
    (j : String) (tasks : List Task) (u : Task)
    → find_first (has_id j) tasks ≡ none
    → find_first (has_id j) (tasks ++ (u ∷ [])) ≡ (if has_id j u then some u else none)
find_appended j [] u h = refl
find_appended j (t ∷ ts) u h = elim (Bool-cases (has_id j t)) [
  | inl k ↦ cc (rw k at h)
  | inr k ↦ rw k (find_appended j ts u (rw k at h))
]

free_lock : (io : Io) → io.creates ≡ true → (new_lock_file io none).1 ≡ true
unfolding new_lock_file
free_lock io c = rw c

-- The two cases of such a change.
abbrev pub ChangesOrMisses : Disk → String → (Task → Task) → Disk × Result (Unit {0}) → Type 0
ChangesOrMisses d id change (d', result) =
    ((task_at d id ≡ none) × (result ≡ err (not_found id)) × (d'.tasks ≡ d.tasks))
    ⊎ ((t : Task) × (task_at d id ≡ some t)
        × (result ≡ ok tt)
        × (task_at d' id ≡ some (change t))
        × ((j : String) → id ≢ j → task_at d' j ≡ task_at d j))

either :
    (io : Io) (d : Disk) (id : String) (change : Task → Task) (r : Disk × Result (Unit {0}))
    → Changes io d id change r
    → ChangesOrMisses d id change r
either io d id change r c = elim (Option-cases (task_at d id)) [
  | inl e ↦ let (r, kept) = c.missing e in inl (e, r, kept)
  | inr (t, e) ↦ let (r, found, others) = c.changed t e in inr (t, e, r, found, others)
]

-- Where the lock is taken and the file can be read and written, Start, Complete, Fail and
-- Retry fail with "not found" if no task has the id. Otherwise Get by that id then finds the task
-- with the new status (and, after Fail and Retry, the new error) and the time of the call, and finds
-- under every other id what it found before.
pub updates-cases :
    (io : Io) (d : Disk) (id : String) (message : Option String)
    → Works io d
    → ChangesOrMisses d id (running io) (start io d id)
      × ChangesOrMisses d id (done io) (complete io d id)
      × ChangesOrMisses d id (failing io message) (fail io d id message)
      × ChangesOrMisses d id (waiting io) (retry io d id)
updates-cases io d id message works =
    let (s, c, f, r) = updates_lem io d id message works in
    (
      either io d id (running io) _ s,
      either io d id (done io) _ c,
      either io d id (failing io message) _ f,
      either io d id (waiting io) _ r,
    )

-- Add, where the lock and the file can be used and the lock file is gone after the call: a task that
-- passes the checks and whose id, given or new, is not in the queue is stored with its defaults, and
-- Get by the id returns just that. Where the id is in the queue Add fails and changes no task.
pub add-get :
    (v : Option (String → Bool)) (io later : Io) (d : Disk) (t : Task)
    → Works io d
    → io.releases ≡ true
    → later.creates ≡ true
    → later.loads ≡ true
    → add_error v t ≡ none
    → let u = with_defaults io t in
      let (d', result) = add v io d t in
      ((any (has_id u.id) d.tasks ≡ true)
        × (result ≡ err (duplicate_id u.id))
        × (d'.tasks ≡ d.tasks))
      ⊎ ((any (has_id u.id) d.tasks ≡ false) × (result ≡ ok tt) × ((get later d' u.id).1 ≡ ok u))
unfolding add get append_task with_defaults
add-get v io later d t (lock, loads, saves) releases creates reads c =
    let u = with_defaults io t in
    elim (Bool-cases (any (has_id u.id) d.tasks)) [
      | inl h ↦ inl (h, rw (lock, c, loads, h), rw (lock, c, loads, h))
      | inr h ↦
          let (finished, kept) =
            save_tasks-saved io.saves d.tasks io.drops_temp (d.tasks ++ (u ∷ [])) saves in
          inr (
            h,
            rw (lock, c, loads, h, finished),
            rw (
              lock,
              c,
              loads,
              h,
              releases,
              kept,
              free_lock later creates,
              reads,
              find_appended u.id d.tasks u (find_missing u.id d.tasks h),
              same_refl u.id,
            ),
          )
    ]
