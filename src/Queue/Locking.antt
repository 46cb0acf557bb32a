-- ===== src/Queue/Locking.antt =====
-- The lock around every operation, and what a failed operation leaves behind.
use scopepilot.Prelude.{
  ℕ, ◌<◌, ◌≡◌, refl, ap, ◌∙◌, ◌+◌, ◌*◌, ◌^◌, ◌↔◌, ◌⊎◌, inl, inr, String, Bool, true, false, List,
  Option, none, some, if◌then◌else◌, arith, Bool-cases, Option-cases, some_inj,
}
use scopepilot.Queue.{
  Task, Io, Disk, QueueError, Result, ok, err, Outcome, failed, answer, save, cannot_lock,
  new_lock_file, unlock, locked_call, loaded, with_lock, finish, add, list, get, next, start,
  complete, fail, retry, add_error, append_task, with_defaults, list_work, get_work, next_work,
  update_work, running, done, failing, waiting,
}
use scopepilot.TaskFile.Replacing.{save_tasks-Replaces}

-- The operations of the queue.
pub data Op : Type 0 where
  adds : Task → Op
  lists : String → Op
  gets : String → Op
  nexts : Op
  starts : String → Op
  completes : String → Op
  fails : String → Option String → Op
  retries : String → Op

-- What a caller sees of a result, whatever its type.
abbrev pub error_of : {A : Type 0} → Disk × Result A → Disk × Option QueueError
error_of (d, ok a) = (d, none)
error_of (d, err e) = (d, some e)

-- The disk after an operation, and its error.
unfoldable pub step : Option (String → Bool) → Io → Disk → Op → Disk × Option QueueError
step v io d (adds t) = error_of (add v io d t)
step v io d (lists status) = error_of (list io d status)
step v io d (gets id) = error_of (get io d id)
step v io d nexts = error_of (next io d)
step v io d (starts id) = error_of (start io d id)
step v io d (completes id) = error_of (complete io d id)
step v io d (fails id m) = error_of (fail io d id m)
step v io d (retries id) = error_of (retry io d id)

-- What one call may do to the disk.
pub record IsAtomic (io : Io) (d : Disk) (r : Disk × Option QueueError) : Type 0 where
  pub refused :
      (new_lock_file io d.lock).1 ≡ false
      → r ≡ (record d { lock = (new_lock_file io d.lock).0 }, some cannot_lock)
  pub released :
      (new_lock_file io d.lock).1 ≡ true → r.0.lock ≡ unlock io (new_lock_file io d.lock).0
  pub unchanged : (e : QueueError) → r.1 ≡ some e → r.0.tasks ≡ d.tasks

finish_released :
    {A : Type 0} (io : Io) (d : Disk) (held : Option ℕ) (o : Outcome A)
    → (finish io d held o).0.lock ≡ unlock io held
finish_released io d held (failed e) = refl
finish_released io d held (answer a) = refl
finish_released io d held (save tasks a) = refl

finish_unchanged :
    {A : Type 0} (io : Io) (d : Disk) (held : Option ℕ) (o : Outcome A) (e : QueueError)
    → (error_of (finish io d held o)).1 ≡ some e
    → (finish io d held o).0.tasks ≡ d.tasks
finish_unchanged io d held (failed e) x h = refl
finish_unchanged io d held (answer a) x h = cc
finish_unchanged io d held (save tasks a) x h =
    elim ((save_tasks-Replaces io.saves d.tasks io.drops_temp tasks).1) [
      | inl (finished, kept) ↦ cc (rw finished at h)
      | inr (failed_save, kept) ↦ kept
    ]

pub error_of_disk : {A : Type 0} (r : Disk × Result A) → (error_of r).0 ≡ r.0
error_of_disk (d, ok a) = refl
error_of_disk (d, err e) = refl

loaded_released :
    {A : Type 0} (io : Io) (d : Disk) (held : Option ℕ) (b : Bool) (o : Outcome A)
    → (loaded io d held b o).0.lock ≡ unlock io held
loaded_released io d held true o = finish_released io d held o
loaded_released io d held false o = refl

with_lock_released :
    {A : Type 0} (io : Io) (d : Disk) (held : Option ℕ) (got : Bool) (pre : Option QueueError)
    (o : Outcome A)
    → got ≡ true
    → (with_lock io d held got pre o).0.lock ≡ unlock io held
with_lock_released io d held false pre o h = cc
with_lock_released io d held true (some e) o h = refl
with_lock_released io d held true none o h = loaded_released io d held io.loads o

loaded_unchanged :
    {A : Type 0} (io : Io) (d : Disk) (held : Option ℕ) (b : Bool) (o : Outcome A) (e : QueueError)
    → (error_of (loaded io d held b o)).1 ≡ some e
    → (loaded io d held b o).0.tasks ≡ d.tasks
loaded_unchanged io d held true o e h = finish_unchanged io d held o e h
loaded_unchanged io d held false o e h = refl

with_lock_unchanged :
    {A : Type 0} (io : Io) (d : Disk) (held : Option ℕ) (got : Bool) (pre : Option QueueError)
    (o : Outcome A) (e : QueueError)
    → (error_of (with_lock io d held got pre o)).1 ≡ some e
    → (with_lock io d held got pre o).0.tasks ≡ d.tasks
with_lock_unchanged io d held false pre o e h = refl
with_lock_unchanged io d held true (some x) o e h = refl
with_lock_unchanged io d held true none o e h = loaded_unchanged io d held io.loads o e h

with_lock_refused :
    {A : Type 0} (io : Io) (d : Disk) (held : Option ℕ) (got : Bool) (pre : Option QueueError)
    (o : Outcome A)
    → got ≡ false
    → error_of (with_lock io d held got pre o) ≡ (record d { lock = held }, some cannot_lock)
with_lock_refused io d held false pre o h = refl
with_lock_refused io d held true pre o h = cc

locked_call-IsAtomic :
    {A : Type 0} (io : Io) (d : Disk) (pre : Option QueueError) (work : List Task → Outcome A)
    → IsAtomic io d (error_of (locked_call io d pre work))
locked_call-IsAtomic io d pre work = record {
  refused = with_lock_refused io d held got pre (work d.tasks);
  released =
      λ h. ap (λ (x : Disk). x.lock) disk ∙ with_lock_released io d held got pre (work d.tasks) h;
  unchanged = λ e h.
      ap (λ (x : Disk). x.tasks) disk ∙ with_lock_unchanged io d held got pre (work d.tasks) e h;
}
  where
    held : Option ℕ
    held = (new_lock_file io d.lock).0

    got : Bool
    got = (new_lock_file io d.lock).1

    disk : (error_of (locked_call io d pre work)).0 ≡ (locked_call io d pre work).0
    disk = error_of_disk (locked_call io d pre work)

pub step-IsAtomic :
    (v : Option (String → Bool)) (io : Io) (d : Disk) (op : Op) → IsAtomic io d (step v io d op)
unfolding step add list get next start complete fail retry
step-IsAtomic v io d (adds t) =
    locked_call-IsAtomic io d (add_error v t) (append_task (with_defaults io t))
step-IsAtomic v io d (lists status) = locked_call-IsAtomic io d none (list_work status)
step-IsAtomic v io d (gets id) = locked_call-IsAtomic io d none (get_work id)
step-IsAtomic v io d nexts = locked_call-IsAtomic io d none (next_work io)
step-IsAtomic v io d (starts id) = locked_call-IsAtomic io d none (update_work id (running io))
step-IsAtomic v io d (completes id) = locked_call-IsAtomic io d none (update_work id (done io))
step-IsAtomic v io d (fails id m) = locked_call-IsAtomic io d none (update_work id (failing io m))
step-IsAtomic v io d (retries id) = locked_call-IsAtomic io d none (update_work id (waiting io))

taken :
    (io : Io) (m : ℕ)
    → io.creates ≡ true
    → ((some m ≡ none)
        ⊎ ((k : ℕ) × (some m ≡ some k) × (k + 30 * 10 ^ 9 < io.now) × (io.clears ≡ true)))
    → (new_lock_file io (some m)).1 ≡ true
unfolding new_lock_file
taken io m c (inl e) = cc
taken io m c (inr (k, e, old, cleared)) =
    let same_time : m ≡ k = some_inj e in rw (c, cleared) (ground arith)

-- newLockFile takes the lock exactly when the file can be created and no lock file stands, or one
-- that was last changed more than 30 seconds ago and can be removed; a younger one is left as it is.
pub new_lock_file_lem :
    (io : Io) (lock : Option ℕ)
    → ((new_lock_file io lock).1 ≡ true) ↔ (
        (io.creates ≡ true)
        × ((lock ≡ none)
            ⊎ ((m : ℕ) × (lock ≡ some m) × (m + 30 * 10 ^ 9 < io.now) × (io.clears ≡ true))))
unfolding new_lock_file
new_lock_file_lem io none = ((λ h. (ground arith, inl refl)), (λ h. rw h.0))
new_lock_file_lem io (some m) =
    ((λ h. (ground arith, inr (m, refl, ground arith, ground arith))), λ h. taken io m h.0 h.1)

-- Every operation of the queue: where the lock cannot be taken it fails and changes nothing but the
-- lock file; where it is taken, the lock file is gone at the end, on every path, if os.Remove takes it
-- away, and else stays as the call made it; and the operation succeeds or leaves the tasks as they
-- were, be the error from a check, a failed load or a save that fails at any of its steps.
pub step-outcome :
    (v : Option (String → Bool)) (io : Io) (d : Disk) (op : Op)
    → let (held, got) = new_lock_file io d.lock in
      let (d', error) = step v io d op in
      ((got ≡ false) × (d' ≡ record d { lock = held }) × (error ≡ some cannot_lock))
      ⊎ ((got ≡ true)
          × (d'.lock ≡ (if io.releases then none else held))
          × ((error ≡ none) ⊎ (d'.tasks ≡ d.tasks)))
step-outcome v io d op = elim (Bool-cases (new_lock_file io d.lock).1) [
  | inr free ↦
      let r : step v io d op ≡ (record d { lock = (new_lock_file io d.lock).0 }, some cannot_lock) =
        atomic.refused free in
      inl (
        free,
        ap (λ (x : Disk × Option QueueError). x.0) r,
        ap (λ (x : Disk × Option QueueError). x.1) r,
      )
  | inl got ↦ elim (Option-cases (step v io d op).1) [
    | inl good ↦ inr (got, atomic.released got, inl good)
    | inr (e, bad) ↦ inr (got, atomic.released got, inr (atomic.unchanged e bad))
  ]
]
  where
    atomic : IsAtomic io d (step v io d op)
    atomic = step-IsAtomic v io d op
