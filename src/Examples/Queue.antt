-- ===== src/Examples/Queue.antt =====
-- A queue of two tasks, for internal/queue/queue.go.
use scopepilot.Prelude.{
  ℕ, ◌*◌, ◌^◌, ◌≡◌, refl, ◌≢◌, ◌⊎◌, String, Bool, zero, suc, true, false, [], ◌∷◌, none, some, any,
  set, All,
}
use scopepilot.Number.{pos}
use scopepilot.TaskFile.{SaveStep, make_dir, create_temp, sync, close, rename, write, save_tasks}
use scopepilot.TaskFile.Replacing.{Replaces, save_tasks-Replaces}
use scopepilot.Queue.{
  Task, Io, Disk, ok, err, new_lock_file, cannot_lock, duplicate_id, has_id, with_defaults, add,
  get, next, start, complete, fail, retry, running, done, failing, waiting, add_error,
}
use scopepilot.Queue.Locking.{starts, adds, nexts, step, step-outcome}
use scopepilot.Queue.Order.{IsNext, next_lem}
use scopepilot.Queue.Invariant.{IsSound, run, run-IsSound}
use scopepilot.Queue.Updates.{ChangesOrMisses, updates-cases, add-get}

abbrev surroundings : Io
surroundings = record {
  now = 100 * 10 ^ 9;
  creates = true;
  clears = true;
  releases = true;
  loads = true;
  saves = λ s. true;
  drops_temp = true;
  fresh_id = "new";
}

abbrev task : String → ℕ → Task
task id p = record {
  id = id;
  target = "app.example.com";
  type = "recon";
  priority = pos p;
  status = "pending";
  dependencies = [];
  created_at = 1;
  updated_at = 1;
  error = "";
}

-- The lock file is 90 seconds old.
abbrev disk : Disk
disk = record { tasks = task "a" 2 ∷ task "b" 5 ∷ []; lock = some (10 * 10 ^ 9) }

next_lem_example :
    let (d', result) = next surroundings disk in
    ((result ≡ ok none) × (d'.tasks ≡ disk.tasks) × All (λ u. u.status ≢ "pending") disk.tasks)
    ⊎ ((i : ℕ) × (t : Task) × IsNext disk.tasks i t
        × (result ≡ ok (some (running surroundings t)))
        × (d'.tasks ≡ set disk.tasks i (running surroundings t)))
unfolding new_lock_file
next_lem_example = next_lem surroundings disk refl refl (λ s. refl)

step-outcome_example :
    let (held, got) = new_lock_file surroundings disk.lock in
    let (d', error) = step none surroundings disk (starts "b") in
    ((got ≡ false) × (d' ≡ record disk { lock = held }) × (error ≡ some cannot_lock))
    ⊎ ((got ≡ true) × (d'.lock ≡ none) × ((error ≡ none) ⊎ (d'.tasks ≡ disk.tasks)))
step-outcome_example = step-outcome none surroundings disk (starts "b")

run-IsSound_example :
    IsSound none
      (run none
        (record { tasks = []; lock = none })
        ((surroundings, adds (task "a" 2)) ∷ (surroundings, nexts) ∷ [])).tasks
run-IsSound_example =
    run-IsSound none none ((surroundings, adds (task "a" 2)) ∷ (surroundings, nexts) ∷ [])

updates-cases_example :
    ChangesOrMisses disk "b" (running surroundings) (start surroundings disk "b")
    × ChangesOrMisses disk "b" (done surroundings) (complete surroundings disk "b")
    × ChangesOrMisses disk "b"
        (failing surroundings (some "timeout"))
        (fail surroundings disk "b" (some "timeout"))
    × ChangesOrMisses disk "b" (waiting surroundings) (retry surroundings disk "b")
unfolding new_lock_file
updates-cases_example = updates-cases surroundings disk "b" (some "timeout") (refl, refl, λ s. refl)

add-get_example :
    let u = with_defaults surroundings (task "c" 3) in
    let (d', result) = add none surroundings disk (task "c" 3) in
    ((any (has_id u.id) disk.tasks ≡ true)
      × (result ≡ err (duplicate_id u.id))
      × (d'.tasks ≡ disk.tasks))
    ⊎ ((any (has_id u.id) disk.tasks ≡ false)
        × (result ≡ ok tt)
        × ((get surroundings d' u.id).1 ≡ ok u))
unfolding new_lock_file add_error
add-get_example =
    add-get none surroundings surroundings disk (task "c" 3) (refl, refl, λ s. refl) refl refl refl
      refl

-- A disk that fills up while the second task is written.
abbrev full : SaveStep Task → Bool
full (write (suc zero) t) = false
full (write (suc (suc i)) t) = true
full (write zero t) = true
full make_dir = true
full create_temp = true
full sync = true
full close = true
full rename = true

save_tasks-Replaces_example :
    Replaces disk.tasks
      (task "a" 1 ∷ task "c" 3 ∷ [])
      (save_tasks full true disk.tasks (task "a" 1 ∷ task "c" 3 ∷ []))
save_tasks-Replaces_example =
    save_tasks-Replaces full disk.tasks true (task "a" 1 ∷ task "c" 3 ∷ [])

fails_whole :
    (save_tasks full true disk.tasks (task "a" 1 ∷ task "c" 3 ∷ [])).files
    ≡ record { kept = disk.tasks; temp = none }
unfolding save_tasks
fails_whole = refl
