-- ===== src/Queue/Invariant.antt =====
-- What every queue file that the operations have made holds.
use mathlib.Core.List.{map-append}
use scopepilot.Prelude.{
  ℕ, ◌≡◌, refl, sym, ◌∙◌, subst, inl, inr, String, Bool, true, false, List, [], ◌∷◌, ◌++◌, map,
  Option, none, some, arith, any, any-append, any-map, All, All-append, same, same_sym, string_eq,
  Bool-cases, Option-cases, find_first,
}
use scopepilot.Number.{pos}
use scopepilot.Queue.{
  Task, Io, Disk, QueueError, Outcome, failed, answer, save, ltz, accepts, is_task_type, add_error,
  with_defaults, append_task, has_id, add, list, get, next, start, complete, fail, retry,
  locked_call, loaded, with_lock, finish, new_lock_file, list_work, get_work, next_work, claim,
  pick, update_work, mark, running, done, failing, waiting,
}
use scopepilot.Queue.Keys.{Key, key, KeepsKey, mark-keys, set-keys}
use scopepilot.Queue.Order.{IsBest, picked}
use scopepilot.TaskFile.Replacing.{save_tasks-Replaces}
use scopepilot.Queue.Locking.{
  Op, adds, lists, gets, nexts, starts, completes, fails, retries, error_of, error_of_disk, step,
}

-- No two tasks have one id.
abbrev pub IsDistinct : List Key → Type 0
IsDistinct [] = Unit
IsDistinct (k ∷ ks) = (any (λ j. same j.id k.id) ks ≡ false) × IsDistinct ks

module _ (v : Option (String → Bool)) where
  -- The target was accepted, the type is one of the four, and the priority is from 1 to 5.
  pub record IsChecked (k : Key) : Type 0 where
    pub accepted : accepts v k.target ≡ true
    pub typed : is_task_type k.type ≡ true
    pub not_below : ltz k.priority (pos 1) ≡ false
    pub not_above : ltz (pos 5) k.priority ≡ false

  pub record IsSound (tasks : List Task) : Type 0 where
    pub distinct : IsDistinct (map key tasks)
    pub checked : All IsChecked (map key tasks)

  same_keys : (ts us : List Task) → map key us ≡ map key ts → IsSound ts → IsSound us
  same_keys ts us e s = record { distinct = rw e s.distinct; checked = rw e s.checked }

  add-IsChecked : (t : Task) → add_error v t ≡ none → IsChecked (key t)
  unfolding add_error
  add-IsChecked t h = ground arith

  IsDistinct-append :
      (ks : List Key) (k : Key)
      → IsDistinct ks
      → any (λ j. same j.id k.id) ks ≡ false
      → IsDistinct (ks ++ (k ∷ []))
  IsDistinct-append [] k d n = (refl, tt)
  IsDistinct-append (j ∷ ks) k d n = elim (Bool-cases (same j.id k.id)) [
    | inl s ↦ cc (rw s at n)
    | inr s ↦ (
      any-append (λ i. same i.id j.id) ks (k ∷ []) ∙ rw (d.0, same_sym k.id j.id, s),
      IsDistinct-append ks k d.1 (rw s at n),
    )
  ]

  -- The tasks that an outcome saves are sound.
  Saves : {A : Type 0} → Outcome A → Type 0
  Saves (failed e) = Unit
  Saves (answer a) = Unit
  Saves (save tasks a) = IsSound tasks

  append-Saves :
      (io : Io) (t : Task) (tasks : List Task)
      → add_error v t ≡ none
      → IsSound tasks
      → Saves (append_task (with_defaults io t) tasks)
  unfolding Saves append_task with_defaults
  append-Saves io t tasks c s = elim (Bool-cases (any (has_id (with_defaults io t).id) tasks)) [
    | inl h ↦ rw h tt
    | inr h ↦
        let fit = add-IsChecked t c in
        let u = with_defaults io t in
        rw h (record {
          distinct = rw (map-append key tasks (u ∷ [])) (
              IsDistinct-append (map key tasks) (key u) s.distinct
                (any-map (λ j. same j.id u.id) key tasks ∙ h));
          checked = rw (map-append key tasks (u ∷ [])) (
              All-append IsChecked (map key tasks) (key u ∷ []) s.checked (
                record {
                  accepted = fit.accepted;
                  typed = fit.typed;
                  not_below = fit.not_below;
                  not_above = fit.not_above;
                },
                tt,
              ));
        })
  ]

  update-Saves :
      (id : String) (change : Task → Task) (tasks : List Task)
      → KeepsKey change
      → IsSound tasks
      → Saves (update_work id change tasks)
  unfolding Saves
  update-Saves id change tasks keeps s = elim (Option-cases (mark id change tasks)) [
    | inl e ↦ rw e tt
    | inr (us, e) ↦ rw e (same_keys tasks us (mark-keys id change tasks us keeps e) s)
  ]

  get-Saves : (id : String) (tasks : List Task) → Saves (get_work id tasks)
  unfolding Saves
  get-Saves id tasks = elim (Option-cases (find_first (has_id id) tasks)) [
    | inl e ↦ rw e tt
    | inr (t, e) ↦ rw e tt
  ]

  list-Saves : (status : String) (tasks : List Task) → Saves (list_work status tasks)
  unfolding Saves
  list-Saves status tasks = tt

  next-Saves : (io : Io) (tasks : List Task) → IsSound tasks → Saves (next_work io tasks)
  unfolding Saves next_work IsBest
  next-Saves io tasks s = go (pick 0 tasks none) (picked tasks)
    where
      go : (best : Option (ℕ × Task)) → IsBest tasks best → Saves (claim io tasks best)
      go none b = tt
      go (some (i, t)) b = same_keys tasks _ (set-keys tasks i t (running io t) b.0 refl) s

  finish-IsSound :
      {A : Type 0} (io : Io) (d : Disk) (held : Option ℕ) (o : Outcome A)
      → IsSound d.tasks
      → Saves o
      → IsSound (finish io d held o).0.tasks
  unfolding Saves
  finish-IsSound io d held (failed e) s w = s
  finish-IsSound io d held (answer a) s w = s
  finish-IsSound io d held (save tasks a) s w =
      elim ((save_tasks-Replaces io.saves d.tasks io.drops_temp tasks).1) [
        | inl (finished, kept) ↦ subst IsSound (sym kept) w
        | inr (failed_save, kept) ↦ subst IsSound (sym kept) s
      ]

  loaded-IsSound :
      {A : Type 0} (io : Io) (d : Disk) (held : Option ℕ) (b : Bool) (o : Outcome A)
      → IsSound d.tasks
      → Saves o
      → IsSound (loaded io d held b o).0.tasks
  loaded-IsSound io d held true o s w = finish-IsSound io d held o s w
  loaded-IsSound io d held false o s w = s

  with_lock-IsSound :
      {A : Type 0} (io : Io) (d : Disk) (held : Option ℕ) (got : Bool) (pre : Option QueueError)
      (o : Outcome A)
      → IsSound d.tasks
      → (pre ≡ none → Saves o)
      → IsSound (with_lock io d held got pre o).0.tasks
  with_lock-IsSound io d held false pre o s w = s
  with_lock-IsSound io d held true (some e) o s w = s
  with_lock-IsSound io d held true none o s w = loaded-IsSound io d held io.loads o s (w refl)

  locked_call-IsSound :
      {A : Type 0} (io : Io) (d : Disk) (pre : Option QueueError) (work : List Task → Outcome A)
      → IsSound d.tasks
      → (pre ≡ none → Saves (work d.tasks))
      → IsSound (error_of (locked_call io d pre work)).0.tasks
  locked_call-IsSound io d pre work s w =
      subst (λ (x : Disk). IsSound x.tasks) (sym (error_of_disk (locked_call io d pre work)))
        (with_lock-IsSound io d (new_lock_file io d.lock).0 (new_lock_file io d.lock).1 pre
          (work d.tasks) s w)

  -- Every operation, whether it fails or not, keeps the queue file sound: its ids are distinct, and
  -- every task in it passed the scope validator and has one of the four types and a priority from
  -- 1 to 5.
  pub step-IsSound :
      (io : Io) (d : Disk) (op : Op) → IsSound d.tasks → IsSound (step v io d op).0.tasks
  unfolding step add list get next start complete fail retry
  step-IsSound io d (adds t) s =
      locked_call-IsSound io d (add_error v t) (append_task (with_defaults io t)) s
        (λ p. append-Saves io t d.tasks p s)
  step-IsSound io d (lists status) s =
      locked_call-IsSound io d none (list_work status) s (λ p. list-Saves status d.tasks)
  step-IsSound io d (gets id) s =
      locked_call-IsSound io d none (get_work id) s (λ p. get-Saves id d.tasks)
  step-IsSound io d nexts s =
      locked_call-IsSound io d none (next_work io) s (λ p. next-Saves io d.tasks s)
  step-IsSound io d (starts id) s =
      locked_call-IsSound io d none (update_work id (running io)) s
        (λ p. update-Saves id (running io) d.tasks (λ t. refl) s)
  step-IsSound io d (completes id) s =
      locked_call-IsSound io d none (update_work id (done io)) s
        (λ p. update-Saves id (done io) d.tasks (λ t. refl) s)
  step-IsSound io d (fails id m) s =
      locked_call-IsSound io d none (update_work id (failing io m)) s
        (λ p. update-Saves id (failing io m) d.tasks (λ t. refl) s)
  step-IsSound io d (retries id) s =
      locked_call-IsSound io d none (update_work id (waiting io)) s
        (λ p. update-Saves id (waiting io) d.tasks (λ t. refl) s)

  -- The queue after calls, each with its own surroundings.
  pub run : Disk → List (Io × Op) → Disk
  run d [] = d
  run d ((io, op) ∷ calls) = run (step v io d op).0 calls

  run-IsSound_from :
      (d : Disk) (calls : List (Io × Op)) → IsSound d.tasks → IsSound (run d calls).tasks
  unfolding run
  run-IsSound_from d [] s = s
  run-IsSound_from d ((io, op) ∷ calls) s =
      run-IsSound_from (step v io d op).0 calls (step-IsSound io d op s)

  -- Whatever calls are made on a queue that starts with no file, in whatever surroundings, the ids in
  -- the queue file are distinct, and every task in it passed the scope validator and has one of the
  -- four types and a priority from 1 to 5.
  pub run-IsSound :
      (lock : Option ℕ) (calls : List (Io × Op))
      → IsSound (run (record { tasks = []; lock = lock }) calls).tasks
  run-IsSound lock calls = run-IsSound_from _ calls (record { distinct = tt; checked = tt })
