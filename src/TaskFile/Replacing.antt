-- ===== src/TaskFile/Replacing.antt =====
-- saveTasks replaces the queue file as a whole or not at all.
use scopepilot.Prelude.{
  ℕ, suc, ◌≡◌, refl, sym, ap, ◌⊎◌, inl, inr, Bool, true, false, List, [], ◌∷◌, ◌++◌, none, some,
  All, Bool-cases, subst,
}
use scopepilot.TaskFile.{
  SaveStep, make_dir, create_temp, sync, close, rename, write, Files, perform, write_steps,
  Progress, run_steps, save_tasks,
}

module _ {A : Type 0} where
  append_nil : (xs : List A) → (xs ++ []) ≡ xs
  append_nil [] = refl
  append_nil (x ∷ xs) = ap (λ (ys : List A). x ∷ ys) (append_nil xs)

  append_assoc : (xs ys zs : List A) → ((xs ++ ys) ++ zs) ≡ (xs ++ (ys ++ zs))
  append_assoc [] ys zs = refl
  append_assoc (x ∷ xs) ys zs = ap (λ (us : List A). x ∷ us) (append_assoc xs ys zs)

  -- The queue file has the old lines or all the new ones.
  abbrev pub OldOrNew : List A → List A → Files A → Type 0
  OldOrNew old new f = (f.kept ≡ old) ⊎ (f.kept ≡ new)

  -- How a run of the steps can go.
  abbrev pub Replaces : List A → List A → Progress A → Type 0
  Replaces old new p =
      All (OldOrNew old new) p.passed
      × (((p.finished ≡ true) × (p.files.kept ≡ new))
          ⊎ ((p.finished ≡ false) × (p.files.kept ≡ old)))

  module _ (works : SaveStep A → Bool) (old : List A) where
    with_step :
        (new : List A) (s : SaveStep A) (f : Files A) (steps : List (SaveStep A))
        → f.kept ≡ old
        → OldOrNew old new (perform s f)
        → Replaces old new (run_steps works (perform s f) steps)
        → Replaces old new (run_steps works f (s ∷ steps))
    unfolding run_steps
    with_step new s f steps before after r = elim (Bool-cases (works s)) [
      | inl h ↦ rw h ((after, r.0), r.1)
      | inr h ↦ rw h (tt, inr (refl, before))
    ]

    abbrev writing : List A → Files A
    writing lines = record { kept = old; temp = some lines }

    write_steps-Replaces :
        (i : ℕ) (lines rest : List A)
        → Replaces old (lines ++ rest) (run_steps works (writing lines) (write_steps i rest))
    unfolding run_steps
    write_steps-Replaces i lines [] =
        with_step (lines ++ []) sync (writing lines) (close ∷ rename ∷ []) refl (inl refl) (
          with_step (lines ++ []) close (writing lines) (rename ∷ []) refl (inl refl) (
            with_step (lines ++ []) rename (writing lines) [] refl (inr (sym (append_nil lines)))
              (tt, inl (refl, sym (append_nil lines)))))
    write_steps-Replaces i lines (line ∷ rest) =
        with_step (lines ++ (line ∷ rest)) (write i line) (writing lines) (write_steps (suc i) rest)
          refl (inl refl)
          (subst
            (λ new.
              Replaces old new
                (run_steps works (writing (lines ++ (line ∷ []))) (write_steps (suc i) rest)))
            (append_assoc lines (line ∷ []) rest)
            (write_steps-Replaces (suc i) (lines ++ (line ∷ [])) rest))

    -- After each step of saveTasks, and so wherever the process is stopped between two of them, the
    -- queue file has the old tasks or all the new ones; it has the new ones at the end if saveTasks
    -- succeeds, and the old ones if it fails, be it at the directory, the temporary file, a task, or
    -- the rename.
    pub save_tasks-Replaces :
        (removes : Bool) (new : List A) → Replaces old new (save_tasks works removes old new)
    unfolding save_tasks
    save_tasks-Replaces removes new =
        with_step new make_dir start (create_temp ∷ write_steps 0 new) refl (inl refl) (
          with_step new create_temp start (write_steps 0 new) refl (inl refl)
            (write_steps-Replaces 0 [] new))
      where
        start : Files A
        start = record { kept = old; temp = none }

    run_steps-finished :
        (f : Files A) (steps : List (SaveStep A))
        → ((s : SaveStep A) → works s ≡ true)
        → (run_steps works f steps).finished ≡ true
    unfolding run_steps
    run_steps-finished f [] all = refl
    run_steps-finished f (s ∷ steps) all = rw (all s) (run_steps-finished (perform s f) steps all)

    -- Where every step succeeds, saveTasks succeeds and the queue file has the new tasks.
    pub save_tasks-saved :
        (removes : Bool) (new : List A)
        → ((s : SaveStep A) → works s ≡ true)
        → ((save_tasks works removes old new).finished ≡ true)
          × ((save_tasks works removes old new).files.kept ≡ new)
    unfolding save_tasks
    save_tasks-saved removes new all =
        let done =
          run_steps-finished (record { kept = old; temp = none })
            (make_dir ∷ create_temp ∷ write_steps 0 new) all in
        elim ((save_tasks-Replaces removes new).1) [
          | inl (e, kept) ↦ (done, kept)
          | inr (e, kept) ↦ cc
        ]
