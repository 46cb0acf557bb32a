-- ===== src/TaskFile.antt =====
-- saveTasks of internal/queue/queue.go: a temporary file is written and renamed over the queue file.
-- A file is the list of its lines; the text of a line and a line that a failed write leaves behind in
-- the temporary file are not represented. os.Rename takes the place of the queue file at once, or
-- fails and leaves it.
pub mod Replacing
use scopepilot.Prelude.{
  ℕ, zero, suc, Bool, true, false, List, [], ◌∷◌, ◌++◌, Option, none, some, if◌then◌else◌,
}

-- The calls of saveTasks that can fail; `write` is the encoding and the writing of one task.
pub data SaveStep (A : Type 0) : Type 0 where
  make_dir create_temp sync close rename : SaveStep A
  write : ℕ → A → SaveStep A

-- The queue file, and the temporary file if there is one.
pub record Files (A : Type 0) : Type 0 where
  pub kept : List A
  pub temp : Option (List A)

abbrev pub written : {A : Type 0} → Option (List A) → A → Option (List A)
written none line = none
written (some lines) line = some (lines ++ (line ∷ []))

abbrev pub renamed : {A : Type 0} → Option (List A) → Files A → Files A
renamed none f = f
renamed (some lines) f = record { kept = lines; temp = none }

-- What a step that succeeds does to the files.
abbrev pub perform : {A : Type 0} → SaveStep A → Files A → Files A
perform make_dir f = f
perform create_temp f = record f { temp = some [] }
perform (write i line) f = record f { temp = written f.temp line }
perform sync f = f
perform close f = f
perform rename f = renamed f.temp f

-- The loop over the tasks, from index `i` on, and what follows it.
abbrev pub write_steps : {A : Type 0} → ℕ → List A → List (SaveStep A)
write_steps i [] = sync ∷ close ∷ rename ∷ []
write_steps i (line ∷ lines) = write i line ∷ write_steps (suc i) lines

abbrev pub save_steps : {A : Type 0} → List A → List (SaveStep A)
save_steps lines = make_dir ∷ create_temp ∷ write_steps 0 lines

-- The files after each step that succeeded, the files at the end, and whether no step failed.
pub record Progress (A : Type 0) : Type 0 where
  pub passed : List (Files A)
  pub files : Files A
  pub finished : Bool

-- The steps, up to the first that fails.
unfoldable pub run_steps :
    {A : Type 0} → (SaveStep A → Bool) → Files A → List (SaveStep A) → Progress A
run_steps works f [] = record { passed = []; files = f; finished = true }
run_steps works f (s ∷ steps) =
    let rest = run_steps works (perform s f) steps in
    if works s
    then record rest { passed = perform s f ∷ rest.passed }
    else record { passed = []; files = f; finished = false }

-- The deferred removal of the temporary file. After the rename there is none.
abbrev pub clean : {A : Type 0} → Bool → Files A → Files A
clean removes f = record f { temp = if removes then none else f.temp }

-- saveTasks: `works` is whether a step succeeds, and `removes` whether the deferred removal does.
unfoldable pub save_tasks : {A : Type 0} → (SaveStep A → Bool) → Bool → List A → List A → Progress A
unfolding run_steps
save_tasks works removes old lines =
    let p = run_steps works (record { kept = old; temp = none }) (save_steps lines) in
    record p { files = clean removes p.files }
