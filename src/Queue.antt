-- ===== src/Queue.antt =====
-- internal/queue/queue.go: the persistent task queue behind an advisory lock file.
-- The JSON-lines file is the list of tasks that loadTasks reads from it; an `Io` says what the clock,
-- the file system and the encoder do during one call.
pub mod Keys
pub mod Order
pub mod Invariant
pub mod Locking
pub mod Updates
use scopepilot.Prelude.{
  ℕ, zero, suc, ◌+◌, ◌-◌, ◌*◌, ◌^◌, ◌≤◌, ◌<◌, ◌≡◌, refl, String, Bool, true, false, ◌&&◌, ◌||◌, not,
  List, [], ◌∷◌, ◌++◌, Option, none, some, arith, leb, ltb, if◌then◌else◌, same, string_eq, any,
  keep, find_first, set, get_elem?,
}
use scopepilot.Number.{ℤ, pos, negsuc}
use scopepilot.TaskFile.{SaveStep, save_tasks}

-- a < b on Go's int
abbrev pub ltz : ℤ → ℤ → Bool
ltz (pos a) (pos b) = ltb a b
ltz (pos a) (negsuc b) = false
ltz (negsuc a) (pos b) = true
ltz (negsuc a) (negsuc b) = ltb b a

abbrev pub eqz : ℤ → ℤ → Bool
eqz a b = not (ltz a b) && not (ltz b a)

pub record Task : Type 0 where
  pub id : String
  pub target : String
  pub type : String
  pub priority : ℤ
  pub status : String
  pub dependencies : List String
  pub created_at : ℕ
  pub updated_at : ℕ
  pub error : String

pub data QueueError : Type 0 where
  cannot_lock load_failed save_failed : QueueError
  out_of_scope invalid_type duplicate_id not_found : String → QueueError
  invalid_priority : ℤ → QueueError

pub data Result (A : Type 0) : Type 0 where
  ok : A → Result A
  err : QueueError → Result A

-- The queue file, and the time of the lock file's last change, if there is one.
pub record Disk : Type 0 where
  pub tasks : List Task
  pub lock : Option ℕ

-- One call's surroundings. `creates` is whether O_EXCL|O_CREATE succeeds where no lock file stands;
-- `clears` and `releases` are whether os.Remove takes a stale lock file away, and the call's own;
-- `loads` whether the queue file can be read and decoded, where a missing one is empty; `saves` which
-- steps of saveTasks succeed, and `drops_temp` whether its temporary file can be removed.
pub record Io : Type 0 where
  pub now : ℕ
  pub creates : Bool
  pub clears : Bool
  pub releases : Bool
  pub loads : Bool
  pub saves : SaveStep Task → Bool
  pub drops_temp : Bool
  pub fresh_id : String  -- uuid.New()

-- 30 * time.Second
abbrev pub stale_after : ℕ
stale_after = 30 * 10 ^ 9

-- newLockFile: a lock file that is there is taken away if it is too old. `none` is the error; the
-- first part is the lock file afterwards.
unfoldable pub new_lock_file : Io → Option ℕ → Option ℕ × Bool
new_lock_file io none = if io.creates then (some io.now, true) else (none, false)
new_lock_file io (some modified) =
    if ltb stale_after (io.now - modified)
    then if not io.clears
      then (some modified, false)
      else if io.creates
      then (some io.now, true)
      else (none, false)
    else (some modified, false)

-- The work of a call on the loaded tasks: an error, a result without a save, or tasks to save.
pub data Outcome (A : Type 0) : Type 0 where
  failed : QueueError → Outcome A
  answer : A → Outcome A
  save : List Task → A → Outcome A

-- The deferred unlock: the lock file afterwards.
abbrev pub unlock : Io → Option ℕ → Option ℕ
unlock io held = if io.releases then none else held

-- The end of a call that holds the lock.
abbrev pub finish : {A : Type 0} → Io → Disk → Option ℕ → Outcome A → Disk × Result A
finish io d held (failed e) = (record d { lock = unlock io held }, err e)
finish io d held (answer a) = (record d { lock = unlock io held }, ok a)
finish io d held (save tasks a) =
    let saving = save_tasks io.saves io.drops_temp d.tasks tasks in
    (
      record { tasks = saving.files.kept; lock = unlock io held },
      if saving.finished then ok a else err save_failed,
    )

-- A call from loadTasks on, which succeeds or not.
abbrev pub loaded : {A : Type 0} → Io → Disk → Option ℕ → Bool → Outcome A → Disk × Result A
loaded io d held true o = finish io d held o
loaded io d held false o = (record d { lock = unlock io held }, err load_failed)

-- A call once the lock is taken or not.
abbrev pub with_lock :
    {A : Type 0} → Io → Disk → Option ℕ → Bool → Option QueueError → Outcome A → Disk × Result A
with_lock io d held false pre o = (record d { lock = held }, err cannot_lock)
with_lock io d held true (some e) o = (record d { lock = unlock io held }, err e)
with_lock io d held true none o = loaded io d held io.loads o

-- lock, loadTasks, the work, saveTasks, and the deferred unlock. Where the code checks before it
-- loads, `pre` is the error that it finds.
abbrev pub locked_call :
    {A : Type 0} → Io → Disk → Option QueueError → (List Task → Outcome A) → Disk × Result A
locked_call io d pre work =
    let (held, got) = new_lock_file io d.lock in with_lock io d held got pre (work d.tasks)

abbrev pub is_task_type : String → Bool
is_task_type t = same t "recon" || same t "vuln" || same t "payload" || same t "analyze"

abbrev pub accepts : Option (String → Bool) → String → Bool
accepts none target = true
accepts (some valid) target = valid target

-- The checks at the head of Add. `validator` is scopeValidator, or none where it is nil.
unfoldable pub add_error : Option (String → Bool) → Task → Option QueueError
add_error validator task =
    if not (accepts validator task.target)
    then some (out_of_scope task.target)
    else if not (is_task_type task.type)
    then some (invalid_type task.type)
    else if ltz task.priority (pos 1) || ltz (pos 5) task.priority
    then some (invalid_priority task.priority)
    else none

abbrev pub or_default : String → String → String
or_default s d = if same s "" then d else s

-- The task with the defaults of Add.
unfoldable pub with_defaults : Io → Task → Task
with_defaults io task = record task {
  id = or_default task.id io.fresh_id;
  status = or_default task.status "pending";
  created_at = io.now;
  updated_at = io.now;
}

abbrev pub has_id : String → Task → Bool
has_id id t = same t.id id

unfoldable pub append_task : Task → List Task → Outcome (Unit {0})
append_task task tasks =
    if any (has_id task.id) tasks
    then failed (duplicate_id task.id)
    else save (tasks ++ (task ∷ [])) tt

-- Add
unfoldable pub add : Option (String → Bool) → Io → Disk → Task → Disk × Result (Unit {0})
add validator io d task =
    locked_call io d (add_error validator task) (append_task (with_defaults io task))

abbrev pub list_work : String → List Task → Outcome (List Task)
list_work status tasks =
    answer (if same status "" then tasks else keep (λ t. same t.status status) tasks)

-- List
unfoldable pub list : Io → Disk → String → Disk × Result (List Task)
list io d status = locked_call io d none (list_work status)

abbrev pub or_missing : String → Option Task → Outcome Task
or_missing id none = failed (not_found id)
or_missing id (some t) = answer t

abbrev pub get_work : String → List Task → Outcome Task
get_work id tasks = or_missing id (find_first (has_id id) tasks)

-- Get
unfoldable pub get : Io → Disk → String → Disk × Result Task
get io d id = locked_call io d none (get_work id)

-- The test by which the loop of Next moves on to a later task.
unfoldable pub beats : Task → Task → Bool
beats t best =
    if ltz best.priority t.priority
    then true
    else eqz t.priority best.priority && ltb t.created_at best.created_at

abbrev pub is_pending : Task → Bool
is_pending t = same t.status "pending"

-- One step of the loop of Next, at the task with index i.
abbrev pub consider : ℕ → Task → Option (ℕ × Task) → Option (ℕ × Task)
consider i t none = some (i, t)
consider i t (some (j, best)) = if beats t best then some (i, t) else some (j, best)

-- The loop of Next: `best` is bestIdx with its task, none for -1.
unfoldable pub pick : ℕ → List Task → Option (ℕ × Task) → Option (ℕ × Task)
pick i [] best = best
pick i (t ∷ ts) best = pick (suc i) ts (if is_pending t then consider i t best else best)

abbrev pub running : Io → Task → Task
running io t = record t { status = "running"; updated_at = io.now }

abbrev pub claim : Io → List Task → Option (ℕ × Task) → Outcome (Option Task)
claim io tasks none = answer none
claim io tasks (some (i, t)) = save (set tasks i (running io t)) (some (running io t))

unfoldable pub next_work : Io → List Task → Outcome (Option Task)
unfolding pick
next_work io tasks = claim io tasks (pick 0 tasks none)

-- Next
unfoldable pub next : Io → Disk → Disk × Result (Option Task)
unfolding next_work
next io d = locked_call io d none (next_work io)

-- The loops of Start, Complete, Fail and Retry change the first task with the id and stop.
unfoldable pub mark : String → (Task → Task) → List Task → Option (List Task)
mark id change [] = none
mark id change (t ∷ ts) =
    let rest = mark id change ts in
    if has_id id t
    then some (change t ∷ ts)
    else elim rest [ none ↦ none | some us ↦ some (t ∷ us) ]

abbrev pub saved_or_missing : String → Option (List Task) → Outcome (Unit {0})
saved_or_missing id none = failed (not_found id)
saved_or_missing id (some tasks) = save tasks tt

abbrev pub update_work : String → (Task → Task) → List Task → Outcome (Unit {0})
update_work id change tasks = saved_or_missing id (mark id change tasks)

abbrev pub update : Io → Disk → String → (Task → Task) → Disk × Result (Unit {0})
update io d id change = locked_call io d none (update_work id change)

-- Start
unfoldable pub start : Io → Disk → String → Disk × Result (Unit {0})
start io d id = update io d id (running io)

abbrev pub done : Io → Task → Task
done io t = record t { status = "done"; updated_at = io.now }

-- Complete
unfoldable pub complete : Io → Disk → String → Disk × Result (Unit {0})
complete io d id = update io d id (done io)

abbrev pub or_kept : Option String → String → String
or_kept none e = e
or_kept (some m) e = m

abbrev pub failing : Io → Option String → Task → Task
failing io message t = record t {
  status = "failed";
  error = or_kept message t.error;
  updated_at = io.now;
}

-- Fail. `message` is taskErr.Error(), or none where taskErr is nil.
unfoldable pub fail : Io → Disk → String → Option String → Disk × Result (Unit {0})
fail io d id message = update io d id (failing io message)

abbrev pub waiting : Io → Task → Task
waiting io t = record t { status = "pending"; error = ""; updated_at = io.now }

-- Retry
unfoldable pub retry : Io → Disk → String → Disk × Result (Unit {0})
retry io d id = update io d id (waiting io)
