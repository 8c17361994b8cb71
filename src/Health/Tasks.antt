-- ===== src/Health/Tasks.antt =====
-- src/health.rs, src/runtime.rs and src/server.rs: the tasks under the supervisor. A task is what it has
-- come to: it goes on, or it has ended.
use flo.Base.{
  Bool, Option, none, some, List, [], ◌∷◌, Str, codes, Outcome, ok, err, panic, map, All,
  if◌then◌else◌,
}
use flo.Health.Supervisor.{
  Exit, returned, failed, Joined, exited, Fatal, subsystem_exited, await_shutdown,
}

-- `none` while the task goes on.
abbrev pub Task : Type 0
Task = Option Exit

-- A task that logs the error of the future it runs and ends with it; a panic fails its join.
abbrev pub task_of {ℓ} : {A : Type ℓ} → (A → Task) → Outcome (Unit {0}) A → Task
task_of on (ok a) = on a
task_of on (err e) = some returned
task_of on panic = some (failed (codes "panic"))

-- A future that waits for ever once it is set up, and comes to an error where a subscription is refused.
abbrev pub while_accepted : Bool → Task
while_accepted accepted = if accepted then none else some returned

-- Whichever has ended, the supervisor may see first.
unfoldable pub ended : List (Str × Task) → List Joined
ended [] = []
ended ((name, none) ∷ tasks) = ended tasks
ended ((name, some exit) ∷ tasks) = exited name exit ∷ ended tasks

abbrev pub name_of : Str × Task → Str
name_of task = task.0

-- The results that the supervisor can come to now; none while it waits.
unfoldable pub outcomes : List (Str × Task) → List (Outcome Fatal (Unit {0}))
unfolding ended await_shutdown
outcomes tasks = map (await_shutdown (map name_of tasks)) (ended tasks)

-- A property of the end that a result of the supervisor names.
abbrev pub Names : (Str → Exit → Type 0) → Outcome Fatal (Unit {0}) → Type 0
Names P (err (subsystem_exited name exit)) = P name exit
Names P _ = ⊥

-- A property of a task's end, where it has ended.
abbrev pub WhenEnded : (Str → Exit → Type 0) → Str × Task → Type 0
WhenEnded P (name, none) = Unit
WhenEnded P (name, some exit) = P name exit

-- The supervisor stops only for the end of a task, which it names.
pub outcomes-Names :
    (P : Str → Exit → Type 0) (tasks : List (Str × Task))
    → All (WhenEnded P) tasks
    → All (Names P) (outcomes tasks)
unfolding outcomes ended await_shutdown
outcomes-Names P [] h = tt
outcomes-Names P (task ∷ tasks) h = go (task ∷ tasks) h
  where
    go :
        (ts : List (Str × Task))
        → All (WhenEnded P) ts
        → All (Names P) (map (await_shutdown (name_of task ∷ map name_of tasks)) (ended ts))
    go [] h = tt
    go ((name, none) ∷ ts) h = go ts h.1
    go ((name, some exit) ∷ ts) h = (h.0, go ts h.1)
