-- ===== src/Runtime/Supervise.antt =====
-- src/runtime.rs: the supervision of a client.
use flo.Base.{Bool, Option, none, some, List, [], ◌∷◌, Str, codes, Outcome, if◌then◌else◌}
use flo.Rules.Floats.{Floats}
use flo.Media.Source.{SourceSpec}
use flo.Health.Supervisor.{returned, Fatal}
use flo.Health.Tasks.{Task, task_of, outcomes}
use flo.Signaling.Messages.{Serde}
use flo.Signaling.Mesh.{run_signaling}

pub record SubsystemHandles : Type 0 where
  pub health : Task
  pub reload : Task
  pub engine : Task
  pub signaling : Task

-- The signaling task: it ends once `run_signaling` returns, be it with an error, which is logged.
-- `returns` is whether the put and the subscriptions that are awaited there have come back, granted or
-- refused; the topics are built either way.
unfoldable pub signal_task : {F : Floats} → Bool → Serde F → Str → Option SourceSpec → Task
signal_task returns serde robot_id source =
    task_of (λ signaling. if returns then some returned else none)
      (run_signaling serde robot_id source)

-- The handles as `supervise` names them, with the media feature or without.
unfoldable pub supervised : Bool → SubsystemHandles → List (Str × Task)
supervised media handles =
    (codes "health", handles.health)
    ∷ (codes "hot-reload", handles.reload)
    ∷ (codes "rule engine", handles.engine)
    ∷ (if media then (codes "signaling", handles.signaling) ∷ [] else [])

-- The results that `supervise` can come to now; none while it waits.
unfoldable pub supervise : Bool → SubsystemHandles → List (Outcome Fatal (Unit {0}))
unfolding supervised outcomes
supervise media handles = outcomes (supervised media handles)
