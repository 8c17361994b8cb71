-- ===== src/Server/Tasks.antt =====
-- src/server.rs and src/registration/transport.rs: the server's five supervised tasks, and the loops that
-- they spawn and do not watch. What the session accepts and what can be bound are parameters.
use flo.Base.{
  ℕ, Bool, true, false, Option, none, some, List, [], ◌∷◌, Str, codes, Outcome, ok, expect, unwrap,
  ◌>>=◌, if◌then◌else◌,
}
use flo.Topic.Pattern
use flo.Topic.Pattern.{Pattern}
use flo.Topic.Builders.{
  registration_key, deregistration_key, liveliness_pattern, ruleset_pub_pattern,
}
use flo.Rules.Floats.{Floats}
use flo.Rules.Json.{Value}
use flo.Config.Bootstrap.{current}
use flo.Engine.State.{empty}
use flo.Engine.Run.{run_engine}
use flo.Registration.Lease.{RegistrationLease}
use flo.Registration.Protocol.{RegistrationRequest, RegistrationResponse, Codec, Effect, silent}
use flo.Registration.Node
use flo.Registration.Node.{Node}
use flo.Health.Gate.{ReadyGate}
use flo.Health.Supervisor.{Exit, Fatal}
use flo.Health.Tasks.{Task, task_of, while_accepted, outcomes}
use flo.Runtime.Subsystems.{World, health_task, hot_reload, engine_ended, gate_of}
use flo.Server.Start.{Server}

-- What the registration handler has set up: its loops, as far as it came, and whether it waits.
pub record Handler : Type 0 where
  pub registering : Bool
  pub deregistering : Bool
  pub waits : Bool

-- Once both loops are spawned, the handler joins them and then waits for ever, however they have ended.
-- A refused subscription ends it; a loop that is spawned goes on.
unfoldable pub run_registration_handler {ℓ} : {E : Type ℓ} → (Pattern → Bool) → Outcome E Handler
unfolding Pattern.try_new
run_registration_handler accepts = do
  pattern ← expect (Pattern.try_new registration_key)
  dereg_pattern ← expect (Pattern.try_new deregistration_key)
  ok (
      if accepts pattern
      then (if accepts dereg_pattern
          then record { registering = true; deregistering = true; waits = true }
          else record { registering = true; deregistering = false; waits = false })
      else record { registering = false; deregistering = false; waits = false })

-- The heartbeat monitor: whether its loop is spawned. It waits for ever then.
unfoldable pub run_heartbeat_monitor {ℓ} : {E : Type ℓ} → (Pattern → Bool) → Outcome E Bool
unfolding Pattern.try_new
run_heartbeat_monitor accepts = do
  pattern ← expect (Pattern.try_new liveliness_pattern)
  ok (accepts pattern)

-- `run_hot_reload_with_registry` up to its loop: whether the subscription is taken.
unfoldable pub fleet_reload {ℓ} :
    {E : Type ℓ} → (Str → Option Str) → (Pattern → Bool) → Outcome E Bool
unfolding hot_reload
fleet_reload key_expr accepts = do
  topic ← unwrap (key_expr ruleset_pub_pattern)
  hot_reload accepts topic

pub record Tasks : Type 0 where
  pub health : Task
  pub engine : Task
  pub reload : Task
  pub registration : Task
  pub heartbeat : Task

-- The tasks as `run_server` names them.
unfoldable pub supervised : Tasks → List (Str × Task)
supervised tasks =
    (codes "health", tasks.health)
    ∷ (codes "rule engine", tasks.engine)
    ∷ (codes "hot-reload", tasks.reload)
    ∷ (codes "registration", tasks.registration)
    ∷ (codes "heartbeat", tasks.heartbeat)
    ∷ []

-- A server under way: its tasks, the registry with the two loops on it, whether the heartbeat loop is
-- spawned, and the gate.
pub record Running : Type 0 where
  pub tasks : Tasks
  pub node : Node
  pub monitoring : Bool
  pub gate : ReadyGate

abbrev pub waiting : Handler → Task
waiting handler = while_accepted handler.waits

abbrev pub node_of : RegistrationLease → Outcome (Unit {0}) Handler → Node
node_of lease (ok handler) = record {
  lease = lease;
  registering = handler.registering;
  deregistering = handler.deregistering;
}
node_of lease _ = record { lease = lease; registering = false; deregistering = false }

abbrev pub is_true : Outcome (Unit {0}) Bool → Bool
is_true (ok b) = b
is_true _ = false

-- `run_server` from its first task on, once each has been set up.
unfoldable pub start_tasks : {F : Floats} → (Value F → Option (List ℕ)) → World → Server F → Running
unfolding health_task fleet_reload run_registration_handler run_heartbeat_monitor run_engine current
    empty
start_tasks to_vec world server =
    let engine = run_engine to_vec world.accepts (empty _) (current server.store) server.health in
    let heartbeat = run_heartbeat_monitor world.accepts in
    let handler = run_registration_handler world.accepts in
    record {
      tasks = record {
        health = health_task world.binds world.health_addr;
        engine = task_of engine_ended engine;
        reload = task_of while_accepted (fleet_reload world.key_expr world.accepts);
        registration = task_of waiting handler;
        heartbeat = task_of while_accepted heartbeat;
      };
      node = node_of server.lease handler;
      monitoring = is_true heartbeat;
      gate = gate_of server.health engine;
    }

-- The results that the supervisor can come to now; none while it waits.
unfoldable pub supervise : Running → List (Outcome Fatal (Unit {0}))
unfolding supervised outcomes
supervise r = outcomes (supervised r.tasks)

-- A sample for one of the loops of the registry, or the end of a task that can end.
pub data Event (B : Type 0) : Type 0 where
  traffic : Node.Event B → Event B
  health_exits engine_exits reload_exits : Exit → Event B

-- A task ends once.
abbrev pub ending : Task → Exit → Task
ending none exit = some exit
ending (some first) exit = some first

module _ (requests : Codec RegistrationRequest) (responses : Codec RegistrationResponse) where
  unfoldable pub step : Running → Event requests.Bytes → Running × Effect responses.Bytes
  unfolding Node.step
  step r (traffic (Node.liveliness key kind)) =
      let (node, effect) = Node.step requests responses r.node (Node.liveliness key kind) in
      if r.monitoring then (record r { node = node }, effect) else (r, silent)
  step r (traffic ev) =
      let (node, effect) = Node.step requests responses r.node ev in
      (record r { node = node }, effect)
  step r (health_exits exit) =
      (record r { tasks = record r.tasks { health = ending r.tasks.health exit } }, silent)
  step r (engine_exits exit) =
      (record r { tasks = record r.tasks { engine = ending r.tasks.engine exit } }, silent)
  step r (reload_exits exit) =
      (record r { tasks = record r.tasks { reload = ending r.tasks.reload exit } }, silent)

  abbrev pub run : Running → List (Event requests.Bytes) → Running
  run r [] = r
  run r (ev ∷ evs) = run (step r ev).0 evs
