-- ===== src/Runtime/Subsystems.antt =====
-- src/runtime.rs: `start_common_subsystems` and `run`. What the session accepts, whether an address can
-- be bound, and zenoh's key expressions are parameters.
use flo.Base.{
  ℕ, Bool, Option, none, some, List, Str, codes, Outcome, ok, err, panic, expect, unwrap, ◌>>=◌,
  if◌then◌else◌,
}
use flo.Topic.Pattern
use flo.Topic.Pattern.{Pattern}
use flo.Topic.Builders.{rules_key}
use flo.Rules.Floats.{Floats}
use flo.Rules.Json.{Value}
use flo.Cli.Args.{Args, robot_id_or}
use flo.Media.Device.{DeviceFiles, DeviceValidationError, VideoDevice, from_path}
use flo.Media.Source.{SourceSpec, to_source_spec, spawn_video_peer}
use flo.Config.HotReload.{ActiveRules}
use flo.Config.Bootstrap.{current}
use flo.Engine.State.{empty}
use flo.Engine.Run.{Engine, run_engine}
use flo.Signaling.Messages.{Serde}
use flo.Health.Gate.{ReadyGate, set_ready}
use flo.Health.Supervisor.{returned, Fatal}
use flo.Health.Tasks.{Task, task_of, while_accepted}
use flo.Runtime.Bootstrap.{Runtime}
use flo.Runtime.Supervise.{SubsystemHandles, signal_task, supervise}

abbrev addr_or : Option Str → Str
addr_or none = codes "0.0.0.0:0"
addr_or (some addr) = addr

-- The health task, with the environment's FLO_HEALTH_ADDR: it serves where its address can be bound.
unfoldable pub health_task : (Str → Bool) → Option Str → Task
health_task binds env = while_accepted (binds (addr_or env))

-- `HotReload::run` up to its loop: whether the subscription is taken.
unfoldable pub hot_reload {ℓ} : {E : Type ℓ} → (Pattern → Bool) → Str → Outcome E Bool
unfolding Pattern.try_new
hot_reload accepts topic = do pattern ← expect (Pattern.try_new topic); ok (accepts pattern)

-- The client's hot reload likewise.
unfoldable pub client_reload {ℓ} :
    {E : Type ℓ} → (Str → Option Str) → (Pattern → Bool) → Str → Outcome E Bool
unfolding hot_reload rules_key
client_reload key_expr accepts robot_id = do
  key ← rules_key robot_id
  topic ← unwrap (key_expr key.text)
  hot_reload accepts topic

-- What a session and the machine allow; `signals` is whether the session has come back with what
-- `run_signaling` awaits.
pub record World : Type 0 where
  pub accepts : Pattern → Bool
  pub key_expr : Str → Option Str
  pub binds : Str → Bool
  pub health_addr : Option Str
  pub signals : Bool

abbrev device_source : Outcome DeviceValidationError VideoDevice → Option SourceSpec
device_source (ok device) = some (to_source_spec device)
device_source (err e) = none
device_source panic = none

-- The media build's source: the device that was asked for, where it is valid.
unfoldable pub source_of : DeviceFiles → Option Str → Option SourceSpec
unfolding from_path to_source_spec
source_of files none = none
source_of files (some path) = device_source (from_path files path)

abbrev pub engine_ended : {F : Floats} → Option (Engine F) → Task
engine_ended none = some returned
engine_ended (some e) = none

-- The gate is set when the engine says that it has subscribed; an engine that ends before drops its
-- sender, and the receiver's error is ignored.
abbrev pub gate_of : {F : Floats} → ReadyGate → Outcome (Unit {0}) (Option (Engine F)) → ReadyGate
gate_of gate (ok (some e)) = e.gate
gate_of gate (ok none) = set_ready gate
gate_of gate (err e) = set_ready gate
gate_of gate panic = set_ready gate

module _ {F : Floats} (to_vec : Value F → Option (List ℕ)) where
  -- The subsystems once each has been set up, and the gate that they share.
  unfoldable pub start_common_subsystems :
      World
      → DeviceFiles
      → Serde F
      → ActiveRules F
      → Str
      → Args
      → ReadyGate
      → SubsystemHandles × ReadyGate
  unfolding health_task client_reload run_engine current empty source_of signal_task set_ready
  start_common_subsystems world files serde store robot_id args gate =
      let engine = run_engine to_vec world.accepts (empty F) (current store) gate in
      (
        record {
          health = health_task world.binds world.health_addr;
          reload = task_of while_accepted (client_reload world.key_expr world.accepts robot_id);
          engine = task_of engine_ended engine;
          signaling = signal_task world.signals serde robot_id (source_of files args.video.device);
        },
        gate_of gate engine,
      )

  -- `run`, with the media feature or without: the results that it can come to once its subsystems are
  -- set up, none while it goes on; the gate; and the call of a peer that it starts, with the peer's id
  -- and the source. (Without the feature `spawn_video_peer` only logs.)
  unfoldable pub run :
      Bool
      → World
      → DeviceFiles
      → Serde F
      → Runtime F
      → Args
      → Option Str
      → List (Outcome Fatal (Unit {0})) × ReadyGate × Option (Str × Outcome Str SourceSpec)
  unfolding start_common_subsystems supervise robot_id_or spawn_video_peer
  run media world files serde runtime args env =
      let (handles, gate) =
        start_common_subsystems world files serde runtime.store (robot_id_or args.robot_id env) args
          runtime.health in
      (supervise media handles, gate, if media then spawn_video_peer files args else none)
