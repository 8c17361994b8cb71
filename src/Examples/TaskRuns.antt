-- ===== src/Examples/TaskRuns.antt =====
-- src/server.rs, src/runtime.rs and src/registry.rs: the theorems at a server and a client under way.
use flo.Base.{
  ◌≡◌, refl, ap, true, false, Option, none, some, List, [], ◌∷◌, Str, codes, any, All, Outcome, ok,
  err, ℕ, starts_with,
}
use flo.Rules.Model.{Rules}
use flo.Registration.Lease
use flo.Registration.Lease.{RegistrationLease, registered, state, new}
use flo.Registration.Protocol.{RegistrationRequest, register, RegistrationResponse, Codec}
use flo.Registration.Node
use flo.Health.Gate
use flo.Health.Gate.{is_ready}
use flo.Health.Supervisor.{returned}
use flo.Health.Tasks.{Names}
use flo.Media.Device.{DeviceFiles}
use flo.Runtime.Bootstrap.{Runtime}
use flo.Runtime.Subsystems
use flo.Runtime.Subsystems.{World}
use flo.Runtime.Ready.{names, run-ready}
use flo.Server.Tasks.{
  Running, supervised, start_tasks, Event, traffic, engine_exits, supervise, run,
}
use flo.Server.Unseen.{HasEnded, IsGoing, crash_unseen}
use flo.Server.Up.{start_tasks-up}
use flo.Server.Start.{Server}
use flo.Engine.Subscribe.{topics_of}
use flo.Examples.Data.{floats, client_config, server_config, plain_codec, estop, zone_edge}
use flo.Examples.SignalData.{three_messages}
use flo.Examples.NodeData.{client_args}

abbrev requests : Codec RegistrationRequest
requests = plain_codec RegistrationRequest

abbrev responses : Codec RegistrationResponse
responses = plain_codec RegistrationResponse

abbrev world : World
world = record {
  accepts = λ p. true;
  key_expr = some;
  binds = λ addr. true;
  health_addr = none;
  signals = true;
}

abbrev empty_rules : Rules floats
empty_rules = record { rules = [] }

abbrev site : Server floats
site = record {
  store = record {
    inner = record { ptr = 1; rules = empty_rules };
    watch = record { ptr = 1; rules = empty_rules };
  };
  lease = new server_config;
  health = Gate.new;
}

abbrev server : Running
server = start_tasks three_messages.to_vec world site

up :
    All IsGoing (supervised server.tasks)
    × (supervise server ≡ [])
    × (server.node ≡ record { lease = site.lease; registering = true; deregistering = true })
    × (server.monitoring ≡ true)
unfolding topics_of flo.Config.Bootstrap.current
up = start_tasks-up three_messages.to_vec world site (λ p. refl) (λ addr. refl) refl tt

abbrev later : List (Event RegistrationRequest)
later =
    traffic (Node.registration (register (codes "r1") client_config)) ∷ engine_exits returned ∷ []

crash_unseen_example :
    All (Names (HasEnded later)) (
      supervise (
        run requests responses server
          (traffic (Node.registration (register (codes "a/b") client_config)) ∷ later)))
    × ((j : Str)
        → state
            (run requests responses server (
              traffic (Node.registration (register (codes "a/b") client_config))
              ∷ later)).node.lease
            j
          ≡ registered
        → state (Lease.register server.node.lease (codes "a/b") client_config).0 j ≡ registered)
crash_unseen_example =
    crash_unseen requests responses server (codes "a/b") client_config
      (register (codes "a/b") client_config) later up.0 (ap (λ n. n.registering) up.2) refl refl

-- A rule on a topic outside the convention.
abbrev stray : Rules floats
stray = record {
  rules =
      record {
        name = codes "stray";
        when = record { all = record zone_edge { topic = codes "door" } ∷ []; any = [] };
        actions = estop ∷ [];
      }
      ∷ [];
}

abbrev runtime : Runtime floats
runtime = record {
  transport = record { tokens = [] };
  store = record {
    inner = record { ptr = 1; rules = stray };
    watch = record { ptr = 1; rules = stray };
  };
  health = Gate.new;
}

abbrev devices : DeviceFiles
devices = record {
  exists = λ path. false;
  is_char_device = λ path. ok false;
  file_name = λ path. none;
}

run-ready_example :
    (any
        (names (codes "rule engine"))
        (Subsystems.run three_messages.to_vec false world devices three_messages runtime client_args
          none).0
      ≡ true)
    × (is_ready
          (Subsystems.run three_messages.to_vec false world devices three_messages runtime
            client_args none).1
        ≡ true)
unfolding flo.Topic.Pattern.try_new flo.Base.contains_str flo.Base.ends_with
    flo.Topic.Grammar.is_valid_pattern flo.Base.split flo.Topic.Grammar.canonicalize flo.Base.str_eq
    flo.Topic.Grammar.matches_one_of flo.Config.Bootstrap.current
run-ready_example =
    run-ready three_messages.to_vec false world devices three_messages runtime client_args none
      (codes "door") refl (λ p h. cc)
