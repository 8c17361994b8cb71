-- ===== src/Server/Up.antt =====
-- src/server.rs and src/registration/transport.rs: when a server is up, with its tasks under way.
use flo.Base.{
  ℕ, ◌≡◌, refl, ap, Bool, true, false, Option, none, some, List, [], ◌∷◌, Str, codes, All, Outcome,
  ok, err, ◌>>=◌, if◌then◌else◌, arith, map,
}
use flo.Topic.Pattern
use flo.Topic.Pattern.{Pattern}
use flo.Topic.Builders.{
  registration_key, deregistration_key, liveliness_pattern, ruleset_pub_pattern,
  zone_entered_pattern, zone_cleared_pattern,
}
use flo.Rules.Floats.{Floats}
use flo.Rules.Json.{Value}
use flo.Config.Bootstrap.{current}
use flo.Config.HotReload.{Shared}
use flo.Engine.Subscribe.{topics_of, subscribe_all, Live}
use flo.Engine.State.{EvalState, empty}
use flo.Engine.Run.{Engine, run_engine, zone_subscriptions, started}
use flo.Health.Gate.{ReadyGate}
use flo.Health.Tasks.{Task, task_of, while_accepted, ended, outcomes, name_of}
use flo.Health.Supervisor.{await_shutdown}
use flo.Runtime.Subsystems.{World, engine_ended}
use flo.Runtime.Ready.{at_start}
use flo.Server.Start.{Server}
use flo.Server.Tasks.{
  supervised, supervise, start_tasks, run_registration_handler, run_heartbeat_monitor, fleet_reload,
  waiting, node_of, is_true,
}
use flo.Server.Unseen.{IsGoing}

abbrev pub IsTopic : Str → Type 0
IsTopic t = (p : Pattern) × (Pattern.try_new t ≡ ok p)

module _ (accepts : Pattern → Bool) (all : (p : Pattern) → accepts p ≡ true) where
  subscribed : (ts : List Str) → All IsTopic ts → (subscribe_all accepts ts).1 ≡ true
  unfolding subscribe_all
  subscribed [] h = refl
  subscribed (t ∷ ts) h =
      let (p, e) = h.0 in let taken = all p in let later = subscribed ts h.1 in rw (e, taken) later

  handler_up :
      run_registration_handler {E = Unit {0}} accepts
      ≡ ok (record { registering = true; deregistering = true; waits = true })
  unfolding run_registration_handler flo.Base.str_eq flo.Base.contains_str flo.Base.starts_with
      flo.Base.ends_with flo.Base.split flo.Topic.Grammar.canonicalize
      flo.Topic.Grammar.is_valid_pattern flo.Topic.Grammar.matches_one_of
  handler_up =
      let registration = all (record { text = registration_key }) in
      let deregistration = all (record { text = deregistration_key }) in
      rw (registration, deregistration) refl

  monitor_up : run_heartbeat_monitor {E = Unit {0}} accepts ≡ ok true
  unfolding run_heartbeat_monitor flo.Base.str_eq flo.Base.contains_str flo.Base.starts_with
      flo.Base.ends_with flo.Base.split flo.Topic.Grammar.canonicalize
      flo.Topic.Grammar.is_valid_pattern
  monitor_up = ap ok (all (record { text = liveliness_pattern }))

  reload_up :
      (key_expr : Str → Option Str)
      → key_expr ruleset_pub_pattern ≡ some ruleset_pub_pattern
      → fleet_reload {E = Unit {0}} key_expr accepts ≡ ok true
  unfolding fleet_reload flo.Runtime.Subsystems.hot_reload flo.Base.str_eq flo.Base.contains_str
      flo.Base.starts_with flo.Base.ends_with flo.Base.split flo.Topic.Grammar.canonicalize
      flo.Topic.Grammar.is_valid_pattern
  reload_up key_expr key = rw key (ap ok (all (record { text = ruleset_pub_pattern })))

  module _ {F : Floats} (to_vec : Value F → Option (List ℕ)) where
    zones_up : zone_subscriptions to_vec accepts {E = Unit {0}} ≡ ok true
    unfolding zone_subscriptions flo.Base.str_eq flo.Base.contains_str flo.Base.starts_with
        flo.Base.ends_with flo.Base.split flo.Topic.Grammar.canonicalize
        flo.Topic.Grammar.is_valid_pattern
    zones_up =
        let entered = all (record { text = zone_entered_pattern }) in
        let cleared = all (record { text = zone_cleared_pattern }) in rw (entered, cleared) refl

    goes_on :
        (e : Engine F) {zones : Outcome (Unit {0}) Bool} (sub : List Live × Bool)
        → zones ≡ ok true
        → sub.1 ≡ true
        → task_of engine_ended
            (zones >>= λ z. ok (if z then started to_vec accepts e sub else none))
          ≡ none
    goes_on e (live, true) h k = rw h refl
    goes_on e (live, false) h k = cc

    engine_up :
        (st : EvalState F) (active : Shared F) (gate : ReadyGate)
        → All IsTopic (topics_of active.rules)
        → task_of engine_ended (run_engine to_vec accepts st active gate) ≡ none
    unfolding run_engine
    engine_up st active gate h =
        goes_on (at_start to_vec st active gate) _ zones_up (subscribed (topics_of active.rules) h)

ended_none : (tasks : List (Str × Task)) → All IsGoing tasks → ended tasks ≡ []
unfolding ended
ended_none [] h = refl
ended_none ((name, none) ∷ tasks) h = ended_none tasks h.1
ended_none ((name, some exit) ∷ tasks) h = cc

waiting_lem : (tasks : List (Str × Task)) → All IsGoing tasks → outcomes tasks ≡ []
unfolding outcomes
waiting_lem tasks h = ap (map (await_shutdown (map name_of tasks))) (ended_none tasks h)

-- Where the session takes every subscription, zenoh the key of the rulesets, and the health server its
-- address, and where every topic of the rules is a valid pattern: once they have been set up, the five
-- tasks of the server all go on, so that the supervisor comes to no result, and the loops of the
-- registry and of the heartbeat all run.
pub start_tasks-up :
    {F : Floats} (to_vec : Value F → Option (List ℕ)) (world : World) (server : Server F)
    → ((p : Pattern) → world.accepts p ≡ true)
    → ((addr : Str) → world.binds addr ≡ true)
    → world.key_expr ruleset_pub_pattern ≡ some ruleset_pub_pattern
    → All IsTopic (topics_of (current server.store).rules)
    → All IsGoing (supervised (start_tasks to_vec world server).tasks)
      × (supervise (start_tasks to_vec world server) ≡ [])
      × ((start_tasks to_vec world server).node
          ≡ record { lease = server.lease; registering = true; deregistering = true })
      × ((start_tasks to_vec world server).monitoring ≡ true)
unfolding supervised supervise start_tasks flo.Runtime.Subsystems.health_task
start_tasks-up to_vec world server accepts binds key topics =
    let going : All IsGoing (supervised (start_tasks to_vec world server).tasks) = (
      rw binds refl,
      (
        engine_up world.accepts accepts to_vec (empty _) (current server.store) server.health
            topics,
        (
          ap (task_of while_accepted) (reload_up world.accepts accepts world.key_expr key),
          (
            ap (task_of waiting) (handler_up world.accepts accepts),
            (ap (task_of while_accepted) (monitor_up world.accepts accepts), tt),
          ),
        ),
      ),
    ) in
    (
      going,
      waiting_lem (supervised (start_tasks to_vec world server).tasks) going,
      ap (node_of server.lease) (handler_up world.accepts accepts),
      ap is_true (monitor_up world.accepts accepts),
    )
