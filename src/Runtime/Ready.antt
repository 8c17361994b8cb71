-- ===== src/Runtime/Ready.antt =====
-- src/runtime.rs, src/engine.rs and src/health.rs: what readiness says of a client.
use flo.Base.{
  ℕ, ◌≡◌, refl, ap, sym, ◌∙◌, Bool, true, false, Option, none, some, List, [], ◌∷◌, Str, Str_eq,
  codes, str_eq, str_eq_iff, member, any, arith, Outcome, ok, err, panic, inl, inr, Bool-cases,
  ◌>>=◌, if◌then◌else◌,
}
use flo.Topic.Grammar.{TopicError}
use flo.Topic.Pattern
use flo.Topic.Pattern.{Pattern}
use flo.Rules.Floats.{Floats}
use flo.Rules.Json.{Value}
use flo.Cli.Args.{Args}
use flo.Media.Device.{DeviceFiles}
use flo.Config.HotReload.{Shared}
use flo.Config.Bootstrap.{current}
use flo.Engine.Subscribe.{topics_of, subscribe_all, from_pattern, member-topics_of, Live}
use flo.Engine.Coverage.{is_mentioned, member-collect_all}
use flo.Engine.State.{EvalState, empty}
use flo.Engine.Run.{Engine, run_engine, zone_subscriptions, started}
use flo.Signaling.Messages.{Serde}
use flo.Health.Gate.{ReadyGate, is_ready, set_ready}
use flo.Health.Supervisor.{Exit, Fatal, subsystem_exited, await_shutdown}
use flo.Health.Tasks.{Task, task_of, ended, outcomes}
use flo.Runtime.Bootstrap.{Runtime}
use flo.Runtime.Supervise.{supervised, supervise}
use flo.Runtime.Subsystems.{World, engine_ended, gate_of, start_common_subsystems, run}

-- The topic is no pattern, or the session refuses it.
abbrev pub IsRefused : (Pattern → Bool) → Str → Type 0
IsRefused accepts t = (p : Pattern) → Pattern.try_new t ≡ ok p → accepts p ≡ false

-- The supervisor's result names this subsystem.
abbrev pub names : Str → Outcome Fatal (Unit {0}) → Bool
names name (err (subsystem_exited n exit)) = str_eq n name
names name _ = false

module _ (accepts : Pattern → Bool) where
  refused_lem :
      (t : Str) (ts : List Str)
      → member t ts ≡ true
      → IsRefused accepts t
      → (subscribe_all accepts ts).1 ≡ false
  unfolding subscribe_all member
  refused_lem t [] h refused = cc
  refused_lem t (u ∷ us) h refused =
      go (Pattern.try_new u) refl (subscribe_all accepts us) (refused_lem t us)
    where
      go :
          (p : Outcome TopicError Pattern)
          → Pattern.try_new u ≡ p
          → (rest : List Live × Bool) → (member t us ≡ true → IsRefused accepts t → rest.1 ≡ false)
          → (from_pattern accepts u p rest).1 ≡ false
      go (err e) found rest later = refl
      go panic found rest later = refl
      go (ok p) found rest later = elim (Bool-cases (str_eq u t)) [
        | inl same ↦
            let at_t : Pattern.try_new t ≡ ok p =
              ap Pattern.try_new (sym ((str_eq_iff u t).0 same)) ∙ found in
            ground (arith, refused p at_t)
        | inr other ↦ elim (Bool-cases (accepts p)) [
          | inl taken ↦ ground (arith, other, taken, later, h)
          | inr not_taken ↦ ground (arith, not_taken)
        ]
      ]

module _ {F : Floats} (to_vec : Value F → Option (List ℕ)) where
  abbrev pub at_start : EvalState F → Shared F → ReadyGate → Engine F
  at_start st active gate = record {
    st = st;
    live = [];
    current_topics = [];
    queue = [];
    active = active;
    changed = false;
    gate = gate;
  }

  ended_lem :
      (accepts : Pattern → Bool) (e : Engine F) (zones : Outcome (Unit {0}) Bool)
      (sub : List Live × Bool)
      → sub.1 ≡ false
      → (exit : Exit) × (task_of engine_ended
            (zones >>= λ z. ok (if z then started to_vec accepts e sub else none))
          ≡ some exit)
  ended_lem accepts e (ok true) (live, true) h = cc
  ended_lem accepts e (ok true) (live, false) h = (_, refl)
  ended_lem accepts e (ok false) sub h = (_, refl)
  ended_lem accepts e (err x) sub h = (_, refl)
  ended_lem accepts e panic sub h = (_, refl)

  gate_lem :
      (accepts : Pattern → Bool) (e : Engine F) (gate : ReadyGate) (zones : Outcome (Unit {0}) Bool)
      (sub : List Live × Bool)
      → (gate_of gate (zones >>= λ z. ok (if z then started to_vec accepts e sub else none))).ready
        ≡ true
  unfolding set_ready
  gate_lem accepts e gate (ok true) (live, true) = refl
  gate_lem accepts e gate (ok true) (live, false) = refl
  gate_lem accepts e gate (ok false) sub = refl
  gate_lem accepts e gate (err x) sub = refl
  gate_lem accepts e gate panic sub = refl

  -- An engine that is refused a topic of its rules does not come to its loop.
  engine_refused :
      (accepts : Pattern → Bool) (st : EvalState F) (active : Shared F) (gate : ReadyGate) (t : Str)
      → is_mentioned t active.rules.rules ≡ true
      → IsRefused accepts t
      → (exit : Exit) × (task_of engine_ended (run_engine to_vec accepts st active gate)
          ≡ some exit)
  unfolding run_engine
  engine_refused accepts st active gate t h refused =
      ended_lem accepts (at_start st active gate) (zone_subscriptions to_vec accepts) _ (
        refused_lem accepts t (topics_of active.rules)
          (member-topics_of t active.rules ∙ member-collect_all t active.rules.rules ∙ h) refused)

  engine_ready :
      (accepts : Pattern → Bool) (st : EvalState F) (active : Shared F) (gate : ReadyGate)
      → (gate_of gate (run_engine to_vec accepts st active gate)).ready ≡ true
  unfolding run_engine
  engine_ready accepts st active gate =
      gate_lem accepts (at_start st active gate) gate (zone_subscriptions to_vec accepts) _

  names_lem :
      (media : Bool) (health reload signaling : Task) (exit : Exit)
      → any (names (codes "rule engine")) (
          supervise media (record {
            health = health;
            reload = reload;
            engine = some exit;
            signaling = signaling;
          }))
        ≡ true
  unfolding supervise supervised outcomes ended await_shutdown str_eq
  names_lem media none none signaling exit = refl
  names_lem media none (some x) signaling exit = refl
  names_lem media (some x) none signaling exit = refl
  names_lem media (some x) (some y) signaling exit = refl

  -- Where the session refuses a topic of the rules, or the topic is no valid pattern: in every build
  -- the engine has ended and the supervisor may stop the client, naming it, and the gate says ready all
  -- the same.
  pub run-ready :
      (media : Bool) (world : World) (files : DeviceFiles) (serde : Serde F) (runtime : Runtime F)
      (args : Args) (env : Option Str) (t : Str)
      → is_mentioned t (current runtime.store).rules.rules ≡ true
      → IsRefused world.accepts t
      → (any (names (codes "rule engine")) (run to_vec media world files serde runtime args env).0
          ≡ true)
        × (is_ready (run to_vec media world files serde runtime args env).1 ≡ true)
  unfolding run start_common_subsystems is_ready
  run-ready media world files serde runtime args env t h refused =
      let (exit, e) =
        engine_refused world.accepts (empty F) (current runtime.store) runtime.health t h refused in
      (
        rw e (names_lem media _ _ _ exit),
        engine_ready world.accepts (empty F) (current runtime.store) runtime.health,
      )
