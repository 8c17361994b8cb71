-- ===== src/Engine/Run.antt =====
-- src/engine.rs: `EvalState::run`, one arm of its `select!` at a time, with the loops that feed it. The
-- clock, what the session accepts, and JSON's bytes are parameters.
use flo.Base.{
  ℕ, Bool, true, false, Option, none, some, List, [], ◌∷◌, ◌++◌, Str, length, ltb, if◌then◌else◌,
  Outcome, expect, ◌>>=◌, zero, suc, ok, err, panic, str_eq, ◌&&◌,
}
use flo.Rules.Floats.{Floats}
use flo.Rules.Json.{Value}
use flo.Rules.Model.{Action, Rules}
use flo.Topic.Name
use flo.Topic.Name.{Topic}
use flo.Topic.Pattern
use flo.Topic.Pattern.{Pattern}
use flo.Topic.Builders.{zone_entered_pattern, zone_cleared_pattern}
use flo.Transport.Wire.{action, Put, publish}
use flo.Config.HotReload.{Shared}
use flo.Health.Gate.{ReadyGate, count_eval, set_ready}
use flo.Engine.State.{EvalState, ingest}
use flo.Engine.Tick.{tick_with_arc}
use flo.Engine.Subscribe.{Live, subscribe_all, topics_of}

-- The engine while it runs: its state, the loops that feed the channel (a loop goes on after its
-- handle is dropped), the topics of the last successful subscription, the channel's contents, the
-- active ruleset, whether a change of it has not been seen, and the gate.
pub record Engine (F : Floats) : Type 0 where
  pub st : EvalState F
  pub live : List Live
  pub current_topics : List Str
  pub queue : List (Str × Value F)
  pub active : Shared F
  pub changed : Bool
  pub gate : ReadyGate

abbrev pub capacity : ℕ
capacity = 256

abbrev pub same_topics : List Str → List Str → Bool
same_topics [] [] = true
same_topics (s ∷ ss) (t ∷ ts) = str_eq s t && same_topics ss ts
same_topics _ _ = false

abbrev pub puts_of : Option Put → List Put
puts_of none = []
puts_of (some put) = put ∷ []

module _ {F : Floats} (to_vec : Value F → Option (List ℕ)) (accepts : Pattern → Bool) where
  -- What `fire_action` publishes; nothing where the topic is invalid or the payload is refused.
  abbrev pub published : {X : Type 0} → Action F → Outcome X Topic → List Put
  published a (ok topic) = puts_of (publish to_vec topic (action a.qos a.payload))
  published a (err e) = []
  published a panic = []

  unfoldable pub fire_action : Action F → List Put
  unfolding Name.try_new publish
  fire_action a = published a (Name.try_new a.topic)

  abbrev pub fire_all : List (Action F) → List Put
  fire_all [] = []
  fire_all (a ∷ actions) = fire_action a ++ fire_all actions

  -- `try_send` into the bounded channel: a sample that finds it full is lost.
  unfoldable pub try_send : Engine F → Str → Value F → Engine F
  try_send e topic payload =
      if ltb (length e.queue) capacity
      then record e { queue = e.queue ++ (topic, payload) ∷ [] }
      else e

  abbrev pub subscribed : Engine F → List Str → List Live × Bool → Engine F
  subscribed e topics (started, done) = record e {
    live = e.live ++ started;
    current_topics = if done then topics else e.current_topics;
  }

  -- `subscribe_to_topics`
  unfoldable pub subscribe_to_topics : Engine F → Rules F → Engine F
  unfolding subscribe_all topics_of
  subscribe_to_topics e rules =
      subscribed e (topics_of rules) (subscribe_all accepts (topics_of rules))

  -- The arm of a change: it rebuilds where the topics differ. Dropping the old handles detaches
  -- their loops and ends none.
  unfoldable pub rebuild : Engine F → Engine F
  unfolding subscribe_to_topics
  rebuild e =
      let seen : Engine F = record e { changed = false } in
      if same_topics (topics_of e.active.rules) e.current_topics
      then seen
      else subscribe_to_topics seen e.active.rules

  -- The arm of a tick.
  unfoldable pub on_tick : ℕ → Engine F → Engine F × List Put
  unfolding tick_with_arc fire_action count_eval
  on_tick now e =
      let (st, actions) = tick_with_arc now e.st e.active.ptr e.active.rules in
      (record e { st = st; gate = count_eval e.gate }, fire_all actions)

  -- The arm of a sample.
  unfoldable pub on_sample : ℕ → Engine F → Engine F
  unfolding ingest
  on_sample now e = elim e.queue [
    | [] ↦ e
    | (topic, payload) ∷ queue ↦ record e { st = ingest now e.st topic payload; queue = queue }
  ]

  abbrev pub feed : Engine F → List Live → ℕ → Value F → Engine F
  feed e [] i payload = e
  feed e (l ∷ ls) zero payload = try_send e l.topic payload
  feed e (l ∷ ls) (suc i) payload = feed e ls i payload

  pub data Event : Type 0 where
    ticked : ℕ → Event
    received : ℕ → Event
    change_seen : Event
    -- The `i`-th of the loops receives a sample and passes it on under its topic.
    fed : ℕ → Value F → Event
    -- A loop of the zone events passes a sample on under the sample's own key.
    zone_fed : Str → Value F → Event
    swapped : Shared F → Event

  unfoldable pub step : Engine F → Event → Engine F × List Put
  unfolding on_tick on_sample rebuild try_send
  step e (ticked now) = on_tick now e
  step e (received now) = (on_sample now e, [])
  step e change_seen = (if e.changed then rebuild e else e, [])
  step e (fed i payload) = (feed e e.live i payload, [])
  step e (zone_fed key payload) = (try_send e key payload, [])
  step e (swapped rules) = (record e { active = rules; changed = true }, [])

  -- The engine after a sequence of events, and what it has published, in order.
  abbrev pub run : Engine F → List Event → Engine F × List Put
  run e [] = (e, [])
  run e (v ∷ vs) = let (e', puts) = step e v in let (e'', later) = run e' vs in (e'', puts ++ later)

  -- Whether both subscriptions to the zone events are taken.
  unfoldable pub zone_subscriptions {ℓ} : {E : Type ℓ} → Outcome E Bool
  unfolding Pattern.try_new
  zone_subscriptions = do
    entered ← expect (Pattern.try_new zone_entered_pattern)
    cleared ← expect (Pattern.try_new zone_cleared_pattern)
    ok (accepts entered && accepts cleared)

  abbrev pub started : Engine F → List Live × Bool → Option (Engine F)
  started e (live, false) = none
  started e (live, true) = some (record e {
    live = live;
    current_topics = topics_of e.active.rules;
    st = record e.st { last_rules = some e.active.ptr };
    gate = set_ready e.gate;
  })

  -- `run_engine` and `run` up to the loop: `none` where a subscription fails, which ends the engine.
  unfoldable pub run_engine {ℓ} :
      {E : Type ℓ} → EvalState F → Shared F → ReadyGate → Outcome E (Option (Engine F))
  unfolding subscribe_all topics_of set_ready zone_subscriptions
  run_engine st active gate = do
    zones ← zone_subscriptions
    let e : Engine F = record {
      st = st;
      live = [];
      current_topics = [];
      queue = [];
      active = active;
      changed = false;
      gate = gate;
    }
    ok (if zones then started e (subscribe_all accepts (topics_of active.rules)) else none)
