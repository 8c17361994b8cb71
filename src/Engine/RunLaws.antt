-- ===== src/Engine/RunLaws.antt =====
-- src/engine.rs: what holds of the running engine, whatever the order of its events.
use flo.Base.{
  ℕ, zero, suc, ◌≤◌, ◌≡◌, refl, Bool, Option, none, some, List, [], ◌∷◌, Str, length, length-append,
  All, All-append, arith, inl, inr, Outcome-cases, ok, Str_eq,
}
use flo.Rules.Floats.{Floats}
use flo.Rules.Json.{Value}
use flo.Rules.Model.{Action, Qos}
use flo.Topic.Name
use flo.Topic.Name.{Topic}
use flo.Topic.Pattern.{Pattern}
use flo.Topic.Stable.{try_new_idem}
use flo.Transport.Wire.{Put, publish, put_bytes, knobs_of}
use flo.Engine.Tick.{tick_with_arc}
use flo.Engine.Subscribe.{Live}
use flo.Engine.Run.{
  Engine, capacity, puts_of, fire_action, fire_all, try_send, subscribe_to_topics, rebuild, on_tick,
  on_sample, feed, Event, ticked, received, change_seen, fed, zone_fed, swapped, step, run,
}

module _ {F : Floats} (to_vec : Value F → Option (List ℕ)) (accepts : Pattern → Bool) where
  feed_bound :
      (e : Engine F) (ls : List Live) (i : ℕ) (payload : Value F)
      → length e.queue ≤ capacity
      → length (feed to_vec accepts e ls i payload).queue ≤ capacity
  unfolding try_send
  feed_bound e [] i payload h = h
  feed_bound e (l ∷ ls) zero payload h =
      ground (arith, length-append e.queue ((l.topic, payload) ∷ []))
  feed_bound e (l ∷ ls) (suc i) payload h = feed_bound e ls i payload h

  sample_bound :
      (now : ℕ) (e : Engine F) (q : List (Str × Value F))
      → e.queue ≡ q
      → length e.queue ≤ capacity
      → length (on_sample to_vec accepts now e).queue ≤ capacity
  unfolding on_sample
  sample_bound now e [] k h = rw (on_sample, k) (ground (arith, h, k))
  sample_bound now e ((topic, payload) ∷ q) k h = rw (on_sample, k) (ground (arith, h, k))

  step_bound :
      (e : Engine F) (v : Event to_vec accepts)
      → length e.queue ≤ capacity
      → length (step to_vec accepts e v).0.queue ≤ capacity
  unfolding step on_tick on_sample rebuild subscribe_to_topics try_send
  step_bound e (ticked now) h = h
  step_bound e (received now) h = sample_bound now e e.queue refl h
  step_bound e change_seen h = ground arith
  step_bound e (fed i payload) h = feed_bound e e.live i payload h
  step_bound e (zone_fed key payload) h =
      ground (arith, length-append e.queue ((key, payload) ∷ []))
  step_bound e (swapped rules) h = h

  -- Bounds: whatever the engine does and however fast samples come, its channel never holds more than
  -- 256 of them.
  pub run-queue_bound :
      (e : Engine F) (vs : List (Event to_vec accepts))
      → length e.queue ≤ 256
      → length (run to_vec accepts e vs).0.queue ≤ 256
  run-queue_bound e [] h = h
  run-queue_bound e (v ∷ vs) h = run-queue_bound (step to_vec accepts e v).0 vs (step_bound e v h)

  -- A put of an action of the engine: on a valid topic, with the knobs of its quality of service.
  abbrev pub IsFired : Put → Type 0
  IsFired put =
      (Name.try_new put.key ≡ ok (record { text = put.key }))
      × ((qos : Qos) × (put.knobs ≡ some (knobs_of qos)))

  puts_lem :
      (qos : Qos) (t : Topic)
      → Name.try_new t.text ≡ ok t
      → (bytes : Option (List ℕ)) → All IsFired (puts_of (put_bytes t (some (knobs_of qos)) bytes))
  puts_lem qos t valid none = tt
  puts_lem qos t valid (some bytes) = ((valid, (qos, refl)), tt)

  fire_action_lem : (a : Action F) → All IsFired (fire_action to_vec accepts a)
  unfolding fire_action publish
  fire_action_lem a = elim (Outcome-cases (Name.try_new a.topic)) [
    | inl (t, e) ↦
        rw (fire_action, e) (puts_lem a.qos t (try_new_idem a.topic t e) (to_vec a.payload))
    | inr (inl (why, e)) ↦ rw (fire_action, e) tt
    | inr (inr e) ↦ rw (fire_action, e) tt
  ]

  fire_all_lem : (actions : List (Action F)) → All IsFired (fire_all to_vec accepts actions)
  fire_all_lem [] = tt
  fire_all_lem (a ∷ actions) =
      All-append IsFired (fire_action to_vec accepts a) (fire_all to_vec accepts actions)
        (fire_action_lem a) (fire_all_lem actions)

  step-IsFired : (e : Engine F) (v : Event to_vec accepts) → All IsFired (step to_vec accepts e v).1
  unfolding step on_tick
  step-IsFired e (ticked now) = fire_all_lem (tick_with_arc now e.st e.active.ptr e.active.rules).1
  step-IsFired e (received now) = tt
  step-IsFired e change_seen = tt
  step-IsFired e (fed i payload) = tt
  step-IsFired e (zone_fed key payload) = tt
  step-IsFired e (swapped rules) = tt

  -- Whatever rules are swapped in and whatever samples come, everything that the engine ever publishes
  -- goes to a topic that validation accepts as it stands, with the knobs of a quality of service.
  pub run-IsFired :
      (e : Engine F) (vs : List (Event to_vec accepts)) → All IsFired (run to_vec accepts e vs).1
  run-IsFired e [] = tt
  run-IsFired e (v ∷ vs) =
      All-append IsFired (step to_vec accepts e v).1
        (run to_vec accepts (step to_vec accepts e v).0 vs).1 (step-IsFired e v)
        (run-IsFired (step to_vec accepts e v).0 vs)
