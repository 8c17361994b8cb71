-- ===== src/Engine/Seen.antt =====
-- src/engine.rs: the engine's state and the samples that have left the channel.
use flo.Base.{
  ℕ, zero, suc, ◌≡◌, refl, ap, ◌∙◌, Bool, Option, List, [], ◌∷◌, ◌++◌, Str, map, if◌then◌else◌,
  arith, inl, inr, Bool-cases,
}
use flo.Rules.Floats.{Floats}
use flo.Rules.Json.{Value}
use flo.Rules.Model.{Rules}
use flo.Topic.Pattern.{Pattern}
use flo.Engine.State.{EvalState, ingest, is_zone_event}
use flo.Engine.Tick.{tick_with_arc, tick, note_rules}
use flo.Engine.Subscribe.{Live}
use flo.Engine.Run.{
  Engine, try_send, subscribe_to_topics, rebuild, on_tick, on_sample, feed, Event, ticked, received,
  change_seen, fed, zone_fed, swapped, step, run,
}
use flo.Engine.Flow.{first_of, taken_out, all_put_in, all_taken_out, sample_of, run_fifo_lem}

module _ {F : Floats} (to_vec : Value F → Option (List ℕ)) (accepts : Pattern → Bool) where
  -- The state after ingesting samples, each at its time.
  abbrev pub ingest_all : EvalState F → List (ℕ × (Str × Value F)) → EvalState F
  ingest_all st [] = st
  ingest_all st ((now, (topic, payload)) ∷ xs) = ingest_all (ingest now st topic payload) xs

  -- Two states that have seen the same samples.
  abbrev pub HasSeen : EvalState F → EvalState F → Type 0
  HasSeen st st' =
      (st.latest ≡ st'.latest) × (st.timestamps ≡ st'.timestamps) × (st.zones ≡ st'.zones)

  ingest-HasSeen :
      (now : ℕ) (st st' : EvalState F) (topic : Str) (payload : Value F)
      → HasSeen st st'
      → HasSeen (ingest now st topic payload) (ingest now st' topic payload)
  unfolding ingest
  ingest-HasSeen now st st' topic payload (a, b, c) = elim (Bool-cases (is_zone_event topic)) [
    | inl k ↦ rw (k, a, b, c) (refl, refl, refl)
    | inr k ↦ rw (k, a, b, c) (refl, refl, refl)
  ]

  ingest_all-HasSeen :
      (st st' : EvalState F) (xs : List (ℕ × (Str × Value F)))
      → HasSeen st st'
      → HasSeen (ingest_all st xs) (ingest_all st' xs)
  ingest_all-HasSeen st st' [] h = h
  ingest_all-HasSeen st st' ((now, (topic, payload)) ∷ xs) h =
      ingest_all-HasSeen (ingest now st topic payload) (ingest now st' topic payload) xs
        (ingest-HasSeen now st st' topic payload h)

  ingest_all-append :
      (st : EvalState F) (xs ys : List (ℕ × (Str × Value F)))
      → ingest_all st (xs ++ ys) ≡ ingest_all (ingest_all st xs) ys
  ingest_all-append st [] ys = refl
  ingest_all-append st ((now, (topic, payload)) ∷ xs) ys =
      ingest_all-append (ingest now st topic payload) xs ys

  HasSeen-trans : (a b c : EvalState F) → HasSeen a b → HasSeen b c → HasSeen a c
  HasSeen-trans a b c (p, q, r) (p', q', r') = (p ∙ p', q ∙ q', r ∙ r')

  tick-HasSeen :
      (now : ℕ) (st : EvalState F) (ptr : ℕ) (rules : Rules F)
      → HasSeen (tick_with_arc now st ptr rules).0 st
  unfolding tick_with_arc tick note_rules
  tick-HasSeen now st ptr rules = (ground arith, ground arith, ground arith)

  sample-HasSeen :
      (now : ℕ) (e : Engine F) (q : List (Str × Value F))
      → e.queue ≡ q
      → HasSeen
          (on_sample to_vec accepts now e).st
          (ingest_all e.st (first_of to_vec accepts now q))
  unfolding on_sample
  sample-HasSeen now e [] k = rw (on_sample, k) (refl, refl, refl)
  sample-HasSeen now e ((topic, payload) ∷ q) k = rw (on_sample, k) (refl, refl, refl)

  feed_st :
      (e : Engine F) (ls : List Live) (i : ℕ) (payload : Value F)
      → (feed to_vec accepts e ls i payload).st ≡ e.st
  unfolding try_send
  feed_st e [] i payload = refl
  feed_st e (l ∷ ls) zero payload = ground arith
  feed_st e (l ∷ ls) (suc i) payload = feed_st e ls i payload

  rebuild_st : (e : Engine F) → (rebuild to_vec accepts e).st ≡ e.st
  unfolding rebuild subscribe_to_topics
  rebuild_st e = ground arith

  same : (st st' : EvalState F) → st ≡ st' → HasSeen st st'
  same st st' h = (ap (λ s. s.latest) h, ap (λ s. s.timestamps) h, ap (λ s. s.zones) h)

  step-HasSeen :
      (e : Engine F) (v : Event to_vec accepts)
      → HasSeen (step to_vec accepts e v).0.st (ingest_all e.st (taken_out to_vec accepts e v))
  unfolding step on_tick try_send
  step-HasSeen e (ticked now) = tick-HasSeen now e.st e.active.ptr e.active.rules
  step-HasSeen e (received now) = sample-HasSeen now e e.queue refl
  step-HasSeen e change_seen =
      same (if e.changed then rebuild to_vec accepts e else e).st e.st
        (ground (arith, rebuild_st e))
  step-HasSeen e (fed i payload) = same _ e.st (feed_st e e.live i payload)
  step-HasSeen e (zone_fed key payload) =
      same (try_send to_vec accepts e key payload).st e.st (ground arith)
  step-HasSeen e (swapped rules) = (refl, refl, refl)

  pub run-HasSeen :
      (e : Engine F) (vs : List (Event to_vec accepts))
      → HasSeen (run to_vec accepts e vs).0.st (ingest_all e.st (all_taken_out to_vec accepts e vs))
  run-HasSeen e [] = (refl, refl, refl)
  run-HasSeen e (v ∷ vs) =
      let e' = (step to_vec accepts e v).0 in
      rw
        (ingest_all-append e.st (taken_out to_vec accepts e v) (all_taken_out to_vec accepts e' vs))
        (HasSeen-trans (run to_vec accepts e' vs).0.st
          (ingest_all e'.st (all_taken_out to_vec accepts e' vs))
          (ingest_all (ingest_all e.st (taken_out to_vec accepts e v))
            (all_taken_out to_vec accepts e' vs))
          (run-HasSeen e' vs)
          (ingest_all-HasSeen e'.st (ingest_all e.st (taken_out to_vec accepts e v))
            (all_taken_out to_vec accepts e' vs) (step-HasSeen e v)))

  -- The channel and the engine together are a queue: whatever the order of the events, the samples that
  -- have found room in the channel leave it in the order in which they came, none lost, doubled or
  -- overtaken, and the samples, times and zones of the engine's state are those of taking in just
  -- what has left it, in that order; no tick, change or swap touches them.
  pub run-fifo :
      (e : Engine F) (vs : List (Event to_vec accepts))
      → (e.queue ++ all_put_in to_vec accepts e vs
          ≡ map (sample_of to_vec accepts) (all_taken_out to_vec accepts e vs)
            ++ (run to_vec accepts e vs).0.queue)
        × HasSeen
            (run to_vec accepts e vs).0.st
            (ingest_all e.st (all_taken_out to_vec accepts e vs))
  run-fifo e vs = (run_fifo_lem to_vec accepts e vs, run-HasSeen e vs)
