-- ===== src/Engine/Flow.antt =====
-- src/engine.rs: the way of a sample through the channel into the engine's state.
use flo.Base.{
  ℕ, zero, suc, ◌≡◌, refl, ap, sym, ◌∙◌, Bool, Option, List, [], ◌∷◌, ◌++◌, Str, length, map, ltb,
  if◌then◌else◌, arith,
}
use mathlib.Core.List.{append-nil, append_assoc, map-append}
use flo.Rules.Floats.{Floats}
use flo.Rules.Json.{Value}
use flo.Topic.Pattern.{Pattern}
use flo.Engine.Subscribe.{Live}
use flo.Engine.Run.{
  Engine, try_send, subscribe_to_topics, rebuild, on_tick, on_sample, feed, Event, ticked, received,
  change_seen, fed, zone_fed, swapped, step, run,
}

module _ {F : Floats} (to_vec : Value F → Option (List ℕ)) (accepts : Pattern → Bool) where
  -- A sample that finds room in the channel of 256.
  abbrev pub with_room : Engine F → Str × Value F → List (Str × Value F)
  with_room e sample = if ltb (length e.queue) 256 then sample ∷ [] else []

  -- What the `i`-th of the loops passes on.
  abbrev pub passed_on : Engine F → List Live → ℕ → Value F → List (Str × Value F)
  passed_on e [] i payload = []
  passed_on e (l ∷ ls) zero payload = with_room e (l.topic, payload)
  passed_on e (l ∷ ls) (suc i) payload = passed_on e ls i payload

  -- The samples that an event puts into the channel.
  abbrev pub put_in : Engine F → Event to_vec accepts → List (Str × Value F)
  put_in e (fed i payload) = passed_on e e.live i payload
  put_in e (zone_fed key payload) = with_room e (key, payload)
  put_in e _ = []

  -- The sample that an event takes out of the channel, with the time.
  abbrev pub first_of : ℕ → List (Str × Value F) → List (ℕ × (Str × Value F))
  first_of now [] = []
  first_of now (sample ∷ queue) = (now, sample) ∷ []

  abbrev pub taken_out : Engine F → Event to_vec accepts → List (ℕ × (Str × Value F))
  taken_out e (received now) = first_of now e.queue
  taken_out e _ = []

  abbrev pub all_put_in : Engine F → List (Event to_vec accepts) → List (Str × Value F)
  all_put_in e [] = []
  all_put_in e (v ∷ vs) = put_in e v ++ all_put_in (step to_vec accepts e v).0 vs

  abbrev pub all_taken_out : Engine F → List (Event to_vec accepts) → List (ℕ × (Str × Value F))
  all_taken_out e [] = []
  all_taken_out e (v ∷ vs) = taken_out e v ++ all_taken_out (step to_vec accepts e v).0 vs

  abbrev pub sample_of : ℕ × (Str × Value F) → Str × Value F
  sample_of x = x.1

  feed_lem :
      (e : Engine F) (ls : List Live) (i : ℕ) (payload : Value F)
      → (feed to_vec accepts e ls i payload).queue ≡ e.queue ++ passed_on e ls i payload
  unfolding try_send
  feed_lem e [] i payload = sym (append-nil e.queue)
  feed_lem e (l ∷ ls) zero payload = ground (arith, append-nil e.queue)
  feed_lem e (l ∷ ls) (suc i) payload = feed_lem e ls i payload

  taken_lem :
      (now : ℕ) (e : Engine F) (q : List (Str × Value F))
      → e.queue ≡ q
      → e.queue ≡ map sample_of (first_of now q) ++ (on_sample to_vec accepts now e).queue
  unfolding on_sample
  taken_lem now e [] k = rw (on_sample, k) (sym k)
  taken_lem now e (sample ∷ q) k = rw (on_sample, k) refl

  rebuild_queue : (e : Engine F) → (rebuild to_vec accepts e).queue ≡ e.queue
  unfolding rebuild subscribe_to_topics
  rebuild_queue e = ground arith

  pub step_fifo :
      (e : Engine F) (v : Event to_vec accepts)
      → e.queue ++ put_in e v ≡ map sample_of (taken_out e v) ++ (step to_vec accepts e v).0.queue
  unfolding step on_tick try_send
  step_fifo e (ticked now) = append-nil e.queue
  step_fifo e (received now) = append-nil e.queue ∙ taken_lem now e e.queue refl
  step_fifo e change_seen = append-nil e.queue ∙ ground (arith, rebuild_queue e)
  step_fifo e (fed i payload) = sym (feed_lem e e.live i payload)
  step_fifo e (zone_fed key payload) = ground (arith, append-nil e.queue)
  step_fifo e (swapped rules) = append-nil e.queue

  pub run_fifo_lem :
      (e : Engine F) (vs : List (Event to_vec accepts))
      → e.queue ++ all_put_in e vs
        ≡ map sample_of (all_taken_out e vs) ++ (run to_vec accepts e vs).0.queue
  run_fifo_lem e [] = append-nil e.queue
  run_fifo_lem e (v ∷ vs) =
      let e' = (step to_vec accepts e v).0 in
      sym (append_assoc e.queue (put_in e v) (all_put_in e' vs))
      ∙ ap (λ q. q ++ all_put_in e' vs) (step_fifo e v)
      ∙ append_assoc (map sample_of (taken_out e v)) e'.queue (all_put_in e' vs)
      ∙ ap (λ q. map sample_of (taken_out e v) ++ q) (run_fifo_lem e' vs)
      ∙ sym (append_assoc (map sample_of (taken_out e v)) (map sample_of (all_taken_out e' vs)) _)
      ∙ ap (λ q. q ++ (run to_vec accepts e' vs).0.queue)
          (sym (map-append sample_of (taken_out e v) (all_taken_out e' vs)))
