-- ===== src/Examples/FlowRuns.antt =====
-- src/engine.rs, src/topic.rs and src/video.rs: the theorems at one engine, two topics and three peers.
use flo.Base.{
  ℕ, ◌≡◌, ◌↔◌, refl, true, Option, some, List, [], ◌∷◌, ◌++◌, Str, codes, map, ok, arith,
}
use flo.Rules.Json.{Value}
use flo.Rules.Model.{Rules}
use flo.Topic.Name.{Topic}
use flo.Topic.Builders.{rules_key}
use flo.Topic.Isolation.{topic_of, local, offer, answer, topic_of-injective}
use flo.Engine.Subscribe.{topics_of}
use flo.Engine.Run.{Engine, Event, change_seen, fed, received, ticked, run}
use flo.Engine.Coverage.{is_mentioned}
use flo.Engine.Canonical.{topics_of_iff}
use flo.Engine.Flow.{all_put_in, all_taken_out, sample_of}
use flo.Engine.Seen.{HasSeen, ingest_all, run-fifo}
use flo.Signaling.Ssrc.{Distinct, ssrcs, ssrcs-Distinct}
use flo.Examples.Data.{floats, zone_sample}
use flo.Examples.SignalData.{edge_rules, idle, webrtc}

abbrev to_vec : Value floats → Option (List ℕ)
to_vec v = some (codes "{}")

abbrev life : List (Event to_vec (λ p. true))
life = change_seen ∷ fed 0 (zone_sample (codes "yard")) ∷ received 1 ∷ ticked 2 ∷ received 3 ∷ []

-- The idle engine with a sample in its channel.
abbrev waiting : Engine floats
waiting = record idle { queue = (codes "robot/r1/local/zone", zone_sample (codes "dock")) ∷ [] }

run-fifo_example :
    (waiting.queue ++ all_put_in to_vec (λ p. true) waiting life
      ≡ map (sample_of to_vec (λ p. true)) (all_taken_out to_vec (λ p. true) waiting life)
        ++ (run to_vec (λ p. true) waiting life).0.queue)
    × HasSeen to_vec
        (λ p. true)
        (run to_vec (λ p. true) waiting life).0.st
        (ingest_all to_vec (λ p. true) waiting.st (all_taken_out to_vec (λ p. true) waiting life))
run-fifo_example = run-fifo to_vec (λ p. true) waiting life

-- The rules twice over.
abbrev doubled : Rules floats
doubled = record { rules = edge_rules.rules ++ edge_rules.rules }

topics_of_iff_example :
    (topics_of edge_rules ≡ topics_of doubled)
    ↔ ((t : Str) → is_mentioned t edge_rules.rules ≡ is_mentioned t doubled.rules)
topics_of_iff_example = topics_of_iff edge_rules doubled

topic_of-injective_example :
    ((t : Topic) × (topic_of {E = Unit {0}} (offer (codes "a") (codes "b")) ≡ ok t))
    × ((topic_of {E = Unit {0}} (offer (codes "a") (codes "b"))
          ≡ topic_of (answer (codes "a") (codes "b")))
        ↔ (offer (codes "a") (codes "b") ≡ answer (codes "a") (codes "b")))
    × ((id : Str) → rules_key {E = Unit {0}} id ≡ topic_of (local id (codes "rules")))
topic_of-injective_example =
    topic_of-injective (offer (codes "a") (codes "b")) (answer (codes "a") (codes "b"))
      (refl, (refl, tt)) (refl, (refl, tt))

-- The counter comes round between the first peer and the second.
ssrcs-Distinct_example : Distinct (
    ssrcs webrtc 4294967295
      ((codes "a", codes "b") ∷ (codes "a", codes "c") ∷ (codes "a", codes "b") ∷ []))
ssrcs-Distinct_example =
    ssrcs-Distinct webrtc 4294967295
      ((codes "a", codes "b") ∷ (codes "a", codes "c") ∷ (codes "a", codes "b") ∷ []) (omega arith)
      (omega arith)
