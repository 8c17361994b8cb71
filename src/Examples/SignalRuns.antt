-- ===== src/Examples/SignalRuns.antt =====
-- src/signaling.rs, src/mesh.rs, src/runtime.rs and src/engine.rs: the theorems at two robots.
use flo.Base.{
  ℕ, ◌≤◌, ◌≡◌, ◌≢◌, refl, true, false, none, some, Option, List, [], ◌∷◌, Str, codes, length, ok,
  err, Outcome, All, member, lookup, arith, Str_eq,
}
use flo.Rules.Json.{Value, string}
use flo.Registration.Lease
use flo.Registration.Lease.{RegistrationLease, registered, state}
use flo.Registration.Protocol.{RegistrationRequest, RegistrationResponse}
use flo.Runtime.Retry.{BootstrapError, register_with_retries}
use flo.Runtime.LostAck.{attempt, lost_ack}
use flo.Media.Source.{videotest}
use flo.Engine.Subscribe.{collect_all, Live}
use flo.Engine.Run.{Event, ticked, received, change_seen, fed, run, rebuild}
use flo.Engine.RunLaws.{run-queue_bound, IsFired, run-IsFired}
use flo.Engine.Coverage.{IsCovered, is_heard, is_sampled, is_mentioned, rebuild_covers}
use flo.Signaling.Messages.{
  offer, answer, on_offer, on_answer, on_ice, publish_offer, publish_answer, publish_ice,
  run_signal_receiver, dispatch, Receiver,
}
use flo.Signaling.Reception.{Brings, signal_delivery, run_signal_receiver_deaf}
use flo.Signaling.Mesh.{MeshSignalHandler, offer_arrives, peer_made, ice_arrives}
use flo.Signaling.Mesh
use flo.Signaling.MeshLaws.{IsConsistent, run-IsConsistent}
use flo.Examples.Data.{floats, client_config, server_config, plain_codec, zone_sample}
use flo.Examples.SignalData.{
  one_star, one_star-IsStar, candidate, message, three_messages, edge_rules, idle,
}

signal_delivery_example :
    Brings {E = Unit {0}} three_messages one_star one_star-IsStar
      (codes "a")
      (codes "b")
      (publish_offer three_messages (codes "a") (codes "b") (codes "v=0") [])
      (on_offer (codes "a") (message offer (codes "v=0") []) ∷ [])
    × Brings {E = Unit {0}} three_messages one_star one_star-IsStar
        (codes "a")
        (codes "b")
        (publish_answer three_messages (codes "a") (codes "b") (codes "v=0") [])
        (on_answer (codes "a") (message answer (codes "v=0") []) ∷ [])
    × Brings {E = Unit {0}} three_messages one_star one_star-IsStar
        (codes "a")
        (codes "b")
        (publish_ice three_messages (codes "a") (codes "b") candidate)
        (on_ice (codes "a") candidate ∷ [])
unfolding flo.Base.str_eq flo.Base.contains_str flo.Base.starts_with
signal_delivery_example =
    signal_delivery three_messages one_star one_star-IsStar (codes "a") (codes "b") (codes "v=0") []
      candidate (string (codes "offer"), codes "offer", refl, refl, refl)
      (string (codes "answer"), codes "answer", refl, refl, refl)
      (string (codes "ice"), codes "ice", refl, refl, refl)
      ((refl, refl, refl, refl, refl, refl), refl) (refl, refl, refl, refl, refl, refl) refl

run_signal_receiver_deaf_example :
    (receiver : Receiver) × (run_signal_receiver {E = Unit {0}} (codes "liveliness-bot")
      ≡ ok receiver)
    × (dispatch three_messages one_star receiver (record {
      key = codes "robot/a/signal/liveliness-bot/offer";
      bytes = codes "offer";
      knobs = none;
    })
        ≡ [])
unfolding flo.Base.contains_str
run_signal_receiver_deaf_example =
    run_signal_receiver_deaf three_messages one_star (codes "liveliness-bot")
      (record {
        key = codes "robot/a/signal/liveliness-bot/offer";
        bytes = codes "offer";
        knobs = none;
      })
      refl refl refl

run-IsConsistent_example : IsConsistent (
    Mesh.run (Mesh.new (codes "b") (some videotest)) (
      offer_arrives (codes "a") (message offer (codes "v=0") [])
      ∷ offer_arrives (codes "a") (message offer (codes "v=1") [])
      ∷ peer_made 1 (some 7)
      ∷ peer_made 0 (some 8)
      ∷ ice_arrives (codes "a") candidate
      ∷ []))
unfolding Mesh.new
run-IsConsistent_example =
    run-IsConsistent (Mesh.new (codes "b") (some videotest))
      (offer_arrives (codes "a") (message offer (codes "v=0") [])
        ∷ offer_arrives (codes "a") (message offer (codes "v=1") [])
        ∷ peer_made 1 (some 7)
        ∷ peer_made 0 (some 8)
        ∷ ice_arrives (codes "a") candidate
        ∷ [])
      tt

abbrev fresh : RegistrationLease
fresh = Lease.new server_config

lost_ack_example :
    ((register_with_retries
        (attempt
          (plain_codec RegistrationRequest)
          (plain_codec RegistrationResponse)
          (codes "r1")
          client_config)
        (fresh, 1)).result
      ≡ err BootstrapError.already_registered)
    × (state
          (register_with_retries
            (attempt
              (plain_codec RegistrationRequest)
              (plain_codec RegistrationResponse)
              (codes "r1")
              client_config)
            (fresh, 1)).world.0
          (codes "r1")
        ≡ registered)
unfolding Lease.new state Lease.register flo.Topic.Pattern.try_new flo.Base.contains_str
    flo.Base.ends_with flo.Topic.Grammar.is_valid_pattern flo.Base.split
    flo.Topic.Grammar.canonicalize flo.Base.str_eq flo.Topic.Grammar.matches_one_of lookup
    flo.Base.insert
lost_ack_example =
    lost_ack (plain_codec RegistrationRequest) (plain_codec RegistrationResponse) (codes "r1")
      client_config fresh (refl, refl, refl, refl, refl, refl) refl refl refl (λ r. (r, refl))
      (λ h. cc) (λ h. cc)

abbrev to_vec : Value floats → Option (List ℕ)
to_vec v = some (codes "{}")

abbrev life : List (Event to_vec (λ p. true))
life =
    change_seen
    ∷ fed 0 (zone_sample (codes "yard"))
    ∷ received 1
    ∷ ticked 2
    ∷ fed 0 (zone_sample (codes "dock"))
    ∷ received 3
    ∷ ticked 4
    ∷ []

run-queue_bound_example : length (run to_vec (λ p. true) idle life).0.queue ≤ 256
run-queue_bound_example = run-queue_bound to_vec (λ p. true) idle life (ground arith)

run-IsFired_example : All (IsFired to_vec (λ p. true)) (run to_vec (λ p. true) idle life).1
run-IsFired_example = run-IsFired to_vec (λ p. true) idle life

rebuild_covers_example :
    IsCovered to_vec (λ p. true) (rebuild to_vec (λ p. true) idle)
    × ((t : Str)
        → is_sampled t ≡ true
        → is_mentioned t edge_rules.rules ≡ true
        → is_heard t (rebuild to_vec (λ p. true) idle).live ≡ true)
unfolding member flo.Engine.Subscribe.subscribe_all flo.Engine.Subscribe.topics_of
    flo.Base.contains_str flo.Base.ends_with flo.Topic.Grammar.is_valid_pattern flo.Base.split
    flo.Topic.Grammar.canonicalize flo.Base.str_eq flo.Topic.Grammar.matches_one_of
rebuild_covers_example = rebuild_covers to_vec (λ p. true) idle (λ t s h. cc) refl
