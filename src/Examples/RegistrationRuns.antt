-- ===== src/Examples/RegistrationRuns.antt =====
-- src/registration/: the theorems at a small registry.
use flo.Base.{Outcome, ◌≡◌, ◌≤◌, refl, ◌+◌, true, false, some, List, [], ◌∷◌, Str, codes, is_empty}
use flo.Registration.Lease
use flo.Registration.Lease.{RegistrationLease, ClientState, registered, state, new, Reply}
use flo.Registration.LeaseLaws.{Op, registers, deregisters, deletes, apply, replied, apply-refines}
use flo.Registration.History.{tally-joins-le, credit, run, tally, joins, leaves}
use flo.Registration.Entries.{IsWellFormed, new-IsWellFormed, run-new-IsWellFormed}
use flo.Registration.Protocol.{
  RegistrationRequest, register, deregister, RegistrationResponse, Codec, ack, published,
}
use flo.Registration.Server.{put, delete, handle_registration, handle_liveliness}
use flo.Registration.Client.{register_with_client}
use flo.Registration.Exchange.{network, register_exchange}
use flo.Registration.Node.{
  Event, registration, deregistration, liveliness, Node, start, serve, serve-IsWellFormed,
  serve-poisoned,
}
use flo.Examples.Data.{client_config, server_config, plain_codec}

abbrev requests : Codec RegistrationRequest
requests = plain_codec RegistrationRequest

abbrev responses : Codec RegistrationResponse
responses = plain_codec RegistrationResponse

abbrev fresh : RegistrationLease
fresh = new server_config

abbrev history : List Op
history =
    registers (codes "r1") client_config
    ∷ deregisters (codes "r1")
    ∷ registers (codes "r1") client_config
    ∷ deletes (codes "r1")
    ∷ []

abbrev bad : RegistrationLease
bad = Lease.poison fresh (codes "r1")

apply-refines_example :
    ((apply fresh (registers (codes "r1") client_config)).1 ≡ replied (Reply.ok tt))
    × (state (apply fresh (registers (codes "r1") client_config)).0 (codes "r1") ≡ registered)
unfolding state new Lease.state_of flo.Base.lookup flo.Base.str_eq flo.Base.insert
apply-refines_example = apply-refines fresh (registers (codes "r1") client_config) (codes "r1")

run-new-IsWellFormed_example : IsWellFormed (run fresh history)
run-new-IsWellFormed_example = run-new-IsWellFormed server_config history

tally-joins-le_example :
    tally (joins (codes "r1")) fresh history
    ≤ tally (leaves (codes "r1")) fresh history + credit (state fresh (codes "r1"))
tally-joins-le_example = tally-joins-le fresh history (codes "r1")

register_exchange_example :
    (handle_registration requests responses fresh (register (codes "r1") client_config) ≡ (
      (Lease.register fresh (codes "r1") client_config).0,
      published (codes "fleet/registration/response/r1") (record { status = ack }),
    ))
    × (register_with_client requests responses
          (network requests responses fresh)
          (codes "r1")
          client_config
        ≡ Outcome.ok tt)
unfolding Lease.register new flo.Topic.Pattern.try_new flo.Base.contains_str flo.Base.ends_with
    flo.Topic.Grammar.is_valid_pattern flo.Base.split flo.Topic.Grammar.canonicalize flo.Base.str_eq
    flo.Topic.Grammar.matches_one_of flo.Registration.Server.register_status
    flo.Registration.Client.reply_outcome flo.Base.lookup flo.Base.insert flo.Base.starts_with
register_exchange_example =
    register_exchange requests responses fresh (codes "r1") client_config
      (refl, refl, refl, refl, refl, refl) refl refl refl refl

abbrev schedule : List (Event RegistrationRequest)
schedule =
    registration (register (codes "r1") client_config)
    ∷ liveliness (codes "robot/r1/client/liveliness") delete
    ∷ registration (register (codes "a/b") client_config)
    ∷ deregistration (deregister (codes "r1"))
    ∷ []

serve-IsWellFormed_example :
    IsWellFormed (serve requests responses (start server_config) schedule).lease
serve-IsWellFormed_example =
    serve-IsWellFormed requests responses (start server_config) schedule
      (new-IsWellFormed server_config)

abbrev spoiled : Node
spoiled = record { lease = bad; registering = true; deregistering = true }

serve-poisoned_example :
    state (serve requests responses spoiled schedule).lease (codes "r1") ≡ ClientState.poisoned
unfolding state Lease.poison flo.Base.lookup flo.Base.insert new flo.Base.str_eq
serve-poisoned_example = serve-poisoned requests responses spoiled schedule (codes "r1") refl
