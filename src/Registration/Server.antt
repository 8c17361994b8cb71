-- ===== src/Registration/Server.antt =====
-- src/registration/transport.rs: the server's two request handlers and the heartbeat monitor, one
-- sample at a time. A panic ends the task that runs the handler.
use flo.Base.{none, some, List, ◌∷◌, ◌++◌, Str, codes, split, is_empty, if◌then◌else◌, Outcome}
use flo.Config.Client.{ClientConfig}
use flo.Registration.Lease
use flo.Registration.Lease.{RegistrationLease, RegistrationError, Reply}
use flo.Registration.Protocol.{
  RegistrationRequest, register, deregister, RegistrationStatus, ack, reject_already_registered,
  reject_poisoned, ignore, missing_robot_id, reject_server_error, RegistrationResponse, Codec,
  Effect, silent, published, crashed,
}
use flo.Topic.Name.{Topic}
use flo.Topic.Builders.{registration_response, deregistration_response, heartbeat_alert}

pub data SampleKind : Type 0 where
  put delete : SampleKind

-- `format!("{e:?}")` of an error, for a text in which nothing is escaped.
unfoldable pub debug : RegistrationError → Str
debug RegistrationError.already_registered = codes "AlreadyRegistered"
debug RegistrationError.poisoned = codes "Poisoned"
debug RegistrationError.not_registered = codes "NotRegistered"
debug RegistrationError.timeout = codes "Timeout"
debug (RegistrationError.server_error e) = codes "ServerError(\"" ++ (e ++ codes "\")")

unfoldable pub register_status : Reply (Unit {0}) → RegistrationStatus
unfolding debug
register_status (Reply.ok _) = ack
register_status (Reply.err RegistrationError.already_registered) = reject_already_registered
register_status (Reply.err RegistrationError.poisoned) = reject_poisoned
register_status (Reply.err e) = reject_server_error (debug e)

unfoldable pub deregister_status : Reply (Unit {0}) → RegistrationStatus
deregister_status (Reply.ok _) = ack
deregister_status (Reply.err e) = ignore

module _ (requests : Codec RegistrationRequest) (responses : Codec RegistrationResponse) where
  -- `publish_response`, its own failure dropped by the callers.
  unfoldable pub publish_response : Topic → RegistrationStatus → Effect responses.Bytes
  publish_response topic status = elim (responses.encode (record { status = status })) [
    | none ↦ silent
    | some bytes ↦ published topic.text bytes
  ]

  unfoldable pub respond : Outcome (Unit {0}) Topic → RegistrationStatus → Effect responses.Bytes
  unfolding publish_response
  respond (Outcome.ok topic) status = publish_response topic status
  respond (Outcome.err e) status = crashed
  respond Outcome.panic status = crashed

  -- The body of the registration loop. The client is registered before the topic is built.
  unfoldable pub on_register :
      RegistrationLease → Str → ClientConfig → RegistrationLease × Effect responses.Bytes
  unfolding respond
  on_register lease robot_id config =
      if is_empty robot_id
      then (lease, respond (registration_response robot_id) missing_robot_id)
      else let (lease', reply) = Lease.register lease robot_id config in
        (lease', respond (registration_response robot_id) (register_status reply))

  unfoldable pub handle_registration :
      RegistrationLease → requests.Bytes → RegistrationLease × Effect responses.Bytes
  unfolding on_register
  handle_registration lease payload = elim (requests.decode payload) [
    | none ↦ (lease, silent)
    | some (deregister robot_id) ↦ (lease, silent)
    | some (register robot_id config) ↦ on_register lease robot_id config
  ]

  -- The body of the deregistration loop. Here the topic is built first.
  unfoldable pub on_deregister :
      RegistrationLease
      → Str
      → Outcome (Unit {0}) Topic
      → RegistrationLease × Effect responses.Bytes
  unfolding publish_response
  on_deregister lease robot_id (Outcome.ok key) =
      if is_empty robot_id
      then (lease, publish_response key missing_robot_id)
      else let (lease', reply) = Lease.deregister lease robot_id in
        (lease', publish_response key (deregister_status reply))
  on_deregister lease robot_id (Outcome.err e) = (lease, crashed)
  on_deregister lease robot_id Outcome.panic = (lease, crashed)

  unfoldable pub handle_deregistration :
      RegistrationLease → requests.Bytes → RegistrationLease × Effect responses.Bytes
  unfolding on_deregister
  handle_deregistration lease payload = elim (requests.decode payload) [
    | none ↦ (lease, silent)
    | some (register robot_id config) ↦ (lease, silent)
    | some (deregister robot_id) ↦ on_deregister lease robot_id (deregistration_response robot_id)
  ]

  -- `on_liveliness_delete` and the alert, for a token that went away.
  unfoldable pub on_delete : RegistrationLease → Str → RegistrationLease × Effect responses.Bytes
  unfolding respond
  on_delete lease robot_id =
      let (lease', poisoned) = Lease.on_liveliness_delete lease robot_id in
      if poisoned
      then (lease', respond (heartbeat_alert robot_id) RegistrationStatus.poisoned)
      else (lease', silent)

  unfoldable pub monitor_parts :
      RegistrationLease → List Str → SampleKind → RegistrationLease × Effect responses.Bytes
  unfolding on_delete
  monitor_parts lease (_ ∷ robot_id ∷ _) put = (lease, silent)
  monitor_parts lease (_ ∷ robot_id ∷ _) delete = on_delete lease robot_id
  monitor_parts lease _ kind = (lease, silent)

  -- The body of the heartbeat monitor's loop.
  unfoldable pub handle_liveliness :
      RegistrationLease → Str → SampleKind → RegistrationLease × Effect responses.Bytes
  unfolding monitor_parts
  handle_liveliness lease key kind = monitor_parts lease (split b'/' key) kind
