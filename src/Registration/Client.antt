-- ===== src/Registration/Client.antt =====
-- src/registration/transport.rs: the client's side of a registration and a deregistration, from the
-- check of the id to the reading of the response. A wait that ends with `none` is the five seconds'
-- timeout or a closed subscription.
use flo.Base.{
  Option, none, some, Str, codes, ◌++◌, is_empty, if◌then◌else◌, Outcome, ◌>>=◌, ok_or, expect,
}
use flo.Config.Client.{ClientConfig}
use flo.Registration.Lease.{RegistrationError, timeout, server_error, Reply, ok, err}
use flo.Registration.Protocol.{
  RegistrationRequest, register, deregister, RegistrationStatus, ack, reject_already_registered,
  reject_poisoned, ignore, missing_robot_id, reject_server_error, RegistrationResponse, Codec,
}
use flo.Topic.Pattern
use flo.Topic.Pattern.{Pattern}
use flo.Topic.Builders.{registration_response, deregistration_response}

-- `format!("{status:?}")` of a status, for a text in which nothing is escaped.
unfoldable pub debug : RegistrationStatus → Str
debug ack = codes "Ack"
debug reject_already_registered = codes "RejectAlreadyRegistered"
debug reject_poisoned = codes "RejectPoisoned"
debug (reject_server_error e) = codes "RejectServerError(\"" ++ (e ++ codes "\")")
debug ignore = codes "Ignore"
debug missing_robot_id = codes "MissingRobotId"
debug RegistrationStatus.poisoned = codes "Poisoned"

unfoldable pub register_result : RegistrationStatus → Reply (Unit {0})
unfolding debug
register_result ack = ok tt
register_result reject_already_registered = err RegistrationError.already_registered
register_result reject_poisoned = err RegistrationError.poisoned
register_result (reject_server_error message) = err (server_error message)
register_result missing_robot_id = err (server_error (codes "MissingRobotId"))
register_result status =
    err (server_error (codes "unexpected registration status: " ++ debug status))

unfoldable pub deregister_result : RegistrationStatus → Reply (Unit {0})
unfolding debug
deregister_result ack = ok tt
deregister_result ignore = ok tt
deregister_result status =
    err (server_error (codes "unexpected deregistration status: " ++ debug status))

-- A call ends with the result that it read off the response, an error of its own, or a panic.
unfoldable pub reply_outcome : Reply (Unit {0}) → Outcome RegistrationError (Unit {0})
reply_outcome (ok a) = Outcome.ok a
reply_outcome (err e) = Outcome.err e

module _ (requests : Codec RegistrationRequest) (responses : Codec RegistrationResponse) where
  -- Subscribing to a topic, publishing a request, and the wait for the first sample. An error is
  -- that of the subscription or of the publishing.
  abbrev pub Network : Type 0
  Network = Pattern → requests.Bytes → Outcome RegistrationError (Option responses.Bytes)

  abbrev serialize : RegistrationRequest → Outcome RegistrationError requests.Bytes
  serialize request =
      ok_or (requests.encode request) (server_error (codes "failed to serialize request"))

  -- What a call makes of the awaited sample. The text of a decoding error is not modelled.
  unfoldable pub read_response :
      (RegistrationStatus → Reply (Unit {0}))
      → Str
      → Option responses.Bytes
      → Outcome RegistrationError (Unit {0})
  unfolding reply_outcome
  read_response result bad none = Outcome.err timeout
  read_response result bad (some bytes) = elim (responses.decode bytes) [
    | none ↦ Outcome.err (server_error bad)
    | some r ↦ reply_outcome (result r.status)
  ]

  unfoldable pub register_with_client :
      Network → Str → ClientConfig → Outcome RegistrationError (Unit {0})
  unfolding read_response register_result
  register_with_client network robot_id config =
      if is_empty robot_id then Outcome.err (server_error (codes "MissingRobotId")) else (do
        request ← serialize (register robot_id config)
        topic ← registration_response robot_id
        pattern ← expect (Pattern.try_new topic.text)
        response ← network pattern request
        read_response register_result (codes "bad registration response") response)

  unfoldable pub deregister_with_server : Network → Str → Outcome RegistrationError (Unit {0})
  unfolding read_response deregister_result
  deregister_with_server network robot_id = do
    request ← serialize (deregister robot_id)
    topic ← deregistration_response robot_id
    pattern ← expect (Pattern.try_new topic.text)
    response ← network pattern request
    read_response deregister_result (codes "bad deregistration response") response
