-- ===== src/Registration/Exchange.antt =====
-- src/registration/transport.rs: a request and its response, seen from both sides.
use flo.Base.{
  ◌≡◌, refl, ap, true, false, Option, none, some, List, [], ◌∷◌, ◌++◌, Str, codes, Lacks, is_empty,
  contains_char, contains_str, starts_with, arith, split, All, str_eq, str_eq_refl, if◌then◌else◌,
  ok,
}
use flo.Config.Client.{ClientConfig}
use flo.Registration.Lease
use flo.Registration.Lease.{RegistrationLease, Reply, RegistrationError, registered, state}
use flo.Registration.Protocol.{
  RegistrationRequest, register, RegistrationResponse, Codec, Effect, silent, published, crashed,
}
use flo.Registration.Server.{
  SampleKind, put, delete, register_status, handle_registration, handle_liveliness, monitor_parts,
}
use flo.Registration.Client.{Network, register_result, register_with_client, reply_outcome}
use flo.Topic.Pattern
use flo.Topic.Pattern.{Pattern}
use flo.Topic.Slashes.{registration_response_cases, split-All}
use flo.Topic.Words.{IsChunk, contains_str-slash}
use flo.Transport.Wire.{Subscription, samples, subscribe}
use flo.Topic.Validity.{heartbeat_alert_lem}

-- The client reads back the very result that the registry gave.
result_of_status :
    (l : RegistrationLease) (id : Str) (config : ClientConfig)
    → register_result (register_status (Lease.register l id config).1)
      ≡ (Lease.register l id config).1
unfolding register_result register_status Lease.register
result_of_status l id config = ground arith

-- The response topic of an id without the word is subscribed to for its samples.
response_samples :
    (id : Str)
    → contains_str (codes "liveliness") id ≡ false
    → subscribe (record { text = codes "fleet/registration/response/" ++ id })
      ≡ samples (codes "fleet/registration/response/" ++ id)
unfolding subscribe contains_str starts_with
response_samples id heard = ground (
  arith,
  heard,
  contains_str-slash b'l' (codes "iveliness") (codes "fleet/registration/response") id refl,
)

module _ (requests : Codec RegistrationRequest) (responses : Codec RegistrationResponse) where
  handled_lem :
      (l : RegistrationLease) (id : Str) (config : ClientConfig) {request : requests.Bytes}
      {response : responses.Bytes}
      → is_empty id ≡ false
      → Lacks b'/' id
      → requests.encode (register id config) ≡ some request
      → responses.encode (record { status = register_status (Lease.register l id config).1 })
        ≡ some response
      → handle_registration requests responses l request ≡ (
        (Lease.register l id config).0,
        published (codes "fleet/registration/response/" ++ id) response,
      )
  unfolding handle_registration
  handled_lem l id config full lacks sent answered = ground (
    arith,
    requests.decode-encode (register id config) sent,
    registration_response_cases {E = Unit {0}} id,
  )

  -- A network in which the server's registration loop, on one registry, handles the request at once,
  -- and what it publishes reaches the client's subscription if that is on the interface of the samples
  -- and on the topic; nothing that is published reaches the liveliness interface.
  abbrev delivered : Subscription → Effect responses.Bytes → Option responses.Bytes
  delivered (samples key) (published topic bytes) = if str_eq topic key then some bytes else none
  delivered (samples key) silent = none
  delivered (samples key) crashed = none
  delivered (Subscription.liveliness key) effect = none

  unfoldable pub network : RegistrationLease → Network requests responses
  unfolding subscribe
  network l pattern request =
      ok (delivered (subscribe pattern) (handle_registration requests responses l request).1)

  -- A client with a proper id (one chunk of a key with no wildcard, without the word `liveliness`, its
  -- response topic a valid pattern) whose request and response can be encoded, and whose request the
  -- server handles: the server's registry takes the step of `register` on the client's id and
  -- configuration, the response goes to the client's own response topic, and the client's call ends
  -- with exactly the result of `register`.
  pub register_exchange :
      (l : RegistrationLease) (id : Str) (config : ClientConfig) {request : requests.Bytes}
      {response : responses.Bytes}
      → IsChunk id
      → contains_str (codes "liveliness") id ≡ false
      → Pattern.try_new (codes "fleet/registration/response/" ++ id)
        ≡ ok (record { text = codes "fleet/registration/response/" ++ id })
      → requests.encode (register id config) ≡ some request
      → responses.encode (record { status = register_status (Lease.register l id config).1 })
        ≡ some response
      → (handle_registration requests responses l request ≡ (
        (Lease.register l id config).0,
        published (codes "fleet/registration/response/" ++ id) response,
      ))
        × (register_with_client requests responses (network l) id config
            ≡ reply_outcome (Lease.register l id config).1)
  unfolding register_with_client network
  register_exchange l id config {request} {response} chunk heard plain sent answered =
      let handled = handled_lem l id config chunk.0 chunk.1 sent answered in
      (
        handled,
        ground (
          arith,
          chunk.0,
          sent,
          plain,
          registration_response_cases {E = RegistrationError} id,
          ap (λ r. r.1) handled,
          response_samples id heard,
          str_eq_refl (codes "fleet/registration/response/" ++ id),
          responses.decode-encode
              (record { status = register_status (Lease.register l id config).1 }) answered,
          result_of_status l id config,
        ),
      )

  -- A registration request whose id holds a slash ends the server's registration task, after the
  -- client has entered the registry.
  pub register_crash :
      (l : RegistrationLease) (id : Str) (config : ClientConfig) (payload : requests.Bytes)
      → contains_char b'/' id ≡ true
      → requests.decode payload ≡ some (register id config)
      → handle_registration requests responses l payload ≡ ((Lease.register l id config).0, crashed)
  unfolding handle_registration
  register_crash l id config payload slash decoded =
      ground (arith, registration_response_cases {E = Unit {0}} id)

  -- The heartbeat monitor never panics, whatever the key of the sample.
  handle_liveliness-ne-crashed :
      (l : RegistrationLease) (key : Str) (kind : SampleKind)
      → ¬ ((handle_liveliness requests responses l key kind).1 ≡ crashed)
  unfolding handle_liveliness
  handle_liveliness-ne-crashed l key kind = go (split b'/' key) kind (split-All b'/' key)
    where
      go :
          (parts : List Str) (kind : SampleKind)
          → All (Lacks b'/') parts
          → ¬ ((monitor_parts requests responses l parts kind).1 ≡ crashed)
      go [] put a = λ h. cc
      go [] delete a = λ h. cc
      go (p ∷ []) put a = λ h. cc
      go (p ∷ []) delete a = λ h. cc
      go (p ∷ q ∷ ps) put a = λ h. cc
      go (p ∷ q ∷ ps) delete a = λ h. ground (arith, heartbeat_alert_lem {E = Unit {0}} q a.1.0)
