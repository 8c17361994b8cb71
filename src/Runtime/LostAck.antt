-- ===== src/Runtime/LostAck.antt =====
-- src/runtime.rs with src/registration/transport.rs: the registration loop against a server that
-- handles every request, over a network that loses some of the first responses.
use flo.Base.{
  ℕ, zero, suc, ◌≡◌, ◌≢◌, ap, ◌∙◌, Option, none, some, Str, codes, ◌++◌, contains_str,
  lookup-insert, Str_eq, str_eq_refl, arith, false, Outcome, ok, err,
}
use flo.Config.Client.{ClientConfig}
use flo.Registration.Lease
use flo.Registration.Lease.{
  RegistrationLease, RegistrationError, ClientState, registered, state, state_of, put,
}
use flo.Registration.Protocol.{RegistrationRequest, register, RegistrationResponse, Codec}
use flo.Registration.Server.{handle_registration, register_status}
use flo.Registration.Client.{register_with_client, read_response, reply_outcome}
use flo.Registration.Exchange.{network, register_exchange}
use flo.Topic.Pattern
use flo.Topic.Words.{IsChunk}
use flo.Topic.Slashes.{registration_response_cases}
use flo.Runtime.Retry.{BootstrapError, register_with_retries, retries_refused}

-- The server's registry, and how many responses are still to be lost.
abbrev pub World : Type 0
World = RegistrationLease × ℕ

-- Who is let in is registered then, and would not be let in again.
again_lem :
    (l : RegistrationLease) (id : Str) (config : ClientConfig)
    → state l id ≢ registered
    → state l id ≢ ClientState.poisoned
    → (state (Lease.register l id config).0 id ≡ registered)
      × ((Lease.register (Lease.register l id config).0 id config)
          ≡ ((Lease.register l id config).0, Lease.Reply.err RegistrationError.already_registered))
unfolding Lease.register state state_of put
again_lem l id config new clean = ground (
  arith,
  str_eq_refl id,
  lookup-insert id id (record { state = registered; config = some config }) l.clients,
)

module _ (requests : Codec RegistrationRequest) (responses : Codec RegistrationResponse) (id : Str)
    (config : ClientConfig) where
  abbrev handled : RegistrationLease → Option requests.Bytes → RegistrationLease
  handled l none = l
  handled l (some request) = (handle_registration requests responses l request).0

  -- One call of `register_with_client`, whose response is lost or arrives.
  abbrev pub attempt : World → World × Outcome RegistrationError (Unit {0})
  attempt (l, zero) = (
    (handled l (requests.encode (register id config)), zero),
    register_with_client requests responses (network requests responses l) id config,
  )
  attempt (l, suc n) = (
    (handled l (requests.encode (register id config)), n),
    register_with_client requests responses (λ pattern request. ok none) id config,
  )

  lost_lem :
      (l : RegistrationLease) (n : ℕ) {request : requests.Bytes} {response : responses.Bytes}
      → IsChunk id
      → contains_str (codes "liveliness") id ≡ false
      → Pattern.try_new (codes "fleet/registration/response/" ++ id)
        ≡ ok (record { text = codes "fleet/registration/response/" ++ id })
      → requests.encode (register id config) ≡ some request
      → responses.encode (record { status = register_status (Lease.register l id config).1 })
        ≡ some response
      → attempt (l, suc n) ≡ (((Lease.register l id config).0, n), err RegistrationError.timeout)
  unfolding register_with_client read_response
  lost_lem l n chunk heard plain sent answered = ground (
    arith,
    ap (λ r. r.0)
        (register_exchange requests responses l id config chunk heard plain sent answered).0,
    registration_response_cases {E = RegistrationError} id,
  )

  kept_lem :
      (l : RegistrationLease) {request : requests.Bytes} {response : responses.Bytes}
      → IsChunk id
      → contains_str (codes "liveliness") id ≡ false
      → Pattern.try_new (codes "fleet/registration/response/" ++ id)
        ≡ ok (record { text = codes "fleet/registration/response/" ++ id })
      → requests.encode (register id config) ≡ some request
      → responses.encode (record { status = register_status (Lease.register l id config).1 })
        ≡ some response
      → attempt (l, zero)
        ≡ (((Lease.register l id config).0, zero), reply_outcome (Lease.register l id config).1)
  kept_lem l chunk heard plain sent answered =
      let (h, r) =
        register_exchange requests responses l id config chunk heard plain sent answered in
      ground (arith, ap (λ x. x.0) h, r)

  -- A client with a proper id (one chunk of a key with no wildcard, without the word `liveliness`, its
  -- response topic a valid pattern), whose requests and responses can be encoded, whose first response is
  -- lost after the server has let it in: the loop tries again and is refused as already registered,
  -- so that the client does not start, while the server has it registered.
  pub lost_ack :
      (l : RegistrationLease) {request : requests.Bytes}
      → IsChunk id
      → contains_str (codes "liveliness") id ≡ false
      → Pattern.try_new (codes "fleet/registration/response/" ++ id)
        ≡ ok (record { text = codes "fleet/registration/response/" ++ id })
      → requests.encode (register id config) ≡ some request
      → ((r : RegistrationResponse) → (bytes : responses.Bytes) × (responses.encode r ≡ some bytes))
      → state l id ≢ registered
      → state l id ≢ ClientState.poisoned
      → ((register_with_retries attempt (l, 1)).result ≡ err BootstrapError.already_registered)
        × (state (register_with_retries attempt (l, 1)).world.0 id ≡ registered)
  unfolding reply_outcome
  lost_ack l chunk heard plain sent answers new clean =
      let l' = (Lease.register l id config).0 in
      let (there, refused) = again_lem l id config new clean in
      let first =
        lost_lem l 0 chunk heard plain sent
          (answers (record { status = register_status (Lease.register l id config).1 })).1 in
      let second =
        kept_lem l' chunk heard plain sent
          (answers (record { status = register_status (Lease.register l' id config).1 })).1 in
      let again : attempt (l', 0) ≡ ((l', 0), err RegistrationError.already_registered) =
        second ∙ ap (λ r. ((r.0, 0), reply_outcome r.1)) refused in
      let (stopped, at) = retries_refused attempt (l, 1) (l', 0) (l', 0) first again in
      (stopped, rw at there)
