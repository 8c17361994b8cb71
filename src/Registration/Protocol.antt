-- ===== src/Registration/Protocol.antt =====
-- src/registration/transport.rs: the envelopes, and the JSON codec that they go through. The codec
-- (serde_json) is a parameter: what the code relies on is that decoding undoes encoding.
use flo.Base.{Option, some, ◌≡◌, Str}
use flo.Config.Client.{ClientConfig}

pub data RegistrationRequest : Type 0 where
  register : Str → ClientConfig → RegistrationRequest
  deregister : Str → RegistrationRequest

pub data RegistrationStatus : Type 0 where
  ack reject_already_registered reject_poisoned ignore missing_robot_id poisoned :
      RegistrationStatus
  reject_server_error : Str → RegistrationStatus

pub record RegistrationResponse : Type 0 where
  pub status : RegistrationStatus

-- `encode` is `to_value` and the serialisation in `publish`; it fails as a whole.
pub record Codec (A : Type 0) : Type 1 where
  pub Bytes : Type 0
  pub encode : A → Option Bytes
  pub decode : Bytes → Option A
  pub decode-encode : (a : A) {b : Bytes} → encode a ≡ some b → decode b ≡ some a

-- What one handler run does to the world.
pub data Effect (B : Type 0) : Type 0 where
  silent : Effect B
  published : Str → B → Effect B
  crashed : Effect B
