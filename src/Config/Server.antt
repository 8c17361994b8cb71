-- ===== src/Config/Server.antt =====
-- src/config.rs: the server's configuration, the clients that it expects.
use flo.Base.{List, Str}

pub record ExpectedClient : Type 0 where
  pub robot_id : Str

pub record ServerConfig : Type 0 where
  pub expected_clients : List ExpectedClient
