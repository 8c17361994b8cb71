-- ===== src/Transport/Settings.antt =====
-- src/transport.rs: the configurations of the zenoh session. `zenoh::Config` is a parameter: its
-- default, and what a configuration is after an insertion, be it accepted or refused (the source
-- drops the result). The serialisation to JSON is a parameter too.
use flo.Base.{
  ℕ, Option, none, some, Str, codes, show_ℕ, ◌++◌, List, [], ◌∷◌, is_empty, if◌then◌else◌,
}
use flo.Rules.Floats.{Floats}
use flo.Rules.Json.{Value}

pub record Zenoh (F : Floats) : Type 1 where
  pub Config : Type 0
  pub default : Config
  pub insert_json5 : Config → Str → Str → Config
  pub quote : Str → Option Str
  pub quote_all : List Str → Option Str
  pub to_string : Value F → Option Str

abbrev pub unwrap_or : Option Str → Str → Str
unwrap_or none s = s
unwrap_or (some t) s = t

-- The settings that `router_config` and the unauthenticated session share.
abbrev pub loopback_settings : List (Str × Str)
loopback_settings =
    (codes "mode", codes "\"router\"")
    ∷ (codes "scouting/multicast/enabled", codes "true")
    ∷ (codes "listen/endpoints", codes "[\"tcp/127.0.0.1:0\"]")
    ∷ []

-- `format!("[\"tcp/127.0.0.1:{port}\"]")`
abbrev pub local_endpoint : ℕ → Str
local_endpoint port = codes "[\"tcp/127.0.0.1:" ++ (show_ℕ port ++ codes "\"]")

module _ {F : Floats} (zenoh : Zenoh F) where
  -- Insertions one after the other, whatever each returns.
  abbrev pub insert_all : zenoh.Config → List (Str × Str) → zenoh.Config
  insert_all c [] = c
  insert_all c ((key, value) ∷ more) = insert_all (zenoh.insert_json5 c key value) more

  unfoldable pub router_config : zenoh.Config
  router_config = insert_all zenoh.default loopback_settings

  abbrev pub connect : List Str → zenoh.Config → zenoh.Config
  connect endpoints c =
      if is_empty endpoints
      then c
      else zenoh.insert_json5 c (codes "connect/endpoints")
          (unwrap_or (zenoh.quote_all endpoints) (codes "[]"))

  unfoldable pub client_config : List Str → zenoh.Config
  client_config endpoints = connect endpoints (
      insert_all zenoh.default (
        (codes "mode", codes "\"client\"")
        ∷ (codes "scouting/multicast/enabled", codes "false")
        ∷ []))

  unfoldable pub with_endpoints : zenoh.Config → List Str → zenoh.Config
  with_endpoints config endpoints =
      zenoh.insert_json5
        (connect endpoints (zenoh.insert_json5 config (codes "mode") (codes "\"client\"")))
        (codes "scouting/multicast/enabled") (codes "false")

  unfoldable pub loopback_config : zenoh.Config
  loopback_config = router_config

  unfoldable pub connect_config : List Str → zenoh.Config
  connect_config endpoints = client_config endpoints

  unfoldable pub test_router_config : ℕ → zenoh.Config
  test_router_config port = insert_all zenoh.default (
      (codes "mode", codes "\"router\"")
      ∷ (codes "scouting/multicast/enabled", codes "false")
      ∷ (codes "scouting/gossip/enabled", codes "false")
      ∷ (codes "listen/endpoints", local_endpoint port)
      ∷ [])

  unfoldable pub test_client_config : ℕ → zenoh.Config
  test_client_config port = insert_all zenoh.default (
      (codes "mode", codes "\"client\"")
      ∷ (codes "scouting/multicast/enabled", codes "false")
      ∷ (codes "connect/endpoints", local_endpoint port)
      ∷ [])
