-- ===== src/Cli/Args.antt =====
-- src/cli.rs: the parsed arguments (`ruleset` is `ruleset_path`). The parsing is clap's.
use flo.Base.{Bool, Option, none, some, Str, codes, List}
use flo.Media.Codec.{Codec}

pub data RuleSubcommand : Type 0 where
  check : Str → Bool → RuleSubcommand
  compile : Str → Option Str → Bool → RuleSubcommand

pub data Command : Type 0 where
  rule : RuleSubcommand → Command

pub record VideoArgs : Type 0 where
  pub peer : Option Str
  pub device : Option Str
  pub codec : Codec
  pub self_test : Bool

pub record Args : Type 0 where
  pub robot_id : Option Str
  pub config : Option Str
  pub ruleset_path : Option Str
  pub auth_mode : Str
  pub auth_allow_insecure : Bool
  pub auth_cert : Option Str
  pub auth_key : Option Str
  pub auth_trust : Option Str
  pub connect : List Str
  pub healthcheck : Bool
  pub print_zenoh_port : Bool
  pub video : VideoArgs
  pub command : Option Command

pub record ServerArgs : Type 0 where
  pub robot_id : Option Str
  pub config : Option Str
  pub auth_mode : Str
  pub auth_allow_insecure : Bool
  pub auth_cert : Option Str
  pub auth_key : Option Str
  pub auth_trust : Option Str
  pub connect : List Str
  pub healthcheck : Bool
  pub print_zenoh_port : Bool
  pub command : Option Command

-- `or_else` and `unwrap_or_else`: the flag, the environment's FLO_ROBOT_ID, or "7".
unfoldable pub robot_id_or : Option Str → Option Str → Str
robot_id_or (some id) env = id
robot_id_or none (some id) = id
robot_id_or none none = codes "7"
