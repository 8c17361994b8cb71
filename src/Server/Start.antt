-- ===== src/Server/Start.antt =====
-- src/server.rs: `run_server` up to its supervision, and the order in which the binaries look at their
-- arguments. The session, the directory and the database of the registry are parameters.
use flo.Base.{
  ℕ, Bool, Option, none, some, [], Str, codes, if◌then◌else◌, Outcome, ok, err, ◌>>=◌, ◌>>◌,
  map_err, ok_or,
}
use flo.Rules.Floats.{Floats}
use flo.Config.Server.{ServerConfig}
use flo.Config.HotReload.{ActiveRules}
use flo.Config.Bootstrap.{bootstrap_demo, server_from_toml}
use flo.Registration.Lease
use flo.Registration.Lease.{RegistrationLease}
use flo.Auth.Mode.{AuthMode, AuthError, AuthConfig, parse}
use flo.Auth.Credentials.{Files, validate_production}
use flo.Auth.Session.{zenoh_config}
use flo.Transport.Settings.{Zenoh}
use flo.Health.Gate
use flo.Health.Gate.{ReadyGate}
use flo.Cli.Args.{ServerArgs, RuleSubcommand, Command, rule}
use flo.Rules.Model.{Rules}

pub data ServerError : Type 0 where
  auth_invalid : AuthError → ServerError
  config_unreadable : ServerError
  config_invalid : Str → ServerError
  not_opened : ServerError
  no_directory : ServerError
  no_registry : ServerError

-- What is shared by the tasks that the server starts.
pub record Server (F : Floats) : Type 0 where
  pub store : ActiveRules F
  pub lease : RegistrationLease
  pub health : ReadyGate

-- What `run_server` finds around it.
pub record Site (F : Floats) : Type 1 where
  pub files : Files
  pub zenoh : Zenoh F
  pub opens : zenoh.Config → Bool
  pub parse_server : Str → Option ServerConfig
  pub parse_rules : Str → Option (Rules F)
  pub demo : Str
  pub ptr : ℕ
  pub has_directory : Bool
  pub has_registry : Bool

abbrev pub auth_of : ServerArgs → AuthMode → AuthConfig
auth_of args mode = record {
  mode = mode;
  allow_insecure = args.auth_allow_insecure;
  cert = args.auth_cert;
  key = args.auth_key;
  trust = args.auth_trust;
}

abbrev pub require : Bool → ServerError → Outcome ServerError (Unit {0})
require holds e = if holds then ok tt else err e

module _ {F : Floats} (site : Site F) where
  unfoldable pub load_config : Option Str → Outcome ServerError ServerConfig
  unfolding server_from_toml
  load_config none = ok (record { expected_clients = [] })
  load_config (some path) = do
    text ← ok_or (site.files.read_to_string path) config_unreadable
    map_err config_invalid (server_from_toml site.parse_server text)

  unfoldable pub run_server : ServerArgs → Str → Outcome ServerError (Server F)
  unfolding parse validate_production zenoh_config load_config Lease.new
  run_server args robot_id = do
    mode ← map_err auth_invalid (parse args.auth_mode)
    map_err auth_invalid (validate_production site.files (auth_of args mode))
    config ← map_err auth_invalid (zenoh_config site.files site.zenoh (auth_of args mode) robot_id)
    server_config ← load_config args.config
    require (site.opens config) not_opened
    store ← bootstrap_demo site.parse_rules site.demo site.ptr robot_id
    require site.has_directory no_directory
    require site.has_registry no_registry
    ok (record { store = store; lease = Lease.new server_config; health = Gate.new })

-- What a binary does with its arguments, in the order in which it looks at them.
pub data Mode : Type 0 where
  run_rule : RuleSubcommand → Mode
  probe_health : Str → Mode
  print_locators : Mode
  serve : Mode

abbrev addr_or : Option Str → Str
addr_or none = codes "127.0.0.1:8080"
addr_or (some addr) = addr

-- `health_addr` is the environment's FLO_HEALTH_ADDR.
unfoldable pub mode_of : Option Command → Bool → Bool → Option Str → Mode
mode_of (some (rule command)) healthcheck print_port health_addr = run_rule command
mode_of none healthcheck print_port health_addr =
    if healthcheck
    then probe_health (addr_or health_addr)
    else if print_port
    then print_locators
    else serve
