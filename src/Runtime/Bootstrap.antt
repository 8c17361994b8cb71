-- ===== src/Runtime/Bootstrap.antt =====
-- src/runtime.rs: `bootstrap`, from the arguments to a registered client. The session is zenoh's: whether
-- it opens under a configuration, and whether it accepts the liveliness token, are parameters. The
-- registration acts on a world of its own.
use flo.Base.{
  ℕ, Bool, Option, none, some, [], Str, is_empty, if◌then◌else◌, Outcome, ok, err, ◌>>=◌, ◌>>◌,
  map_err,
}
use flo.Rules.Floats.{Floats}
use flo.Config.Client.{ClientConfig}
use flo.Config.HotReload.{ActiveRules}
use flo.Registration.Lease.{RegistrationError}
use flo.Auth.Mode.{AuthError}
use flo.Auth.Credentials.{Files}
use flo.Auth.Session.{zenoh_config}
use flo.Transport.Settings.{Zenoh, with_endpoints}
use flo.Transport.Wire.{Transport, declare_liveliness}
use flo.Health.Gate
use flo.Health.Gate.{ReadyGate}
use flo.Cli.Args.{Args, robot_id_or}
use flo.Runtime.Inputs.{Toml, build_auth, load_inputs}
use flo.Runtime.Retry.{BootstrapError, register_with_retries}

pub data StartError : Type 0 where
  auth_invalid : AuthError → StartError
  not_opened : StartError
  not_declared : StartError
  not_registered : BootstrapError → StartError

pub record Runtime (F : Floats) : Type 0 where
  pub transport : Transport
  pub store : ActiveRules F
  pub health : ReadyGate

-- What `bootstrap` finds around it.
pub record Site (F : Floats) (W : Type 0) : Type 1 where
  pub files : Files
  pub toml : Toml F
  pub zenoh : Zenoh F
  pub env_robot_id : Option Str
  pub ptr : ℕ
  pub opens : zenoh.Config → Bool
  pub accepts_token : Bool
  pub register : Str → ClientConfig → W → W × Outcome RegistrationError (Unit {0})

module _ {F : Floats} {W : Type 0} (site : Site F W) where
  -- `open_with`: a session with no tokens.
  abbrev pub open_with : site.zenoh.Config → Outcome StartError Transport
  open_with config = if site.opens config then ok (record { tokens = [] }) else err not_opened

  abbrev or_not_declared : Option Transport → Outcome StartError Transport
  or_not_declared none = err not_declared
  or_not_declared (some transport) = ok transport

  abbrev pub declared : Transport → Str → Outcome StartError Transport
  declared transport robot_id = do
    tokens ← declare_liveliness site.accepts_token transport robot_id
    or_not_declared tokens

  -- Registration, where there is a configuration to register with.
  abbrev pub registered : Str → Option ClientConfig → W → Outcome StartError (Unit {0})
  registered robot_id none w = ok tt
  registered robot_id (some cfg) w =
      map_err not_registered (register_with_retries (site.register robot_id cfg) w).result

  unfoldable pub bootstrap : Args → W → Outcome StartError (Runtime F)
  unfolding robot_id_or build_auth load_inputs zenoh_config with_endpoints declare_liveliness
      register_with_retries
  bootstrap args w =
      let robot_id = robot_id_or args.robot_id site.env_robot_id in
      do
        auth ← map_err auth_invalid (build_auth site.files args)
        inputs ← load_inputs site.files site.toml site.ptr args robot_id
        config ← map_err auth_invalid (zenoh_config site.files site.zenoh auth robot_id)
        opened ← open_with (
            if is_empty args.connect then config else with_endpoints site.zenoh config args.connect)
        transport ← declared opened robot_id
        registered robot_id inputs.client_config w
        ok (record { transport = transport; store = inputs.store; health = Gate.new })
